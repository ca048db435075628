-- ===== src/Redaction.antt =====
-- threadlens/report/redaction.py. A pattern that is a word is searched in the folded key: Python's IGNORECASE takes
-- besides the ASCII capitals four letters for a letter of the patterns: the dotted capital I, the
-- dotless i, the long s and the sign of the Kelvin.
pub mod Laws
use Prim.Native.Char.{code}
use threadlens.Prelude.{
  ℕ, ◌+◌, Bool, true, false, ◌&&◌, ◌||◌, String, List, [], ◌∷◌, ◌++◌, leb, contains, anyb,
  if◌then◌else◌,
}
use threadlens.Prelude.Codes.{eq_ℕ}
use threadlens.Prelude.Words.{search, folded}
use threadlens.Prelude.Json.{
  Json, Items, Fields, nil, cons, end, field, null, flag, number, real, str, array, object,
}

-- "network[_-]?key" stands for three of the words.
abbrev pub secret_words : List String
secret_words =
    "password" ∷ "passwd" ∷ "token" ∷ "secret" ∷ "pskc" ∷ "network_key" ∷ "network-key"
    ∷ "networkkey" ∷ "credential" ∷ "bearer" ∷ "authorization" ∷ []

eq_codes : List ℕ → List ℕ → Bool
eq_codes [] [] = true
eq_codes (a ∷ s) (b ∷ t) = eq_ℕ a b && eq_codes s t
eq_codes _ _ = false

-- "^word$", where `$` also stands before a line feed at the end
exactly : List ℕ → List ℕ → Bool
unfolding eq_codes
exactly t s = eq_codes s t || eq_codes s (t ++ 10 ∷ [])

unfoldable pub matches_secret : String → Bool
unfolding folded search exactly
matches_secret key =
    anyb (λ word. search (folded word) (folded key)) secret_words
    || (exactly (folded "auth") (folded key) || exactly (folded "key") (folded key))

abbrev pub safe_key_names : List String
safe_key_names =
    "ext_pan_id" ∷ "extended_pan_id" ∷ "object_id" ∷ "unique_id" ∷ "subject_id" ∷ "node_id"
    ∷ "service_id" ∷ "product_id" ∷ "vendor_id" ∷ "cluster_id" ∷ "attribute_id" ∷ "endpoint_id"
    ∷ "event_type" ∷ "message_id" ∷ "api/node" ∷ []

unfoldable pub should_redact_key : String → Bool
unfolding matches_secret
should_redact_key key = if contains key safe_key_names then false else matches_secret key

unfoldable mutual
  unfolding should_redact_key

  pub redact_structure : Json → Json
  redact_structure null = null
  redact_structure (flag b) = flag b
  redact_structure (number n) = number n
  redact_structure (real s) = real s
  redact_structure (str s) = str s
  redact_structure (array items) = array (redact_items items)
  redact_structure (object fields) = object (redact_fields fields)

  pub redact_items : Items → Items
  redact_items nil = nil
  redact_items (cons v items) = cons (redact_structure v) (redact_items items)

  pub redact_fields : Fields → Fields
  redact_fields end = end
  redact_fields (field k v fields) =
      field k (if should_redact_key k then str "REDACTED" else redact_structure v)
        (redact_fields fields)
