-- ===== src/Probes/Unsupported.antt =====
-- `is_unsupported_attribute_error` of threadlens/collectors/matter_probes.py. The five branches of
-- its pattern are functions on character codes, which fold the case as IGNORECASE does.
use threadlens.Prelude.{
  ℕ, Bool, false, ◌&&◌, ◌||◌, not, String, Option, none, some, List, [], ◌∷◌, if◌then◌else◌,
}
use threadlens.Prelude.Codes.{eq_ℕ, is_space}
use threadlens.Prelude.Words.{starts_with, search, folded, behind}
use threadlens.Prelude.Json.{Json}
use threadlens.Matter.Requests.{MatterCommandResult}

-- `\s*word`
spaces_then : List ℕ → List ℕ → Bool
unfolding starts_with is_space
spaces_then word [] = starts_with [] word
spaces_then word (c ∷ cs) =
    let rest = spaces_then word cs in starts_with (c ∷ cs) word || (is_space c && rest)

-- `\s+word`; no word starts with a space
gap_then : List ℕ → List ℕ → Bool
unfolding spaces_then is_space
gap_then word [] = false
gap_then word (c ∷ cs) = is_space c && spaces_then word cs

-- `first\s+second` at the start
two_words : String → String → List ℕ → Bool
unfolding behind folded gap_then
two_words first second cs = elim (behind (folded first) cs) [
  | none ↦ false
  | some rest ↦ gap_then (folded second) rest
]

anywhere : (List ℕ → Bool) → List ℕ → Bool
anywhere at [] = at []
anywhere at (c ∷ cs) = at (c ∷ cs) || anywhere at cs

-- `missing|not\s+found` at the start
absent_words : List ℕ → Bool
unfolding starts_with folded two_words
absent_words cs = starts_with cs (folded "missing") || two_words "not" "found" cs

-- `.+` and then the absent words: `.` is no line feed
line_then_absent : List ℕ → Bool
unfolding absent_words
line_then_absent [] = false
line_then_absent (c ∷ cs) =
    let rest = line_then_absent cs in not (eq_ℕ c 10) && (absent_words cs || rest)

attribute_absent : List ℕ → Bool
unfolding behind folded line_then_absent
attribute_absent cs = elim (behind (folded "attribute") cs) [
  | none ↦ false
  | some rest ↦ line_then_absent rest
]

-- `_UNSUPPORTED_DETAILS_RE.search(text)`
unfoldable pub says_unsupported : String → Bool
unfolding folded search anywhere two_words attribute_absent
says_unsupported s =
    let cs = folded s in
    search (folded "unsupported") cs
    || (anywhere (two_words "not" "support") cs
        || (anywhere (two_words "unknown" "attribute") cs
            || (anywhere (two_words "invalid" "attribute") cs || anywhere attribute_absent cs)))

text_of : Json → String
text_of (Json.str s) = s
text_of _ = ""

-- `result.details or ""`
details_of : Option String → String
details_of none = ""
details_of (some s) = s

unfoldable pub is_unsupported_attribute_error : MatterCommandResult → Bool
unfolding says_unsupported text_of details_of
is_unsupported_attribute_error r =
    if r.ok || r.timed_out
    then false
    else says_unsupported (details_of r.details) || says_unsupported (text_of r.error_code)
