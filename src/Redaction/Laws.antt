-- ===== src/Redaction/Laws.antt =====
-- What `redact_structure` of threadlens/report/redaction.py guarantees.
use threadlens.Prelude.{◌≡◌, refl, sym, ap, ap₂, true, Bool-cases, inl, inr}
use threadlens.Prelude.Json.{
  Json, Items, Fields, nil, cons, end, field, null, flag, number, real, str, array, object,
}
use threadlens.Redaction.{should_redact_key, redact_structure, redact_items, redact_fields}

-- No value anywhere in the structure stands under a secret key, but the mark that replaces it.
unfoldable mutual
  pub IsClean : Json → Type 0
  IsClean null = Unit
  IsClean (flag b) = Unit
  IsClean (number n) = Unit
  IsClean (real s) = Unit
  IsClean (str s) = Unit
  IsClean (array items) = CleanItems items
  IsClean (object fields) = CleanFields fields

  pub CleanItems : Items → Type 0
  CleanItems nil = Unit
  CleanItems (cons v items) = IsClean v × CleanItems items

  pub CleanFields : Fields → Type 0
  CleanFields end = Unit
  CleanFields (field k v fields) =
      (should_redact_key k ≡ true → v ≡ str "REDACTED") × IsClean v × CleanFields fields

mutual
  unfolding IsClean redact_structure

  clean : (v : Json) → IsClean (redact_structure v)
  clean null = tt
  clean (flag b) = tt
  clean (number n) = tt
  clean (real s) = tt
  clean (str s) = tt
  clean (array items) = clean_items items
  clean (object fields) = clean_fields fields

  clean_items : (items : Items) → CleanItems (redact_items items)
  clean_items nil = tt
  clean_items (cons v items) = (clean v, clean_items items)

  clean_fields : (fields : Fields) → CleanFields (redact_fields fields)
  clean_fields end = tt
  clean_fields (field k v fields) = elim (Bool-cases (should_redact_key k)) [
    | inl secret ↦ rw secret (λ _. refl, tt, clean_fields fields)
    | inr plain ↦ rw plain (λ e. cc, clean v, clean_fields fields)
  ]

mutual
  unfolding IsClean redact_structure

  fixed : (v : Json) → IsClean v → redact_structure v ≡ v
  fixed null h = refl
  fixed (flag b) h = refl
  fixed (number n) h = refl
  fixed (real s) h = refl
  fixed (str s) h = refl
  fixed (array items) h = ap array (fixed_items items h)
  fixed (object fields) h = ap object (fixed_fields fields h)

  fixed_items : (items : Items) → CleanItems items → redact_items items ≡ items
  fixed_items nil h = refl
  fixed_items (cons v items) h = ap₂ cons (fixed v h.0) (fixed_items items h.1)

  fixed_fields : (fields : Fields) → CleanFields fields → redact_fields fields ≡ fields
  fixed_fields end h = refl
  fixed_fields (field k v fields) h = elim (Bool-cases (should_redact_key k)) [
    | inl secret ↦ rw secret (ap₂ (field k) (sym (h.0 secret)) (fixed_fields fields h.2))
    | inr plain ↦ rw plain (ap₂ (field k) (fixed v h.1) (fixed_fields fields h.2))
  ]

-- Redacting again changes nothing.
pub redact_structure_idem : (v : Json) → redact_structure (redact_structure v) ≡ redact_structure v
redact_structure_idem v = fixed (redact_structure v) (clean v)
