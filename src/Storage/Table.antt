-- ===== src/Storage/Table.antt =====
-- The `current_state` rows of one object type, as `list_current_state` returns them: in the order
-- of their ids. What pydantic writes as JSON and reads back is the model itself, so a row holds it.
pub mod Rows
use Prim.Native.Nat.{Ordering}
use Prim.Native.String.{compare}
use threadlens.Prelude.{
  ◌≡◌, refl, String, Option, none, some, List, [], ◌∷◌, ◌==◌, eq_iff, arith, if◌then◌else◌,
}

abbrev pub Table {ℓ} : Type ℓ → Type ℓ
Table V = List (String × V)

module _ {ℓ} {V : Type ℓ} where
  -- INSERT … ON CONFLICT DO UPDATE, on the primary key
  unfoldable pub upsert_current_state : String → V → Table V → Table V
  upsert_current_state id payload [] = (id, payload) ∷ []
  upsert_current_state id payload ((j, w) ∷ rows) = elim (compare id j) [
    | Ordering.lt ↦ (id, payload) ∷ (j, w) ∷ rows
    | Ordering.eq ↦ (j, payload) ∷ rows
    | Ordering.gt ↦ (j, w) ∷ upsert_current_state id payload rows
  ]

  unfoldable pub get_current_state : String → Table V → Option V
  get_current_state id [] = none
  get_current_state id ((j, w) ∷ rows) = if id == j then some w else get_current_state id rows

  unfoldable pub delete_current_state : String → Table V → Table V
  delete_current_state id [] = []
  delete_current_state id ((j, w) ∷ rows) =
      if id == j then delete_current_state id rows else (j, w) ∷ delete_current_state id rows

  -- An upsert is read back under its id, and every other id keeps its row.
  pub get-upsert :
      (k j : String) (v : V) (rows : Table V)
      → get_current_state j (upsert_current_state k v rows)
        ≡ (if j == k then some v else get_current_state j rows)
  unfolding get_current_state upsert_current_state
  get-upsert k j v [] = refl
  get-upsert k j v ((i, w) ∷ rows) =
      ground (arith, get-upsert k j v rows, eq_iff k i, eq_iff j i, eq_iff j k)

  -- A deleted id has no row, and every other id keeps its row.
  pub get-delete :
      (k j : String) (rows : Table V)
      → get_current_state j (delete_current_state k rows)
        ≡ (if j == k then none else get_current_state j rows)
  unfolding get_current_state delete_current_state
  get-delete k j [] = ground arith
  get-delete k j ((i, w) ∷ rows) =
      ground (arith, get-delete k j rows, eq_iff k i, eq_iff j i, eq_iff j k)
