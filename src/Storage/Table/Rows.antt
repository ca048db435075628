-- ===== src/Storage/Table/Rows.antt =====
-- The ids and the rows of a table of `current_state`.
use threadlens.Prelude.{
  ◌≡◌, false, String, some, [], ◌∷◌, ◌==◌, eq_iff, eq_refl, arith, All, contains, IsDistinct,
  Bool-cases, inl, inr,
}
use threadlens.Prelude.Dict.{keys}
use threadlens.Storage.Table.{Table, upsert_current_state, get_current_state, delete_current_state}

module _ {V : Type 0} where
  pub All-upsert :
      (P : String × V → Type 0) (k : String) (v : V) (rows : Table V)
      → All P rows
      → P (k, v)
      → All P (upsert_current_state k v rows)
  unfolding upsert_current_state
  All-upsert P k v [] a p = (p, tt)
  All-upsert P k v ((i, w) ∷ rows) a p = ground (arith, All-upsert P k v rows a.1 p, eq_iff k i)

  pub All-delete :
      (P : String × V → Type 0) (k : String) (rows : Table V)
      → All P rows
      → All P (delete_current_state k rows)
  unfolding delete_current_state
  All-delete P k [] a = tt
  All-delete P k ((i, w) ∷ rows) a = elim (Bool-cases (k == i)) [
    | inl e ↦ rw e (All-delete P k rows a.1)
    | inr e ↦ rw e (a.0, All-delete P k rows a.1)
  ]

  found_behind :
      (j : String) (w : V) (rows listed : Table V)
      → contains j (keys listed) ≡ false
      → All (λ r. get_current_state r.0 rows ≡ some r.1) listed
      → All (λ r. get_current_state r.0 ((j, w) ∷ rows) ≡ some r.1) listed
  unfolding get_current_state
  found_behind j w rows [] h a = tt
  found_behind j w rows ((i, v) ∷ listed) h a = (
    ground (arith, h, a.0, eq_iff i j, eq_iff j i),
    found_behind j w rows listed (ground (arith, h)) a.1,
  )

  -- Where the ids are distinct, each row is the one found under its id.
  pub rows-found :
      (rows : Table V)
      → IsDistinct (keys rows)
      → All (λ r. get_current_state r.0 rows ≡ some r.1) rows
  unfolding get_current_state
  rows-found [] h = tt
  rows-found ((j, w) ∷ rows) h =
      (ground (arith, eq_refl j), found_behind j w rows rows (h.0) (rows-found rows h.1))
