-- ===== src/Prelude/IntDict.antt =====
-- A Python `dict` with natural numbers as keys: its items in insertion order.
use Prim.Native.Nat.{ℕ}
use mathlib.Core.Path.{◌≡◌, refl}
use mathlib.Core.Bool.{Bool, false, ◌||◌}
use mathlib.Core.Option.{Option, none, some}
use mathlib.Core.List.{List, [], ◌∷◌}
use native.Mathlib.Omega.{arith}
use threadlens.Prelude.Tests.{if◌then◌else◌}
use threadlens.Prelude.Codes.{eq_ℕ}

abbrev pub IntDict {ℓ} : Type ℓ → Type ℓ
IntDict V = List (ℕ × V)

abbrev pub member : ℕ → List ℕ → Bool
member n [] = false
member n (m ∷ ms) = eq_ℕ n m || member n ms

-- No number stands twice.
abbrev pub IsDistinctInts : List ℕ → Type 0
IsDistinctInts [] = Unit
IsDistinctInts (n ∷ ns) = (member n ns ≡ false) × IsDistinctInts ns

module _ {ℓ} {V : Type ℓ} where
  -- `d.get(k)`
  unfoldable pub lookup : ℕ → IntDict V → Option V
  lookup k [] = none
  lookup k ((j, v) ∷ d) = if eq_ℕ k j then some v else lookup k d

  -- `d[k] = v`: a new key goes to the end
  unfoldable pub insert : ℕ → V → IntDict V → IntDict V
  insert k v [] = (k, v) ∷ []
  insert k v ((j, w) ∷ d) = if eq_ℕ k j then (j, v) ∷ d else (j, w) ∷ insert k v d

  -- `d.pop(k, None)`
  unfoldable pub erase : ℕ → IntDict V → IntDict V
  erase k [] = []
  erase k ((j, w) ∷ d) = if eq_ℕ k j then d else (j, w) ∷ erase k d

  abbrev pub keys : IntDict V → List ℕ
  keys [] = []
  keys ((k, _) ∷ d) = k ∷ keys d

  abbrev pub values : IntDict V → List V
  values [] = []
  values ((_, v) ∷ d) = v ∷ values d

  pub lookup-insert :
      (k j : ℕ) (v : V) (d : IntDict V)
      → lookup j (insert k v d) ≡ (if eq_ℕ j k then some v else lookup j d)
  unfolding lookup insert
  lookup-insert k j v [] = refl
  lookup-insert k j v ((i, w) ∷ d) = ground (arith, lookup-insert k j v d)

  member-keys-insert :
      (k j : ℕ) (v : V) (d : IntDict V)
      → member j (keys (insert k v d)) ≡ (eq_ℕ j k || member j (keys d))
  unfolding insert
  member-keys-insert k j v [] = refl
  member-keys-insert k j v ((i, w) ∷ d) = ground (arith, member-keys-insert k j v d)

  pub IsDistinctInts-insert :
      (k : ℕ) (v : V) (d : IntDict V)
      → IsDistinctInts (keys d)
      → IsDistinctInts (keys (insert k v d))
  unfolding insert
  IsDistinctInts-insert k v [] h = (refl, tt)
  IsDistinctInts-insert k v ((i, w) ∷ d) h =
      ground (arith, IsDistinctInts-insert k v d h.1, member-keys-insert k i v d)

  lookup_absent : (k : ℕ) (d : IntDict V) → member k (keys d) ≡ false → lookup k d ≡ none
  unfolding lookup
  lookup_absent k [] h = refl
  lookup_absent k ((i, w) ∷ d) h = ground (arith, lookup_absent k d)

  pub lookup-erase :
      (k j : ℕ) (d : IntDict V)
      → IsDistinctInts (keys d)
      → lookup j (erase k d) ≡ (if eq_ℕ j k then none else lookup j d)
  unfolding lookup erase
  lookup-erase k j [] h = ground arith
  lookup-erase k j ((i, w) ∷ d) h = ground (arith, lookup-erase k j d h.1, lookup_absent j d)

  member-keys-erase :
      (k j : ℕ) (d : IntDict V) → member j (keys d) ≡ false → member j (keys (erase k d)) ≡ false
  unfolding erase
  member-keys-erase k j [] h = refl
  member-keys-erase k j ((i, w) ∷ d) h = ground (arith, member-keys-erase k j d)

  pub IsDistinctInts-erase :
      (k : ℕ) (d : IntDict V) → IsDistinctInts (keys d) → IsDistinctInts (keys (erase k d))
  unfolding erase
  IsDistinctInts-erase k [] h = tt
  IsDistinctInts-erase k ((i, w) ∷ d) h =
      ground (arith, IsDistinctInts-erase k d h.1, member-keys-erase k i d)
