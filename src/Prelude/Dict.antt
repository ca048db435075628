-- ===== src/Prelude/Dict.antt =====
-- A Python `dict` with text keys: its items in insertion order.
use Prim.Native.String.{String}
use mathlib.Core.Path.{◌≡◌, refl}
use mathlib.Core.Bool.{true, false, ◌||◌}
use mathlib.Core.Option.{Option, none, some}
use mathlib.Core.List.{List, [], ◌∷◌}
use native.Mathlib.Omega.{arith}
use text.Mathlib.Text.{◌==◌}
use text.Mathlib.TextEquality.{eq_iff}
use threadlens.Prelude.Tests.{if◌then◌else◌}
use threadlens.Prelude.Texts.{contains, IsDistinct}

abbrev pub Dict {ℓ} : Type ℓ → Type ℓ
Dict V = List (String × V)

module _ {ℓ} {V : Type ℓ} where
  -- `d.get(k)`
  unfoldable pub lookup : String → Dict V → Option V
  lookup k [] = none
  lookup k ((j, v) ∷ d) = if k == j then some v else lookup k d

  -- `d[k] = v`: a new key goes to the end
  unfoldable pub insert : String → V → Dict V → Dict V
  insert k v [] = (k, v) ∷ []
  insert k v ((j, w) ∷ d) = if k == j then (j, v) ∷ d else (j, w) ∷ insert k v d

  -- `d.pop(k, None)`
  unfoldable pub erase : String → Dict V → Dict V
  erase k [] = []
  erase k ((j, w) ∷ d) = if k == j then d else (j, w) ∷ erase k d

  -- `list(d.values())`, `list(d.keys())`
  abbrev pub values : Dict V → List V
  values [] = []
  values ((_, v) ∷ d) = v ∷ values d

  abbrev pub keys : Dict V → List String
  keys [] = []
  keys ((k, _) ∷ d) = k ∷ keys d

  pub lookup-insert :
      (k j : String) (v : V) (d : Dict V)
      → lookup j (insert k v d) ≡ (if j == k then some v else lookup j d)
  unfolding lookup insert
  lookup-insert k j v [] = refl
  lookup-insert k j v ((i, w) ∷ d) =
      ground (arith, lookup-insert k j v d, eq_iff k i, eq_iff j i, eq_iff j k)

  pub contains-keys-insert :
      (k j : String) (v : V) (d : Dict V)
      → contains j (keys (insert k v d)) ≡ (j == k || contains j (keys d))
  unfolding insert
  contains-keys-insert k j v [] = refl
  contains-keys-insert k j v ((i, w) ∷ d) =
      ground (arith, contains-keys-insert k j v d, eq_iff k i, eq_iff j i, eq_iff j k)

  pub IsDistinct-insert :
      (k : String) (v : V) (d : Dict V) → IsDistinct (keys d) → IsDistinct (keys (insert k v d))
  unfolding insert
  IsDistinct-insert k v [] h = (refl, tt)
  IsDistinct-insert k v ((i, w) ∷ d) h =
      ground
        (arith, IsDistinct-insert k v d h.1, contains-keys-insert k i v d, eq_iff i k, eq_iff k i)

  lookup_absent : (k : String) (d : Dict V) → contains k (keys d) ≡ false → lookup k d ≡ none
  unfolding lookup
  lookup_absent k [] h = refl
  lookup_absent k ((i, w) ∷ d) h = ground (arith, lookup_absent k d)

  pub lookup-erase :
      (k j : String) (d : Dict V)
      → IsDistinct (keys d)
      → lookup j (erase k d) ≡ (if j == k then none else lookup j d)
  unfolding lookup erase
  lookup-erase k j [] h = ground arith
  lookup-erase k j ((i, w) ∷ d) h =
      ground (arith, lookup-erase k j d h.1, lookup_absent j d, eq_iff k i, eq_iff j i, eq_iff j k)

  contains-keys-erase :
      (k j : String) (d : Dict V)
      → contains j (keys d) ≡ false
      → contains j (keys (erase k d)) ≡ false
  unfolding erase
  contains-keys-erase k j [] h = refl
  contains-keys-erase k j ((i, w) ∷ d) h = ground (arith, contains-keys-erase k j d)

  pub IsDistinct-erase :
      (k : String) (d : Dict V) → IsDistinct (keys d) → IsDistinct (keys (erase k d))
  unfolding erase
  IsDistinct-erase k [] h = tt
  IsDistinct-erase k ((i, w) ∷ d) h =
      ground (arith, IsDistinct-erase k d h.1, contains-keys-erase k i d)

  pub erase_absent : (k : String) (d : Dict V) → lookup k d ≡ none → erase k d ≡ d
  unfolding lookup erase
  erase_absent k [] h = refl
  erase_absent k ((i, w) ∷ d) h = ground (arith, erase_absent k d)

  pub lookup-contains :
      (k : String) (v : V) (d : Dict V) → lookup k d ≡ some v → contains k (keys d) ≡ true
  unfolding lookup
  lookup-contains k v [] h = ground arith
  lookup-contains k v ((i, w) ∷ d) h = ground (arith, lookup-contains k v d)
