-- ===== src/Prelude/Json.antt =====
-- JSON values as Python reads them. The integers are natural numbers; any other number has the text
-- that Python prints for it. The keys of an object are distinct, as those of a dictionary are.
use Prim.Native.Nat.{ℕ}
use Prim.Native.String.{String}
use mathlib.Core.Bool.{Bool, false, ◌||◌}
use mathlib.Core.Option.{Option, none, some}
use mathlib.Core.List.{List, [], ◌∷◌}
use text.Mathlib.Text.{◌==◌}
use threadlens.Prelude.Tests.{if◌then◌else◌}

mutual
  pub data Json : Type 0 where
    null : Json
    flag : Bool → Json
    number : ℕ → Json
    real : String → Json
    str : String → Json
    array : Items → Json
    object : Fields → Json

  pub data Items : Type 0 where
    nil : Items
    cons : Json → Items → Items

  pub data Fields : Type 0 where
    end : Fields
    field : String → Json → Fields → Fields

-- `payload.get(key)`, with `none` for a key that is not there
unfoldable pub get : String → Fields → Option Json
get key end = none
get key (field k v fields) = if key == k then some v else get key fields

-- `payload.get(key)`, with `None` for a key that is not there
unfoldable pub get_or_null : String → Fields → Json
unfolding get
get_or_null key fields = elim (get key fields) [ none ↦ Json.null | some v ↦ v ]

-- `key in payload`
unfoldable pub has : String → Fields → Bool
has key end = false
has key (field k v fields) = key == k || has key fields

unfoldable pub to_list : Items → List Json
to_list nil = []
to_list (cons v items) = v ∷ to_list items

unfoldable pub field_keys : Fields → List String
field_keys end = []
field_keys (field k v fields) = k ∷ field_keys fields

-- The items of a list that are dictionaries.
unfoldable pub objects : Items → List Fields
objects nil = []
objects (cons v items) =
    let rest = objects items in elim v [ object fields ↦ fields ∷ rest | _ ↦ rest ]
