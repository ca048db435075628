-- ===== src/Otbr/Parse.antt =====
-- The answers of a border router as threadlens/collectors/otbr_parse.py reads them. `lower` makes
-- small letters of the capitals of ASCII alone.
pub mod Values
pub mod Inventory
pub mod Laws
use Prim.Native.Char.{Char, code}
use Prim.Native.Nat.{◌/◌}
use threadlens.Prelude.{
  ℕ, zero, suc, ◌-◌, ◌%◌, Bool, true, false, ◌&&◌, ◌||◌, not, String, Option, none, some, List, [],
  ◌∷◌, ◌++◌, ◌==◌, contains, anyb, join, leb, length, if◌then◌else◌,
}
use threadlens.Prelude.Codes.{eq_ℕ, strip, is_empty}
use threadlens.Prelude.Codes
use threadlens.Prelude.Ints.{parse_int}
use threadlens.Prelude.Show.{show, hex_digit}
use threadlens.Prelude.Json.{
  Json, Items, Fields, null, end, field, get, get_or_null, has, to_list, nil, cons, str,
}
use threadlens.Ids.{is_hex, strip_hex_prefix, normalize_ext_pan_id}
use threadlens.Otbr.Snapshot.{ParsedOtbrSnapshot, no_snapshot, operational_roles}

nth : ℕ → String → Char → Char
nth n String.[] c = c
nth zero (String.◌∷◌ d s) c = d
nth (suc n) (String.◌∷◌ d s) c = nth n s c

lower_char : Char → Char
unfolding nth
lower_char c =
    if leb 65 (code c) && leb (code c) 90
    then nth (code c - 65) "abcdefghijklmnopqrstuvwxyz" c
    else c

-- `text.lower()`
unfoldable pub lower : String → String
unfolding lower_char
lower String.[] = ""
lower (String.◌∷◌ c s) = String.◌∷◌ (lower_char c) (lower s)

-- `_blank_to_none`
unfoldable pub blank_to_none : Json → Json
unfolding strip
blank_to_none (Json.str s) = if is_empty (strip s) then null else str s
blank_to_none v = v

-- a dictionary, and otherwise the empty one
unfoldable pub as_fields : Json → Fields
as_fields (Json.object fields) = fields
as_fields _ = end

is_border_router : Json → Bool
unfolding get_or_null
is_border_router (Json.object item) = elim (get_or_null "type" item) [
  | Json.str s ↦ s == "threadBorderRouter"
  | _ ↦ false
]
is_border_router _ = false

-- the attributes of the first border router of a list, if it has one
unfoldable pub router_attributes : List Json → Option Fields
unfolding is_border_router as_fields get_or_null
router_attributes [] = none
router_attributes (v ∷ vs) =
    let rest = router_attributes vs in
    if is_border_router v then some (as_fields (get_or_null "attributes" (as_fields v))) else rest

-- Where no item of a list is a border router: the attributes of a first item that is a dictionary.
first_attributes : List Json → Option Fields
unfolding as_fields get_or_null
first_attributes (Json.object item ∷ vs) = some (as_fields (get_or_null "attributes" item))
first_attributes _ = none

list_attributes : List Json → Option Fields
unfolding router_attributes first_attributes
list_attributes vs = elim (router_attributes vs) [ some a ↦ some a | none ↦ first_attributes vs ]

flat_attributes : Fields → Fields
unfolding has
flat_attributes payload =
    if anyb (λ key. has key payload)
      ("role" ∷ "networkName" ∷ "extPanId" ∷ "state" ∷ "channel" ∷ [])
    then payload
    else end

unfoldable pub attributes_from_payload : Json → Fields
unfolding get_or_null as_fields list_attributes flat_attributes
attributes_from_payload (Json.object payload) = elim (get_or_null "data" payload) [
  | Json.object inner ↦ as_fields (get_or_null "attributes" inner)
  | Json.array items ↦ elim (list_attributes (to_list items)) [
    | some a ↦ a
    | none ↦ flat_attributes payload
  ]
  | _ ↦ flat_attributes payload
]
attributes_from_payload _ = end

nested_sources : String → Json → List Fields
unfolding get_or_null
nested_sources key (Json.object nested) =
    if key == "pendingDataset"
    then elim (get_or_null "activeDataset" nested) [
      | Json.object active ↦ nested ∷ active ∷ []
      | _ ↦ nested ∷ []
    ]
    else nested ∷ []
nested_sources key _ = []

sources_under : List String → Fields → List Fields
unfolding nested_sources get_or_null
sources_under [] attributes = []
sources_under (key ∷ keys) attributes =
    nested_sources key (get_or_null key attributes) ++ sources_under keys attributes

unfoldable pub attribute_sources : Fields → List Fields
unfolding sources_under
attribute_sources attributes =
    attributes
    ∷ sources_under ("leaderData" ∷ "activeDataset" ∷ "dataset" ∷ "network" ∷ "pendingDataset" ∷ [])
        attributes

-- a value that is not `None`
present : Json → Option Json
present null = none
present v = some v

value_in : Fields → List String → Option Json
unfolding get_or_null blank_to_none present
value_in source [] = none
value_in source (key ∷ keys) = elim (present (blank_to_none (get_or_null key source))) [
  | some v ↦ some v
  | none ↦ value_in source keys
]

-- `_first_value`
unfoldable pub first_value : List Fields → List String → Option Json
unfolding value_in
first_value [] keys = none
first_value (source ∷ sources) keys = elim (value_in source keys) [
  | some v ↦ some v
  | none ↦ first_value sources keys
]

unfoldable pub normalise_role : Option Json → Option String
unfolding lower strip show blank_to_none present
normalise_role none = none
normalise_role (some v) = elim (present (blank_to_none v)) [
  | none ↦ none
  | some w ↦ some (lower (strip (show w)))
]

operational : Option String → Bool
operational none = false
operational (some s) = contains s operational_roles

is_text : String → Option String → Bool
is_text t none = false
is_text t (some s) = s == t

unfoldable pub role_of : Option String → Option String → Option String
unfolding operational is_text
role_of role state =
    if operational role
    then role
    else if operational state
    then state
    else if is_text "disabled" role || is_text "disabled" state
    then none
    else role

unfoldable pub parse_role : List Fields → Option String
unfolding role_of normalise_role first_value
parse_role sources =
    role_of (normalise_role (first_value sources ("role" ∷ "Role" ∷ [])))
      (normalise_role (first_value sources ("state" ∷ "State" ∷ [])))
