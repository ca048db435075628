-- ===== src/Otbr/Parse/Values.antt =====
-- The values of a snapshot, and the snapshot, of threadlens/collectors/otbr_parse.py. A number that
-- is no integer is read up to its point; the integers are natural numbers, and a name is a text.
use Prim.Native.Char.{code}
use Prim.Native.Nat.{◌/◌}
use threadlens.Prelude.{
  ℕ, ◌%◌, Bool, true, ◌&&◌, String, Option, none, some, List, [], ◌∷◌, contains, join, length,
  if◌then◌else◌,
}
use threadlens.Prelude.Codes.{eq_ℕ, strip, is_empty}
use threadlens.Prelude.Codes
use threadlens.Prelude.Ints.{parse_int}
use threadlens.Prelude.Show.{show, hex_digit}
use threadlens.Prelude.Json.{Json, Fields, null, end, get_or_null, to_list}
use threadlens.Network.{truthy}
use threadlens.Ids.{is_hex, strip_hex_prefix, normalize_ext_pan_id}
use threadlens.Otbr.Snapshot.{ParsedOtbrSnapshot, no_snapshot, operational_roles}
use threadlens.Otbr.Parse.{
  lower, attributes_from_payload, attribute_sources, first_value, normalise_role, parse_role,
  router_attributes,
}

-- the last four hexadecimal digits of a number
last_four : ℕ → String
unfolding hex_digit join
last_four n = join (
    hex_digit (n / 4096 % 16)
    ∷ hex_digit (n / 256 % 16)
    ∷ hex_digit (n / 16 % 16)
    ∷ hex_digit (n % 16)
    ∷ [])

-- the digits above them, none for a number below 65536; `fuel` is at least their number
high_digits : ℕ → ℕ → String
unfolding hex_digit join
high_digits ℕ.zero n = ""
high_digits (ℕ.suc fuel) n =
    let rest = high_digits fuel (n / 16) in
    if eq_ℕ n 0 then "" else join (rest ∷ hex_digit (n % 16) ∷ [])

-- `f"{value:04x}"`
unfoldable pub hex4 : ℕ → String
unfolding last_four high_digits join
hex4 n = join (high_digits n (n / 65536) ∷ last_four n ∷ [])

all_hex : String → Bool
unfolding is_hex
all_hex String.[] = true
all_hex (String.◌∷◌ c s) = is_hex (code c) && all_hex s

unfoldable pub pan_text : String → String
unfolding strip_hex_prefix all_hex lower
pan_text s =
    let t = strip_hex_prefix s in if eq_ℕ (Codes.length t) 4 && all_hex t then lower t else s

-- a Boolean is an integer
unfoldable pub normalise_pan_id : Option Json → Option String
unfolding hex4 pan_text show
normalise_pan_id none = none
normalise_pan_id (some null) = none
normalise_pan_id (some (Json.number n)) = some (hex4 n)
normalise_pan_id (some (Json.flag b)) = some (if b then "0001" else "0000")
normalise_pan_id (some v) = some (pan_text (show v))

filled : String → Option String
filled s = if is_empty s then none else some s

unfoldable pub normalise_rloc16 : Option Json → Option String
unfolding hex4 lower strip_hex_prefix show filled
normalise_rloc16 none = none
normalise_rloc16 (some null) = none
normalise_rloc16 (some (Json.number n)) = some (hex4 n)
normalise_rloc16 (some (Json.flag b)) = some (if b then "0001" else "0000")
normalise_rloc16 (some v) = filled (lower (strip_hex_prefix (show v)))

-- the text before a point
whole_part : String → String
whole_part String.[] = ""
whole_part (String.◌∷◌ c s) =
    let rest = whole_part s in if eq_ℕ (code c) 46 then "" else String.◌∷◌ c rest

-- `int(value)`, and `None` where it raises; also `_parse_channel`
unfoldable pub parse_number : Option Json → Option ℕ
unfolding parse_int whole_part
parse_number (some (Json.number n)) = some n
parse_number (some (Json.flag b)) = some (if b then 1 else 0)
parse_number (some (Json.real s)) = parse_int (whole_part s)
parse_number (some (Json.str s)) = parse_int s
parse_number _ = none

thread_state_in : Option String → Option String
thread_state_in none = none
thread_state_in (some s) = if contains s ("disabled" ∷ operational_roles) then some s else none

unfoldable pub parse_thread_state : Fields → Option String
unfolding thread_state_in normalise_role truthy get_or_null
parse_thread_state attributes = thread_state_in (
    normalise_role (
      some (
        if truthy (get_or_null "state" attributes)
        then get_or_null "state" attributes
        else get_or_null "State" attributes)))

-- A field that is a text; any other value raises, here or where the state is made.
pub data TextField : Type 0 where
  missing : TextField
  wrong : TextField
  found : String → TextField

unfoldable pub text_field : Option Json → TextField
text_field none = missing
text_field (some (Json.str s)) = found s
text_field (some _) = wrong

unfoldable pub snapshot_of : Option String → Option String → Fields → ParsedOtbrSnapshot
unfolding parse_thread_state parse_role attribute_sources first_value parse_number normalise_pan_id
    normalise_rloc16 normalize_ext_pan_id
snapshot_of ext_pan_id network_name attributes =
    let sources = attribute_sources attributes in
    record {
      thread_state = parse_thread_state attributes;
      role = parse_role sources;
      network_name = network_name;
      channel = parse_number (first_value sources ("channel" ∷ "Channel" ∷ []));
      ext_pan_id = normalize_ext_pan_id ext_pan_id;
      pan_id = normalise_pan_id (first_value sources ("panId" ∷ "panid" ∷ "PanId" ∷ []));
      rloc16 = normalise_rloc16 (first_value sources ("rloc16" ∷ "rloc" ∷ "Rloc16" ∷ []));
      partition_id = parse_number (first_value sources ("partitionId" ∷ "PartitionId" ∷ []));
      device_count = none;
    }

-- the snapshot, or the exception where an extended PAN id or a name is no text
with_texts : TextField → TextField → Fields → Option ParsedOtbrSnapshot
unfolding snapshot_of
with_texts wrong name attributes = none
with_texts xp wrong attributes = none
with_texts missing missing attributes = some (snapshot_of none none attributes)
with_texts missing (found name) attributes = some (snapshot_of none (some name) attributes)
with_texts (found xp) missing attributes = some (snapshot_of (some xp) none attributes)
with_texts (found xp) (found name) attributes = some (snapshot_of (some xp) (some name) attributes)

unfoldable pub snapshot_from_attributes : Fields → Option ParsedOtbrSnapshot
unfolding with_texts text_field attribute_sources first_value
snapshot_from_attributes attributes =
    let sources = attribute_sources attributes in
    with_texts
      (text_field (first_value sources ("extPanId" ∷ "extendedPanId" ∷ "ExtPanId" ∷ "xp" ∷ [])))
      (text_field (first_value sources ("networkName" ∷ "NetworkName" ∷ "name" ∷ []))) attributes

unfoldable pub parse_otbr_node_response : Json → Option ParsedOtbrSnapshot
unfolding snapshot_from_attributes attributes_from_payload
parse_otbr_node_response payload = snapshot_from_attributes (attributes_from_payload payload)

unfoldable pub parse_legacy_node_response : Json → Option ParsedOtbrSnapshot
unfolding snapshot_from_attributes
parse_legacy_node_response (Json.object payload) = snapshot_from_attributes payload
parse_legacy_node_response _ = some no_snapshot

-- the items of `data`, where it is a list
unfoldable pub data_items : Json → Option (List Json)
unfolding get_or_null
data_items (Json.object payload) = elim (get_or_null "data" payload) [
  | Json.array items ↦ some (to_list items)
  | _ ↦ none
]
data_items _ = none

-- the attributes, and where there are none those of the first border router of the list
device_attributes : Fields → Option (List Json) → Fields
unfolding router_attributes
device_attributes end (some items) = elim (router_attributes items) [ some a ↦ a | none ↦ end ]
device_attributes attributes _ = attributes

unfoldable pub counted : Option (List Json) → ParsedOtbrSnapshot → ParsedOtbrSnapshot
counted none s = s
counted (some items) s = record s { device_count = some (length items) }

unfoldable pub parse_otbr_devices_response : Json → Option ParsedOtbrSnapshot
unfolding snapshot_from_attributes attributes_from_payload data_items device_attributes counted
parse_otbr_devices_response payload =
    elim (snapshot_from_attributes
      (device_attributes (attributes_from_payload payload) (data_items payload))) [
        | none ↦ none
        | some s ↦ some (counted (data_items payload) s)
      ]
