-- ===== src/Otbr/Parse/Inventory.antt =====
-- The device inventory of a border router: `parse_otbr_device_inventory` of
-- threadlens/collectors/otbr_parse.py, and `_persist_device_inventory` of
-- threadlens/collectors/otbr_rest.py. `compressed` is that of Network.antt. A host name is a text.
use threadlens.Prelude.{
  ℕ, Bool, ◌&&◌, not, String, Option, none, some, List, [], ◌∷◌, ◌==◌, contains, join,
  if◌then◌else◌,
}
use threadlens.Prelude.Codes.{strip, is_empty}
use threadlens.Prelude.Show.{show}
use threadlens.Prelude.Json.{Json, Items, Fields, null, nil, cons, get_or_null}
use threadlens.Network.{truthy, normalize_ipv6}
use threadlens.Ids.{normalize_extended_address}
use threadlens.Model.State.{ThreadDeviceState}
use threadlens.Storage.Table.{Table, upsert_current_state, delete_current_state}
use threadlens.Otbr.Parse.{blank_to_none, normalise_role}
use threadlens.Otbr.Parse.Values.{data_items}

pub record ParsedThreadDevice : Type 0 where
  pub extended_address : String
  pub ipv6_address : Option String
  pub rloc_address : Option String
  pub role : Option String
  pub device_type : Option String
  pub hostname : Option String

-- `a or b`
or_value : Json → Json → Json
unfolding truthy
or_value a b = if truthy a then a else b

text_or_none : Json → Option String
text_or_none (Json.str s) = some s
text_or_none _ = none

filled : String → Option String
filled s = if is_empty s then none else some s

module _ (compressed : String → Option String) where
  unfoldable mutual
    unfolding normalize_ipv6 show

    normalise_ipv6_field : Json → Option String
    normalise_ipv6_field null = none
    normalise_ipv6_field (Json.array items) = first_ipv6 items
    normalise_ipv6_field (Json.flag b) = normalize_ipv6 compressed (some (show (Json.flag b)))
    normalise_ipv6_field (Json.number n) = normalize_ipv6 compressed (some (show (Json.number n)))
    normalise_ipv6_field (Json.real s) = normalize_ipv6 compressed (some s)
    normalise_ipv6_field (Json.str s) = normalize_ipv6 compressed (some s)
    normalise_ipv6_field (Json.object fields) =
        normalize_ipv6 compressed (some (show (Json.object fields)))

    first_ipv6 : Items → Option String
    first_ipv6 nil = none
    first_ipv6 (cons v items) =
        let rest = first_ipv6 items in
        elim (normalise_ipv6_field v) [ some a ↦ if is_empty a then rest else some a | none ↦ rest ]

  device_of : Fields → Fields → String → ParsedThreadDevice
  unfolding normalise_ipv6_field normalise_role blank_to_none or_value text_or_none filled strip
      show get_or_null
  device_of item attributes ext_address = record {
    extended_address = ext_address;
    ipv6_address = normalise_ipv6_field (get_or_null "omrIpv6Address" attributes);
    rloc_address = normalise_ipv6_field (get_or_null "rlocAddress" attributes);
    role = normalise_role (some (get_or_null "role" attributes));
    device_type = filled (strip (show (or_value (get_or_null "type" item) (Json.str ""))));
    hostname = text_or_none (
        blank_to_none
          (or_value (get_or_null "hostName" attributes) (get_or_null "hostname" attributes)));
  }

  parsed_item : Fields → Json → Option ParsedThreadDevice
  unfolding device_of or_value show get_or_null normalize_extended_address
  parsed_item item (Json.object attributes) =
      elim (normalize_extended_address (
        some (
          show (
            or_value (get_or_null "extAddress" attributes)
              (or_value (get_or_null "id" item) (Json.str "")))))) [
                | none ↦ none
                | some ext_address ↦ some (device_of item attributes ext_address)
              ]
  parsed_item item _ = none

  parsed_device : Json → Option ParsedThreadDevice
  unfolding parsed_item get_or_null
  parsed_device (Json.object item) = parsed_item item (get_or_null "attributes" item)
  parsed_device _ = none

  parsed_devices : List Json → List ParsedThreadDevice
  unfolding parsed_device
  parsed_devices [] = []
  parsed_devices (v ∷ vs) =
      let rest = parsed_devices vs in elim (parsed_device v) [ none ↦ rest | some d ↦ d ∷ rest ]

  unfoldable pub parse_otbr_device_inventory : Json → List ParsedThreadDevice
  unfolding parsed_devices data_items
  parse_otbr_device_inventory payload = elim (data_items payload) [
    | none ↦ []
    | some items ↦ parsed_devices items
  ]

-- `f"{otbr_id}:{device.extended_address}"`
unfoldable pub object_id : String → ParsedThreadDevice → String
unfolding join
object_id otbr_id d = join (otbr_id ∷ ":" ∷ d.extended_address ∷ [])

unfoldable pub device_state : String → Option String → ℕ → ParsedThreadDevice → ThreadDeviceState
unfolding object_id
device_state otbr_id ext_pan_id now d = record {
  id = object_id otbr_id d;
  extended_address = d.extended_address;
  ipv6_address = d.ipv6_address;
  rloc_address = d.rloc_address;
  role = d.role;
  device_type = d.device_type;
  hostname = d.hostname;
  source_otbr_id = otbr_id;
  ext_pan_id = ext_pan_id;
  last_seen = some now;
}

unfoldable pub upsert_devices :
    String
    → Option String
    → ℕ
    → List ParsedThreadDevice
    → Table ThreadDeviceState
    → Table ThreadDeviceState
unfolding device_state
upsert_devices otbr_id ext_pan_id now [] rows = rows
upsert_devices otbr_id ext_pan_id now (d ∷ ds) rows =
    let state = device_state otbr_id ext_pan_id now d in
    upsert_devices otbr_id ext_pan_id now ds (upsert_current_state state.id state rows)

unfoldable pub seen_ids : String → List ParsedThreadDevice → List String
unfolding object_id
seen_ids otbr_id [] = []
seen_ids otbr_id (d ∷ ds) = object_id otbr_id d ∷ seen_ids otbr_id ds

-- a stored device of this border router that the inventory does not have
unfoldable pub is_stale : String → List String → ThreadDeviceState → Bool
is_stale otbr_id seen d =
    d.source_otbr_id == otbr_id && (not (is_empty d.id) && not (contains d.id seen))

unfoldable pub delete_stale :
    String
    → List String
    → Table ThreadDeviceState
    → Table ThreadDeviceState
    → Table ThreadDeviceState
unfolding is_stale
delete_stale otbr_id seen [] rows = rows
delete_stale otbr_id seen ((id, d) ∷ stored) rows =
    delete_stale otbr_id seen stored
      (if is_stale otbr_id seen d then delete_current_state d.id rows else rows)

unfoldable pub persist_device_inventory :
    String
    → List ParsedThreadDevice
    → Option String
    → ℕ
    → Table ThreadDeviceState
    → Table ThreadDeviceState
unfolding upsert_devices seen_ids delete_stale
persist_device_inventory otbr_id inventory ext_pan_id now rows =
    let stored = upsert_devices otbr_id ext_pan_id now inventory rows in
    delete_stale otbr_id (seen_ids otbr_id inventory) stored stored
