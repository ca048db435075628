-- ===== src/Otbr/Action.antt =====
-- The action of a border router that refreshes its device inventory, in
-- threadlens/collectors/otbr_rest.py. The clock counts whole seconds; `elapse` is the time behind a
-- request, and what the endpoint answers depends on the time.
use threadlens.Prelude.{
  ℕ, zero, suc, ◌+◌, ◌≤◌, ◌≡◌, arith, Bool, true, false, ◌||◌, String, Option, none, some, is_some,
  ◌==◌, ltb, if◌then◌else◌,
}
use threadlens.Prelude.Codes.{eq_ℕ}
use threadlens.Prelude.Show.{show}
use threadlens.Prelude.Json.{Json, Fields, get_or_null, cons}
use threadlens.Network.{truthy}
use threadlens.Model.State.{ThreadDeviceState}
use threadlens.Storage.Table.{Table}
use threadlens.Otbr.Parse.{lower}
use threadlens.Otbr.Parse.Inventory.{parse_otbr_device_inventory, persist_device_inventory}

-- An answer: a status with a body, or an `httpx.HTTPError`.
pub data ActionReply : Type 0 where
  answers : ℕ → Json → ActionReply
  http_error : ActionReply

-- How the waiting ends. `raises` is an exception other than `httpx.HTTPError`.
pub data ActionEnd : Type 0 where
  completed not_completed http_error raises : ActionEnd

attributes_of : Json → Json
unfolding get_or_null
attributes_of (Json.object data_object) = get_or_null "attributes" data_object
attributes_of _ = Json.null

first_of : Json → Json
first_of (Json.array (cons v items)) = v
first_of _ = Json.null

-- `str(attributes.get("status") or "").lower()`, where the attributes are a dictionary
status_in : Json → String
unfolding get_or_null truthy lower show
status_in (Json.object attributes) =
    if truthy (get_or_null "status" attributes)
    then lower (show (get_or_null "status" attributes))
    else ""
status_in _ = ""

unfoldable pub action_status : Json → String
unfolding attributes_of first_of status_in
action_status payload_data = elim payload_data [
  | Json.array items ↦ status_in (attributes_of (first_of (Json.array items)))
  | v ↦ status_in (attributes_of v)
]

-- what one answer decides: nothing where the action still runs
judge : ℕ → Json → Option ActionEnd
unfolding get_or_null action_status
judge code (Json.object payload) =
    let s = action_status (get_or_null "data" payload) in
    if eq_ℕ code 200
    then (if s == "completed" || s == "stopped"
        then some completed
        else if s == "failed"
        then some not_completed
        else none)
    else some not_completed
judge code _ = if eq_ℕ code 200 then some raises else some not_completed

decided : ActionReply → Option ActionEnd
unfolding judge
decided http_error = some ActionEnd.http_error
decided (answers code body) = judge code body

-- `_wait_for_action`; `none` where the fuel is out
unfoldable pub wait_for_action : (ℕ → ActionReply) → (ℕ → ℕ) → ℕ → ℕ → ℕ → Option ActionEnd
unfolding decided
wait_for_action poll elapse zero deadline now = none
wait_for_action poll elapse (suc fuel) deadline now =
    let rest = wait_for_action poll elapse fuel deadline (elapse now + 2) in
    if ltb now deadline
    then elim (decided (poll now)) [ some e ↦ some e | none ↦ rest ]
    else some not_completed

-- `_start_device_collection_task`: the id of the action
item_id : Json → Option String
unfolding get_or_null truthy show
item_id (Json.object item) =
    if truthy (get_or_null "id" item) then some (show (get_or_null "id" item)) else none
item_id _ = none

unfoldable pub action_id : ℕ → Fields → Option String
unfolding item_id first_of get_or_null
action_id code payload =
    if eq_ℕ code 200 || (eq_ℕ code 201 || eq_ℕ code 202)
    then elim (get_or_null "data" payload) [
      | Json.array items ↦ item_id (first_of (Json.array items))
      | v ↦ item_id v
    ]
    else none

-- What a refresh of the inventory does: nothing, it raises, or it stores the devices. Then its time
-- is noted as the last one, and the correlation of Enrichment is applied.
pub data Refresh : Type 0 where
  unchanged raised : Refresh
  stored : Table ThreadDeviceState → Refresh

-- `last_run is not None and (now - last_run).total_seconds() < interval`
unfoldable pub is_recent : Option ℕ → ℕ → ℕ → Bool
is_recent none interval now = false
is_recent (some last_run) interval now = ltb now (last_run + interval)

module _ (compressed : String → Option String) where
  -- the answer of `/api/devices`
  store_devices : String → Option String → ℕ → ActionReply → Table ThreadDeviceState → Refresh
  unfolding parse_otbr_device_inventory persist_device_inventory
  store_devices otbr_id ext_pan_id now http_error rows = unchanged
  store_devices otbr_id ext_pan_id now (answers code body) rows =
      if eq_ℕ code 200
      then stored (
          persist_device_inventory otbr_id (parse_otbr_device_inventory compressed body) ext_pan_id
            now rows)
      else unchanged

  -- behind an action that was started
  after_action :
      String → Option String → ℕ → ActionEnd → ActionReply → Table ThreadDeviceState → Refresh
  unfolding store_devices
  after_action otbr_id ext_pan_id now completed devices rows =
      store_devices otbr_id ext_pan_id now devices rows
  after_action otbr_id ext_pan_id now raises devices rows = raised
  after_action otbr_id ext_pan_id now _ devices rows = unchanged

  after_start :
      String
      → Option String
      → ℕ
      → ActionReply
      → (String → ActionEnd)
      → ActionReply
      → Table ThreadDeviceState
      → Refresh
  unfolding action_id after_action
  after_start otbr_id ext_pan_id now http_error wait devices rows = unchanged
  after_start otbr_id ext_pan_id now (answers code (Json.object payload)) wait devices rows =
      elim (action_id code payload) [
        | none ↦ unchanged
        | some action ↦ after_action otbr_id ext_pan_id now (wait action) devices rows
      ]
  after_start otbr_id ext_pan_id now (answers code _) wait devices rows =
      if eq_ℕ code 200 || (eq_ℕ code 201 || eq_ℕ code 202) then raised else unchanged

  -- `_maybe_refresh_device_inventory`, with the answers of the three endpoints: `wait` is how the
  -- waiting for an action ends
  unfoldable pub maybe_refresh_device_inventory :
      String
      → Option String
      → Option ℕ
      → ℕ
      → ℕ
      → ActionReply
      → (String → ActionEnd)
      → ActionReply
      → Table ThreadDeviceState
      → Refresh
  unfolding is_recent after_start
  maybe_refresh_device_inventory otbr_id ext_pan_id last_run interval now start wait devices rows =
      if is_recent last_run interval now
      then unchanged
      else after_start otbr_id ext_pan_id now start wait devices rows

-- The waiting for an action ends, whatever the endpoint answers: with one round of fuel more than
-- there are seconds to the deadline it has a result, where no request goes back in time.
pub wait_for_action-ends :
    (poll : ℕ → ActionReply) (elapse : ℕ → ℕ) (fuel deadline now : ℕ)
    → ((t : ℕ) → t ≤ elapse t)
    → deadline ≤ now + fuel
    → is_some (wait_for_action poll elapse (suc fuel) deadline now) ≡ true
unfolding wait_for_action
wait_for_action-ends poll elapse zero deadline now forward h = ground (arith, h)
wait_for_action-ends poll elapse (suc fuel) deadline now forward h =
    ground (
      arith,
      forward now,
      h,
      wait_for_action-ends poll elapse fuel deadline (elapse now + 2) forward,
    )
