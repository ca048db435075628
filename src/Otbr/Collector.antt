-- ===== src/Otbr/Collector.antt =====
-- `OtbrCollector` of threadlens/collectors/otbr_rest.py: one poll of the configured border routers.
-- What the endpoints answer is an input, with the body as threadlens/collectors/otbr_parse.py reads
-- it. The clock is read once for a poll. The read-only action that refreshes the device inventory
-- writes no state of this file; how it ends is an input too.
pub mod Reachable
pub mod Networks
pub mod Cycle
pub mod Counters
use threadlens.Prelude.{
  ℕ, Bool, true, false, ◌&&◌, ◌||◌, not, String, Option, none, some, List, [], ◌∷◌, ◌==◌, join,
  show_ℕ, is_some, if◌then◌else◌,
}
use threadlens.Prelude.Dict.{Dict, lookup, insert}
use threadlens.Prelude.Codes.{eq_ℕ}
use threadlens.Config.{OtbrConfig}
use threadlens.Debounce.{EventDebouncer, should_emit}
use threadlens.Model.Capabilities.{OtbrRestCapabilities, no_otbr_rest, no_internal_trel}
use threadlens.Model.Events.{Event, EventSourceType, EventSeverity, EventSubjectType, Datum}
use threadlens.Model.Health.{HealthState, HealthStatus}
use threadlens.Model.State.{OtbrState, ThreadNetworkState, TrelServiceState}
use threadlens.Storage.Table.{Table, upsert_current_state}
use threadlens.Storage.Events.{insert_event}
use threadlens.Otbr.Snapshot.{
  ParsedOtbrSnapshot, OtbrReconciliationResult, no_snapshot, merge_snapshots,
  reconcile_otbr_snapshots, thread_stack_active, differ,
}

-- What one GET yields: a body that is read, a body whose reading raises, another status than 200,
-- or an `httpx.HTTPError`.
pub data Reply : Type 0 where
  ok : ParsedOtbrSnapshot → Reply
  malformed : String → Reply
  status : ℕ → Reply
  http_error : String → Reply

-- How `_maybe_refresh_device_inventory` ends: it returns, which it also does on an
-- `httpx.HTTPError`, or another exception leaves it, such as that of a body that cannot be read.
pub data RefreshEnd : Type 0 where
  completes : RefreshEnd
  fails : String → RefreshEnd

-- The answers of one border router: `/api/node`, `/api/devices`, `/node`, and those to the action.
pub record Replies : Type 0 where
  pub node : Reply
  pub devices : Reply
  pub legacy : Reply
  pub inventory_refresh : RefreshEnd

pub record Collector : Type 0 where
  pub use_legacy_node_fallback : Bool
  pub allow_read_only_actions : Bool
  pub debouncer : EventDebouncer
  pub known_otbrs : Dict OtbrState
  pub known_networks : Dict ThreadNetworkState
  pub last_poll_at : Option ℕ
  pub reachable_count : ℕ
  pub unreachable_count : ℕ
  pub otbr_rows : Table OtbrState
  pub network_rows : Table ThreadNetworkState
  pub trel_rows : Table TrelServiceState
  pub events : List Event

-- `_emit_otbr_event` and `_emit_network_event`, behind the making of the event
unfoldable pub emit : Event → ℕ → Collector → Collector
unfolding should_emit insert_event
emit event now c =
    let (go, d) =
      should_emit (join (event.source_id ∷ ":" ∷ event.event_type ∷ [])) now c.debouncer in
    if go
    then record c { debouncer = d; events = insert_event event c.events }
    else record c { debouncer = d }

unfoldable pub emit_if : Bool → Event → ℕ → Collector → Collector
unfolding emit
emit_if b event now c = if b then emit event now c else c

abbrev pub otbr_event : String → String → String → EventSeverity → List (String × Datum) → ℕ → Event
otbr_event event_type otbr_id message severity details now = record {
  timestamp = now;
  source_type = EventSourceType.otbr;
  source_id = otbr_id;
  event_type = event_type;
  severity = severity;
  subject_type = EventSubjectType.otbr;
  subject_id = join ("otbr:" ∷ otbr_id ∷ []);
  message = message;
  details = details;
}

unfoldable pub store_otbr : String → OtbrState → Collector → Collector
store_otbr id state c = record c {
  known_otbrs = insert id state c.known_otbrs;
  otbr_rows = upsert_current_state id state c.otbr_rows;
}

abbrev unreachable_health : HealthStatus
unreachable_health = record { state = HealthState.critical; reasons = "otbr_unreachable" ∷ [] }

abbrev unknown_health : HealthStatus
unknown_health = record { state = HealthState.unknown; reasons = [] }

unfoldable pub unreachable_state : OtbrConfig → Option OtbrState → String → OtbrState
unreachable_state config none last_error = record {
  id = config.id;
  name = config.name;
  rest_url = some config.rest_url;
  reachable = false;
  health = unreachable_health;
  thread_state = none;
  thread_state_source = none;
  json_api_thread_state = none;
  legacy_node_thread_state = none;
  rest_endpoint_mismatch = false;
  role = none;
  network_name = none;
  channel = none;
  ext_pan_id = none;
  pan_id = none;
  rloc16 = none;
  last_error = some last_error;
  role_changes_1h = none;
  capabilities = no_otbr_rest;
  internal_trel = no_internal_trel;
  last_seen = none;
}
unreachable_state config (some p) last_error = record p {
  reachable = false;
  health = unreachable_health;
  last_error = some last_error;
}

-- `previous is None or previous.reachable`
abbrev pub was_up : Option OtbrState → Bool
was_up none = true
was_up (some p) = p.reachable

abbrev pub unreachable_event : OtbrConfig → String → ℕ → Event
unreachable_event config last_error =
    otbr_event "otbr.unreachable" config.id (join ("OTBR " ∷ config.name ∷ " is unreachable" ∷ []))
      EventSeverity.warning (("last_error", Datum.text last_error) ∷ [])

unfoldable pub mark_unreachable : OtbrConfig → String → ℕ → Collector → OtbrState × Collector
unfolding unreachable_state store_otbr emit_if
mark_unreachable config last_error now c =
    let previous = lookup config.id c.known_otbrs in
    let state = unreachable_state config previous last_error in
    let stored = store_otbr config.id state c in
    (state, emit_if (was_up previous) (unreachable_event config last_error now) now stored)

-- the state of a border router that answered; `previous` hands on what is not listed
unfoldable pub reachable_state :
    OtbrConfig
    → Option OtbrState
    → OtbrReconciliationResult
    → OtbrRestCapabilities
    → Option String
    → ℕ
    → OtbrState
reachable_state config none r capabilities last_error now = record {
  id = config.id;
  name = config.name;
  rest_url = some config.rest_url;
  reachable = true;
  health = unknown_health;
  thread_state = r.snapshot.thread_state;
  thread_state_source = some r.thread_state_source;
  json_api_thread_state = r.json_api_thread_state;
  legacy_node_thread_state = r.legacy_node_thread_state;
  rest_endpoint_mismatch = r.rest_endpoint_mismatch;
  role = r.snapshot.role;
  network_name = r.snapshot.network_name;
  channel = r.snapshot.channel;
  ext_pan_id = r.snapshot.ext_pan_id;
  pan_id = r.snapshot.pan_id;
  rloc16 = r.snapshot.rloc16;
  last_error = last_error;
  role_changes_1h = none;
  capabilities = capabilities;
  internal_trel = no_internal_trel;
  last_seen = some now;
}
reachable_state config (some p) r capabilities last_error now = record p {
  reachable = true;
  health = unknown_health;
  thread_state = r.snapshot.thread_state;
  thread_state_source = some r.thread_state_source;
  json_api_thread_state = r.json_api_thread_state;
  legacy_node_thread_state = r.legacy_node_thread_state;
  rest_endpoint_mismatch = r.rest_endpoint_mismatch;
  role = r.snapshot.role;
  network_name = r.snapshot.network_name;
  channel = r.snapshot.channel;
  ext_pan_id = r.snapshot.ext_pan_id;
  pan_id = r.snapshot.pan_id;
  rloc16 = r.snapshot.rloc16;
  last_seen = some now;
  last_error = last_error;
  capabilities = capabilities;
}
