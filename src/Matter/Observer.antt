-- ===== src/Matter/Observer.antt =====
-- `MatterServerObserver` of threadlens/collectors/matter_server.py: its state, its events and what
-- it stores, and the connection. A handler runs from its first statement to its last with no other
-- handler between, and reads the clock once: `now`, with `tick` the monotonic clock. The repository
-- is the part of its tables that the observer writes. The websocket is there or not; what is sent
-- over it is the list `sent_commands`.
pub mod State
pub mod Node
pub mod Handle
pub mod Lifecycle
pub mod Same
pub mod Rows
pub mod Backoff
pub mod Outage
pub mod Steps
pub mod Silent
pub mod Commands
pub mod Availability
use threadlens.Prelude.{
  ℕ, ◌-◌, Bool, true, false, not, String, Option, none, some, List, [], ◌∷◌, ◌++◌, join, show_ℕ,
  contains, count_if, length, if◌then◌else◌,
}
use threadlens.Prelude.IntDict.{IntDict, values}
use threadlens.Prelude.Json.{null, str}
use threadlens.Debounce.{EventDebouncer, should_emit, event_debouncer}
use threadlens.Config.{MatterServerConfig}
use threadlens.Model.Capabilities.{MatterServerCapabilities}
use threadlens.Model.Events.{Event, EventSourceType, EventSeverity, EventSubjectType, Datum}
use threadlens.Model.Health.{HealthState, HealthStatus}
use threadlens.Model.State.{MatterNodeState, MatterServerState}
use threadlens.Storage.Table.{Table, upsert_current_state}
use threadlens.Storage.Events.{any_event, insert_event, get_events, day}
use threadlens.Health.Rules.Nodes.{node_subject_id}
use threadlens.Matter.Requests.{
  RequestManager, new_manager, MatterCommandResult, Registered, registered, value_error, register,
  cancel_all,
}

-- `captures` counts the tasks of `_capture_thread_identities_for_available_nodes` that were created.
pub record Observer : Type 0 where
  pub server_config : MatterServerConfig
  pub debouncer : EventDebouncer
  pub running : Bool
  pub websocket : Bool
  pub nodes : IntDict MatterNodeState
  pub attribute_keys : IntDict (List String)
  pub connected : Bool
  pub last_error : Option String
  pub last_event_at : Option ℕ
  pub last_seen : Option ℕ
  pub last_connected : Option ℕ
  pub last_disconnected : Option ℕ
  pub capabilities : MatterServerCapabilities
  pub sent_commands : List String
  pub requests : RequestManager
  pub node_rows : Table MatterNodeState
  pub server_rows : Table MatterServerState
  pub events : List Event
  pub captures : ℕ

-- `MatterServerObserver(...)` on a repository with these tables
abbrev pub new_observer :
    MatterServerConfig → ℕ → Table MatterNodeState → Table MatterServerState → List Event → Observer
new_observer config debounce_seconds node_rows server_rows events = record {
  server_config = config;
  debouncer = event_debouncer debounce_seconds;
  running = false;
  websocket = false;
  nodes = [];
  attribute_keys = [];
  connected = false;
  last_error = none;
  last_event_at = none;
  last_seen = none;
  last_connected = none;
  last_disconnected = none;
  capabilities = record {
    websocket_available = false;
    node_inventory_available = false;
    node_availability_available = false;
    subscription_diagnostics_available = false;
    case_diagnostics_available = false;
    command_diagnostics_available = false;
    variant = config.variant;
  };
  sent_commands = [];
  requests = new_manager;
  node_rows = node_rows;
  server_rows = server_rows;
  events = events;
  captures = 0;
}

abbrev pub allowed_commands : List String
allowed_commands =
    "start_listening" ∷ "get_nodes" ∷ "server_info" ∷ "read_attribute" ∷ "ping_node" ∷ []

abbrev pub forbidden_commands : List String
forbidden_commands =
    "device_command" ∷ "write_attribute" ∷ "commission_with_code" ∷ "commission_on_network"
    ∷ "remove_node" ∷ "set_wifi_credentials" ∷ "set_thread_dataset" ∷ "open_commissioning_window"
    ∷ "interview_node" ∷ "set_acl_entry" ∷ "set_node_binding" ∷ "set_default_fabric_label"
    ∷ "import_test_node" ∷ "check_node_update" ∷ "update_node" ∷ []

-- `node_count` and `unavailable_node_count`
unfoldable pub node_count : Observer → ℕ
node_count o = length (values o.nodes)

unfoldable pub unavailable_node_count : Observer → ℕ
unavailable_node_count o = count_if (λ n. not n.available) (values o.nodes)

unfoldable pub server_state : Observer → MatterServerState
unfolding node_count unavailable_node_count
server_state o = record {
  id = o.server_config.id;
  name = o.server_config.name;
  websocket_url = some o.server_config.websocket_url;
  variant = o.server_config.variant;
  connected = o.connected;
  health = record {
    state = (if o.connected then HealthState.healthy else HealthState.unknown);
    reasons = [];
  };
  node_count = node_count o;
  unavailable_node_count = unavailable_node_count o;
  connection_flaps_24h = none;
  capabilities = o.capabilities;
  last_seen = o.last_seen;
  last_connected = o.last_connected;
  last_disconnected = o.last_disconnected;
  last_error = o.last_error;
}

unfoldable pub persist_server_state : Observer → Observer
unfolding server_state
persist_server_state o = record o {
  server_rows = upsert_current_state o.server_config.id (server_state o) o.server_rows;
}

-- an event under a debounce key
unfoldable pub emit : String → Event → ℕ → Observer → Observer
unfolding should_emit insert_event
emit key event now o =
    let (go, d) = should_emit key now o.debouncer in
    if go
    then record o { debouncer = d; events = insert_event event o.events }
    else record o { debouncer = d }

unfoldable pub emit_server_event :
    String → String → EventSeverity → List (String × Datum) → ℕ → Observer → Observer
unfolding emit
emit_server_event event_type message severity details now o =
    emit (join (o.server_config.id ∷ ":" ∷ event_type ∷ []))
      (record {
        timestamp = now;
        source_type = EventSourceType.matter_server;
        source_id = o.server_config.id;
        event_type = event_type;
        severity = severity;
        subject_type = EventSubjectType.matter_server;
        subject_id = join ("matter_server:" ∷ o.server_config.id ∷ []);
        message = message;
        details = details;
      })
      now o

abbrev pub node_event :
    MatterServerConfig → ℕ → String → String → EventSeverity → List (String × Datum) → ℕ → Event
node_event config node_id event_type message severity details now = record {
  timestamp = now;
  source_type = EventSourceType.matter_server;
  source_id = config.id;
  event_type = event_type;
  severity = severity;
  subject_type = EventSubjectType.matter_node;
  subject_id = node_subject_id config.id node_id;
  message = message;
  details = ("node_id", Datum.number node_id) ∷ details;
}

unfoldable pub emit_node_event :
    ℕ → String → String → EventSeverity → List (String × Datum) → ℕ → Observer → Observer
unfolding emit
emit_node_event node_id event_type message severity details now o =
    emit (join (o.server_config.id ∷ ":" ∷ show_ℕ node_id ∷ ":" ∷ event_type ∷ []))
      (node_event o.server_config node_id event_type message severity details now) now o

-- `_count_node_events` for one type of event, and `_count_availability_flaps`
unfoldable pub count_node_events : ℕ → String → ℕ → Observer → ℕ
count_node_events node_id event_type since o = length (
    get_events
      (record any_event {
        subject_type = some "matter_node";
        subject_id = some (node_subject_id o.server_config.id node_id);
        event_type = some event_type;
        since = some since;
      })
      none o.events)

unfoldable pub count_availability_flaps : ℕ → ℕ → Observer → ℕ
unfolding count_node_events
count_availability_flaps node_id now =
    count_node_events node_id "matter_node.unavailable" (now - day)
