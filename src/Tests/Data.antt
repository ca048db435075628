-- ===== src/Tests/Data.antt =====
-- A small site: two border routers, one of them down, a Matter server with a node, a foreign TREL
-- service.
use threadlens.Prelude.{String, true, false, none, some, [], ◌∷◌}
use threadlens.Config.{default_flapping, OtbrConfig, ProbeMode, ThreadLensConfig}
use threadlens.Model.Capabilities.{no_otbr_rest, no_internal_trel}
use threadlens.Model.Health.{HealthState, HealthStatus}
use threadlens.Model.State.{
  OtbrState, ThreadNetworkState, ThreadNetworkClassification, TrelServiceState, MatterServerState,
  MatterNodeState,
}
use threadlens.Health.Report.{HealthContext}
use threadlens.Health.Rules.Services.{ObserverView}

abbrev pub unknown : HealthStatus
unknown = record { state = HealthState.unknown; reasons = [] }

abbrev pub kitchen : OtbrConfig
kitchen = record {
  id = "kitchen";
  name = "Kitchen";
  rest_url = "http://kitchen:8081";
  agent_url = none;
}

abbrev pub attic : OtbrConfig
attic = record { id = "attic"; name = "Attic"; rest_url = "http://attic:8081"; agent_url = none }

abbrev pub network_id : String
network_id = "dead00beef00cafe"

abbrev pub kitchen_state : OtbrState
kitchen_state = record {
  id = "kitchen";
  name = "Kitchen";
  rest_url = some "http://kitchen:8081";
  reachable = true;
  health = unknown;
  thread_state = some "leader";
  thread_state_source = some "json_api";
  json_api_thread_state = some "leader";
  legacy_node_thread_state = none;
  rest_endpoint_mismatch = false;
  role = some "leader";
  network_name = some "Home";
  channel = some 15;
  ext_pan_id = some network_id;
  pan_id = some "1a2b";
  rloc16 = some "2000";
  last_error = none;
  role_changes_1h = none;
  capabilities = no_otbr_rest;
  internal_trel = no_internal_trel;
  last_seen = some 5_000_000;
}

abbrev pub attic_state : OtbrState
attic_state = record kitchen_state {
  id = "attic";
  name = "Attic";
  reachable = false;
  last_error = some "timeout";
}

abbrev pub home_network : ThreadNetworkState
home_network = record {
  ext_pan_id = network_id;
  name = some "Home";
  channel = some 15;
  pan_id = some "1a2b";
  classification = ThreadNetworkClassification.primary;
  currently_visible = true;
  border_router_count = some 1;
  source_otbr_ids = "kitchen" ∷ [];
  last_seen = some 5_000_000;
  first_seen = some 1_000_000;
}

abbrev pub foreign_trel : TrelServiceState
foreign_trel = record {
  service_id = "trel-1";
  instance_name = "Neighbour";
  hostname = none;
  addresses = [];
  port = some 12_345;
  txt_records = [];
  ext_pan_id = some "1111222233334444";
  ext_address = none;
  currently_visible = true;
  is_foreign = some true;
  network_classification = some ThreadNetworkClassification.observed_other;
  first_seen = some 1_000_000;
  last_seen = some 5_000_000;
  last_changed = none;
  change_count = 0;
  flaps_1h = none;
  flaps_24h = none;
}

abbrev pub server : MatterServerState
server = record {
  id = "main";
  name = "Main";
  websocket_url = some "ws://main:5580/ws";
  variant = "python";
  connected = true;
  health = unknown;
  node_count = 1;
  unavailable_node_count = 1;
  connection_flaps_24h = none;
  capabilities = record {
    websocket_available = true;
    node_inventory_available = true;
    node_availability_available = true;
    subscription_diagnostics_available = false;
    case_diagnostics_available = false;
    command_diagnostics_available = false;
    variant = "python";
  };
  last_seen = some 5_000_000;
  last_connected = some 1_000_000;
  last_disconnected = none;
  last_error = none;
}

abbrev pub blind : MatterNodeState
blind = record {
  node_id = 7;
  server_id = "main";
  friendly_name = some "Blind";
  vendor = none;
  vendor_id = none;
  product = none;
  product_id = none;
  serial = none;
  firmware = none;
  available = false;
  health = unknown;
  last_seen = some 5_000_000;
  last_unavailable = some 6_000_000;
  availability_flaps_1h = none;
  availability_flaps_24h = some 1;
  subscription_flaps_24h = none;
  subscription_diagnostics_available = false;
  case_diagnostics_available = false;
  command_diagnostics_available = false;
  case_failures_24h = none;
  command_failures_24h = none;
  read_probe_diagnostics_available = true;
  last_read_probe_at = some 4_000_000;
  last_read_probe_ok = some false;
  last_read_probe_attribute_path = some "0/40/2";
  last_read_probe_duration_ms = some 40;
  last_read_probe_error_code = none;
  read_probe_failures_24h = some 2;
  read_probe_successes_24h = some 5;
  last_read_probe_limited = true;
  ping_diagnostics_available = false;
  last_ping_at = none;
  last_ping_ok = none;
  ping_failures_24h = none;
  ping_successes_24h = none;
  matter_attribute_keys = none;
  inferred_device_types = none;
  last_successful_probe_kind = none;
  last_successful_probe_path = none;
  last_probe_label = none;
  last_unsupported_probe_paths = none;
  last_read_probe_note = none;
  ha_device_name = none;
  ha_entity_id = none;
  thread_ipv6_address = none;
  thread_extended_address = none;
  thread_identity_last_at = none;
}

abbrev pub config : ThreadLensConfig
config = record {
  site_name = "Home";
  flapping = default_flapping;
  mdns_enabled = true;
  use_legacy_node_fallback = true;
  otbrs = kitchen ∷ attic ∷ [];
  matter_servers =
      record { id = "main"; name = "Main"; websocket_url = "ws://main:5580/ws"; variant = "python" }
      ∷ [];
  probes = record {
    mode = ProbeMode.disabled;
    manual_enabled = false;
    schedule_enabled = false;
    advanced = record {
      interval_seconds = none;
      max_concurrent = 1;
      jitter_seconds = 60;
      ping_enabled = false;
      attributes = record { window_covering = "1/258/10" ∷ []; fallback = "0/40/2" ∷ [] };
      per_node = [];
    };
  };
}

abbrev pub observer_view : ObserverView
observer_view = record { running = true; observation_degraded = some false }

abbrev pub site : HealthContext
site = record {
  config = config;
  observer = some observer_view;
  otbr_states = kitchen_state ∷ attic_state ∷ [];
  matter_servers = server ∷ [];
  matter_nodes = blind ∷ [];
  thread_networks = home_network ∷ [];
  trel_services = foreign_trel ∷ [];
  events = [];
}
