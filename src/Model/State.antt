-- ===== src/Model/State.antt =====
-- threadlens/models/state.py
use threadlens.Prelude.{ℕ, Bool, true, false, String, List, Option}
use threadlens.Model.Health.{HealthStatus}
use threadlens.Model.Capabilities.{
  OtbrRestCapabilities, OtbrInternalTrelCapabilities, MatterServerCapabilities,
}

pub data ThreadNetworkClassification : Type 0 where
  primary observed_other unknown : ThreadNetworkClassification

-- `a == b`
unfoldable pub same_class : ThreadNetworkClassification → ThreadNetworkClassification → Bool
same_class ThreadNetworkClassification.primary ThreadNetworkClassification.primary = true
same_class ThreadNetworkClassification.observed_other ThreadNetworkClassification.observed_other =
    true
same_class ThreadNetworkClassification.unknown ThreadNetworkClassification.unknown = true
same_class _ _ = false

-- `.value`
abbrev pub class_value : ThreadNetworkClassification → String
class_value ThreadNetworkClassification.primary = "primary"
class_value ThreadNetworkClassification.observed_other = "observed_other"
class_value ThreadNetworkClassification.unknown = "unknown"

pub record ThreadNetworkState : Type 0 where
  pub ext_pan_id : String
  pub name : Option String
  pub channel : Option ℕ
  pub pan_id : Option String
  pub classification : ThreadNetworkClassification
  pub currently_visible : Bool
  pub border_router_count : Option ℕ
  pub source_otbr_ids : List String
  pub last_seen : Option ℕ
  pub first_seen : Option ℕ

pub record OtbrState : Type 0 where
  pub id : String
  pub name : String
  pub rest_url : Option String
  pub reachable : Bool
  pub health : HealthStatus
  pub thread_state : Option String
  pub thread_state_source : Option String
  pub json_api_thread_state : Option String
  pub legacy_node_thread_state : Option String
  pub rest_endpoint_mismatch : Bool
  pub role : Option String
  pub network_name : Option String
  pub channel : Option ℕ
  pub ext_pan_id : Option String
  pub pan_id : Option String
  pub rloc16 : Option String
  pub last_error : Option String
  pub role_changes_1h : Option ℕ
  pub capabilities : OtbrRestCapabilities
  pub internal_trel : OtbrInternalTrelCapabilities
  pub last_seen : Option ℕ

pub record MdnsServiceState : Type 0 where
  pub service_id : String
  pub service_type : String
  pub instance_name : String
  pub hostname : Option String
  pub addresses : List String
  pub port : Option ℕ
  pub txt_records : List (String × String)
  pub currently_visible : Bool
  pub first_seen : Option ℕ
  pub last_seen : Option ℕ
  pub last_changed : Option ℕ
  pub change_count : ℕ
  pub flaps_1h : Option ℕ
  pub flaps_24h : Option ℕ

pub record TrelServiceState : Type 0 where
  pub service_id : String
  pub instance_name : String
  pub hostname : Option String
  pub addresses : List String
  pub port : Option ℕ
  pub txt_records : List (String × String)
  pub ext_pan_id : Option String
  pub ext_address : Option String
  pub currently_visible : Bool
  pub is_foreign : Option Bool
  pub network_classification : Option ThreadNetworkClassification
  pub first_seen : Option ℕ
  pub last_seen : Option ℕ
  pub last_changed : Option ℕ
  pub change_count : ℕ
  pub flaps_1h : Option ℕ
  pub flaps_24h : Option ℕ

pub record MatterServerState : Type 0 where
  pub id : String
  pub name : String
  pub websocket_url : Option String
  pub variant : String
  pub connected : Bool
  pub health : HealthStatus
  pub node_count : ℕ
  pub unavailable_node_count : ℕ
  pub connection_flaps_24h : Option ℕ
  pub capabilities : MatterServerCapabilities
  pub last_seen : Option ℕ
  pub last_connected : Option ℕ
  pub last_disconnected : Option ℕ
  pub last_error : Option String

-- `int | str`
pub data ErrorCode : Type 0 where
  number : ℕ → ErrorCode
  text : String → ErrorCode

pub record MatterNodeState : Type 0 where
  pub node_id : ℕ
  pub server_id : String
  pub friendly_name : Option String
  pub vendor : Option String
  pub vendor_id : Option ℕ
  pub product : Option String
  pub product_id : Option ℕ
  pub serial : Option String
  pub firmware : Option String
  pub available : Bool
  pub health : HealthStatus
  pub last_seen : Option ℕ
  pub last_unavailable : Option ℕ
  pub availability_flaps_1h : Option ℕ
  pub availability_flaps_24h : Option ℕ
  pub subscription_flaps_24h : Option ℕ
  pub subscription_diagnostics_available : Bool
  pub case_diagnostics_available : Bool
  pub command_diagnostics_available : Bool
  pub case_failures_24h : Option ℕ
  pub command_failures_24h : Option ℕ
  pub read_probe_diagnostics_available : Bool
  pub last_read_probe_at : Option ℕ
  pub last_read_probe_ok : Option Bool
  pub last_read_probe_attribute_path : Option String
  pub last_read_probe_duration_ms : Option ℕ
  pub last_read_probe_error_code : Option ErrorCode
  pub read_probe_failures_24h : Option ℕ
  pub read_probe_successes_24h : Option ℕ
  pub last_read_probe_limited : Bool
  pub ping_diagnostics_available : Bool
  pub last_ping_at : Option ℕ
  pub last_ping_ok : Option Bool
  pub ping_failures_24h : Option ℕ
  pub ping_successes_24h : Option ℕ
  pub matter_attribute_keys : Option (List String)
  pub inferred_device_types : Option (List String)
  pub last_successful_probe_kind : Option String
  pub last_successful_probe_path : Option String
  pub last_probe_label : Option String
  pub last_unsupported_probe_paths : Option (List String)
  pub last_read_probe_note : Option String
  pub ha_device_name : Option String
  pub ha_entity_id : Option String
  pub thread_ipv6_address : Option String
  pub thread_extended_address : Option String
  pub thread_identity_last_at : Option ℕ

pub record ThreadDeviceState : Type 0 where
  pub id : String
  pub extended_address : String
  pub ipv6_address : Option String
  pub rloc_address : Option String
  pub role : Option String
  pub device_type : Option String
  pub hostname : Option String
  pub source_otbr_id : String
  pub ext_pan_id : Option String
  pub last_seen : Option ℕ
