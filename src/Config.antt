-- ===== src/Config.antt =====
-- threadlens/config.py: the settings that the modelled components read. What pydantic checks and
-- converts when a file is loaded is not modelled; a configuration here is one that was accepted.
use threadlens.Prelude.{ℕ, Bool, true, false, String, Option, none, some, List}
use threadlens.Prelude.Dict.{Dict}

pub record FlappingConfig : Type 0 where
  pub debounce_seconds : ℕ
  pub matter_node_availability_warning_24h : ℕ
  pub matter_node_availability_degraded_24h : ℕ
  pub matter_node_unavailable_critical_minutes : ℕ
  pub matter_node_read_probe_failures_warning_24h : ℕ
  pub matter_node_read_probe_failures_degraded_24h : ℕ
  pub otbr_role_changes_warning_1h : ℕ
  pub otbr_role_changes_degraded_1h : ℕ
  pub mdns_service_flaps_warning_1h : ℕ
  pub mdns_service_flaps_degraded_1h : ℕ

-- the defaults of `FlappingConfig()`
abbrev pub default_flapping : FlappingConfig
default_flapping = record {
  debounce_seconds = 30;
  matter_node_availability_warning_24h = 3;
  matter_node_availability_degraded_24h = 6;
  matter_node_unavailable_critical_minutes = 30;
  matter_node_read_probe_failures_warning_24h = 1;
  matter_node_read_probe_failures_degraded_24h = 3;
  otbr_role_changes_warning_1h = 2;
  otbr_role_changes_degraded_1h = 5;
  mdns_service_flaps_warning_1h = 5;
  mdns_service_flaps_degraded_1h = 15;
}

pub record OtbrConfig : Type 0 where
  pub id : String
  pub name : String
  pub rest_url : String
  pub agent_url : Option String

pub record MatterServerConfig : Type 0 where
  pub id : String
  pub name : String
  pub websocket_url : String
  pub variant : String

pub data ProbeMode : Type 0 where
  disabled conservative standard diagnostic : ProbeMode

pub record MatterProbeAttributesConfig : Type 0 where
  pub window_covering : List String
  pub fallback : List String

pub record MatterProbePerNodeOverride : Type 0 where
  pub preferred : List String
  pub disabled : Bool

-- `timeout_seconds` is a float that only goes to the request function.
pub record MatterProbeAdvancedConfig : Type 0 where
  pub interval_seconds : Option ℕ
  pub max_concurrent : ℕ
  pub jitter_seconds : ℕ
  pub ping_enabled : Bool
  pub attributes : MatterProbeAttributesConfig
  pub per_node : Dict MatterProbePerNodeOverride

pub record MatterProbeConfig : Type 0 where
  pub mode : ProbeMode
  pub manual_enabled : Bool
  pub schedule_enabled : Bool
  pub advanced : MatterProbeAdvancedConfig

-- `mode != ProbeMode.DISABLED`
unfoldable pub probes_active : MatterProbeConfig → Bool
probes_active c = elim c.mode [ ProbeMode.disabled ↦ false | _ ↦ true ]

abbrev pub mode_default_interval : ProbeMode → ℕ
mode_default_interval ProbeMode.disabled = 3600
mode_default_interval ProbeMode.conservative = 3600
mode_default_interval ProbeMode.standard = 1800
mode_default_interval ProbeMode.diagnostic = 900

unfoldable pub interval_seconds : MatterProbeConfig → ℕ
interval_seconds c = elim c.advanced.interval_seconds [
  | some seconds ↦ seconds
  | none ↦ mode_default_interval c.mode
]

-- The part of `ThreadLensConfig` that the health engine and the collectors read.
pub record ThreadLensConfig : Type 0 where
  pub site_name : String
  pub flapping : FlappingConfig
  pub mdns_enabled : Bool
  pub use_legacy_node_fallback : Bool
  pub otbrs : List OtbrConfig
  pub matter_servers : List MatterServerConfig
  pub probes : MatterProbeConfig
