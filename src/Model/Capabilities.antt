-- ===== src/Model/Capabilities.antt =====
-- threadlens/models/capabilities.py
use threadlens.Prelude.{Bool, false, String, Option, none}

pub record OtbrRestCapabilities : Type 0 where
  pub rest_available : Bool
  pub network_dataset_available : Bool
  pub thread_stack_active : Bool
  pub legacy_node_available : Bool
  pub json_api_state_stale : Bool
  pub topology_available : Bool
  pub network_diagnostics_available : Bool
  pub device_inventory_available : Bool

-- `OtbrRestCapabilities()`
abbrev pub no_otbr_rest : OtbrRestCapabilities
no_otbr_rest = record {
  rest_available = false;
  network_dataset_available = false;
  thread_stack_active = false;
  legacy_node_available = false;
  json_api_state_stale = false;
  topology_available = false;
  network_diagnostics_available = false;
  device_inventory_available = false;
}

pub record OtbrInternalTrelCapabilities : Type 0 where
  pub peer_table_available : Bool
  pub counters_available : Bool
  pub reason : Option String

-- `OtbrInternalTrelCapabilities()`
abbrev pub no_internal_trel : OtbrInternalTrelCapabilities
no_internal_trel = record {
  peer_table_available = false;
  counters_available = false;
  reason = none;
}

pub record MatterServerCapabilities : Type 0 where
  pub websocket_available : Bool
  pub node_inventory_available : Bool
  pub node_availability_available : Bool
  pub subscription_diagnostics_available : Bool
  pub case_diagnostics_available : Bool
  pub command_diagnostics_available : Bool
  pub variant : String
