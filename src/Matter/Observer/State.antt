-- ===== src/Matter/Observer/State.antt =====
-- The node state that `_process_node` of threadlens/collectors/matter_server.py builds.
use threadlens.Prelude.{ℕ, zero, suc, Bool, false, String, Option, none, some, List, [], ◌∷◌}
use threadlens.Prelude.IntDict.{lookup}
use threadlens.Model.Health.{HealthState}
use threadlens.Model.State.{MatterNodeState}
use threadlens.Mdns.Record.{sort_texts}
use threadlens.Probes.Planner.{infer_device_types}
use threadlens.Matter.Parse.{ParsedMatterNode, friendly_name}
use threadlens.Matter.Observer.{Observer}

-- `_pick`
abbrev pub pick {ℓ} : {A : Type ℓ} → Option A → Option A → Option A
pick none old = old
pick (some new) old = some new

-- A node with the default of every field: what `existing.field if existing else default` reads where
-- there is no existing node.
abbrev pub blank_node : ℕ → String → MatterNodeState
blank_node node_id server_id = record {
  node_id = node_id;
  server_id = server_id;
  friendly_name = none;
  vendor = none;
  vendor_id = none;
  product = none;
  product_id = none;
  serial = none;
  firmware = none;
  available = false;
  health = record { state = HealthState.unknown; reasons = [] };
  last_seen = none;
  last_unavailable = none;
  availability_flaps_1h = none;
  availability_flaps_24h = none;
  subscription_flaps_24h = none;
  subscription_diagnostics_available = false;
  case_diagnostics_available = false;
  command_diagnostics_available = false;
  case_failures_24h = none;
  command_failures_24h = none;
  read_probe_diagnostics_available = false;
  last_read_probe_at = none;
  last_read_probe_ok = none;
  last_read_probe_attribute_path = none;
  last_read_probe_duration_ms = none;
  last_read_probe_error_code = none;
  read_probe_failures_24h = none;
  read_probe_successes_24h = none;
  last_read_probe_limited = false;
  ping_diagnostics_available = false;
  last_ping_at = none;
  last_ping_ok = none;
  ping_failures_24h = none;
  ping_successes_24h = none;
  matter_attribute_keys = none;
  inferred_device_types = none;
  last_successful_probe_kind = none;
  last_successful_probe_path = none;
  last_probe_label = none;
  last_unsupported_probe_paths = none;
  last_read_probe_note = none;
  ha_device_name = none;
  ha_entity_id = none;
  thread_ipv6_address = none;
  thread_extended_address = none;
  thread_identity_last_at = none;
}

unfoldable pub prior : ℕ → Observer → MatterNodeState
unfolding lookup
prior node_id o = elim (lookup node_id o.nodes) [
  | none ↦ blank_node node_id o.server_config.id
  | some existing ↦ existing
]

-- the availability behind the payload: that of the payload, and otherwise the one before
unfoldable pub next_available : Option Bool → MatterNodeState → Bool
next_available none existing = existing.available
next_available (some b) existing = b

unfoldable pub next_last_unavailable : Option Bool → ℕ → MatterNodeState → Option ℕ
next_last_unavailable (some false) now existing = some now
next_last_unavailable _ now existing = existing.last_unavailable

-- `sorted(attribute_keys)[:100]`
first_texts : ℕ → List String → List String
first_texts zero ss = []
first_texts (suc n) [] = []
first_texts (suc n) (s ∷ ss) = s ∷ first_texts n ss

-- the fields from the attribute keys, where the payload has some
unfoldable pub next_keys : Option (List String) → MatterNodeState → Option (List String)
unfolding first_texts
next_keys (some (k ∷ ks)) existing = some (first_texts 100 (sort_texts (k ∷ ks)))
next_keys _ existing = existing.matter_attribute_keys

unfoldable pub next_types :
    Option (List String) → Option String → MatterNodeState → Option (List String)
unfolding infer_device_types
next_types (some (k ∷ ks)) product existing = some (infer_device_types (k ∷ ks) product)
next_types _ product existing = existing.inferred_device_types

-- The new state. The fields that are not named are those of the node before.
unfoldable pub node_state_from :
    ParsedMatterNode → Option (List String) → ℕ → String → ℕ → MatterNodeState → MatterNodeState
unfolding friendly_name next_available next_last_unavailable next_keys next_types
node_state_from p keys flaps server_id now existing = record existing {
  node_id = p.node_id;
  server_id = server_id;
  friendly_name = pick (friendly_name p) existing.friendly_name;
  vendor = pick p.vendor existing.vendor;
  vendor_id = pick p.vendor_id existing.vendor_id;
  product = pick p.product existing.product;
  product_id = pick p.product_id existing.product_id;
  serial = pick p.serial existing.serial;
  firmware = pick p.firmware existing.firmware;
  available = next_available p.available existing;
  health = record { state = HealthState.unknown; reasons = [] };
  last_seen = some now;
  last_unavailable = next_last_unavailable p.available now existing;
  availability_flaps_1h = none;
  availability_flaps_24h = some flaps;
  subscription_flaps_24h = none;
  subscription_diagnostics_available = false;
  case_diagnostics_available = false;
  command_diagnostics_available = false;
  case_failures_24h = none;
  command_failures_24h = none;
  matter_attribute_keys = next_keys keys existing;
  inferred_device_types = next_types keys (pick p.product existing.product) existing;
}
