-- ===== src/Model/Health.antt =====
-- threadlens/models/health.py
use threadlens.Prelude.{ℕ, Bool, true, false, ◌≡◌, ◌↔◌, String, List, Option, arith}

pub data HealthState : Type 0 where
  healthy warning degraded critical unknown : HealthState

-- `a == b`
unfoldable pub same_state : HealthState → HealthState → Bool
same_state HealthState.healthy HealthState.healthy = true
same_state HealthState.warning HealthState.warning = true
same_state HealthState.degraded HealthState.degraded = true
same_state HealthState.critical HealthState.critical = true
same_state HealthState.unknown HealthState.unknown = true
same_state _ _ = false

pub same_state_iff : (a b : HealthState) → (same_state a b ≡ true) ↔ (a ≡ b)
unfolding same_state
same_state_iff a b = ground arith

pub record HealthStatus : Type 0 where
  pub state : HealthState
  pub reasons : List String

-- The results for the entities carry the status and the identity of the entity.
pub record OtbrHealthResult : Type 0 where
  pub id : String
  pub state : HealthState
  pub reasons : List String

pub record MatterServerHealthResult : Type 0 where
  pub id : String
  pub state : HealthState
  pub reasons : List String

pub record MatterNodeHealthResult : Type 0 where
  pub id : String
  pub node_id : ℕ
  pub server_id : Option String
  pub state : HealthState
  pub reasons : List String

pub record ThreadNetworkHealthResult : Type 0 where
  pub ext_pan_id : String
  pub classification : Option String
  pub state : HealthState
  pub reasons : List String

pub record EnvironmentSummary : Type 0 where
  pub otbrs_configured : ℕ
  pub otbrs_reachable : ℕ
  pub matter_servers_configured : ℕ
  pub matter_servers_connected : ℕ
  pub matter_nodes_seen : ℕ
  pub matter_nodes_unavailable : ℕ
  pub thread_networks_seen : ℕ
  pub foreign_trel_services_seen : ℕ
  pub events_24h : ℕ
  pub warnings_24h : ℕ

pub record HealthReport : Type 0 where
  pub version : String
  pub mode : String
  pub site : String
  pub overall : HealthStatus
  pub environment : HealthStatus
  pub summary : EnvironmentSummary
  pub otbrs : List OtbrHealthResult
  pub matter_servers : List MatterServerHealthResult
  pub matter_nodes : List MatterNodeHealthResult
  pub thread_networks : List ThreadNetworkHealthResult
  pub mdns : HealthStatus
  pub trel : HealthStatus
