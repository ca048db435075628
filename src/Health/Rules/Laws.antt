-- ===== src/Health/Rules/Laws.antt =====
-- What the rules for routers, servers and networks decide.
use threadlens.Prelude.{
  ℕ, ◌≤◌, ◌<◌, ◌≡◌, ◌↔◌, ◌≢◌, true, false, ◌||◌, List, arith, is_some, nonempty,
}
use threadlens.Config.{FlappingConfig}
use threadlens.Model.Health.{HealthState}
use threadlens.Model.State.{
  OtbrState, MatterServerState, ThreadNetworkState, ThreadNetworkClassification,
}
use threadlens.Health.Rollup.{state_rank, health_from_candidates}
use threadlens.Health.Rules.{
  calculate_otbr_health, calculate_matter_server_health, is_text, calculate_thread_network_health,
  reachable_sources,
}

-- A router is critical exactly when it is unreachable.
pub otbr_critical :
    (f : FlappingConfig) (s : OtbrState) (n : ℕ)
    → ((calculate_otbr_health f s n).state ≡ HealthState.critical) ↔ (s.reachable ≡ false)
unfolding calculate_otbr_health health_from_candidates
otbr_critical f s n = ground arith

-- A router is healthy exactly when it is reachable, its Thread stack is not disabled, its two
-- endpoints agree, its dataset is known, and its role changes are below both thresholds.
pub otbr_healthy :
    (f : FlappingConfig) (s : OtbrState) (n : ℕ)
    → ((calculate_otbr_health f s n).state ≡ HealthState.healthy) ↔ (
        (s.reachable ≡ true)
        × (is_text s.thread_state "disabled" ≡ false)
        × (s.rest_endpoint_mismatch ≡ false)
        × ((is_some s.ext_pan_id || s.capabilities.network_dataset_available) ≡ true)
        × (n < f.otbr_role_changes_degraded_1h)
        × (n < f.otbr_role_changes_warning_1h))
unfolding calculate_otbr_health health_from_candidates
otbr_healthy f s n = ground arith

-- More role changes never make a router look better.
pub otbr_worse_with_flaps :
    (f : FlappingConfig) (s : OtbrState) (n m : ℕ)
    → n ≤ m
    → state_rank (calculate_otbr_health f s m).state
      ≤ state_rank (calculate_otbr_health f s n).state
unfolding calculate_otbr_health health_from_candidates
otbr_worse_with_flaps f s n m h = ground arith

-- A Matter server is healthy, in warning or critical: critical exactly when it is not connected,
-- healthy exactly when it is connected, its inventory is available and no node is unavailable.
pub matter_server_states :
    (s : MatterServerState)
    → (((calculate_matter_server_health s).state ≡ HealthState.critical) ↔ (s.connected ≡ false))
      × (((calculate_matter_server_health s).state ≡ HealthState.healthy) ↔ (
          (s.connected ≡ true)
          × (s.capabilities.node_inventory_available ≡ true)
          × (s.unavailable_node_count ≡ 0)))
      × ((calculate_matter_server_health s).state ≢ HealthState.unknown)
      × ((calculate_matter_server_health s).state ≢ HealthState.degraded)
unfolding calculate_matter_server_health health_from_candidates
matter_server_states s = ground arith

-- A network is healthy exactly when it is visible, primary, and one of the routers that it names
-- as a source is reachable; it is unknown exactly when it is not visible.
pub thread_network_states :
    (n : ThreadNetworkState) (states : List OtbrState)
    → (((calculate_thread_network_health n states).state ≡ HealthState.healthy) ↔ (
        (n.currently_visible ≡ true)
        × (n.classification ≡ ThreadNetworkClassification.primary)
        × (nonempty (reachable_sources n states) ≡ true)))
      × (((calculate_thread_network_health n states).state ≡ HealthState.unknown)
          ↔ (n.currently_visible ≡ false))
unfolding calculate_thread_network_health health_from_candidates reachable_sources
thread_network_states n states = ground arith
