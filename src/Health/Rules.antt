-- ===== src/Health/Rules.antt =====
-- The rules for one entity in threadlens/health/engine.py. Each collects candidates in the order
-- of the source and picks the worst.
pub mod Nodes
pub mod Services
pub mod Laws
pub mod Agreement
use threadlens.Prelude.{
  ℕ, Bool, true, false, ◌&&◌, ◌||◌, not, String, Option, none, some, List, [], ◌∷◌, ◌++◌, ◌==◌, leb,
  ltb, is_some, nonempty, if◌then◌else◌, filterb, contains,
}
use threadlens.Config.{FlappingConfig}
use threadlens.Model.Health.{
  HealthState, HealthStatus, OtbrHealthResult, MatterServerHealthResult, ThreadNetworkHealthResult,
}
use threadlens.Model.State.{
  OtbrState, MatterServerState, ThreadNetworkState, ThreadNetworkClassification, same_class,
  class_value,
}
use threadlens.Health.Rollup.{health_from_candidates}

abbrev pub Candidate : Type 0
Candidate = HealthState × List String

-- `candidates.append((state, [reason]))` under a test
abbrev pub when : Bool → HealthState → String → List Candidate
when b state reason = if b then (state, reason ∷ []) ∷ [] else []

-- `if count >= degraded: … elif count >= warning: …`
unfoldable pub threshold : ℕ → ℕ → ℕ → String → String → List Candidate
threshold count degraded warning degraded_reason warning_reason =
    if leb degraded count
    then (HealthState.degraded, degraded_reason ∷ []) ∷ []
    else when (leb warning count) HealthState.warning warning_reason

-- `if not candidates: candidates.append((HealthState.HEALTHY, []))`
unfoldable pub or_healthy : List Candidate → List Candidate
or_healthy [] = (HealthState.healthy, []) ∷ []
or_healthy (c ∷ cs) = c ∷ cs

-- `x == "…"` for an optional text
abbrev pub is_text : Option String → String → Bool
is_text none t = false
is_text (some s) t = s == t

-- `role_changes` is `state.role_changes_1h`, or the events counted where that is `None`.
unfoldable pub otbr_candidates : FlappingConfig → OtbrState → ℕ → List Candidate
unfolding threshold or_healthy
otbr_candidates flapping state role_changes =
    if not state.reachable
    then (HealthState.critical, "otbr_unreachable" ∷ []) ∷ []
    else if is_text state.thread_state "disabled"
    then (HealthState.degraded, "otbr_thread_stack_disabled" ∷ []) ∷ []
    else or_healthy (
        when state.rest_endpoint_mismatch HealthState.warning "otbr_rest_endpoint_mismatch"
        ++ (when (not (is_some state.ext_pan_id || state.capabilities.network_dataset_available))
              HealthState.warning "otbr_dataset_unknown"
            ++ threshold role_changes flapping.otbr_role_changes_degraded_1h
                flapping.otbr_role_changes_warning_1h "otbr_role_flapping_degraded"
                "otbr_role_flapping_warning"))

unfoldable pub calculate_otbr_health : FlappingConfig → OtbrState → ℕ → OtbrHealthResult
unfolding otbr_candidates
calculate_otbr_health flapping state role_changes =
    let health = health_from_candidates (otbr_candidates flapping state role_changes) in
    record { id = state.id; state = health.state; reasons = health.reasons }

unfoldable pub matter_server_candidates : MatterServerState → List Candidate
matter_server_candidates state =
    if not state.connected
    then (HealthState.critical, "matter_server_disconnected" ∷ []) ∷ []
    else if not state.capabilities.node_inventory_available
    then (HealthState.warning, "matter_node_inventory_unavailable" ∷ [])
      ∷ when (ltb 0 state.unavailable_node_count) HealthState.warning "matter_nodes_unavailable"
    else if ltb 0 state.unavailable_node_count
    then (HealthState.warning, "matter_nodes_unavailable" ∷ []) ∷ []
    else (HealthState.healthy, []) ∷ []

unfoldable pub calculate_matter_server_health : MatterServerState → MatterServerHealthResult
unfolding matter_server_candidates
calculate_matter_server_health state =
    let health = health_from_candidates (matter_server_candidates state) in
    record { id = state.id; state = health.state; reasons = health.reasons }

-- the ids of the reachable routers that the network names as its sources
pub reachable_sources : ThreadNetworkState → List OtbrState → List OtbrState
reachable_sources network =
    filterb (λ (s : OtbrState). s.reachable && contains s.id network.source_otbr_ids)

-- The last branch of the source repeats the test of its first, so it is never reached.
unfoldable pub thread_network_candidates : ThreadNetworkState → List OtbrState → List Candidate
unfolding reachable_sources same_class
thread_network_candidates network otbr_states =
    if not network.currently_visible
    then (HealthState.unknown, "thread_network_not_visible" ∷ []) ∷ []
    else if same_class network.classification ThreadNetworkClassification.primary
        && nonempty (reachable_sources network otbr_states)
    then (HealthState.healthy, []) ∷ []
    else if same_class network.classification ThreadNetworkClassification.observed_other
    then (HealthState.warning, "observed_other_thread_network_visible" ∷ []) ∷ []
    else if same_class network.classification ThreadNetworkClassification.unknown
    then (HealthState.warning, "primary_thread_network_unknown" ∷ []) ∷ []
    else if network.currently_visible
    then (HealthState.warning, "thread_network_source_otbrs_unreachable" ∷ []) ∷ []
    else (HealthState.unknown, "thread_network_not_observed" ∷ []) ∷ []

unfoldable pub calculate_thread_network_health :
    ThreadNetworkState → List OtbrState → ThreadNetworkHealthResult
unfolding thread_network_candidates
calculate_thread_network_health network otbr_states =
    let health = health_from_candidates (thread_network_candidates network otbr_states) in
    record {
      ext_pan_id = network.ext_pan_id;
      classification = some (class_value network.classification);
      state = health.state;
      reasons = health.reasons;
    }
