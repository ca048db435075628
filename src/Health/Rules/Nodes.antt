-- ===== src/Health/Rules/Nodes.antt =====
-- `_calculate_matter_node_health` of threadlens/health/engine.py.
pub mod Laws
use threadlens.Prelude.{
  ℕ, ◌+◌, ◌*◌, Bool, true, false, ◌&&◌, not, String, Option, none, some, List, [], ◌∷◌, ◌++◌, leb,
  join, show_ℕ, if◌then◌else◌,
}
use threadlens.Prelude.Dict.{Dict, lookup}
use threadlens.Config.{FlappingConfig}
use threadlens.Model.Health.{HealthState, HealthStatus, MatterNodeHealthResult}
use threadlens.Model.State.{MatterServerState, MatterNodeState}
use threadlens.Health.Rollup.{health_from_candidates}
use threadlens.Health.Rules.{Candidate, when, threshold, or_healthy}

abbrev pub minute : ℕ
minute = 60 * 1_000_000

-- `unavailable_minutes >= limit`, with 0.0 minutes where the time is not known
abbrev pub unavailable_for : Option ℕ → ℕ → ℕ → Bool
unavailable_for none now limit = leb limit 0
unavailable_for (some since) now limit = leb (since + limit * minute) now

abbrev pub is_false : Option Bool → Bool
is_false none = false
is_false (some b) = not b

abbrev pub on_count : Option ℕ → (ℕ → List Candidate) → List Candidate
on_count none f = []
on_count (some n) f = f n

abbrev pub observable : Option MatterServerState → Bool
observable none = false
observable (some server) = server.capabilities.node_availability_available

read_probe_candidates : FlappingConfig → MatterNodeState → List Candidate
unfolding threshold
read_probe_candidates flapping node =
    if node.read_probe_diagnostics_available && not node.last_read_probe_limited
    then when (is_false node.last_read_probe_ok) HealthState.warning "matter_node_read_probe_failed"
      ++ on_count node.read_probe_failures_24h (λ probe_failures.
        threshold probe_failures flapping.matter_node_read_probe_failures_degraded_24h
          flapping.matter_node_read_probe_failures_warning_24h "matter_node_read_probe_failures_24h"
          "matter_node_read_probe_failures_24h")
    else []

unfoldable pub matter_node_candidates :
    FlappingConfig → MatterNodeState → Option MatterServerState → ℕ → List Candidate
unfolding read_probe_candidates threshold or_healthy
matter_node_candidates flapping node server now =
    if not (observable server)
    then (HealthState.unknown, "matter_node_availability_unknown" ∷ []) ∷ []
    else if not node.available
    then (if unavailable_for node.last_unavailable now
          flapping.matter_node_unavailable_critical_minutes
        then (HealthState.critical, "matter_node_unavailable_critical" ∷ []) ∷ []
        else (HealthState.degraded, "matter_node_unavailable" ∷ []) ∷ [])
    else or_healthy (
        (on_count node.availability_flaps_24h λ flaps.
          threshold flaps flapping.matter_node_availability_degraded_24h
            flapping.matter_node_availability_warning_24h
            "matter_node_availability_flapping_degraded"
            "matter_node_availability_flapping_warning")
        ++ (read_probe_candidates flapping node
            ++ when (node.ping_diagnostics_available && is_false node.last_ping_ok)
                HealthState.warning "matter_node_ping_probe_failed"))

-- `f"matter_node:{server_id}:{node_id}"`
unfoldable pub node_subject_id : String → ℕ → String
unfolding join show_ℕ
node_subject_id server_id node_id = join ("matter_node:" ∷ server_id ∷ ":" ∷ show_ℕ node_id ∷ [])

unfoldable pub calculate_matter_node_health :
    FlappingConfig → MatterNodeState → Dict MatterServerState → ℕ → MatterNodeHealthResult
unfolding matter_node_candidates
calculate_matter_node_health flapping node server_by_id now =
    let health =
      health_from_candidates
        (matter_node_candidates flapping node (lookup node.server_id server_by_id) now) in
    record {
      id = node_subject_id node.server_id node.node_id;
      node_id = node.node_id;
      server_id = some node.server_id;
      state = health.state;
      reasons = health.reasons;
    }
