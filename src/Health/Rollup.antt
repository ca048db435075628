-- ===== src/Health/Rollup.antt =====
-- threadlens/health/rollup.py
pub mod Worst
pub mod Reasons
use threadlens.Prelude.{
  ℕ, Bool, true, false, String, List, [], ◌∷◌, map, ltb, if◌then◌else◌, add_all,
}
use threadlens.Model.Health.{HealthState, HealthStatus, same_state}

unfoldable pub state_rank : HealthState → ℕ
state_rank HealthState.critical = 0
state_rank HealthState.degraded = 1
state_rank HealthState.warning = 2
state_rank HealthState.unknown = 3
state_rank HealthState.healthy = 4

-- `min(states, key=state_rank)` keeps the first of the smallest.
min_by_rank : HealthState → List HealthState → HealthState
min_by_rank best [] = best
min_by_rank best (s ∷ ss) =
    min_by_rank (if ltb (state_rank s) (state_rank best) then s else best) ss

unfoldable pub pick_worst : List HealthState → HealthState
unfolding min_by_rank state_rank
pick_worst [] = HealthState.unknown
pick_worst (s ∷ ss) = min_by_rank s ss

-- the loop over the statuses that have the worst state
status_reasons : HealthState → List String → List HealthStatus → List String
status_reasons worst acc [] = acc
status_reasons worst acc (s ∷ ss) =
    status_reasons worst (if same_state s.state worst then add_all acc s.reasons else acc) ss

unfoldable pub merge_health : List HealthStatus → HealthStatus
unfolding status_reasons pick_worst same_state add_all
merge_health [] = record { state = HealthState.unknown; reasons = "insufficient_data" ∷ [] }
merge_health (s ∷ ss) =
    let worst_state = pick_worst (map (λ (t : HealthStatus). t.state) (s ∷ ss)) in
    record { state = worst_state; reasons = status_reasons worst_state [] (s ∷ ss) }

-- the same loop over candidates
candidate_reasons : HealthState → List String → List (HealthState × List String) → List String
candidate_reasons worst acc [] = acc
candidate_reasons worst acc ((state, reasons) ∷ cs) =
    candidate_reasons worst (if same_state state worst then add_all acc reasons else acc) cs

unfoldable pub health_from_candidates : List (HealthState × List String) → HealthStatus
unfolding candidate_reasons pick_worst same_state add_all
health_from_candidates [] = record {
  state = HealthState.unknown;
  reasons = "insufficient_data" ∷ [];
}
health_from_candidates (c ∷ cs) =
    let worst_state = pick_worst (map (λ (d : HealthState × List String). d.0) (c ∷ cs)) in
    record { state = worst_state; reasons = candidate_reasons worst_state [] (c ∷ cs) }
