-- ===== src/Tests/Health.antt =====
-- The rollup and the report.
use threadlens.Prelude.{
  ◌*◌, ◌≤◌, ◌≡◌, ◌&&◌, ◌||◌, [], ◌∷◌, ◌++◌, All, Any, anyb, contains, IsDistinct, String,
}
use threadlens.Model.Health.{
  HealthState, HealthStatus, HealthReport, OtbrHealthResult, MatterServerHealthResult,
  MatterNodeHealthResult, same_state,
}
use threadlens.Health.Rollup.{merge_health, state_rank}
use threadlens.Health.Rollup.Reasons.{merge_health-append, merge_health-reasons}
use threadlens.Health.Report.{build_report, hour}
use threadlens.Health.Report.Laws.{overall-worst}
use threadlens.Health.Report.Critical.{overall-critical, is_critical}
use threadlens.Tests.Data.{site}

abbrev low : HealthStatus
low = record { state = HealthState.warning; reasons = "a" ∷ "b" ∷ [] }

abbrev lower : HealthStatus
lower = record { state = HealthState.degraded; reasons = "c" ∷ [] }

abbrev lower_too : HealthStatus
lower_too = record { state = HealthState.degraded; reasons = "d" ∷ "c" ∷ [] }

abbrev report : HealthReport
report = build_report site "1.0.0" "observe" (25 * hour)

overall-critical_example : is_critical report.overall.state ≡ (
    anyb (λ (o : OtbrHealthResult). is_critical o.state) report.otbrs
    || (anyb (λ (s : MatterServerHealthResult). is_critical s.state) report.matter_servers
        || anyb (λ (n : MatterNodeHealthResult). is_critical n.state) report.matter_nodes))
overall-critical_example = overall-critical site "1.0.0" "observe" (25 * hour)

overall-worst_example :
    All
      (λ (o : OtbrHealthResult). state_rank report.overall.state ≤ state_rank o.state)
      report.otbrs
    × All
        (λ (s : MatterServerHealthResult). state_rank report.overall.state ≤ state_rank s.state)
        report.matter_servers
    × All
        (λ (n : MatterNodeHealthResult). state_rank report.overall.state ≤ state_rank n.state)
        report.matter_nodes
    × (state_rank report.overall.state ≤ state_rank report.mdns.state)
    × (state_rank report.overall.state ≤ state_rank report.trel.state)
overall-worst_example = overall-worst site "1.0.0" "observe" (25 * hour)

merge_health-append_example :
    merge_health ((low ∷ lower ∷ []) ++ (lower_too ∷ []))
    ≡ merge_health (merge_health (low ∷ lower ∷ []) ∷ merge_health (lower_too ∷ []) ∷ [])
merge_health-append_example = merge_health-append low (lower ∷ []) lower_too []

merge_health-reasons_example :
    Any
      (λ t. t ≡ (merge_health (low ∷ lower ∷ lower_too ∷ [])).state)
      (low.state ∷ lower.state ∷ lower_too.state ∷ [])
    × All
        (λ t. state_rank (merge_health (low ∷ lower ∷ lower_too ∷ [])).state ≤ state_rank t)
        (low.state ∷ lower.state ∷ lower_too.state ∷ [])
    × IsDistinct (merge_health (low ∷ lower ∷ lower_too ∷ [])).reasons
    × ((r : String)
        → contains r (merge_health (low ∷ lower ∷ lower_too ∷ [])).reasons
          ≡ anyb
              (λ t.
                same_state t.state (merge_health (low ∷ lower ∷ lower_too ∷ [])).state
                && contains r t.reasons)
              (low ∷ lower ∷ lower_too ∷ []))
merge_health-reasons_example = merge_health-reasons low (lower ∷ lower_too ∷ [])
