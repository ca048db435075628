-- ===== src/Health/Rules/Services/Laws.antt =====
-- What the rules for mDNS and TREL decide.
use threadlens.Prelude.{
  ℕ, ◌≤◌, ◌<◌, ◌≡◌, ◌↔◌, ◌≢◌, Bool, true, false, Option, List, arith, filterb, nonempty,
}
use threadlens.Config.{FlappingConfig}
use threadlens.Model.Health.{HealthState}
use threadlens.Model.State.{TrelServiceState}
use threadlens.Health.Rollup.{state_rank, health_from_candidates}
use threadlens.Health.Rules.Services.{
  ObserverView, calculate_mdns_health, calculate_trel_health, foreign_visible, is_observing,
}

module _ (f : FlappingConfig) (enabled : Bool) (observer : Option ObserverView) where
  -- mDNS is healthy exactly when it is enabled, a running observer has observed without
  -- degradation, and the flaps are below both thresholds.
  pub mdns_healthy :
      (flaps : ℕ)
      → ((calculate_mdns_health f enabled observer flaps).state ≡ HealthState.healthy) ↔ (
          (enabled ≡ true)
          × (is_observing observer ≡ true)
          × (flaps < f.mdns_service_flaps_degraded_1h)
          × (flaps < f.mdns_service_flaps_warning_1h))
  unfolding calculate_mdns_health health_from_candidates
  mdns_healthy flaps = ground arith

  -- More flaps never make mDNS look better.
  pub mdns_worse_with_flaps :
      (n m : ℕ)
      → n ≤ m
      → state_rank (calculate_mdns_health f enabled observer m).state
        ≤ state_rank (calculate_mdns_health f enabled observer n).state
  unfolding calculate_mdns_health health_from_candidates
  mdns_worse_with_flaps n m h = ground arith

  -- TREL is healthy exactly when no foreign service is visible, the flaps are below both
  -- thresholds, and mDNS is enabled and observed without degradation.
  pub trel_healthy :
      (services : List TrelServiceState) (flaps : ℕ)
      → ((calculate_trel_health f enabled observer services flaps).state ≡ HealthState.healthy) ↔ (
          (nonempty (filterb foreign_visible services) ≡ false)
          × (flaps < f.mdns_service_flaps_degraded_1h)
          × (flaps < f.mdns_service_flaps_warning_1h)
          × (enabled ≡ true)
          × (is_observing observer ≡ true))
  unfolding calculate_trel_health health_from_candidates
  trel_healthy services flaps = ground arith

  -- Neither mDNS nor TREL is ever critical.
  pub services_never_critical :
      (services : List TrelServiceState) (n m : ℕ)
      → ((calculate_mdns_health f enabled observer n).state ≢ HealthState.critical)
        × ((calculate_trel_health f enabled observer services m).state ≢ HealthState.critical)
  unfolding calculate_mdns_health calculate_trel_health health_from_candidates
  services_never_critical services n m = ground arith
