-- ===== src/Health/Rules/Services.antt =====
-- The rules for mDNS, for TREL and for the agreement of the configured routers in
-- threadlens/health/engine.py.
pub mod Laws
use threadlens.Prelude.{
  ℕ, ◌+◌, Bool, true, false, ◌&&◌, ◌||◌, not, String, Option, none, some, List, [], ◌∷◌, ◌++◌, leb,
  ltb, if◌then◌else◌, filterb, nonempty, length, add_new, count_if, contains, map, ◌==◌,
}
use threadlens.Config.{FlappingConfig, OtbrConfig}
use threadlens.Model.Health.{HealthState, HealthStatus}
use threadlens.Model.State.{
  OtbrState, ThreadNetworkState, TrelServiceState, ThreadNetworkClassification, same_class,
}
use threadlens.Model.Events.{Event, Datum, flag}
use threadlens.Prelude.Dict.{lookup}
use threadlens.Storage.Events.{any_event, get_events}
use threadlens.Health.Rollup.{health_from_candidates}
use threadlens.Health.Rules.{Candidate, when, threshold, or_healthy}

-- What the engine sees of the observer: `running` and `observation_degraded`.
pub record ObserverView : Type 0 where
  pub running : Bool
  pub observation_degraded : Option Bool

not_running : List Candidate
not_running = (HealthState.warning, "mdns_observer_not_running" ∷ []) ∷ []

-- the branches on `observation_degraded` of a running observer
observed_candidates : FlappingConfig → Option Bool → ℕ → List Candidate
unfolding threshold or_healthy
observed_candidates flapping (some true) flap_count =
    (HealthState.warning, "mdns_observation_degraded" ∷ []) ∷ []
observed_candidates flapping none flap_count =
    (HealthState.unknown, "mdns_observation_capability_unknown" ∷ []) ∷ []
observed_candidates flapping (some false) flap_count = or_healthy (
    threshold flap_count flapping.mdns_service_flaps_degraded_1h
      flapping.mdns_service_flaps_warning_1h "mdns_service_flapping_degraded"
      "mdns_service_flapping_warning")

unfoldable pub mdns_candidates : FlappingConfig → Option ObserverView → ℕ → List Candidate
unfolding not_running observed_candidates
mdns_candidates flapping none flap_count = not_running
mdns_candidates flapping (some o) flap_count =
    if not o.running
    then not_running
    else observed_candidates flapping o.observation_degraded flap_count

abbrev pub observation_disabled : HealthStatus
observation_disabled = record {
  state = HealthState.unknown;
  reasons = "mdns_observation_disabled" ∷ [];
}

-- `flap_count` is the number of mDNS flap events of the last hour.
unfoldable pub calculate_mdns_health :
    FlappingConfig → Bool → Option ObserverView → ℕ → HealthStatus
unfolding mdns_candidates
calculate_mdns_health flapping enabled observer flap_count =
    if not enabled
    then observation_disabled
    else health_from_candidates (mdns_candidates flapping observer flap_count)

-- `bool | None` as a condition
abbrev pub truthy : Option Bool → Bool
truthy none = false
truthy (some b) = b

abbrev pub foreign_visible : TrelServiceState → Bool
foreign_visible s = truthy s.is_foreign && s.currently_visible

abbrev pub is_observing : Option ObserverView → Bool
is_observing none = false
is_observing (some o) = o.running && elim o.observation_degraded [ some false ↦ true | _ ↦ false ]

-- `if not candidates: …`
trel_fallback : Bool → Option ObserverView → List Candidate → HealthStatus
trel_fallback enabled observer [] =
    if not enabled
    then observation_disabled
    else health_from_candidates (
        if is_observing observer
        then (HealthState.healthy, []) ∷ []
        else (HealthState.unknown, "mdns_observation_capability_unknown" ∷ []) ∷ [])
trel_fallback enabled observer (c ∷ cs) = health_from_candidates (c ∷ cs)

-- `flap_count` is the number of TREL flap events of the last hour.
unfoldable pub calculate_trel_health :
    FlappingConfig → Bool → Option ObserverView → List TrelServiceState → ℕ → HealthStatus
unfolding trel_fallback threshold
calculate_trel_health flapping enabled observer trel_services flap_count =
    trel_fallback enabled observer (
      when (nonempty (filterb foreign_visible trel_services)) HealthState.warning
        "foreign_trel_services_observed"
      ++ threshold flap_count flapping.mdns_service_flaps_degraded_1h
          flapping.mdns_service_flaps_warning_1h "mdns_service_flapping_degraded"
          "mdns_service_flapping_warning")

-- `data.get("initial_observation") is True`
unfoldable pub is_initial_observation_event : Event → Bool
is_initial_observation_event event = elim (lookup "initial_observation" event.details) [
  | some (flag b) ↦ b
  | _ ↦ false
]

unfoldable pub count_service_flaps : List String → ℕ → List Event → ℕ
unfolding is_initial_observation_event get_events
count_service_flaps [] since table = 0
count_service_flaps (event_type ∷ event_types) since table =
    count_if (λ e. not (is_initial_observation_event e))
      (get_events (record any_event { event_type = some event_type; since = some since }) none
        table)
    + count_service_flaps event_types since table

abbrev pub mdns_flap_events : List String
mdns_flap_events = "mdns.service_added" ∷ "mdns.service_removed" ∷ []

abbrev pub trel_flap_events : List String
trel_flap_events = "trel.service_added" ∷ "trel.service_removed" ∷ []
