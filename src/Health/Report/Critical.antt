-- ===== src/Health/Report/Critical.antt =====
-- Which entities make a report critical.
use threadlens.Prelude.{
  ℕ, ◌-◌, ◌*◌, ◌≤◌, ◌≡◌, ◌↔◌, ◌≢◌, ◌∙◌, refl, sym, Bool, true, false, ◌||◌, String, List, [], ◌∷◌,
  arith, All, Any, anyb, anyb-append, anyb-map, nonempty, Bool-cases, inl, inr, map,
}
use threadlens.Model.Health.{
  HealthState, HealthStatus, OtbrHealthResult, MatterServerHealthResult, MatterNodeHealthResult,
  same_state, ThreadNetworkHealthResult,
}
use threadlens.Config.{OtbrConfig}
use threadlens.Model.State.{OtbrState, ThreadNetworkState}
use threadlens.Health.Rollup.{state_rank, merge_health}
use threadlens.Health.Rollup.Reasons.{merge_health-worst}
use threadlens.Health.Rules.Services.{count_service_flaps, mdns_flap_events, trel_flap_events}
use threadlens.Health.Rules.Services.Laws.{services_never_critical}
use threadlens.Health.Rules.Agreement.{
  configured_otbr_disagreement_health, primary_network_unknown_health,
}
use threadlens.Health.Report.{
  HealthContext, env_statuses, environment, build_report, insufficient_data, insufficient,
  summarize, closing_statuses, otbr_health, matter_server_health, matter_node_health, mdns_health,
  trel_health, hour, observed_other_statuses, thread_network_health,
}
use threadlens.Health.Report.Laws.{overall-environment, observed, env_statuses-nonempty}

abbrev pub is_critical : HealthState → Bool
is_critical s = same_state s HealthState.critical

abbrev critical_status : HealthStatus → Bool
critical_status s = is_critical s.state

rank_critical : (s : HealthState) → (is_critical s ≡ true) ↔ (state_rank s ≡ 0)
unfolding same_state state_rank
rank_critical s = ground arith

-- some part is critical
any_critical :
    (w : HealthState) (ss : List HealthStatus)
    → All (λ t. state_rank w ≤ state_rank t) (map (λ (t : HealthStatus). t.state) ss)
    → anyb critical_status ss ≡ true
    → is_critical w ≡ true
any_critical w [] h e = cc
any_critical w (s ∷ ss) h e = elim (Bool-cases (critical_status s)) [
  | inl this ↦ ground (arith, rank_critical w, rank_critical s.state)
  | inr other ↦ any_critical w ss h.1 (ground arith)
]

picked_critical :
    (w : HealthState) (ss : List HealthStatus)
    → Any (λ t. t ≡ w) (map (λ (t : HealthStatus). t.state) ss)
    → is_critical w ≡ true
    → anyb critical_status ss ≡ true
picked_critical w (s ∷ ss) (inl h) e = rw (h, e)
picked_critical w (s ∷ ss) (inr h) e = ground (arith, picked_critical w ss h e)
picked_critical w [] h e = absurd h

Bool-eq_of_iff : (a b : Bool) → (a ≡ true → b ≡ true) → (b ≡ true → a ≡ true) → a ≡ b
Bool-eq_of_iff true b f g = sym (f refl)
Bool-eq_of_iff false true f g = g refl
Bool-eq_of_iff false false f g = refl

merge-critical :
    (ss : List HealthStatus)
    → nonempty ss ≡ true
    → is_critical (merge_health ss).state ≡ anyb critical_status ss
merge-critical [] h = cc
merge-critical (s ∷ ss) h =
    let (one, every) = merge_health-worst s ss in
    let w = (merge_health (s ∷ ss)).state in
    Bool-eq_of_iff (is_critical w) (anyb critical_status (s ∷ ss)) (picked_critical w (s ∷ ss) one)
      (any_critical w (s ∷ ss) every)

environment-critical :
    (c : HealthContext) (now : ℕ)
    → is_critical (environment c now).state ≡ anyb critical_status (env_statuses c now)
unfolding environment same_state
environment-critical c now =
    elim (Bool-cases (insufficient_data c.config.mdns_enabled (summarize c (now - 24 * hour)))) [
      | inl short ↦ rw short (
          merge-critical (observed c now ∷ insufficient ∷ []) refl
          ∙ ground (arith, merge-critical (env_statuses c now) (env_statuses-nonempty c now)))
      | inr enough ↦ rw enough (merge-critical (env_statuses c now) (env_statuses-nonempty c now))
    ]

observed_other_not_critical :
    (items : List ThreadNetworkHealthResult)
    → anyb critical_status (observed_other_statuses items) ≡ false
unfolding observed_other_statuses same_state
observed_other_not_critical [] = refl
observed_other_not_critical (item ∷ items) = ground (arith, observed_other_not_critical items)

disagreement_not_critical :
    (otbrs : List OtbrConfig) (states : List OtbrState)
    → critical_status (configured_otbr_disagreement_health otbrs states) ≡ false
unfolding same_state configured_otbr_disagreement_health
disagreement_not_critical otbrs states = ground arith

primary_not_critical :
    (otbrs : List OtbrConfig) (states : List OtbrState) (ns : List ThreadNetworkState)
    → critical_status (primary_network_unknown_health otbrs states ns) ≡ false
unfolding same_state primary_network_unknown_health
primary_not_critical otbrs states ns = ground arith

not_critical : (s : HealthState) → s ≢ HealthState.critical → is_critical s ≡ false
unfolding same_state
not_critical s h = ground arith

closing_not_critical :
    (c : HealthContext) (since : ℕ) → anyb critical_status (closing_statuses c since) ≡ false
unfolding closing_statuses mdns_health trel_health
closing_not_critical c since =
    let never =
      services_never_critical c.config.flapping c.config.mdns_enabled c.observer c.trel_services
        (count_service_flaps mdns_flap_events since c.events)
        (count_service_flaps trel_flap_events since c.events) in
    rw (
      not_critical _ never.0,
      not_critical _ never.1,
      disagreement_not_critical c.config.otbrs c.otbr_states,
      primary_not_critical c.config.otbrs c.otbr_states c.thread_networks,
    )

env_statuses_critical :
    (c : HealthContext) (now : ℕ)
    → anyb critical_status (env_statuses c now) ≡ (
        anyb (λ (o : OtbrHealthResult). is_critical o.state) (otbr_health c (now - hour))
        || (anyb (λ (s : MatterServerHealthResult). is_critical s.state) (matter_server_health c)
            || anyb
                (λ (n : MatterNodeHealthResult). is_critical n.state)
                (matter_node_health c now)))
unfolding env_statuses
env_statuses_critical c now =
    let os = otbr_health c (now - hour) in
    let ss = matter_server_health c in
    let ns = matter_node_health c now in
    let xs = observed_other_statuses (thread_network_health c) in
    let cs = closing_statuses c (now - hour) in
    simp (anyb-append, anyb-map, observed_other_not_critical, closing_not_critical) (ground arith)

-- A report is critical exactly when one of its routers, servers or nodes is: neither mDNS, TREL,
-- a network nor a disagreement of the routers makes it so.
pub overall-critical :
    (c : HealthContext) (version mode : String) (now : ℕ)
    → let r = build_report c version mode now in
      is_critical r.overall.state ≡ (
        anyb (λ (o : OtbrHealthResult). is_critical o.state) r.otbrs
        || (anyb (λ (s : MatterServerHealthResult). is_critical s.state) r.matter_servers
            || anyb (λ (n : MatterNodeHealthResult). is_critical n.state) r.matter_nodes))
overall-critical c version mode now =
    rw (overall-environment c version mode now)
      (unfold build_report in environment-critical c now ∙ env_statuses_critical c now)
