-- ===== src/Health/Report/Laws.antt =====
-- How the overall health of a report relates to the health of its entities.
use threadlens.Prelude.{
  ℕ, ◌-◌, ◌*◌, ◌≤◌, ◌≡◌, refl, true, String, List, [], ◌∷◌, ◌++◌, arith, All, All-map, All-append,
  All-of_map, nonempty, nonempty-append_right, Bool-cases, inl, inr, map,
}
use threadlens.Model.Health.{
  HealthState, HealthStatus, OtbrHealthResult, MatterServerHealthResult, MatterNodeHealthResult,
}
use threadlens.Health.Rollup.{state_rank, merge_health}
use threadlens.Health.Rollup.Reasons.{merge_health-worst, merge_health_one}
use threadlens.Health.Report.{
  HealthContext, env_statuses, environment, build_report, insufficient_data, insufficient,
  summarize, closing_statuses, otbr_health, matter_server_health, matter_node_health, mdns_health,
  trel_health, hour, otbr_status, server_status, node_status, observed_other_statuses,
  thread_network_health,
}

-- The environment before the test for insufficient data.
abbrev pub observed : HealthContext → ℕ → HealthStatus
observed c now = merge_health (env_statuses c now)

closing_nonempty : (c : HealthContext) (since : ℕ) → nonempty (closing_statuses c since) ≡ true
unfolding closing_statuses
closing_nonempty c since = refl

pub env_statuses-nonempty : (c : HealthContext) (now : ℕ) → nonempty (env_statuses c now) ≡ true
unfolding env_statuses
env_statuses-nonempty c now = grind (arith, nonempty-append_right, closing_nonempty)

merge_one :
    (ss : List HealthStatus)
    → nonempty ss ≡ true
    → merge_health (merge_health ss ∷ []) ≡ merge_health ss
merge_one [] h = cc
merge_one (s ∷ ss) h = merge_health_one s ss

-- The overall health of a report is the health of its environment: the second rollup adds nothing
-- and loses nothing.
pub overall-environment :
    (c : HealthContext) (version mode : String) (now : ℕ)
    → (build_report c version mode now).overall ≡ (build_report c version mode now).environment
unfolding build_report environment
overall-environment c version mode now =
    elim (Bool-cases (insufficient_data c.config.mdns_enabled (summarize c (now - 24 * hour)))) [
      | inl short ↦ rw short (merge_one (observed c now ∷ insufficient ∷ []) refl)
      | inr enough ↦ rw enough (merge_one (env_statuses c now) (env_statuses-nonempty c now))
    ]

AtLeast : HealthState → HealthStatus → Type 0
AtLeast w t = state_rank w ≤ state_rank t.state

merge-le : (ss : List HealthStatus) → nonempty ss ≡ true → All (AtLeast (merge_health ss).state) ss
unfolding AtLeast
merge-le [] h = tt
merge-le (s ∷ ss) h =
    All-of_map (λ t. state_rank (merge_health (s ∷ ss)).state ≤ state_rank t)
      (λ (t : HealthStatus). t.state) (s ∷ ss) (merge_health-worst s ss).1

environment-le-observed :
    (c : HealthContext) (now : ℕ)
    → state_rank (environment c now).state ≤ state_rank (observed c now).state
unfolding environment AtLeast
environment-le-observed c now =
    elim (Bool-cases (insufficient_data c.config.mdns_enabled (summarize c (now - 24 * hour)))) [
      | inl short ↦ rw short (merge-le (observed c now ∷ insufficient ∷ []) refl).0
      | inr enough ↦ rw enough (omega arith)
    ]

environment-le :
    (c : HealthContext) (now : ℕ) → All (AtLeast (environment c now).state) (env_statuses c now)
unfolding AtLeast
environment-le c now =
    All-map {P = λ t. state_rank (observed c now).state ≤ state_rank t.state}
      (λ t (h : state_rank (observed c now).state ≤ state_rank t.state).
        omega (arith, environment-le-observed c now))
      (env_statuses c now) (merge-le (env_statuses c now) (env_statuses-nonempty c now))

worst_parts :
    (c : HealthContext) (now : ℕ)
    → let w = state_rank (environment c now).state in
      All (λ (o : OtbrHealthResult). w ≤ state_rank o.state) (otbr_health c (now - hour))
      × All (λ (s : MatterServerHealthResult). w ≤ state_rank s.state) (matter_server_health c)
      × All (λ (n : MatterNodeHealthResult). w ≤ state_rank n.state) (matter_node_health c now)
      × (w ≤ state_rank (mdns_health c (now - hour)).state)
      × (w ≤ state_rank (trel_health c (now - hour)).state)
unfolding env_statuses closing_statuses AtLeast
worst_parts c now =
    let P : HealthStatus → Type 0 = AtLeast (environment c now).state in
    let os = otbr_health c (now - hour) in
    let ss = matter_server_health c in
    let ns = matter_node_health c now in
    let xs = observed_other_statuses (thread_network_health c) in
    let cs = closing_statuses c (now - hour) in
    let (a, r1) =
      All-append P (map otbr_status os) (map server_status ss ++ (map node_status ns ++ (xs ++ cs)))
        (environment-le c now) in
    let (b, r2) = All-append P (map server_status ss) (map node_status ns ++ (xs ++ cs)) r1 in
    let (d, r3) = All-append P (map node_status ns) (xs ++ cs) r2 in
    let (_, e) = All-append P xs cs r3 in
    (
      All-of_map P otbr_status os a,
      All-of_map P server_status ss b,
      All-of_map P node_status ns d,
      e.0,
      e.1.0,
    )

-- No router, server or node is in a worse state than the report, nor are mDNS and TREL.
pub overall-worst :
    (c : HealthContext) (version mode : String) (now : ℕ)
    → let r = build_report c version mode now in
      let w = state_rank r.overall.state in
      All (λ (o : OtbrHealthResult). w ≤ state_rank o.state) r.otbrs
      × All (λ (s : MatterServerHealthResult). w ≤ state_rank s.state) r.matter_servers
      × All (λ (n : MatterNodeHealthResult). w ≤ state_rank n.state) r.matter_nodes
      × (w ≤ state_rank r.mdns.state)
      × (w ≤ state_rank r.trel.state)
overall-worst c version mode now =
    rw (overall-environment c version mode now) (unfold build_report in worst_parts c now)
