-- ===== src/Health/Rules/Nodes/Laws.antt =====
-- What the rule for a Matter node decides.
use threadlens.Prelude.{
  some, ◌+◌, ◌*◌, ltb, if◌then◌else◌, Bool-cases, inl, inr, ℕ, ◌≤◌, ◌≡◌, ◌↔◌, Bool, true, false,
  Option, arith,
}
use threadlens.Config.{FlappingConfig}
use threadlens.Model.Health.{HealthState}
use threadlens.Model.State.{MatterServerState, MatterNodeState}
use threadlens.Health.Rollup.{state_rank, health_from_candidates}
use threadlens.Health.Rules.Nodes.{matter_node_candidates, observable, unavailable_for}

-- The health of a node, by its server.
abbrev pub node_state :
    FlappingConfig → MatterNodeState → Option MatterServerState → ℕ → HealthState
node_state f n server now = (health_from_candidates (matter_node_candidates f n server now)).state

module _ (f : FlappingConfig) (n : MatterNodeState) (server : Option MatterServerState)
    (now : ℕ) where
  -- A node is unknown exactly when its server is not known or does not report availability.
  pub node_unknown : (node_state f n server now ≡ HealthState.unknown) ↔ (observable server ≡ false)
  unfolding matter_node_candidates health_from_candidates
  node_unknown = ground arith

  -- A node is critical exactly when it is observed to be unavailable for the configured time.
  pub node_critical : (node_state f n server now ≡ HealthState.critical) ↔ (
      (observable server ≡ true)
      × (n.available ≡ false)
      × (unavailable_for n.last_unavailable now f.matter_node_unavailable_critical_minutes ≡ true))
  unfolding matter_node_candidates health_from_candidates
  node_critical = ground arith

-- An unavailable node whose outage is recorded is degraded until the configured minutes, here in
-- microseconds, have passed since, and critical from then on.
pub node_unavailable :
    (f : FlappingConfig) (n : MatterNodeState) (server : Option MatterServerState) (since now : ℕ)
    → observable server ≡ true
    → n.available ≡ false
    → n.last_unavailable ≡ some since
    → node_state f n server now ≡ (
        if ltb now (since + f.matter_node_unavailable_critical_minutes * 60_000_000)
        then HealthState.degraded
        else HealthState.critical)
unfolding matter_node_candidates health_from_candidates
node_unavailable f n server since now seen down h = ground arith

-- An unavailable node only gets worse as time goes on.
pub node_worse_with_time :
    (f : FlappingConfig) (n : MatterNodeState) (server : Option MatterServerState) (now later : ℕ)
    → now ≤ later
    → state_rank (node_state f n server later) ≤ state_rank (node_state f n server now)
unfolding matter_node_candidates health_from_candidates
node_worse_with_time f n server now later h = ground arith

-- The outcome of read probes counts for nothing while they are limited: the last outcome and the
-- number of failures may be anything.
pub node_limited_probe :
    (f : FlappingConfig) (n : MatterNodeState) (server : Option MatterServerState) (now : ℕ)
    (ok : Option Bool) (failures : Option ℕ)
    → n.last_read_probe_limited ≡ true
    → matter_node_candidates f
        (record n { last_read_probe_ok = ok; read_probe_failures_24h = failures })
        server
        now
      ≡ matter_node_candidates f n server now
unfolding matter_node_candidates
node_limited_probe f n server now ok failures h =
    elim (Bool-cases n.read_probe_diagnostics_available) [
      | inl on ↦ rw (h, on)
      | inr off ↦ rw (h, off)
    ]
