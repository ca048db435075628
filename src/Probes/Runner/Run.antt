-- ===== src/Probes/Runner/Run.antt =====
-- The runs of `MatterProbeRunner` of threadlens/collectors/matter_probes.py. `clock` is the time at
-- which an observer is looked at.
use threadlens.Prelude.{
  ℕ, Bool, true, false, ◌&&◌, ◌||◌, not, String, Option, none, some, List, [], ◌∷◌, ◌==◌,
  if◌then◌else◌,
}
use threadlens.Prelude.IntDict.{lookup}
use threadlens.Config.{MatterProbeConfig, ProbeMode, probes_active}
use threadlens.Model.State.{MatterNodeState}
use threadlens.Probes.Planner.{ProbeCandidate}
use threadlens.Probes.Planner.Plan.{plan}
use threadlens.Matter.Observer.{Observer}
use threadlens.Matter.Observer.Node.{store_node}
use threadlens.Probes.Runner.{Request, MatterProbeRunResult, skip, is_generic_candidate}
use threadlens.Probes.Runner.Attempt.{ProbeAttemptOutcome, attempt_read_probe, is_success}
use threadlens.Probes.Runner.Outcomes.{aggregate_probe_outcomes}
use threadlens.Probes.Runner.Ping.{run_ping}

-- `self._get_node(node_id) or node`
abbrev pub known_or : ℕ → MatterNodeState → Observer → MatterNodeState
known_or node_id n o = elim (lookup node_id o.nodes) [ none ↦ n | some k ↦ k ]

-- `include_ping if include_ping is not None else self._config.ping_enabled`
abbrev pub or_flag : Option Bool → Bool → Bool
or_flag none b = b
or_flag (some a) b = a

abbrev pub is_conservative : MatterProbeConfig → Bool
is_conservative config = elim config.mode [ ProbeMode.conservative ↦ true | _ ↦ false ]

-- the loop ends behind this outcome
unfoldable pub stops : MatterProbeConfig → ProbeAttemptOutcome → Bool
unfolding is_generic_candidate
stops config x =
    not x.limited
    && (is_success x.ok
        && (x.candidate.health_weight == "device_specific"
            || (is_generic_candidate x.candidate && is_conservative config)))

module _ (request : Request) (clock : Observer → ℕ) (compressed : String → Option String) where
  -- the reads, in order, with the outcomes
  unfoldable pub read_each :
      MatterProbeConfig
      → MatterNodeState
      → List ProbeCandidate
      → Observer
      → List ProbeAttemptOutcome × Observer
  unfolding attempt_read_probe stops lookup
  read_each config n [] o = ([], o)
  read_each config n (c ∷ cs) o =
      let read = attempt_read_probe request n c (clock o) o in
      let rest = read_each config (known_or n.node_id n read.1) cs read.1 in
      if stops config read.0 then (read.0 ∷ [], read.1) else (read.0 ∷ rest.0, rest.1)

  -- the ping behind the reads; the identity is captured in every run
  unfoldable pub ping_after :
      MatterProbeConfig → Option Bool → MatterNodeState → Observer → MatterProbeRunResult × Observer
  unfolding run_ping store_node probes_active
  ping_after config include_ping final o =
      let diagnostics = or_flag include_ping config.advanced.ping_enabled in
      let pinged =
        run_ping compressed request final diagnostics (probes_active config) (clock o) o in
      if probes_active config || diagnostics
      then (
        record {
          node_id = final.node_id;
          skipped = false;
          skip_reason = none;
          read_probe_attempted = true;
          read_probe_ok = pinged.1.last_read_probe_ok;
          ping_attempted = true;
          ping_ok = some pinged.0;
        },
        store_node pinged.1 pinged.2,
      )
      else (
        record {
          node_id = final.node_id;
          skipped = false;
          skip_reason = none;
          read_probe_attempted = true;
          read_probe_ok = final.last_read_probe_ok;
          ping_attempted = false;
          ping_ok = none;
        },
        o,
      )

  unfoldable pub run_candidates :
      MatterProbeConfig
      → Option Bool
      → MatterNodeState
      → List ProbeCandidate
      → Observer
      → MatterProbeRunResult × Observer
  unfolding read_each aggregate_probe_outcomes store_node ping_after skip lookup
  run_candidates config include_ping n [] o = skip n.node_id "no probe candidates" (clock o) o
  run_candidates config include_ping n (c ∷ cs) o =
      let read = read_each config n (c ∷ cs) o in
      let final = aggregate_probe_outcomes (known_or n.node_id n read.1) read.0 in
      ping_after config include_ping final (store_node final read.1)

  unfoldable pub run_probe_for_node :
      MatterProbeConfig → ℕ → Option Bool → Observer → MatterProbeRunResult × Observer
  unfolding skip plan run_candidates lookup
  run_probe_for_node config node_id include_ping o = elim (lookup node_id o.nodes) [
    | none ↦ skip node_id "node not known" (clock o) o
    | some n ↦
        if not (o.websocket && o.connected)
        then skip node_id "matter server not connected" (clock o) o
        else if not n.available
        then skip node_id "node unavailable" (clock o) o
        else run_candidates config include_ping n (plan n (lookup node_id o.attribute_keys) config)
            o
  ]

  unfoldable pub run_manual_probe :
      MatterProbeConfig → ℕ → Option Bool → Observer → MatterProbeRunResult × Observer
  unfolding skip probes_active run_probe_for_node
  run_manual_probe config node_id include_ping o =
      if not config.manual_enabled
      then skip node_id "manual probes disabled" (clock o) o
      else if not (probes_active config)
      then skip node_id "probes disabled" (clock o) o
      else run_probe_for_node config node_id include_ping o

  unfoldable pub run_scheduled_probe :
      MatterProbeConfig → ℕ → Option Bool → Observer → MatterProbeRunResult × Observer
  unfolding skip probes_active run_probe_for_node
  run_scheduled_probe config node_id include_ping o =
      if not (probes_active config)
      then skip node_id "probes disabled" (clock o) o
      else if not config.schedule_enabled
      then skip node_id "scheduled probes disabled" (clock o) o
      else run_probe_for_node config node_id include_ping o

  -- the node that was stored, if the identity could be captured
  unfoldable pub run_thread_identity_capture :
      MatterProbeConfig → ℕ → Observer → Option MatterNodeState × Observer
  unfolding probes_active run_ping store_node lookup
  run_thread_identity_capture config node_id o = elim (lookup node_id o.nodes) [
    | none ↦ (none, o)
    | some n ↦
        let pinged = run_ping compressed request n false true (clock o) o in
        if probes_active config && (o.websocket && o.connected) && n.available
        then (some pinged.1, store_node pinged.1 pinged.2)
        else (none, o)
  ]
