-- ===== src/Probes/Runner/Skips.antt =====
-- The probes that threadlens/collectors/matter_probes.py does not run.
use threadlens.Prelude.{
  ℕ, ◌≡◌, refl, Bool, true, false, not, ◌&&◌, String, Option, none, some, arith, if◌then◌else◌,
  Option-cases, Bool-cases, inl, inr, ◌⊎◌,
}
use threadlens.Prelude.IntDict.{lookup}
use threadlens.Config.{MatterProbeConfig, probes_active}
use threadlens.Model.State.{MatterNodeState}
use threadlens.Matter.Observer.{Observer, emit_node_event, emit}
use threadlens.Probes.Runner.{Request, MatterProbeRunResult, skip}
use threadlens.Probes.Runner.Run.{run_probe_for_node, run_manual_probe, run_scheduled_probe}

-- A run that was skipped: no node is changed, and no command is sent.
abbrev pub IsSkipped : Observer → MatterProbeRunResult × Observer → Type 0
IsSkipped o r =
    (r.0.skipped ≡ true)
    × (r.0.read_probe_attempted ≡ false)
    × (r.1.nodes ≡ o.nodes)
    × (r.1.sent_commands ≡ o.sent_commands)

skip-IsSkipped :
    (id : ℕ) (reason : String) (now : ℕ) (o : Observer) → IsSkipped o (skip id reason now o)
unfolding skip emit_node_event emit
skip-IsSkipped id reason now o = (refl, refl, ground arith, ground arith)

if-IsSkipped :
    (b : Bool) (o : Observer) (x y : MatterProbeRunResult × Observer)
    → IsSkipped o x
    → IsSkipped o y
    → IsSkipped o (if b then x else y)
if-IsSkipped true o x y h k = h
if-IsSkipped false o x y h k = k

-- What makes a node one that is not probed.
pub data Unprobed (id : ℕ) (o : Observer) : Type 0 where
  not_known : lookup id o.nodes ≡ none → Unprobed id o
  not_connected : (o.websocket && o.connected) ≡ false → Unprobed id o
  not_available :
      (n : MatterNodeState) → lookup id o.nodes ≡ some n → n.available ≡ false → Unprobed id o

module _ (request : Request) (clock : Observer → ℕ) (compressed : String → Option String) where
  run-IsSkipped :
      (config : MatterProbeConfig) (id : ℕ) (include_ping : Option Bool) (o : Observer)
      → Unprobed id o
      → IsSkipped o (run_probe_for_node request clock compressed config id include_ping o)
  unfolding run_probe_for_node
  run-IsSkipped config id include_ping o (not_known h) =
      rw (run_probe_for_node, h) (skip-IsSkipped id "node not known" (clock o) o)
  run-IsSkipped config id include_ping o (not_connected h) =
      elim (Option-cases (lookup id o.nodes)) [
        | inl e ↦ rw (run_probe_for_node, e) (skip-IsSkipped id "node not known" (clock o) o)
        | inr (n, e) ↦
            rw (run_probe_for_node, e, h)
              (skip-IsSkipped id "matter server not connected" (clock o) o)
      ]
  run-IsSkipped config id include_ping o (not_available n e h) =
      elim (Bool-cases (o.websocket && o.connected)) [
        | inl c ↦
            rw (run_probe_for_node, e, c, h) (skip-IsSkipped id "node unavailable" (clock o) o)
        | inr c ↦
            rw (run_probe_for_node, e, c)
              (skip-IsSkipped id "matter server not connected" (clock o) o)
      ]

  -- Neither a manual nor a scheduled probe touches a node that is not known or not available, or a
  -- server that is not connected, and neither runs where probes are switched off: no command is
  -- sent and no node is changed.
  pub probe-IsSkipped :
      (config : MatterProbeConfig) (id : ℕ) (include_ping : Option Bool) (o : Observer)
      → Unprobed id o ⊎ (probes_active config ≡ false)
      → IsSkipped o (run_manual_probe request clock compressed config id include_ping o)
        × IsSkipped o (run_scheduled_probe request clock compressed config id include_ping o)
  unfolding run_manual_probe run_scheduled_probe
  probe-IsSkipped config id include_ping o (inl u) =
      let k = run-IsSkipped config id include_ping o u in
      let r = run_probe_for_node request clock compressed config id include_ping o in
      (
        if-IsSkipped (not config.manual_enabled) o (skip id "manual probes disabled" (clock o) o)
            (if not (probes_active config) then skip id "probes disabled" (clock o) o else r)
            (skip-IsSkipped id "manual probes disabled" (clock o) o)
            (if-IsSkipped (not (probes_active config)) o (skip id "probes disabled" (clock o) o) r
              (skip-IsSkipped id "probes disabled" (clock o) o) k),
        if-IsSkipped (not (probes_active config)) o (skip id "probes disabled" (clock o) o)
            (if not config.schedule_enabled
              then skip id "scheduled probes disabled" (clock o) o
              else r)
            (skip-IsSkipped id "probes disabled" (clock o) o)
            (if-IsSkipped (not config.schedule_enabled) o
              (skip id "scheduled probes disabled" (clock o) o) r
              (skip-IsSkipped id "scheduled probes disabled" (clock o) o) k),
      )
  probe-IsSkipped config id include_ping o (inr off) = (
    elim (Bool-cases config.manual_enabled) [
      | inl e ↦ rw (run_manual_probe, e, off) (skip-IsSkipped id "probes disabled" (clock o) o)
      | inr e ↦ rw (run_manual_probe, e) (skip-IsSkipped id "manual probes disabled" (clock o) o)
    ],
    rw (run_scheduled_probe, off) (skip-IsSkipped id "probes disabled" (clock o) o),
  )
