-- ===== src/Probes/Runner/Overwrites.antt =====
-- What a read probe of threadlens/collectors/matter_probes.py stores when its answer arrives.
use threadlens.Prelude.{ℕ, ◌≡◌, ◌∙◌, refl, ap, some, [], ◌∷◌, arith, join, show_ℕ}
use threadlens.Prelude.IntDict.{lookup, lookup-insert}
use threadlens.Model.State.{MatterNodeState}
use threadlens.Probes.Planner.{ProbeCandidate}
use threadlens.Matter.Observer.{Observer}
use threadlens.Matter.Observer.Node.{store_node}
use threadlens.Matter.Observer.Same.{emit_node-SameNodes}
use threadlens.Probes.Runner.{Request}
use threadlens.Probes.Runner.Attempt.{
  attempt_read_probe, settle_read, read_end, end_event, end_message, end_severity, read_details,
  probed,
}

store_node-lookup :
    (n : MatterNodeState) (o : Observer) → lookup n.node_id (store_node n o).nodes ≡ some n
unfolding store_node
store_node-lookup n o = ground (arith, lookup-insert n.node_id n.node_id n o.nodes)

-- Whatever the other handlers have done with the node while a read was on its way, also where they
-- have removed it: the answer puts the node back as it was before the read, with its availability
-- and the time of its last outage, and with the diagnostics of the read.
pub attempt_read_probe-overwrites :
    (request : Request) (n : MatterNodeState) (c : ProbeCandidate) (now : ℕ) (o : Observer)
    → (k : MatterNodeState) × (lookup n.node_id (attempt_read_probe request n c now o).1.nodes
        ≡ some k)
      × (k.available ≡ n.available)
      × (k.last_unavailable ≡ n.last_unavailable)
      × (k.last_seen ≡ n.last_seen)
      × (k.last_read_probe_at ≡ some now)
unfolding attempt_read_probe settle_read probed
attempt_read_probe-overwrites request n c now o =
    let a = request "read_attribute" n.node_id c.attribute_path o in
    let e = read_end a.result in
    let k = probed n c e now a.observer in
    let s =
      emit_node-SameNodes n.node_id (end_event e)
        (join (end_message e ∷ show_ℕ n.node_id ∷ " on " ∷ a.observer.server_config.id ∷ []))
        (end_severity e) (read_details c a.result) a.arrived (store_node k a.observer) in
    (k, ap (lookup n.node_id) s.nodes ∙ store_node-lookup k a.observer, refl, refl, refl, refl)
