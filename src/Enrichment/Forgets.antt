-- ===== src/Enrichment/Forgets.antt =====
-- The correlation of threadlens/enrichment/thread_matter.py writes the rows of the nodes, and the
-- observer of threadlens/collectors/matter_server.py its cache.
use threadlens.Prelude.{ℕ, ◌≡◌, ap, String, Option, some, List}
use threadlens.Prelude.IntDict.{lookup}
use threadlens.Prelude.Json.{Fields}
use threadlens.Model.State.{MatterNodeState, ThreadDeviceState}
use threadlens.Storage.Table.{get_current_state}
use threadlens.Health.Rules.Nodes.{node_subject_id}
use threadlens.Matter.Parse.{ParsedMatterNode, parse_matter_node}
use threadlens.Matter.Observer.{Observer}
use threadlens.Matter.Observer.Node.{process_node}
use threadlens.Matter.Observer.State.{node_state_from}
use threadlens.Matter.Observer.Availability.{after, process_node-row, prior_known}
use threadlens.Enrichment.Thread.{apply_thread_identity_correlation}

-- the observer on the rows that the correlation leaves
abbrev pub correlate_rows : (String → Option String) → List ThreadDeviceState → Observer → Observer
correlate_rows compressed devices o = record o {
  node_rows = (apply_thread_identity_correlation compressed devices o.node_rows).1;
}

-- Whatever the correlation has found, the next payload of a node writes the extended address that
-- the observer's cache had before: what was found is gone from the row.
pub process_node-forgets :
    (compressed : String → Option String) (devices : List ThreadDeviceState) (payload : Fields)
    (p : ParsedMatterNode) (existing : MatterNodeState) (now : ℕ) (o : Observer)
    → parse_matter_node payload ≡ some p
    → lookup p.node_id o.nodes ≡ some existing
    → (n : MatterNodeState) × (get_current_state
          (node_subject_id o.server_config.id p.node_id)
          (process_node payload now (correlate_rows compressed devices o)).node_rows
        ≡ some n)
      × (n.thread_extended_address ≡ existing.thread_extended_address)
unfolding node_state_from
process_node-forgets compressed devices payload p existing now o h known =
    let c = correlate_rows compressed devices o in
    (
      after p payload now c,
      process_node-row payload p now c h,
      ap (λ m. m.thread_extended_address) (prior_known p.node_id c existing known),
    )
