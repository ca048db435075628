-- ===== src/Matter/Observer/Node.antt =====
-- `_process_node` and `_process_node_removed` of threadlens/collectors/matter_server.py.
use threadlens.Prelude.{
  ℕ, Bool, true, false, String, Option, none, some, List, [], ◌∷◌, join, show_ℕ, is_some,
  if◌then◌else◌,
}
use threadlens.Prelude.IntDict.{lookup, insert, erase}
use threadlens.Prelude.Json.{Json, Fields, field_keys, get_or_null}
use threadlens.Model.Events.{EventSeverity}
use threadlens.Model.State.{MatterNodeState}
use threadlens.Storage.Table.{upsert_current_state, delete_current_state}
use threadlens.Health.Rules.Nodes.{node_subject_id}
use threadlens.Matter.Parse.{ParsedMatterNode, parse_matter_node, attributes}
use threadlens.Matter.Observer.{Observer, emit_node_event, count_availability_flaps}
use threadlens.Matter.Observer.State.{prior, node_state_from}

-- the event of a transition: its type, its severity and the verb of its message
unfoldable pub transition :
    Option Bool → Option MatterNodeState → Option (String × EventSeverity × String)
transition available none = some ("matter_node.seen", EventSeverity.info, " seen on ")
transition none (some existing) = none
transition (some true) (some existing) =
    if existing.available
    then none
    else some ("matter_node.recovered", EventSeverity.info, " recovered on ")
transition (some false) (some existing) =
    if existing.available
    then some ("matter_node.unavailable", EventSeverity.warning, " unavailable on ")
    else none

unfoldable pub emit_transition :
    ℕ → Option (String × EventSeverity × String) → ℕ → Observer → Observer
unfolding emit_node_event
emit_transition node_id none now o = o
emit_transition node_id (some (event_type, severity, verb)) now o =
    emit_node_event node_id event_type
      (join ("Matter node " ∷ show_ℕ node_id ∷ verb ∷ o.server_config.id ∷ [])) severity [] now o

-- `self._nodes[node_id] = state` and the upsert of its row
unfoldable pub store_node : MatterNodeState → Observer → Observer
unfolding insert
store_node n o = record o {
  nodes = insert n.node_id n o.nodes;
  node_rows = upsert_current_state (node_subject_id o.server_config.id n.node_id) n o.node_rows;
}

-- `node_availability_available = True` where the payload says whether the node is available
unfoldable pub note_availability : Option Bool → Observer → Observer
note_availability none o = o
note_availability (some b) o = record o {
  capabilities = record (o.capabilities) { node_availability_available = true };
}

-- the keys of the attributes, where they are a dictionary
unfoldable pub payload_keys : Fields → Option (List String)
unfolding attributes field_keys
payload_keys payload = elim (attributes payload) [ none ↦ none | some a ↦ some (field_keys a) ]

unfoldable pub note_keys : ℕ → Option (List String) → Observer → Observer
unfolding insert
note_keys node_id none o = o
note_keys node_id (some keys) o = record o { attribute_keys = insert node_id keys o.attribute_keys }

-- the events and counts of `_process_node`, before the node is stored
unfoldable pub announce : ParsedMatterNode → Option (List String) → ℕ → Observer → Observer
unfolding note_availability emit_transition transition note_keys lookup
announce p keys now o = note_keys p.node_id keys (
    emit_transition p.node_id (transition p.available (lookup p.node_id o.nodes)) now
      (note_availability p.available o))

unfoldable pub process_parsed : ParsedMatterNode → Option (List String) → ℕ → Observer → Observer
unfolding announce store_node node_state_from prior count_availability_flaps
process_parsed p keys now o =
    let announced = announce p keys now o in
    store_node
      (node_state_from p keys (count_availability_flaps p.node_id now announced) o.server_config.id
        now (prior p.node_id o))
      announced

unfoldable pub process_node : Fields → ℕ → Observer → Observer
unfolding parse_matter_node process_parsed payload_keys
process_node payload now o = elim (parse_matter_node payload) [
  | none ↦ o
  | some p ↦ process_parsed p (payload_keys payload) now o
]

-- the id in the data of a removal
unfoldable pub removed_id : Json → Option ℕ
unfolding get_or_null
removed_id (Json.object payload) = elim (get_or_null "node_id" payload) [
  | Json.number n ↦ some n
  | _ ↦ none
]
removed_id (Json.number n) = some n
removed_id _ = none

-- the node and its row are gone
unfoldable pub drop_node : ℕ → Observer → Observer
unfolding erase
drop_node node_id o = record o {
  nodes = erase node_id o.nodes;
  attribute_keys = erase node_id o.attribute_keys;
  node_rows = delete_current_state (node_subject_id o.server_config.id node_id) o.node_rows;
}

unfoldable pub remove_known : ℕ → ℕ → Observer → Observer
unfolding drop_node emit_node_event lookup
remove_known node_id now o =
    if is_some (lookup node_id o.nodes)
    then emit_node_event node_id "matter_node.removed"
        (join ("Matter node " ∷ show_ℕ node_id ∷ " removed from " ∷ o.server_config.id ∷ []))
        EventSeverity.info [] now (drop_node node_id o)
    else o

unfoldable pub process_node_removed : Json → ℕ → Observer → Observer
unfolding removed_id remove_known
process_node_removed payload now o = elim (removed_id payload) [
  | none ↦ o
  | some node_id ↦ remove_known node_id now o
]
