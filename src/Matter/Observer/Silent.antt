-- ===== src/Matter/Observer/Silent.antt =====
-- The handlers of threadlens/collectors/matter_server.py that send no command.
use threadlens.Prelude.{
  ℕ, ◌≡◌, ◌∙◌, refl, Bool, true, false, ◌&&◌, String, Option, none, some, List, [], ◌∷◌, arith,
  Option-cases, inl, inr, if◌then◌else◌,
}
use threadlens.Prelude.IntDict.{lookup}
use threadlens.Prelude.Json.{Json, Fields, get_or_null, has}
use threadlens.Model.Events.{Event, EventSeverity}
use threadlens.Matter.Parse.{ParsedMatterNode, parse_matter_node}
use threadlens.Matter.Requests.{dispatch_incoming}
use threadlens.Matter.Observer.{
  Observer, emit, emit_node_event, emit_server_event, persist_server_state,
}
use threadlens.Matter.Observer.Node.{
  note_availability, note_keys, transition, emit_transition, announce, store_node, process_parsed,
  process_node, payload_keys, process_node_removed, removed_id, remove_known, drop_node,
}
use threadlens.Matter.Observer.Handle.{
  on_connected, on_disconnected, extract_nodes, process_each, handle_nodes, handle_result,
  ServerEvent, node_changed, node_removed, server_shutdown, other, server_event, handle_changed,
  handle_server_event, handle_event, looks_like_server_info, handle_unclaimed, handle_message,
}

-- A part of a handler sends nothing.
abbrev pub Silent : Observer → Observer → Type 0
Silent a b = a.sent_commands ≡ b.sent_commands

emit-Silent : (key : String) (e : Event) (now : ℕ) (o : Observer) → Silent (emit key e now o) o
unfolding emit
emit-Silent key e now o = ground arith

transition-Silent :
    (id : ℕ) (t : Option (String × EventSeverity × String)) (now : ℕ) (o : Observer)
    → Silent (emit_transition id t now o) o
unfolding emit_transition emit_node_event
transition-Silent id none now o = refl
transition-Silent id (some (event_type, severity, verb)) now o = emit-Silent _ _ now o

keys-Silent : (id : ℕ) (keys : Option (List String)) (o : Observer) → Silent (note_keys id keys o) o
unfolding note_keys
keys-Silent id none o = refl
keys-Silent id (some keys) o = refl

availability-Silent : (b : Option Bool) (o : Observer) → Silent (note_availability b o) o
unfolding note_availability
availability-Silent none o = refl
availability-Silent (some b) o = refl

parsed-Silent :
    (p : ParsedMatterNode) (keys : Option (List String)) (now : ℕ) (o : Observer)
    → Silent (process_parsed p keys now o) o
unfolding process_parsed announce store_node
parsed-Silent p keys now o =
    let a = note_availability p.available o in
    let t = transition p.available (lookup p.node_id o.nodes) in
    keys-Silent p.node_id keys (emit_transition p.node_id t now a)
    ∙ transition-Silent p.node_id t now a
    ∙ availability-Silent p.available o

node-Silent : (payload : Fields) (now : ℕ) (o : Observer) → Silent (process_node payload now o) o
unfolding process_node
node-Silent payload now o = elim (Option-cases (parse_matter_node payload)) [
  | inl h ↦ rw (process_node, h) refl
  | inr (p, h) ↦ rw (process_node, h) (parsed-Silent p (payload_keys payload) now o)
]

known-Silent : (id now : ℕ) (o : Observer) → Silent (remove_known id now o) o
unfolding remove_known emit_node_event emit drop_node
known-Silent id now o = ground arith

removed-Silent :
    (payload : Json) (now : ℕ) (o : Observer) → Silent (process_node_removed payload now o) o
unfolding process_node_removed
removed-Silent payload now o = elim (Option-cases (removed_id payload)) [
  | inl h ↦ rw (process_node_removed, h) refl
  | inr (id, h) ↦ rw (process_node_removed, h) (known-Silent id now o)
]

persist-Silent : (o : Observer) → Silent (persist_server_state o) o
unfolding persist_server_state
persist-Silent o = refl

pub connected-Silent : (now : ℕ) (o : Observer) → Silent (on_connected now o) o
unfolding on_connected persist_server_state emit_server_event emit
connected-Silent now o = ground arith

pub disconnected-Silent :
    (reason : Option String) (now tick : ℕ) (o : Observer)
    → Silent (on_disconnected reason now tick o) o
unfolding on_disconnected persist_server_state emit_server_event emit
disconnected-Silent reason now tick o = ground arith

each-Silent : (ps : List Fields) (now : ℕ) (o : Observer) → Silent (process_each ps now o) o
unfolding process_each
each-Silent [] now o = refl
each-Silent (p ∷ ps) now o = each-Silent ps now (process_node p now o) ∙ node-Silent p now o

nodes-Silent :
    (nodes : Option (List Fields)) (now : ℕ) (o : Observer) → Silent (handle_nodes nodes now o) o
unfolding handle_nodes persist_server_state
nodes-Silent none now o = refl
nodes-Silent (some ps) now o =
    each-Silent ps now
      (record o { capabilities = record (o.capabilities) { node_inventory_available = true } })

changed-Silent : (payload : Json) (now : ℕ) (o : Observer) → Silent (handle_changed payload now o) o
unfolding handle_changed persist_server_state
changed-Silent (Json.object f) now o = node-Silent f now o
changed-Silent _ now o = refl

event-Silent :
    (e : ServerEvent) (payload : Json) (now tick : ℕ) (o : Observer)
    → Silent (handle_server_event e payload now tick o) o
unfolding handle_server_event persist_server_state
event-Silent node_changed payload now tick o = changed-Silent payload now o
event-Silent node_removed payload now tick o = removed-Silent payload now o
event-Silent server_shutdown payload now tick o =
    disconnected-Silent (some "server_shutdown") now tick o
event-Silent other payload now tick o = refl

if-Silent : (b : Bool) (x y o : Observer) → Silent x o → Silent y o → Silent (if b then x else y) o
if-Silent true x y o h k = h
if-Silent false x y o h k = k

pub message-Silent :
    (payload : Fields) (now tick : ℕ) (o : Observer) → Silent (handle_message payload now tick o) o
unfolding handle_message handle_unclaimed handle_result handle_event persist_server_state
message-Silent payload now tick o =
    let d = dispatch_incoming payload tick o.requests in
    let s = record o { last_event_at = some now; requests = d.1 } in
    let a = handle_result (get_or_null "result" payload) now s in
    let b = handle_event (get_or_null "event" payload) (get_or_null "data" payload) now tick s in
    let e = if looks_like_server_info payload then persist_server_state s else s in
    let c = if has "event" payload then b else e in
    if-Silent d.0 s (if has "result" payload && has "message_id" payload then a else c) o refl (
      if-Silent (has "result" payload && has "message_id" payload) a c o
        (nodes-Silent (extract_nodes (get_or_null "result" payload)) now s)
        (if-Silent (has "event" payload) b e o
          (event-Silent (server_event (get_or_null "event" payload)) (get_or_null "data" payload)
            now tick s)
          (if-Silent (looks_like_server_info payload) (persist_server_state s) s o refl refl)))
