-- ===== src/Matter/Observer/Same.antt =====
-- What the events and the server's own state of threadlens/collectors/matter_server.py leave alone:
-- the nodes, in the cache and in the store.
use threadlens.Prelude.{
  ℕ, ◌≡◌, ◌∙◌, refl, Bool, String, Option, none, some, List, [], ◌∷◌, arith, join, show_ℕ,
}
use threadlens.Model.Events.{Event, EventSeverity, Datum}
use threadlens.Matter.Parse.{ParsedMatterNode}
use threadlens.Prelude.IntDict.{lookup}
use threadlens.Matter.Observer.{
  Observer, emit, emit_server_event, emit_node_event, persist_server_state,
}
use threadlens.Matter.Observer.Node.{
  note_availability, note_keys, transition, emit_transition, announce,
}
use threadlens.Matter.Observer.Handle.{on_connected, on_disconnected}

pub record SameNodes (a : Observer) (b : Observer) : Type 0 where
  pub nodes : a.nodes ≡ b.nodes
  pub rows : a.node_rows ≡ b.node_rows
  pub config : a.server_config ≡ b.server_config

pub SameNodes-refl : (a : Observer) → SameNodes a a
SameNodes-refl a = record { nodes = refl; rows = refl; config = refl }

pub SameNodes-trans : (a b c : Observer) → SameNodes a b → SameNodes b c → SameNodes a c
SameNodes-trans a b c h k = record {
  nodes = h.nodes ∙ k.nodes;
  rows = h.rows ∙ k.rows;
  config = h.config ∙ k.config;
}

pub emit-SameNodes :
    (key : String) (e : Event) (now : ℕ) (o : Observer) → SameNodes (emit key e now o) o
unfolding emit
emit-SameNodes key e now o = record {
  nodes = ground arith;
  rows = ground arith;
  config = ground arith;
}

pub persist-SameNodes : (o : Observer) → SameNodes (persist_server_state o) o
unfolding persist_server_state
persist-SameNodes o = record { nodes = refl; rows = refl; config = refl }

pub emit_server-SameNodes :
    (event_type message : String) (severity : EventSeverity) (details : List (String × Datum))
    (now : ℕ) (o : Observer)
    → SameNodes (emit_server_event event_type message severity details now o) o
unfolding emit_server_event
emit_server-SameNodes event_type message severity details now o = emit-SameNodes _ _ now o

pub emit_node-SameNodes :
    (node_id : ℕ) (event_type message : String) (severity : EventSeverity)
    (details : List (String × Datum)) (now : ℕ) (o : Observer)
    → SameNodes (emit_node_event node_id event_type message severity details now o) o
unfolding emit_node_event
emit_node-SameNodes node_id event_type message severity details now o = emit-SameNodes _ _ now o

transition-SameNodes :
    (node_id : ℕ) (t : Option (String × EventSeverity × String)) (now : ℕ) (o : Observer)
    → SameNodes (emit_transition node_id t now o) o
unfolding emit_transition
transition-SameNodes node_id none now o = SameNodes-refl o
transition-SameNodes node_id (some (event_type, severity, verb)) now o =
    emit_node-SameNodes node_id event_type
      (join ("Matter node " ∷ show_ℕ node_id ∷ verb ∷ o.server_config.id ∷ [])) severity [] now o

note_keys-SameNodes :
    (node_id : ℕ) (keys : Option (List String)) (o : Observer)
    → SameNodes (note_keys node_id keys o) o
unfolding note_keys
note_keys-SameNodes node_id none o = SameNodes-refl o
note_keys-SameNodes node_id (some keys) o = record { nodes = refl; rows = refl; config = refl }

note_availability-SameNodes :
    (available : Option Bool) (o : Observer) → SameNodes (note_availability available o) o
unfolding note_availability
note_availability-SameNodes none o = SameNodes-refl o
note_availability-SameNodes (some b) o = record { nodes = refl; rows = refl; config = refl }

pub announce-SameNodes :
    (p : ParsedMatterNode) (keys : Option (List String)) (now : ℕ) (o : Observer)
    → SameNodes (announce p keys now o) o
unfolding announce
announce-SameNodes p keys now o =
    let a = note_availability p.available o in
    let b = emit_transition p.node_id (transition p.available (lookup p.node_id o.nodes)) now a in
    SameNodes-trans (note_keys p.node_id keys b) b o (note_keys-SameNodes p.node_id keys b) (
      SameNodes-trans b a o
        (transition-SameNodes p.node_id (transition p.available (lookup p.node_id o.nodes)) now a)
        (note_availability-SameNodes p.available o))

pub on_connected-SameNodes : (now : ℕ) (o : Observer) → SameNodes (on_connected now o) o
unfolding on_connected persist_server_state emit_server_event emit
on_connected-SameNodes now o = record {
  nodes = ground arith;
  rows = ground arith;
  config = ground arith;
}

pub on_disconnected-SameNodes :
    (reason : Option String) (now tick : ℕ) (o : Observer)
    → SameNodes (on_disconnected reason now tick o) o
unfolding on_disconnected persist_server_state emit_server_event emit
on_disconnected-SameNodes reason now tick o = record {
  nodes = ground arith;
  rows = ground arith;
  config = ground arith;
}
