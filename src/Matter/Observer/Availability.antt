-- ===== src/Matter/Observer/Availability.antt =====
-- The availability of a node in threadlens/collectors/matter_server.py, and what the health engine
-- makes of it.
use threadlens.Prelude.{
  ℕ, ◌+◌, ◌*◌, ◌≡◌, ◌∙◌, ◌<◌, refl, sym, ap, Bool, true, false, String, Option, none, some, List,
  [], ◌∷◌, ◌++◌, arith, ◌==◌, if◌then◌else◌, count_if, Bool-cases, inl, inr,
}
use threadlens.Prelude.{eq_refl}
use threadlens.Prelude.Codes.{eq_ℕ}
use threadlens.Prelude.IntDict.{lookup, lookup-insert}
use threadlens.Prelude.Json.{Fields}
use threadlens.Config.{FlappingConfig}
use threadlens.Model.Events.{Event}
use threadlens.Model.Health.{HealthState}
use threadlens.Model.State.{MatterNodeState, MatterServerState}
use threadlens.Storage.Events.{insert_event}
use threadlens.Storage.Table.{get_current_state, upsert_current_state, get-upsert}
use threadlens.Health.Rules.Nodes.{matter_node_candidates, observable, minute, node_subject_id}
use threadlens.Matter.Parse.{ParsedMatterNode, parse_matter_node}
use threadlens.Matter.Observer.{Observer, emit, emit_node_event, count_availability_flaps}
use threadlens.Matter.Observer.State.{prior, node_state_from, next_available, next_last_unavailable}
use threadlens.Matter.Observer.Node.{
  note_availability, note_keys, transition, emit_transition, announce, store_node, process_parsed,
  process_node, payload_keys,
}
use threadlens.Matter.Observer.Same.{announce-SameNodes}

-- the state that the observer holds after a payload
abbrev pub after : ParsedMatterNode → Fields → ℕ → Observer → MatterNodeState
after p payload now o =
    node_state_from p (payload_keys payload)
      (count_availability_flaps p.node_id now (announce p (payload_keys payload) now o))
      o.server_config.id now (prior p.node_id o)

-- A payload changes the state of its own node, and of no other.
pub process_node-lookup :
    (payload : Fields) (p : ParsedMatterNode) (now j : ℕ) (o : Observer)
    → parse_matter_node payload ≡ some p
    → lookup j (process_node payload now o).nodes
      ≡ (if eq_ℕ j p.node_id then some (after p payload now o) else lookup j o.nodes)
unfolding process_node process_parsed store_node node_state_from
process_node-lookup payload p now j o h =
    let keys = payload_keys payload in
    let a = announce p keys now o in
    let s = announce-SameNodes p keys now o in
    let n = after p payload now o in
    rw (process_node, h)
      (lookup-insert p.node_id j n a.nodes
        ∙ ap (λ d. if eq_ℕ j p.node_id then some n else lookup j d) s.nodes)

-- A payload writes the state of its node to the row of the node.
pub process_node-row :
    (payload : Fields) (p : ParsedMatterNode) (now : ℕ) (o : Observer)
    → parse_matter_node payload ≡ some p
    → get_current_state
        (node_subject_id o.server_config.id p.node_id)
        (process_node payload now o).node_rows
      ≡ some (after p payload now o)
unfolding process_node process_parsed store_node node_state_from
process_node-row payload p now o h =
    let keys = payload_keys payload in
    let a = announce p keys now o in
    let s = announce-SameNodes p keys now o in
    let n = after p payload now o in
    rw (process_node, h)
      (ap
          (λ c.
            get_current_state (node_subject_id c.id p.node_id)
              (upsert_current_state (node_subject_id a.server_config.id p.node_id) n a.node_rows))
          (sym s.config)
        ∙ ground (
          arith,
          get-upsert (node_subject_id a.server_config.id p.node_id)
              (node_subject_id a.server_config.id p.node_id) n a.node_rows,
          eq_refl (node_subject_id a.server_config.id p.node_id),
        ))

-- the same for the node itself
pub process_node-stored :
    (payload : Fields) (p : ParsedMatterNode) (now : ℕ) (o : Observer)
    → parse_matter_node payload ≡ some p
    → lookup p.node_id (process_node payload now o).nodes ≡ some (after p payload now o)
process_node-stored payload p now o h =
    ground (arith, process_node-lookup payload p now p.node_id o h)

keys-events :
    (id : ℕ) (keys : Option (List String)) (o : Observer) → (note_keys id keys o).events ≡ o.events
unfolding note_keys
keys-events id none o = refl
keys-events id (some keys) o = refl

availability-events : (b : Option Bool) (o : Observer) → (note_availability b o).events ≡ o.events
unfolding note_availability
availability-events none o = refl
availability-events (some b) o = refl

announce-quiet :
    (p : ParsedMatterNode) (keys : Option (List String)) (now : ℕ) (o : Observer)
    → transition p.available (lookup p.node_id o.nodes) ≡ none
    → (announce p keys now o).events ≡ o.events
unfolding announce emit_transition
announce-quiet p keys now o h =
    let a = note_availability p.available o in
    keys-events p.node_id keys
      (emit_transition p.node_id (transition p.available (lookup p.node_id o.nodes)) now a)
    ∙ rw (h, emit_transition) (availability-events p.available o)

process_node-announce :
    (payload : Fields) (p : ParsedMatterNode) (now : ℕ) (o : Observer)
    → parse_matter_node payload ≡ some p
    → (process_node payload now o).events ≡ (announce p (payload_keys payload) now o).events
unfolding process_node process_parsed store_node
process_node-announce payload p now o h = rw (process_node, h) refl

pub prior_known :
    (id : ℕ) (o : Observer) (existing : MatterNodeState)
    → lookup id o.nodes ≡ some existing
    → prior id o ≡ existing
unfolding prior
prior_known id o existing h = rw (prior, h) refl

-- A payload without an availability leaves that of a known node as it was, with the time of its last
-- outage, and reports nothing.
pub process_node-unknown_availability :
    (payload : Fields) (p : ParsedMatterNode) (existing : MatterNodeState) (now : ℕ) (o : Observer)
    → parse_matter_node payload ≡ some p
    → p.available ≡ none
    → lookup p.node_id o.nodes ≡ some existing
    → ((n : MatterNodeState) × (lookup p.node_id (process_node payload now o).nodes ≡ some n)
        × (n.available ≡ existing.available)
        × (n.last_unavailable ≡ existing.last_unavailable))
      × ((process_node payload now o).events ≡ o.events)
unfolding node_state_from next_available next_last_unavailable transition
process_node-unknown_availability payload p existing now o h missing known =
    let e = prior_known p.node_id o existing known in
    (
      (
        after p payload now o,
        process_node-stored payload p now o h,
        ground (arith, e, missing),
        ground (arith, e, missing),
      ),
      process_node-announce payload p now o h
          ∙ announce-quiet p (payload_keys payload) now o (rw (missing, known) refl),
    )

-- the unavailable events of a table
abbrev pub outages : List Event → ℕ
outages = count_if (λ e. e.event_type == "matter_node.unavailable")

outages-append :
    (es : List Event) (e : Event)
    → (e.event_type == "matter_node.unavailable") ≡ false
    → outages (es ++ e ∷ []) ≡ outages es
outages-append [] e h = ground (arith, h)
outages-append (x ∷ es) e h = ground (arith, outages-append es e h)

emit-outages :
    (key : String) (e : Event) (now : ℕ) (o : Observer)
    → (e.event_type == "matter_node.unavailable") ≡ false
    → outages (emit key e now o).events ≡ outages o.events
unfolding emit insert_event
emit-outages key e now o h = ground (arith, outages-append o.events e h)

transition-outages :
    (id : ℕ) (b : Option Bool) (existing : Option MatterNodeState) (now : ℕ) (o : Observer)
    → ((n : MatterNodeState) → b ≡ some false → existing ≡ some n → n.available ≡ false)
    → outages (emit_transition id (transition b existing) now o).events ≡ outages o.events
unfolding emit_transition emit_node_event transition
transition-outages id b none now o h = emit-outages _ _ now o refl
transition-outages id none (some n) now o h = refl
transition-outages id (some true) (some n) now o h = elim (Bool-cases n.available) [
  | inl e ↦ rw e refl
  | inr e ↦ rw e (emit-outages _ _ now o refl)
]
transition-outages id (some false) (some n) now o h = rw (h n refl refl) refl

-- An outage is reported only where a known node that was available says that it is not: in every
-- other case a payload of a node leaves the number of reported outages as it was.
pub process_node-outages :
    (payload : Fields) (p : ParsedMatterNode) (now : ℕ) (o : Observer)
    → parse_matter_node payload ≡ some p
    → ((n : MatterNodeState)
        → p.available ≡ some false
        → lookup p.node_id o.nodes ≡ some n
        → n.available ≡ false)
    → outages (process_node payload now o).events ≡ outages o.events
unfolding announce
process_node-outages payload p now o h quiet =
    let a = note_availability p.available o in
    let b = emit_transition p.node_id (transition p.available (lookup p.node_id o.nodes)) now a in
    ap outages
      (process_node-announce payload p now o h ∙ keys-events p.node_id (payload_keys payload) b)
    ∙ transition-outages p.node_id p.available (lookup p.node_id o.nodes) now a quiet
    ∙ ap outages (availability-events p.available o)

-- An update that says that a node is unavailable starts its outage again: whatever the node was
-- before, the health engine calls it degraded and not critical until the limit has passed since that
-- update.
pub process_node-restarts_outage :
    (payload : Fields) (p : ParsedMatterNode) (now t : ℕ) (o : Observer) (flapping : FlappingConfig)
    (server : Option MatterServerState)
    → parse_matter_node payload ≡ some p
    → p.available ≡ some false
    → observable server ≡ true
    → t < now + flapping.matter_node_unavailable_critical_minutes * minute
    → (n : MatterNodeState) × (lookup p.node_id (process_node payload now o).nodes ≡ some n)
      × (matter_node_candidates flapping n server t
          ≡ (HealthState.degraded, "matter_node_unavailable" ∷ []) ∷ [])
unfolding matter_node_candidates node_state_from next_available next_last_unavailable
process_node-restarts_outage payload p now t o flapping server h off seen early =
    (after p payload now o, process_node-stored payload p now o h, ground (arith, off, seen, early))
