-- ===== src/Matter/Observer/Rows.antt =====
-- The nodes of threadlens/collectors/matter_server.py in the cache and in the store.
use threadlens.Prelude.{
  ℕ, ◌≡◌, ◌∙◌, sym, ap, String, Option, none, some, is_some, All, List, [], ◌∷◌, arith, join,
  show_ℕ, ◌==◌, Option-cases, Bool-cases, inl, inr, eq_iff,
}
use threadlens.Prelude.Codes.{eq_ℕ}
use threadlens.Prelude.Numerals.{show_ℕ-injective}
use text.Mathlib.TextLemmas.{append_cancel_left, append-nil}
use threadlens.Prelude.IntDict.{
  lookup, keys, IsDistinctInts, lookup-insert, lookup-erase, IsDistinctInts-insert,
  IsDistinctInts-erase,
}
use threadlens.Prelude.Json.{Json, Fields}
use threadlens.Model.Events.{EventSeverity}
use threadlens.Model.State.{MatterNodeState}
use threadlens.Storage.Table.Rows.{All-upsert, All-delete}
use threadlens.Storage.Table.{get_current_state, get-upsert, get-delete}
use threadlens.Health.Rules.Nodes.{node_subject_id}
use threadlens.Matter.Parse.{ParsedMatterNode, parse_matter_node}
use threadlens.Matter.Observer.{Observer, count_availability_flaps}
use threadlens.Matter.Observer.State.{prior, node_state_from}
use threadlens.Matter.Observer.Node.{
  store_node, drop_node, announce, process_parsed, process_node, payload_keys, remove_known,
  process_node_removed, removed_id,
}
use threadlens.Matter.Observer.Same.{SameNodes, announce-SameNodes, emit_node-SameNodes}

join_three : (a b c s t : String) → join (a ∷ b ∷ c ∷ s ∷ []) ≡ join (a ∷ b ∷ c ∷ t ∷ []) → s ≡ t
unfolding join
join_three a b c s t h =
    let h1 = append_cancel_left a (join (b ∷ c ∷ s ∷ [])) (join (b ∷ c ∷ t ∷ [])) h in
    let h2 = append_cancel_left b (join (c ∷ s ∷ [])) (join (c ∷ t ∷ [])) h1 in
    let h3 = append_cancel_left c (join (s ∷ [])) (join (t ∷ [])) h2 in
    sym (append-nil s) ∙ h3 ∙ append-nil t

node_subject_id-injective :
    (server : String) (m n : ℕ) → node_subject_id server m ≡ node_subject_id server n → m ≡ n
unfolding node_subject_id
node_subject_id-injective server m n h =
    show_ℕ-injective m n (join_three "matter_node:" server ":" (show_ℕ m) (show_ℕ n) h)

-- A node without its Thread address and extended address, which the correlation writes.
abbrev pub shape : MatterNodeState → MatterNodeState
shape n = record n { thread_ipv6_address = none; thread_extended_address = none }

abbrev pub shapes : Option MatterNodeState → Option MatterNodeState
shapes none = none
shapes (some n) = some (shape n)

-- A row stands under the subject id of its node.
abbrev pub HasOwnId : String × MatterNodeState → Type 0
HasOwnId (id, n) = id ≡ node_subject_id n.server_id n.node_id

-- The store holds under the subject id of a node what the cache holds for it, up to the two
-- addresses. The cache holds a node under its own id and with the server's, and the store a node
-- under its own subject id.
pub record IsMirrored (o : Observer) : Type 0 where
  pub distinct : IsDistinctInts (keys o.nodes)
  pub mirror :
      (id : ℕ)
      → shapes (get_current_state (node_subject_id o.server_config.id id) o.node_rows)
        ≡ shapes (lookup id o.nodes)
  pub own :
      (id : ℕ) (n : MatterNodeState)
      → lookup id o.nodes ≡ some n
      → (n.node_id ≡ id) × (n.server_id ≡ o.server_config.id)
  pub keyed : All HasOwnId o.node_rows

pub same-IsMirrored : (a b : Observer) → SameNodes a b → IsMirrored b → IsMirrored a
same-IsMirrored a b h m = record {
  distinct = rw h.nodes m.distinct;
  mirror = (λ id. rw (h.nodes, h.rows, h.config) (m.mirror id));
  own = (λ id n. rw (h.nodes, h.config) (m.own id n));
  keyed = rw h.rows m.keyed;
}

eq_subject :
    (server : String) (m n : ℕ) → (node_subject_id server m == node_subject_id server n) ≡ eq_ℕ m n
eq_subject server m n = ground (
  arith,
  eq_iff (node_subject_id server m) (node_subject_id server n),
  node_subject_id-injective server m n,
)

pub store_node-IsMirrored :
    (n : MatterNodeState) (o : Observer)
    → n.server_id ≡ o.server_config.id
    → IsMirrored o
    → IsMirrored (store_node n o)
unfolding store_node
store_node-IsMirrored n o h m =
    let server = o.server_config.id in
    record {
      distinct = IsDistinctInts-insert n.node_id n o.nodes m.distinct;
      mirror = (λ id. ground (
        arith,
        get-upsert (node_subject_id server n.node_id) (node_subject_id server id) n o.node_rows,
        lookup-insert n.node_id id n o.nodes,
        m.mirror id,
        eq_subject server id n.node_id,
      ));
      own = (λ id k e. ground (arith, lookup-insert n.node_id id n o.nodes, m.own id k));
      keyed =
          All-upsert HasOwnId (node_subject_id server n.node_id) n o.node_rows m.keyed
            (ap (λ s. node_subject_id s n.node_id) (sym h));
    }

drop_node-IsMirrored : (id : ℕ) (o : Observer) → IsMirrored o → IsMirrored (drop_node id o)
unfolding drop_node
drop_node-IsMirrored id o m =
    let server = o.server_config.id in
    record {
      distinct = IsDistinctInts-erase id o.nodes m.distinct;
      mirror = (λ j. ground (
        arith,
        get-delete (node_subject_id server id) (node_subject_id server j) o.node_rows,
        lookup-erase id j o.nodes m.distinct,
        m.mirror j,
        eq_subject server j id,
      ));
      own = (λ j k e. ground (arith, lookup-erase id j o.nodes m.distinct, m.own j k));
      keyed = All-delete HasOwnId (node_subject_id server id) o.node_rows m.keyed;
    }

process_parsed-IsMirrored :
    (p : ParsedMatterNode) (keys : Option (List String)) (now : ℕ) (o : Observer)
    → IsMirrored o
    → IsMirrored (process_parsed p keys now o)
unfolding process_parsed node_state_from
process_parsed-IsMirrored p keys now o m =
    let a = announce p keys now o in
    let s = announce-SameNodes p keys now o in
    store_node-IsMirrored
      (node_state_from p keys (count_availability_flaps p.node_id now a) o.server_config.id now
        (prior p.node_id o))
      a (ap (λ c. c.id) (sym s.config)) (same-IsMirrored a o s m)

pub process_node-IsMirrored :
    (payload : Fields) (now : ℕ) (o : Observer)
    → IsMirrored o
    → IsMirrored (process_node payload now o)
unfolding process_node
process_node-IsMirrored payload now o m = elim (Option-cases (parse_matter_node payload)) [
  | inl h ↦ rw (process_node, h) m
  | inr (p, h) ↦ rw (process_node, h) (process_parsed-IsMirrored p (payload_keys payload) now o m)
]

remove_known-IsMirrored :
    (id now : ℕ) (o : Observer) → IsMirrored o → IsMirrored (remove_known id now o)
unfolding remove_known
remove_known-IsMirrored id now o m = elim (Bool-cases (is_some (lookup id o.nodes))) [
  | inl h ↦
      rw (remove_known, h)
        (same-IsMirrored _ (drop_node id o)
          (emit_node-SameNodes id "matter_node.removed"
            (join ("Matter node " ∷ show_ℕ id ∷ " removed from " ∷ o.server_config.id ∷ []))
            EventSeverity.info [] now (drop_node id o))
          (drop_node-IsMirrored id o m))
  | inr h ↦ rw (remove_known, h) m
]

pub process_node_removed-IsMirrored :
    (payload : Json) (now : ℕ) (o : Observer)
    → IsMirrored o
    → IsMirrored (process_node_removed payload now o)
unfolding process_node_removed
process_node_removed-IsMirrored payload now o m = elim (Option-cases (removed_id payload)) [
  | inl h ↦ rw (process_node_removed, h) m
  | inr (id, h) ↦ rw (process_node_removed, h) (remove_known-IsMirrored id now o m)
]
