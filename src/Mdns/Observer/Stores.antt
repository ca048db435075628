-- ===== src/Mdns/Observer/Stores.antt =====
-- What each handler of threadlens/collectors/mdns.py stores: one mDNS state, under its own id, or
-- none.
use threadlens.Prelude.{
  ℕ, ◌≡◌, ◌∙◌, refl, sym, ap, Bool, true, false, ◌&&◌, not, String, Option, none, some, ◌==◌,
  if◌then◌else◌, arith, eq_iff, Bool-cases, inl, inr,
}
use threadlens.Prelude.Dict.{Dict, lookup, insert, lookup-insert}
use threadlens.Storage.Table.{Table, get_current_state, upsert_current_state, get-upsert}
use threadlens.Model.State.{MdnsServiceState}
use threadlens.Mdns.Record.{NormalizedMdnsRecord, build_mdns_state, record_changed}
use threadlens.Mdns.Observer.{
  Observer, store_mdns, refresh, add_changed, remove_visible, add_after, update_after, remove_after,
  process_service_added, mark_observation_success,
}
use threadlens.Mdns.Observer.Same.{
  SameMdns, SameMdns-trans, known, gone, add_changed-SameMdns, remove_visible-SameMdns,
}

-- What a handler does to the mDNS services: nothing, or it stores one state under its id.
pub data Stores (id : String) (o : Observer) (o' : Observer) : Type 0 where
  same : SameMdns o' o → Stores id o o'
  one :
      (s : MdnsServiceState)
      → s.service_id ≡ id
      → o'.known_mdns ≡ insert id s o.known_mdns
      → o'.mdns_rows ≡ upsert_current_state s.service_id s o.mdns_rows
      → Stores id o o'

pub Stores-then : (id : String) (o a b : Observer) → Stores id o a → SameMdns b a → Stores id o b
Stores-then id o a b (same h) k = same (SameMdns-trans b a o k h)
Stores-then id o a b (one s e h l) k = one s e (k.0 ∙ h) (k.1 ∙ l)

-- Each known service is filed under its own id, and the store holds what the cache holds.
pub record IsPersisted (o : Observer) : Type 0 where
  pub keyed : (id : String) (s : MdnsServiceState) → known id o ≡ some s → s.service_id ≡ id
  pub stored : (id : String) → get_current_state id o.mdns_rows ≡ known id o

-- a store of one state, read back
insert-keyed :
    {V : Type 0} (name : V → String) (id j : String) (s t : V) (d : Dict V)
    → name s ≡ id
    → (lookup j d ≡ some t → name t ≡ j)
    → lookup j (insert id s d) ≡ some t
    → name t ≡ j
insert-keyed name id j s t d e old k = elim (Bool-cases (j == id)) [
  | inl y ↦
      let same_state : s ≡ t = ground (arith, lookup-insert id j s d) in
      ap name (sym same_state) ∙ e ∙ sym ((eq_iff j id).0 y)
  | inr n ↦ old (ground (arith, lookup-insert id j s d))
]

insert-stored :
    {V : Type 0} (id j : String) (s : V) (d : Dict V) (rows : Table V)
    → get_current_state j rows ≡ lookup j d
    → get_current_state j (upsert_current_state id s rows) ≡ lookup j (insert id s d)
insert-stored id j s d rows e = ground (arith, get-upsert id j s rows, lookup-insert id j s d)

pub Stores-IsPersisted :
    (id : String) (o o' : Observer) → Stores id o o' → IsPersisted o → IsPersisted o'
Stores-IsPersisted id o o' (same h) v = record {
  keyed = λ j s e. v.keyed j s (rw (← h.0) e);
  stored = λ j. rw (h.1, h.0) (v.stored j);
}
Stores-IsPersisted id o o' (one s e h l) v = record {
  keyed =
      λ j t k. insert-keyed (λ x. x.service_id) id j s t o.known_mdns e (v.keyed j t) (rw (← h) k);
  stored = λ j.
      ap (get_current_state j) l
      ∙ ap (λ i. get_current_state j (upsert_current_state i s o.mdns_rows)) e
      ∙ insert-stored id j s o.known_mdns o.mdns_rows (v.stored j)
      ∙ ap (lookup j) (sym h);
}

pub store-Stores :
    (id : String) (s : MdnsServiceState) (o : Observer)
    → s.service_id ≡ id
    → Stores id o (store_mdns id s o)
unfolding store_mdns
store-Stores id s o e = one s e refl refl

built-name :
    (r : NormalizedMdnsRecord) (p : Option MdnsServiceState) (changed : Bool) (now : ℕ)
    → (build_mdns_state r p now true changed).service_id ≡ r.service_id
unfolding build_mdns_state
built-name r none changed now = refl
built-name r (some p) changed now = refl

add_changed-Stores :
    (r : NormalizedMdnsRecord) (p : Option MdnsServiceState) (changed is_new : Bool) (now : ℕ)
    (o : Observer)
    → Stores r.service_id o (add_changed r p changed is_new now o)
add_changed-Stores r p changed is_new now o =
    let s = build_mdns_state r p now true changed in
    Stores-then r.service_id o (store_mdns r.service_id s o) (add_changed r p changed is_new now o)
      (store-Stores r.service_id s o (built-name r p changed now))
      (add_changed-SameMdns r p changed is_new now o)

remove_visible-Stores :
    (r : NormalizedMdnsRecord) (p : MdnsServiceState) (now : ℕ) (o : Observer)
    → p.service_id ≡ r.service_id
    → Stores r.service_id o (remove_visible r p now o)
remove_visible-Stores r p now o e =
    Stores-then r.service_id o (store_mdns r.service_id (gone p now) o) (remove_visible r p now o)
      (store-Stores r.service_id (gone p now) o e) (remove_visible-SameMdns r p now o)

refresh-Stores :
    (r : NormalizedMdnsRecord) (p : MdnsServiceState) (now : ℕ) (o : Observer)
    → p.service_id ≡ r.service_id
    → Stores r.service_id o (refresh r p now o)
unfolding refresh
refresh-Stores r p now o e = store-Stores r.service_id (record p { last_seen = some now }) o e

if-Stores :
    (id : String) (o x y : Observer) (b : Bool)
    → Stores id o x
    → Stores id o y
    → Stores id o (if b then x else y)
if-Stores id o x y true h k = h
if-Stores id o x y false h k = k

-- A known service carries the id of the record.
abbrev pub IsFiled : NormalizedMdnsRecord → Option MdnsServiceState → Type 0
IsFiled r p = (s : MdnsServiceState) → p ≡ some s → s.service_id ≡ r.service_id

add_after-Stores :
    (r : NormalizedMdnsRecord) (p : Option MdnsServiceState) (now : ℕ) (o : Observer)
    → IsFiled r p
    → Stores r.service_id o (add_after r p now o)
unfolding add_after
add_after-Stores r none now o e = add_changed-Stores r none false true now o
add_after-Stores r (some p) now o e =
    let v = p.currently_visible in
    let c = record_changed p r in
    if-Stores r.service_id o (refresh r p now o) (add_changed r (some p) (v && c) (not v) now o)
      (v && not c) (refresh-Stores r p now o (e p refl))
      (add_changed-Stores r (some p) (v && c) (not v) now o)

pub added-Stores :
    (r : NormalizedMdnsRecord) (now : ℕ) (o : Observer)
    → IsFiled r (known r.service_id o)
    → Stores r.service_id o (process_service_added r now o)
unfolding process_service_added
added-Stores r now o e = add_after-Stores r (known r.service_id o) now o e

pub update_after-Stores :
    (r : NormalizedMdnsRecord) (p : Option MdnsServiceState) (now : ℕ) (o : Observer)
    → IsFiled r p
    → IsFiled r (known r.service_id o)
    → Stores r.service_id o (update_after r p now o)
unfolding update_after
update_after-Stores r none now o e h = added-Stores r now o h
update_after-Stores r (some p) now o e h =
    if-Stores r.service_id o (refresh r p now o) (process_service_added r now o)
      (not (record_changed p r)) (refresh-Stores r p now o (e p refl)) (added-Stores r now o h)

pub remove_after-Stores :
    (r : NormalizedMdnsRecord) (p : Option MdnsServiceState) (now : ℕ) (o : Observer)
    → IsFiled r p
    → Stores r.service_id o (remove_after r p now o)
unfolding remove_after
remove_after-Stores r none now o e = same (refl, refl)
remove_after-Stores r (some p) now o e =
    if-Stores r.service_id o (refresh r p now o) (remove_visible r p now o)
      (not p.currently_visible) (refresh-Stores r p now o (e p refl))
      (remove_visible-Stores r p now o (e p refl))

-- `mark_observation_success` changes neither table.
pub callback-SameMdns : (o : Observer) → SameMdns (mark_observation_success o) o
unfolding mark_observation_success
callback-SameMdns o = (refl, refl)
