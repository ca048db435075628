-- ===== src/Mdns/Observer/Same.antt =====
-- What the events and the TREL part of a handler of threadlens/collectors/mdns.py leave alone: the
-- mDNS services.
use threadlens.Prelude.{
  ℕ, ◌≡◌, ◌∙◌, refl, Bool, true, false, not, is_some, join, String, Option, none, some, [], ◌∷◌,
  if◌then◌else◌, arith,
}
use threadlens.Prelude.Dict.{lookup}
use threadlens.Model.Events.{Event}
use threadlens.Model.State.{MdnsServiceState, TrelServiceState}
use threadlens.Mdns.Txt.{is_trel_service_type}
use threadlens.Mdns.Record.{NormalizedMdnsRecord, build_trel_state, build_mdns_state}
use threadlens.Mdns.Observer.{
  Observer, store_mdns, store_trel, emit, emit_mdns_event, emit_trel_event, trel_transition,
  upsert_trel, add_changed, report_added, report_removed, remove_trel, remove_visible,
}

-- The service as the observer knows it.
abbrev pub known : String → Observer → Option MdnsServiceState
known id o = lookup id o.known_mdns

-- The mDNS services are the same, in the cache and in the store.
abbrev pub SameMdns : Observer → Observer → Type 0
SameMdns a b = (a.known_mdns ≡ b.known_mdns) × (a.mdns_rows ≡ b.mdns_rows)

pub SameMdns-trans : (a b c : Observer) → SameMdns a b → SameMdns b c → SameMdns a c
SameMdns-trans a b c h k = (h.0 ∙ k.0, h.1 ∙ k.1)

emit-SameMdns : (e : Event) (key : String) (now : ℕ) (o : Observer) → SameMdns (emit e key now o) o
unfolding emit
emit-SameMdns e key now o = ground arith

emit_mdns-SameMdns :
    (event_type message : String) (s : MdnsServiceState) (initial : Bool) (now : ℕ) (o : Observer)
    → SameMdns (emit_mdns_event event_type message s initial now o) o
unfolding emit_mdns_event
emit_mdns-SameMdns event_type message s initial now o = ground arith

emit_trel-SameMdns :
    (event_type message : String) (s : TrelServiceState) (initial : Bool) (now : ℕ) (o : Observer)
    → SameMdns (emit_trel_event event_type message s initial now o) o
unfolding emit_trel_event
emit_trel-SameMdns event_type message s initial now o = ground arith

transition-SameMdns :
    (s : TrelServiceState) (is_new changed first : Bool) (now : ℕ) (o : Observer)
    → SameMdns (trel_transition s is_new changed first now o) o
unfolding trel_transition
transition-SameMdns s true changed first now o = ground arith
transition-SameMdns s false true first now o = ground arith
transition-SameMdns s false false first now o = (refl, refl)

upsert_trel-SameMdns :
    (r : NormalizedMdnsRecord) (m : MdnsServiceState) (now : ℕ) (visible changed is_new : Bool)
    (o : Observer)
    → SameMdns (upsert_trel r m now visible changed is_new o) o
unfolding upsert_trel store_trel
upsert_trel-SameMdns r m now visible changed is_new o =
    let p = lookup r.service_id o.known_trel in
    let s = build_trel_state m r p now visible changed in
    transition-SameMdns s is_new changed (not (is_some p)) now (store_trel r.service_id s o)

remove_trel-SameMdns :
    (r : NormalizedMdnsRecord) (p : Option TrelServiceState) (now : ℕ) (o : Observer)
    → SameMdns (remove_trel r p now o) o
unfolding remove_trel store_trel
remove_trel-SameMdns r none now o = (refl, refl)
remove_trel-SameMdns r (some p) now o =
    let s = record p { currently_visible = false; last_seen = some now } in
    emit_trel-SameMdns "trel.service_removed"
      (join ("TREL service " ∷ s.instance_name ∷ " removed" ∷ [])) s false now
      (store_trel r.service_id s o)

if-SameMdns :
    (b : Bool) (x y o : Observer) → SameMdns x o → SameMdns y o → SameMdns (if b then x else y) o
if-SameMdns true x y o h k = h
if-SameMdns false x y o h k = k

report_added-SameMdns :
    (s : MdnsServiceState) (changed first : Bool) (now : ℕ) (o : Observer)
    → SameMdns (report_added s changed first now o) o
unfolding report_added
report_added-SameMdns s true first now o = ground arith
report_added-SameMdns s false first now o = ground arith

report_removed-SameMdns :
    (s : MdnsServiceState) (now : ℕ) (o : Observer) → SameMdns (report_removed s now o) o
unfolding report_removed
report_removed-SameMdns s now o = ground arith

pub add_changed-SameMdns :
    (r : NormalizedMdnsRecord) (p : Option MdnsServiceState) (changed is_new : Bool) (now : ℕ)
    (o : Observer)
    → SameMdns
        (add_changed r p changed is_new now o)
        (store_mdns r.service_id (build_mdns_state r p now true changed) o)
unfolding add_changed
add_changed-SameMdns r p changed is_new now o =
    let s = build_mdns_state r p now true changed in
    let a = store_mdns r.service_id s o in
    let b = report_added s changed (not (is_some p)) now a in
    let h = report_added-SameMdns s changed (not (is_some p)) now a in
    if-SameMdns (is_trel_service_type r.service_type) (upsert_trel r s now true changed is_new b) b
      a
      (SameMdns-trans (upsert_trel r s now true changed is_new b) b a
        (upsert_trel-SameMdns r s now true changed is_new b) h)
      h

abbrev pub gone : MdnsServiceState → ℕ → MdnsServiceState
gone p now = record p { currently_visible = false; last_seen = some now }

pub remove_visible-SameMdns :
    (r : NormalizedMdnsRecord) (p : MdnsServiceState) (now : ℕ) (o : Observer)
    → SameMdns (remove_visible r p now o) (store_mdns r.service_id (gone p now) o)
unfolding remove_visible
remove_visible-SameMdns r p now o =
    let a = store_mdns r.service_id (gone p now) o in
    let b = report_removed (gone p now) now a in
    let h = report_removed-SameMdns (gone p now) now a in
    let q = lookup r.service_id b.known_trel in
    if-SameMdns (is_trel_service_type r.service_type) (remove_trel r q now b) b a
      (SameMdns-trans (remove_trel r q now b) b a (remove_trel-SameMdns r q now b) h) h
