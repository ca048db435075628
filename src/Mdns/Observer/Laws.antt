-- ===== src/Mdns/Observer/Laws.antt =====
-- The promises of the handlers of threadlens/collectors/mdns.py.
use threadlens.Prelude.{
  IsDistinct, ℕ, ◌≡◌, ◌∙◌, refl, ap, Bool, true, false, ◌&&◌, String, Option, none, some, List, [],
  ◌∷◌, ◌==◌, arith, eq_refl, not,
}
use threadlens.Prelude.Dict.{keys, lookup, lookup-insert}
use threadlens.Model.State.{MdnsServiceState}
use threadlens.Mdns.Record.{NormalizedMdnsRecord, record_changed, build_mdns_state}
use threadlens.Mdns.Record.Laws.{record_changed-build}
use threadlens.Mdns.Observer.{
  Observer, process_service_added, process_service_updated, process_service_removed, on_callback,
  run_callbacks, Callback, added, updated, removed, mark_observation_success, refresh, add_after,
  add_changed, store_mdns, remove_after, remove_visible,
}
use threadlens.Mdns.Observer.Same.{known, add_changed-SameMdns, remove_visible-SameMdns, gone}
use threadlens.Mdns.Observer.Stores.{
  Stores, same, one, Stores-then, IsPersisted, Stores-IsPersisted, added-Stores,
  update_after-Stores, remove_after-Stores, callback-SameMdns,
}

abbrev subject : Callback → String
subject (added r) = r.service_id
subject (updated r) = r.service_id
subject (removed r) = r.service_id

on_callback-Stores :
    (c : Callback) (now : ℕ) (o : Observer)
    → IsPersisted o
    → Stores (subject c) o (on_callback c now o)
unfolding on_callback process_service_updated process_service_removed
on_callback-Stores (added r) now o v =
    let a = process_service_added r now o in
    Stores-then r.service_id o a (mark_observation_success a)
      (added-Stores r now o (v.keyed r.service_id)) (callback-SameMdns a)
on_callback-Stores (updated r) now o v =
    let a = process_service_updated r now o in
    Stores-then r.service_id o a (mark_observation_success a)
      (update_after-Stores r (known r.service_id o) now o (v.keyed r.service_id)
        (v.keyed r.service_id))
      (callback-SameMdns a)
on_callback-Stores (removed r) now o v =
    let a = process_service_removed r now o in
    Stores-then r.service_id o a (mark_observation_success a)
      (remove_after-Stores r (known r.service_id o) now o (v.keyed r.service_id))
      (callback-SameMdns a)

-- The tables agree after any sequence of callbacks, if they agreed before it: the repository has
-- for each id what the observer knows of it, and each known service is filed under its own id.
pub run_callbacks-IsPersisted :
    (cs : List (Callback × ℕ)) (o : Observer) → IsPersisted o → IsPersisted (run_callbacks cs o)
unfolding run_callbacks
run_callbacks-IsPersisted [] o v = v
run_callbacks-IsPersisted ((c, now) ∷ cs) o v =
    run_callbacks-IsPersisted cs (on_callback c now o)
      (Stores-IsPersisted (subject c) o (on_callback c now o) (on_callback-Stores c now o v) v)

Stores-others :
    (id j : String) (o a : Observer) → Stores id o a → (j == id) ≡ false → known j a ≡ known j o
Stores-others id j o a (same h) n = ap (lookup j) h.0
Stores-others id j o a (one s e h l) n =
    ap (lookup j) h ∙ ground (arith, lookup-insert id j s o.known_mdns)

-- A callback leaves every service but its own as it was.
pub on_callback-others :
    (c : Callback) (now : ℕ) (o : Observer) (j : String)
    → IsPersisted o
    → (j == subject c) ≡ false
    → known j (on_callback c now o) ≡ known j o
on_callback-others c now o j v n =
    Stores-others (subject c) j o (on_callback c now o) (on_callback-Stores c now o v) n

-- A known service, when it was last seen and if it is visible.
abbrev pub seen : Option MdnsServiceState → Option (Bool × Option ℕ)
seen none = none
seen (some s) = some (s.currently_visible, s.last_seen)

seen-stored :
    (id : String) (s : MdnsServiceState) (o a : Observer)
    → a.known_mdns ≡ (store_mdns id s o).known_mdns
    → seen (known id a) ≡ some (s.currently_visible, s.last_seen)
unfolding store_mdns
seen-stored id s o a h =
    ap (λ d. seen (lookup id d)) h ∙ ground (arith, lookup-insert id id s o.known_mdns, eq_refl id)

seen-built :
    (r : NormalizedMdnsRecord) (p : Option MdnsServiceState) (now : ℕ) (c : Bool)
    → seen (some (build_mdns_state r p now true c)) ≡ some (true, some now)
unfolding build_mdns_state
seen-built r none now c = refl
seen-built r (some q) now c = refl

seen-changed :
    (r : NormalizedMdnsRecord) (p : Option MdnsServiceState) (c n : Bool) (now : ℕ) (o : Observer)
    → seen (known r.service_id (add_changed r p c n now o)) ≡ some (true, some now)
seen-changed r p c n now o =
    let s = build_mdns_state r p now true c in
    seen-stored r.service_id s o (add_changed r p c n now o) (add_changed-SameMdns r p c n now o).0
    ∙ seen-built r p now c

seen-refresh :
    (r : NormalizedMdnsRecord) (p : MdnsServiceState) (now : ℕ) (o : Observer)
    → seen (known r.service_id (refresh r p now o)) ≡ some (p.currently_visible, some now)
unfolding refresh
seen-refresh r p now o =
    seen-stored r.service_id (record p { last_seen = some now }) o (refresh r p now o) refl

seen-added :
    (r : NormalizedMdnsRecord) (p : Option MdnsServiceState) (now : ℕ) (o : Observer)
    → seen (known r.service_id (add_after r p now o)) ≡ some (true, some now)
unfolding add_after
seen-added r none now o = seen-changed r none false true now o
seen-added r (some p) now o = ground (
  arith,
  seen-refresh r p now o,
  seen-changed r (some p) (p.currently_visible && record_changed p r) (not p.currently_visible) now
      o,
)

-- After `process_service_added` the service is known as visible, and as seen at this moment,
-- whether it is new, changed, back or the same.
pub process_service_added-seen :
    (r : NormalizedMdnsRecord) (now : ℕ) (o : Observer)
    → seen (known r.service_id (process_service_added r now o)) ≡ some (true, some now)
unfolding process_service_added
process_service_added-seen r now o = seen-added r (known r.service_id o) now o

-- The option of a removed service.
abbrev pub seen_gone : Option MdnsServiceState → ℕ → Option (Bool × Option ℕ)
seen_gone none now = none
seen_gone (some s) now = some (false, some now)

seen-removed :
    (r : NormalizedMdnsRecord) (p : Option MdnsServiceState) (now : ℕ) (o : Observer)
    → known r.service_id o ≡ p
    → seen (known r.service_id (remove_after r p now o)) ≡ seen_gone p now
unfolding remove_after
seen-removed r none now o e = ap seen e
seen-removed r (some p) now o e = ground (
  arith,
  seen-refresh r p now o,
  seen-stored r.service_id (gone p now) o (remove_visible r p now o)
      (remove_visible-SameMdns r p now o).0,
)

-- After `process_service_removed` a known service is kept, as no longer visible and as last seen at
-- this moment. An unknown service stays unknown.
pub process_service_removed-seen :
    (r : NormalizedMdnsRecord) (now : ℕ) (o : Observer)
    → seen (known r.service_id (process_service_removed r now o))
      ≡ seen_gone (known r.service_id o) now
unfolding process_service_removed
process_service_removed-seen r now o = seen-removed r (known r.service_id o) now o refl

refresh-events :
    (r : NormalizedMdnsRecord) (p : MdnsServiceState) (now : ℕ) (o : Observer)
    → (refresh r p now o).events ≡ o.events
unfolding refresh store_mdns
refresh-events r p now o = refl

-- The state that the record brings nothing new for.
abbrev settled : NormalizedMdnsRecord → Option MdnsServiceState → Bool
settled r none = false
settled r (some p) = p.currently_visible && not (record_changed p r)

settled-stored :
    (r : NormalizedMdnsRecord) (s : MdnsServiceState) (o a : Observer)
    → a.known_mdns ≡ (store_mdns r.service_id s o).known_mdns
    → settled r (known r.service_id a) ≡ settled r (some s)
unfolding store_mdns
settled-stored r s o a h =
    ap (λ d. settled r (lookup r.service_id d)) h
    ∙ ground (arith, lookup-insert r.service_id r.service_id s o.known_mdns, eq_refl r.service_id)

settled-built :
    (r : NormalizedMdnsRecord) (p : Option MdnsServiceState) (now : ℕ) (c : Bool)
    → IsDistinct (keys r.txt_records)
    → settled r (some (build_mdns_state r p now true c)) ≡ true
unfolding build_mdns_state
settled-built r none now c h = ground (arith, record_changed-build r none now true c h)
settled-built r (some q) now c h = ground (arith, record_changed-build r (some q) now true c h)

settled-changed :
    (r : NormalizedMdnsRecord) (p : Option MdnsServiceState) (c n : Bool) (now : ℕ) (o : Observer)
    → IsDistinct (keys r.txt_records)
    → settled r (known r.service_id (add_changed r p c n now o)) ≡ true
settled-changed r p c n now o h =
    settled-stored r (build_mdns_state r p now true c) o (add_changed r p c n now o)
      (add_changed-SameMdns r p c n now o).0
    ∙ settled-built r p now c h

settled-refresh :
    (r : NormalizedMdnsRecord) (p : MdnsServiceState) (now : ℕ) (o : Observer)
    → settled r (known r.service_id (refresh r p now o)) ≡ settled r (some p)
unfolding refresh record_changed
settled-refresh r p now o =
    settled-stored r (record p { last_seen = some now }) o (refresh r p now o) refl

settled-added :
    (r : NormalizedMdnsRecord) (p : Option MdnsServiceState) (now : ℕ) (o : Observer)
    → IsDistinct (keys r.txt_records)
    → settled r (known r.service_id (add_after r p now o)) ≡ true
unfolding add_after
settled-added r none now o h = settled-changed r none false true now o h
settled-added r (some p) now o h = ground (
  arith,
  settled-refresh r p now o,
  settled-changed r (some p) (p.currently_visible && record_changed p r) (not p.currently_visible)
      now o h,
)

-- a record that brings nothing new is only refreshed
quiet-added :
    (r : NormalizedMdnsRecord) (p : Option MdnsServiceState) (now : ℕ) (o : Observer)
    → settled r p ≡ true
    → (add_after r p now o).events ≡ o.events
unfolding add_after
quiet-added r none now o h = ground arith
quiet-added r (some p) now o h = ground (arith, refresh-events r p now o)

-- A service that is added again with the same record reports no further event, at whatever time:
-- the first call leaves a state that the record does not change. The names of the TXT records are
-- distinct, as the keys of a dictionary are.
pub process_service_added-twice :
    (r : NormalizedMdnsRecord) (now later : ℕ) (o : Observer)
    → IsDistinct (keys r.txt_records)
    → (process_service_added r later (process_service_added r now o)).events
      ≡ (process_service_added r now o).events
unfolding process_service_added
process_service_added-twice r now later o h =
    let a = add_after r (known r.service_id o) now o in
    quiet-added r (known r.service_id a) later a (settled-added r (known r.service_id o) now o h)
