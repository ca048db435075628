-- ===== src/Mdns/Observer.antt =====
-- `MdnsObserver` of threadlens/collectors/mdns.py. A handler runs from its first statement to its
-- last with no other handler between, and reads the clock once: `now`. The repository is the part
-- of its tables that the observer writes.
pub mod Same
pub mod Stores
pub mod Laws
use threadlens.Prelude.{
  ℕ, Bool, true, false, ◌&&◌, not, String, Option, none, some, List, [], ◌∷◌, join, ◌==◌,
  if◌then◌else◌, is_some,
}
use threadlens.Prelude.Dict.{Dict, lookup, insert}
use threadlens.Debounce.{EventDebouncer, should_emit}
use threadlens.Model.Events.{Event, EventSourceType, EventSeverity, EventSubjectType, Datum}
use threadlens.Model.State.{MdnsServiceState, TrelServiceState}
use threadlens.Storage.Table.{Table, upsert_current_state}
use threadlens.Storage.Events.{insert_event}
use threadlens.Mdns.Txt.{is_trel_service_type}
use threadlens.Mdns.Record.{
  NormalizedMdnsRecord, build_mdns_state, build_trel_state, record_changed,
}

pub record Observer : Type 0 where
  pub debouncer : EventDebouncer
  pub known_mdns : Dict MdnsServiceState
  pub known_trel : Dict TrelServiceState
  pub running : Bool
  pub observation_degraded : Option Bool
  pub mdns_rows : Table MdnsServiceState
  pub trel_rows : Table TrelServiceState
  pub events : List Event

-- `self._known_mdns[id] = state` and `_persist_mdns(state)`
pub store_mdns : String → MdnsServiceState → Observer → Observer
store_mdns id state o = record o {
  known_mdns = insert id state o.known_mdns;
  mdns_rows = upsert_current_state state.service_id state o.mdns_rows;
}

store_trel : String → TrelServiceState → Observer → Observer
store_trel id state o = record o {
  known_trel = insert id state o.known_trel;
  trel_rows = upsert_current_state state.service_id state o.trel_rows;
}

-- the two kinds of event differ in their subject and in one entry of `data`
emit : Event → String → ℕ → Observer → Observer
unfolding should_emit insert_event
emit event key now o =
    let (go, d) = should_emit key now o.debouncer in
    if go
    then record o { debouncer = d; events = insert_event event o.events }
    else record o { debouncer = d }

abbrev pub mdns_event : String → String → MdnsServiceState → Bool → ℕ → Event
mdns_event event_type message state initial now = record {
  timestamp = now;
  source_type = EventSourceType.mdns;
  source_id = state.service_id;
  event_type = event_type;
  severity = EventSeverity.info;
  subject_type = EventSubjectType.mdns_service;
  subject_id = join ("mdns_service:" ∷ state.service_id ∷ []);
  message = message;
  details =
      ("service_type", Datum.text state.service_type)
      ∷ ("instance_name", Datum.text state.instance_name)
      ∷ ("currently_visible", Datum.flag state.currently_visible)
      ∷ ("initial_observation", Datum.flag initial)
      ∷ [];
}

abbrev pub trel_event : String → String → TrelServiceState → Bool → ℕ → Event
trel_event event_type message state initial now = record {
  timestamp = now;
  source_type = EventSourceType.mdns;
  source_id = state.service_id;
  event_type = event_type;
  severity = EventSeverity.info;
  subject_type = EventSubjectType.trel_service;
  subject_id = join ("trel_service:" ∷ state.service_id ∷ []);
  message = message;
  details =
      ("instance_name", Datum.text state.instance_name)
      ∷ ("ext_pan_id", Datum.opt_text state.ext_pan_id)
      ∷ ("currently_visible", Datum.flag state.currently_visible)
      ∷ ("initial_observation", Datum.flag initial)
      ∷ [];
}

-- `f"{state.service_id}:{event_type}"`
abbrev pub debounce_key : String → String → String
debounce_key id event_type = join (id ∷ ":" ∷ event_type ∷ [])

unfoldable pub emit_mdns_event : String → String → MdnsServiceState → Bool → ℕ → Observer → Observer
unfolding emit
emit_mdns_event event_type message state initial now =
    emit (mdns_event event_type message state initial now)
      (debounce_key state.service_id event_type) now

unfoldable pub emit_trel_event : String → String → TrelServiceState → Bool → ℕ → Observer → Observer
unfolding emit
emit_trel_event event_type message state initial now =
    emit (trel_event event_type message state initial now)
      (debounce_key state.service_id event_type) now

-- the choice of the event in `_upsert_trel`: no event where the service is neither new nor changed
trel_transition : TrelServiceState → Bool → Bool → Bool → ℕ → Observer → Observer
unfolding emit_trel_event
trel_transition state is_new changed first now o =
    if is_new
    then emit_trel_event "trel.service_added"
        (join ("TREL service " ∷ state.instance_name ∷ " service_added" ∷ [])) state first now o
    else if changed
    then emit_trel_event "trel.service_changed"
        (join ("TREL service " ∷ state.instance_name ∷ " service_changed" ∷ [])) state false now o
    else o

pub upsert_trel :
    NormalizedMdnsRecord → MdnsServiceState → ℕ → Bool → Bool → Bool → Observer → Observer
unfolding trel_transition build_trel_state store_trel
upsert_trel r mdns_state now visible changed is_new o =
    let previous = lookup r.service_id o.known_trel in
    let state = build_trel_state mdns_state r previous now visible changed in
    trel_transition state is_new changed (not (is_some previous)) now
      (store_trel r.service_id state o)

-- `previous.last_seen = now`, stored again; the object is the one in the dictionary
unfoldable pub refresh : NormalizedMdnsRecord → MdnsServiceState → ℕ → Observer → Observer
unfolding store_mdns
refresh r previous now = store_mdns r.service_id (record previous { last_seen = some now })

pub report_added : MdnsServiceState → Bool → Bool → ℕ → Observer → Observer
unfolding emit_mdns_event
report_added state changed first now =
    emit_mdns_event (if changed then "mdns.service_changed" else "mdns.service_added")
      (join (
        "mDNS service "
        ∷ state.instance_name
        ∷ (if changed then " service_changed" else " service_added")
        ∷ []))
      state (not changed && first) now

-- the part of `process_service_added` behind the early return
unfoldable pub add_changed :
    NormalizedMdnsRecord → Option MdnsServiceState → Bool → Bool → ℕ → Observer → Observer
unfolding store_mdns report_added upsert_trel
add_changed r previous changed is_new now o =
    let state = build_mdns_state r previous now true changed in
    let reported =
      report_added state changed (not (is_some previous)) now (store_mdns r.service_id state o) in
    if is_trel_service_type r.service_type
    then upsert_trel r state now true changed is_new reported
    else reported

pub add_after : NormalizedMdnsRecord → Option MdnsServiceState → ℕ → Observer → Observer
add_after r none now o = add_changed r none false true now o
add_after r (some p) now o =
    if p.currently_visible && not (record_changed p r)
    then refresh r p now o
    else add_changed r (some p) (p.currently_visible && record_changed p r)
        (not p.currently_visible) now o

unfoldable pub process_service_added : NormalizedMdnsRecord → ℕ → Observer → Observer
unfolding add_after
process_service_added r now o = add_after r (lookup r.service_id o.known_mdns) now o

pub update_after : NormalizedMdnsRecord → Option MdnsServiceState → ℕ → Observer → Observer
update_after r none now o = process_service_added r now o
update_after r (some p) now o =
    if not (record_changed p r) then refresh r p now o else process_service_added r now o

unfoldable pub process_service_updated : NormalizedMdnsRecord → ℕ → Observer → Observer
unfolding update_after
process_service_updated r now o = update_after r (lookup r.service_id o.known_mdns) now o

-- the TREL part of `process_service_removed`
pub remove_trel : NormalizedMdnsRecord → Option TrelServiceState → ℕ → Observer → Observer
unfolding store_trel
remove_trel r none now o = o
remove_trel r (some p) now o =
    let state = record p { currently_visible = false; last_seen = some now } in
    emit_trel_event "trel.service_removed"
      (join ("TREL service " ∷ state.instance_name ∷ " removed" ∷ [])) state false now
      (store_trel r.service_id state o)

pub report_removed : MdnsServiceState → ℕ → Observer → Observer
unfolding emit_mdns_event
report_removed state now =
    emit_mdns_event "mdns.service_removed"
      (join ("mDNS service " ∷ state.instance_name ∷ " removed" ∷ [])) state false now

pub remove_visible : NormalizedMdnsRecord → MdnsServiceState → ℕ → Observer → Observer
unfolding store_mdns remove_trel report_removed
remove_visible r p now o =
    let state = record p { currently_visible = false; last_seen = some now } in
    let reported = report_removed state now (store_mdns r.service_id state o) in
    if is_trel_service_type r.service_type
    then remove_trel r (lookup r.service_id reported.known_trel) now reported
    else reported

pub remove_after : NormalizedMdnsRecord → Option MdnsServiceState → ℕ → Observer → Observer
unfolding remove_visible
remove_after r none now o = o
remove_after r (some p) now o =
    if not p.currently_visible then refresh r p now o else remove_visible r p now o

unfoldable pub process_service_removed : NormalizedMdnsRecord → ℕ → Observer → Observer
unfolding remove_after
process_service_removed r now o = remove_after r (lookup r.service_id o.known_mdns) now o

-- `_mark_observation_success`: only a state that is still unknown changes
unfoldable pub mark_observation_success : Observer → Observer
mark_observation_success o = record o {
  observation_degraded = elim o.observation_degraded [ none ↦ some false | some b ↦ some b ];
}

-- The callbacks, with the record that `normalize_service_info` made.
pub data Callback : Type 0 where
  added : NormalizedMdnsRecord → Callback
  updated : NormalizedMdnsRecord → Callback
  removed : NormalizedMdnsRecord → Callback

-- `on_service_added`, `on_service_updated` and `on_service_removed`
unfoldable pub on_callback : Callback → ℕ → Observer → Observer
on_callback (added r) now o = mark_observation_success (process_service_added r now o)
on_callback (updated r) now o = mark_observation_success (process_service_updated r now o)
on_callback (removed r) now o = mark_observation_success (process_service_removed r now o)

-- Callbacks in the order in which their tasks run.
unfoldable pub run_callbacks : List (Callback × ℕ) → Observer → Observer
run_callbacks [] o = o
run_callbacks ((c, now) ∷ cs) o = run_callbacks cs (on_callback c now o)
