-- ===== src/Otbr/Collector/Networks.antt =====
-- `_sync_thread_networks` and `_correlate_trel_services` of threadlens/collectors/otbr_rest.py. The
-- networks that are configured come with the ids of their border routers.
pub mod Laws
pub mod Counters
use threadlens.Prelude.{
  ℕ, Bool, true, false, ◌&&◌, not, String, Option, none, some, List, [], ◌∷◌, join, contains,
  if◌then◌else◌, length,
}
use threadlens.Prelude.Dict.{Dict, lookup, insert, keys, values}
use threadlens.Model.Events.{Event, EventSourceType, EventSeverity, EventSubjectType, Datum}
use threadlens.Model.State.{
  OtbrState, ThreadNetworkState, TrelServiceState, ThreadNetworkClassification, same_class,
  class_value,
}
use threadlens.Storage.Table.{Table, upsert_current_state}
use threadlens.Mdns.Record.{sort_texts}
use threadlens.Otbr.Classify.{classify_primary_network, classify_trel_service, eq_some}
use threadlens.Otbr.Collector.{Collector, emit}

abbrev network_event : String → ThreadNetworkState → String → EventSeverity → ℕ → Event
network_event event_type network message severity now = record {
  timestamp = now;
  source_type = EventSourceType.otbr;
  source_id = network.ext_pan_id;
  event_type = event_type;
  severity = severity;
  subject_type = EventSubjectType.thread_network;
  subject_id = join ("thread_network:" ∷ network.ext_pan_id ∷ []);
  message = message;
  details =
      ("ext_pan_id", Datum.text network.ext_pan_id)
      ∷ ("classification", Datum.text (class_value network.classification))
      ∷ [];
}

abbrev pub seen_event : String → ThreadNetworkState → ℕ → Event
seen_event ext_pan_id network =
    network_event "thread_network.seen" network
      (join ("Thread network " ∷ ext_pan_id ∷ " seen" ∷ [])) EventSeverity.info

abbrev pub lost_event : String → ThreadNetworkState → ℕ → Event
lost_event ext_pan_id network =
    network_event "thread_network.lost" network
      (join ("Thread network " ∷ ext_pan_id ∷ " lost" ∷ [])) EventSeverity.warning

-- the first of the border routers that is known
sample_otbr : List String → Dict OtbrState → Option OtbrState
sample_otbr [] known = none
sample_otbr (id ∷ ids) known =
    let rest = sample_otbr ids known in elim (lookup id known) [ none ↦ rest | some o ↦ some o ]

unfoldable pub classify_network :
    String → Option String × ThreadNetworkClassification → ThreadNetworkClassification
unfolding same_class
classify_network ext_pan_id (primary_id, primary_class) =
    if eq_some ext_pan_id primary_id && same_class primary_class ThreadNetworkClassification.primary
    then ThreadNetworkClassification.primary
    else if same_class primary_class ThreadNetworkClassification.unknown
    then ThreadNetworkClassification.unknown
    else ThreadNetworkClassification.observed_other

-- `x if sample_otbr else previous.x if previous else None`
abbrev sampled :
    {A : Type 0}
    → Option OtbrState
    → Option ThreadNetworkState
    → (OtbrState → Option A)
    → (ThreadNetworkState → Option A)
    → Option A
sampled (some o) previous f g = f o
sampled none (some p) f g = g p
sampled none none f g = none

abbrev first_seen_of : Option ThreadNetworkState → ℕ → Option ℕ
first_seen_of none now = some now
first_seen_of (some p) now = elim p.first_seen [ none ↦ some now | some t ↦ some t ]

unfoldable pub seen_network :
    String
    → List String
    → Option String × ThreadNetworkClassification
    → ℕ
    → Collector
    → ThreadNetworkState
unfolding classify_network sample_otbr sort_texts
seen_network ext_pan_id otbr_ids primary now c =
    let previous = lookup ext_pan_id c.known_networks in
    let sample = sample_otbr otbr_ids c.known_otbrs in
    record {
      ext_pan_id = ext_pan_id;
      name = sampled sample previous (λ o. o.network_name) (λ p. p.name);
      channel = sampled sample previous (λ o. o.channel) (λ p. p.channel);
      pan_id = sampled sample previous (λ o. o.pan_id) (λ p. p.pan_id);
      classification = classify_network ext_pan_id primary;
      currently_visible = true;
      border_router_count = some (length otbr_ids);
      source_otbr_ids = sort_texts otbr_ids;
      last_seen = some now;
      first_seen = first_seen_of previous now;
    }

unfoldable pub store_network : String → ThreadNetworkState → Collector → Collector
store_network id network c = record c {
  known_networks = insert id network c.known_networks;
  network_rows = upsert_current_state id network c.network_rows;
}

-- `previous is None or not previous.currently_visible`
abbrev pub was_hidden : Option ThreadNetworkState → Bool
was_hidden none = true
was_hidden (some p) = not p.currently_visible

-- the body of the first loop
unfoldable pub see :
    String → List String → Option String × ThreadNetworkClassification → ℕ → Collector → Collector
unfolding seen_network store_network emit
see ext_pan_id otbr_ids primary now c =
    let network = seen_network ext_pan_id otbr_ids primary now c in
    let stored = store_network ext_pan_id network c in
    if was_hidden (lookup ext_pan_id c.known_networks)
    then emit (seen_event ext_pan_id network now) now stored
    else stored

unfoldable pub see_each :
    Dict (List String) → Option String × ThreadNetworkClassification → ℕ → Collector → Collector
unfolding see
see_each [] primary now c = c
see_each ((ext_pan_id, otbr_ids) ∷ d) primary now c =
    see_each d primary now (see ext_pan_id otbr_ids primary now c)

-- the body of the second loop
unfoldable pub lose : List String → String → ThreadNetworkState → ℕ → Collector → Collector
unfolding store_network emit
lose seen_ids ext_pan_id previous now c =
    let lost = record previous { currently_visible = false; last_seen = some now } in
    if contains ext_pan_id seen_ids
    then c
    else if not previous.currently_visible
    then c
    else emit (lost_event ext_pan_id lost now) now (store_network ext_pan_id lost c)

-- over a copy of the items, as `list(…)` takes it
unfoldable pub lose_each : List String → Dict ThreadNetworkState → ℕ → Collector → Collector
unfolding lose
lose_each seen_ids [] now c = c
lose_each seen_ids ((id, previous) ∷ d) now c =
    lose_each seen_ids d now (lose seen_ids id previous now c)

unfoldable pub sync_thread_networks : Dict (List String) → ℕ → Collector → Collector
unfolding see_each lose_each classify_primary_network
sync_thread_networks configured now c =
    let a = see_each configured (classify_primary_network (keys configured)) now c in
    lose_each (keys configured) a.known_networks now a

-- the body of the loop of `_correlate_trel_services`; the row is kept under the id of its service
unfoldable pub correlate : List String → TrelServiceState → TrelServiceState
unfolding classify_primary_network classify_trel_service
correlate configured trel =
    let (primary_id, primary_class) = classify_primary_network configured in
    let (is_foreign, classification) =
      classify_trel_service trel.ext_pan_id configured primary_id primary_class in
    record trel { is_foreign = is_foreign; network_classification = classification }

unfoldable pub correlate_each : List String → List TrelServiceState → Collector → Collector
unfolding correlate
correlate_each configured [] c = c
correlate_each configured (trel ∷ trels) c =
    let updated = correlate configured trel in
    correlate_each configured trels
      (record c { trel_rows = upsert_current_state updated.service_id updated c.trel_rows })

unfoldable pub correlate_trel_services : List String → Collector → Collector
unfolding correlate_each
correlate_trel_services configured c = correlate_each configured (values c.trel_rows) c
