-- ===== src/Otbr/Collector/Networks/Counters.antt =====
-- The networks and the TREL services leave the counters of threadlens/collectors/otbr_rest.py alone.
use threadlens.Prelude.{ℕ, ◌≡◌, ◌∙◌, refl, false, String, Option, some, List, [], ◌∷◌, arith}
use threadlens.Prelude.Dict.{Dict, lookup, values, keys}
use threadlens.Model.State.{ThreadNetworkState, TrelServiceState, ThreadNetworkClassification}
use threadlens.Storage.Table.{upsert_current_state}
use threadlens.Otbr.Classify.{classify_primary_network}
use threadlens.Otbr.Collector.{Collector, emit_if}
use threadlens.Otbr.Collector.Networks.{
  see, see_each, lose, lose_each, sync_thread_networks, correlate, correlate_each,
  correlate_trel_services, store_network, seen_network, seen_event, lost_event, was_hidden,
}
use threadlens.Otbr.Collector.Counters.{counters, emit-counters, emit_if-counters}

see_each-counters :
    (d : Dict (List String)) (p : Option String × ThreadNetworkClassification) (now : ℕ)
    (c : Collector)
    → counters (see_each d p now c) ≡ counters c
unfolding see_each see store_network emit_if
see_each-counters [] p now c = refl
see_each-counters ((id, ids) ∷ d) p now c =
    let n = seen_network id ids p now c in
    see_each-counters d p now (see id ids p now c)
    ∙ emit_if-counters (was_hidden (lookup id c.known_networks)) (seen_event id n now) now
        (store_network id n c)

lose-counters :
    (seen : List String) (id : String) (p : ThreadNetworkState) (now : ℕ) (c : Collector)
    → counters (lose seen id p now c) ≡ counters c
unfolding lose store_network
lose-counters seen id p now c =
    let n = record p { currently_visible = false; last_seen = some now } in
    ground (arith, emit-counters (lost_event id n now) now (store_network id n c))

lose_each-counters :
    (seen : List String) (d : Dict ThreadNetworkState) (now : ℕ) (c : Collector)
    → counters (lose_each seen d now c) ≡ counters c
unfolding lose_each
lose_each-counters seen [] now c = refl
lose_each-counters seen ((id, p) ∷ d) now c =
    lose_each-counters seen d now (lose seen id p now c) ∙ lose-counters seen id p now c

correlate_each-counters :
    (ids : List String) (ts : List TrelServiceState) (c : Collector)
    → counters (correlate_each ids ts c) ≡ counters c
unfolding correlate_each
correlate_each-counters ids [] c = refl
correlate_each-counters ids (t ∷ ts) c =
    let u = correlate ids t in
    correlate_each-counters ids ts
      (record c { trel_rows = upsert_current_state u.service_id u c.trel_rows })

pub sync-counters :
    (d : Dict (List String)) (now : ℕ) (c : Collector)
    → counters (correlate_trel_services (keys d) (sync_thread_networks d now c)) ≡ counters c
unfolding correlate_trel_services sync_thread_networks
sync-counters d now c =
    let a = see_each d (classify_primary_network (keys d)) now c in
    let b = lose_each (keys d) a.known_networks now a in
    correlate_each-counters (keys d) (values b.trel_rows) b
    ∙ lose_each-counters (keys d) a.known_networks now a
    ∙ see_each-counters d (classify_primary_network (keys d)) now c
