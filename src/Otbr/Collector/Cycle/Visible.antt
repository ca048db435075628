-- ===== src/Otbr/Collector/Cycle/Visible.antt =====
-- Which Thread networks `poll_all` of threadlens/collectors/otbr_rest.py leaves visible.
use threadlens.Prelude.{
  ℕ, ◌≡◌, ◌∙◌, refl, ap, Bool, false, ◌&&◌, ◌||◌, String, Option, none, some, List, [], ◌∷◌, arith,
  if◌then◌else◌, anyb, ◌==◌, non_blank, contains, add_new, length, ◌-◌, count_if,
}
use threadlens.Prelude.Dict.{Dict, lookup, keys, values, contains-keys-insert}
use threadlens.Config.{OtbrConfig}
use threadlens.Storage.Table.{upsert_current_state}
use threadlens.Model.State.{OtbrState, TrelServiceState}
use threadlens.Otbr.Collector.{Collector, Replies}
use threadlens.Otbr.Collector.Networks.{
  sync_thread_networks, correlate, correlate_each, correlate_trel_services,
}
use threadlens.Otbr.Collector.Networks.Laws.{shown, sync_thread_networks-visible}
use threadlens.Otbr.Collector.Cycle.{poll_each, poll_all, add_id, add_configured, configured_from}

-- A text that is present, not blank, and the one sought.
abbrev is_id : String → Option String → Bool
is_id j none = false
is_id j (some x) = j == x

-- A reachable border router that reports the network.
abbrev pub reports : String → OtbrState → Bool
reports j s = s.reachable && is_id j (non_blank s.ext_pan_id)

keys-add_id :
    (j x id : String) (d : Dict (List String))
    → contains j (keys (add_id x id d)) ≡ (j == x || contains j (keys d))
unfolding add_id
keys-add_id j x id d =
    contains-keys-insert x j (add_new (elim (lookup x d) [ none ↦ [] | some ids ↦ ids ]) id) d

keys-add_text :
    (j : String) (s : OtbrState) (o : Option String) (d : Dict (List String))
    → contains j (keys (elim o [ none ↦ d | some x ↦ if s.reachable then add_id x s.id d else d ]))
      ≡ ((s.reachable && is_id j o) || contains j (keys d))
keys-add_text j s none d = ground arith
keys-add_text j s (some x) d = ground (arith, keys-add_id j x s.id d)

keys-configured :
    (j : String) (states : List OtbrState) (d : Dict (List String))
    → contains j (keys (configured_from states d))
      ≡ (anyb (reports j) states || contains j (keys d))
unfolding configured_from add_configured
keys-configured j [] d = refl
keys-configured j (s ∷ states) d = ground (
  arith,
  keys-configured j states (add_configured s d),
  keys-add_text j s (non_blank s.ext_pan_id) d,
)

correlate_each-networks :
    (ids : List String) (ts : List TrelServiceState) (c : Collector)
    → (correlate_each ids ts c).known_networks ≡ c.known_networks
unfolding correlate_each
correlate_each-networks ids [] c = refl
correlate_each-networks ids (t ∷ ts) c =
    let u = correlate ids t in
    correlate_each-networks ids ts
      (record c { trel_rows = upsert_current_state u.service_id u c.trel_rows })

-- After a poll a Thread network is known as visible exactly if a border router that this poll found
-- reachable reports it; one that was visible and is not reported any more is not.
pub poll_all-visible :
    (ask : OtbrConfig → Replies) (configs : List OtbrConfig) (now : ℕ) (c : Collector) (j : String)
    → shown (lookup j (poll_all ask configs now c).1.known_networks)
      ≡ anyb (reports j) (poll_all ask configs now c).0
unfolding poll_all correlate_trel_services
poll_all-visible ask configs now c j =
    let start : Collector = record c { last_poll_at = some now } in
    let polled = poll_each ask configs now start in
    let up = count_if (λ s. s.reachable) polled.0 in
    let counted : Collector = record polled.1 {
      reachable_count = up;
      unreachable_count = length polled.0 - up;
    } in
    let d = configured_from polled.0 [] in
    let synced = sync_thread_networks d now counted in
    ap (λ m. shown (lookup j m)) (correlate_each-networks (keys d) (values synced.trel_rows) synced)
    ∙ sync_thread_networks-visible j d now counted
    ∙ keys-configured j polled.0 []
    ∙ ground arith
