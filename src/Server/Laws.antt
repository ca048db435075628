-- ===== src/Server/Laws.antt =====
-- What an answer of threadlens/server/summary.py holds.
use threadlens.Prelude.{ℕ, ◌-◌, ◌≡◌, refl, true, String, Option, some, List, All, length}
use threadlens.Model.Events.{Event}
use threadlens.Storage.Events.{matches}
use threadlens.Storage.Events.Laws.{IsOrdered, get_events-IsOrdered_matching}
use threadlens.Server.{
  parse_window, EventsPayload, payload, bounded_limit, events_query, build_events_payload,
}

-- For either window the answer holds the events in the order of their times, and each matches the
-- query from the beginning of the window on.
pub build_events_payload-IsOrdered :
    (window : String) (delta limit now : ℕ) (subject_type subject_id event_type : Option String)
    (table : List Event)
    → parse_window window ≡ some delta
    → (p : EventsPayload) × (build_events_payload window limit subject_type subject_id event_type
          now table
        ≡ payload p)
      × (p.count ≡ length p.events)
      × IsOrdered p.events
      × All
          (λ e. matches (events_query subject_type subject_id event_type (now - delta)) e ≡ true)
          p.events
unfolding build_events_payload
build_events_payload-IsOrdered window delta limit now subject_type subject_id event_type table h =
    let q = events_query subject_type subject_id event_type (now - delta) in
    let k = get_events-IsOrdered_matching q (some (bounded_limit limit)) table in
    rw (build_events_payload, h) (_, refl, refl, k.0, k.1)
