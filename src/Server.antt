-- ===== src/Server.antt =====
-- The events of a window, as the web server answers them: `parse_window` of
-- threadlens/report/window.py and `build_events_payload` of threadlens/server/summary.py.
pub mod Laws
use threadlens.Prelude.{
  ℕ, ◌-◌, ◌*◌, String, Option, none, some, List, [], ◌∷◌, ◌==◌, leb, ltb, length, join,
  if◌then◌else◌,
}
use threadlens.Model.Events.{Event}
use threadlens.Storage.Events.{EventQuery, any_event, get_events, day}

-- `none` is the `ValueError`
unfoldable pub parse_window : String → Option ℕ
parse_window window =
    if window == "24h" then some day else if window == "7d" then some (7 * day) else none

pub record EventsPayload : Type 0 where
  pub window : String
  pub since : ℕ
  pub count : ℕ
  pub events : List Event

-- the answer, or the status and the text of an `HTTPException`
pub data EventsReply : Type 0 where
  http_exception : ℕ → String → EventsReply
  payload : EventsPayload → EventsReply

-- `max(1, min(limit, 500))`
unfoldable pub bounded_limit : ℕ → ℕ
bounded_limit limit = if leb limit 1 then 1 else if ltb limit 500 then limit else 500

unfoldable pub events_query : Option String → Option String → Option String → ℕ → EventQuery
events_query subject_type subject_id event_type since = record any_event {
  subject_type = subject_type;
  subject_id = subject_id;
  event_type = event_type;
  since = some since;
}

unfoldable pub build_events_payload :
    String → ℕ → Option String → Option String → Option String → ℕ → List Event → EventsReply
unfolding parse_window bounded_limit events_query
build_events_payload window limit subject_type subject_id event_type now table =
    elim (parse_window window) [
      | none ↦ http_exception 400 (join ("Unsupported window: " ∷ window ∷ []))
      | some delta ↦
          let since = now - delta in
          let events =
            get_events (events_query subject_type subject_id event_type since)
              (some (bounded_limit limit)) table in
          payload
            (record { window = window; since = since; count = length events; events = events })
    ]
