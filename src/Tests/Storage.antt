-- ===== src/Tests/Storage.antt =====
-- The tables, the debouncer and the identifiers.
use threadlens.Prelude.{
  if◌then◌else◌, ℕ, ◌*◌, ◌+◌, arith, ◌≡◌, refl, none, some, List, [], ◌∷◌, String,
}
use threadlens.Prelude.Codes
use threadlens.Debounce.{event_debouncer}
use threadlens.Debounce.Trace.{emissions, IsSpaced, emissions-IsSpaced}
use threadlens.Ids.{normalize_ext_pan_id, normalize_mac_address}
use threadlens.Ids.Laws.{normalize_mac_address_idem}
use threadlens.Model.Events.{Event, EventSourceType, EventSeverity, EventSubjectType}
use threadlens.Storage.Events.{EventQuery, any_event, count_events, cleanup_events, day}
use threadlens.Storage.Aggregates.{
  Bucket, Aggregate, AggregateQuery, increment_aggregate, get_aggregates, selects,
}
use threadlens.Storage.Aggregates.Laws.{total, total-get_aggregates}
use threadlens.Storage.Events.Retention.{count_events-cleanup}

abbrev seen_at : ℕ → Event
seen_at t = record {
  timestamp = t;
  source_type = EventSourceType.mdns;
  source_id = "trel-1";
  event_type = "trel.service_added";
  severity = EventSeverity.info;
  subject_type = EventSubjectType.trel_service;
  subject_id = "trel_service:trel-1";
  message = "seen";
  details = [];
}

abbrev table : List Event
table = seen_at (9 * day) ∷ seen_at (2 * day) ∷ seen_at (8 * day) ∷ []

abbrev recent : EventQuery
recent = record any_event { since = some (8 * day) }

count_events-cleanup_example :
    count_events recent (cleanup_events (10 * day) 7 table).0 ≡ count_events recent table
count_events-cleanup_example =
    count_events-cleanup (10 * day) 7 recent (8 * day) table refl (omega arith)

abbrev calls : List (String × ℕ)
calls = ("a", 100) ∷ ("b", 200) ∷ ("a", 300) ∷ ("a", 40_000_000) ∷ []

emissions-IsSpaced_example : IsSpaced 30 (emissions (event_debouncer 30) calls)
emissions-IsSpaced_example = emissions-IsSpaced (event_debouncer 30) calls

read_ext_pan_id : normalize_ext_pan_id (some " 0xDE:AD:00:BE:EF:00:CA:FE") ≡ some "dead00beef00cafe"
unfolding normalize_ext_pan_id Codes.length
read_ext_pan_id = refl

read_mac : normalize_mac_address (some "AA-BB-CC-00-11-22") ≡ some "aa:bb:cc:00:11:22"
unfolding normalize_mac_address Codes.length
read_mac = refl

normalize_mac_address_idem_example :
    normalize_mac_address (some "aa:bb:cc:00:11:22") ≡ some "aa:bb:cc:00:11:22"
normalize_mac_address_idem_example =
    normalize_mac_address_idem (some "AA-BB-CC-00-11-22") "aa:bb:cc:00:11:22" read_mac

abbrev bucket : ℕ → Bucket
bucket start = record {
  bucket_start = start;
  bucket_size = "hour";
  metric = "flaps";
  subject_type = "mdns_service";
  subject_id = "trel-1";
}

abbrev sums : List Aggregate
sums = record { bucket = bucket 0; count = 2; data_json = "{}" } ∷ []

abbrev any_flaps : AggregateQuery
any_flaps = record {
  bucket_size = none;
  metric = some "flaps";
  subject_type = none;
  subject_id = none;
  since = some 0;
  until = none;
}

total-get_aggregates_example :
    total (get_aggregates any_flaps (increment_aggregate (bucket 0) 3 "{}" sums))
    ≡ total (get_aggregates any_flaps sums) + (if selects any_flaps (bucket 0) then 3 else 0)
total-get_aggregates_example = total-get_aggregates any_flaps (bucket 0) 3 "{}" sums
