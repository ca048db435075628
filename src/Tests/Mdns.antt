-- ===== src/Tests/Mdns.antt =====
-- The mDNS observer.
use threadlens.Prelude.{◌≡◌, refl, true, none, some, List, [], ◌∷◌, ℕ}
use threadlens.Prelude.Dict.{lookup}
use threadlens.Storage.Table.{get_current_state}
use threadlens.Debounce.{event_debouncer}
use threadlens.Mdns.Record.{NormalizedMdnsRecord}
use threadlens.Mdns.Observer.{
  Observer, Callback, added, updated, removed, process_service_added, run_callbacks,
}
use threadlens.Mdns.Observer.Stores.{IsPersisted}
use threadlens.Mdns.Observer.Laws.{run_callbacks-IsPersisted, process_service_added-twice}

abbrev start : Observer
start = record {
  debouncer = event_debouncer 30;
  known_mdns = [];
  known_trel = [];
  running = true;
  observation_degraded = none;
  mdns_rows = [];
  trel_rows = [];
  events = [];
}

abbrev announced : NormalizedMdnsRecord
announced = record {
  service_id = "trel-1";
  service_type = "_trel._udp.local.";
  instance_name = "Kitchen";
  hostname = some "kitchen.local.";
  addresses = "fd00::2" ∷ "fd00::1" ∷ [];
  port = some 12_345;
  txt_records = ("xp", "dead00beef00cafe") ∷ ("xa", "0011223344556677") ∷ [];
  raw_properties = none;
}

abbrev moved : NormalizedMdnsRecord
moved = record announced { port = some 54_321 }

start-IsPersisted : IsPersisted start
unfolding lookup get_current_state
start-IsPersisted = record { keyed = λ id s h. cc; stored = λ id. refl }

abbrev trace : List (Callback × ℕ)
trace =
    (added announced, 1_000_000)
    ∷ (updated moved, 2_000_000)
    ∷ (removed moved, 90_000_000)
    ∷ (added announced, 99_000_000)
    ∷ []

run_callbacks-IsPersisted_example : IsPersisted (run_callbacks trace start)
run_callbacks-IsPersisted_example = run_callbacks-IsPersisted trace start start-IsPersisted

abbrev after : Observer
after = process_service_added announced 1_000_000 start

process_service_added-twice_example :
    (process_service_added announced 90_000_000 after).events ≡ after.events
process_service_added-twice_example =
    process_service_added-twice announced 1_000_000 90_000_000 start (refl, (refl, tt))
