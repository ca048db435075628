-- ===== src/Tests/Otbr.antt =====
-- The border router collector.
use threadlens.Prelude.{
  anyb, ◌+◌, ◌≡◌, true, none, some, [], ◌∷◌, if◌then◌else◌, ◌==◌, count_if, length, is_some, ℕ,
  arith,
}
use threadlens.Prelude.Dict.{lookup}
use threadlens.Config.{OtbrConfig}
use threadlens.Debounce.{event_debouncer}
use threadlens.Otbr.Snapshot.{ParsedOtbrSnapshot, no_snapshot}
use threadlens.Prelude.Json.{Json, Fields}
use threadlens.Otbr.Action.{ActionReply, wait_for_action, wait_for_action-ends}
use threadlens.Otbr.Collector.{Collector, Replies, ok, malformed, status, completes, fails}
use threadlens.Otbr.Collector.Networks.Laws.{shown}
use threadlens.Otbr.Collector.Cycle.{poll_all}
use threadlens.Otbr.Collector.Cycle.Laws.{answers}
use threadlens.Otbr.Collector.Cycle.Visible.{poll_all-visible, reports}
use threadlens.Otbr.Collector.Cycle.Counters.{poll_all-counts}
use threadlens.Tests.Data.{kitchen, attic, kitchen_state, home_network, foreign_trel, network_id}

abbrev stale : ParsedOtbrSnapshot
stale = record no_snapshot { thread_state = some "disabled"; ext_pan_id = some network_id }

abbrev active : ParsedOtbrSnapshot
active = record no_snapshot { thread_state = some "router"; channel = some 15 }

abbrev start : Collector
start = record {
  use_legacy_node_fallback = true;
  allow_read_only_actions = true;
  debouncer = event_debouncer 30;
  known_otbrs = ("kitchen", kitchen_state) ∷ [];
  known_networks = (network_id, home_network) ∷ [];
  last_poll_at = none;
  reachable_count = 0;
  unreachable_count = 0;
  otbr_rows = ("kitchen", kitchen_state) ∷ [];
  network_rows = (network_id, home_network) ∷ [];
  trel_rows = ("trel-1", foreign_trel) ∷ [];
  events = [];
}

abbrev good : Replies
good = record {
  node = ok stale;
  devices = status 404;
  legacy = ok active;
  inventory_refresh = completes;
}

-- its devices are read, its stack is active, and the refresh of its inventory fails
abbrev refreshing : Replies
refreshing = record {
  node = ok active;
  devices = ok active;
  legacy = ok active;
  inventory_refresh = fails "x";
}

abbrev broken : Replies
broken = record {
  node = ok stale;
  devices = malformed "Expecting value";
  legacy = ok active;
  inventory_refresh = completes;
}

abbrev ask : OtbrConfig → Replies
ask config =
    if config.id == "kitchen" then good else if config.id == "attic" then refreshing else broken

poll_all-counts_example :
    ((poll_all ask (kitchen ∷ attic ∷ []) 6_000_000 start).1.reachable_count
      ≡ count_if (λ config. answers (ask config) true true) (kitchen ∷ attic ∷ []))
    × ((poll_all ask (kitchen ∷ attic ∷ []) 6_000_000 start).1.reachable_count
          + (poll_all ask (kitchen ∷ attic ∷ []) 6_000_000 start).1.unreachable_count
        ≡ length (kitchen ∷ attic ∷ []))
poll_all-counts_example = poll_all-counts ask (kitchen ∷ attic ∷ []) 6_000_000 start

poll_all-visible_example :
    shown (lookup network_id (poll_all ask (kitchen ∷ attic ∷ []) 6_000_000 start).1.known_networks)
    ≡ anyb (reports network_id) (poll_all ask (kitchen ∷ attic ∷ []) 6_000_000 start).0
poll_all-visible_example = poll_all-visible ask (kitchen ∷ attic ∷ []) 6_000_000 start network_id

-- an action that runs whenever it is asked for
abbrev still_running : ℕ → ActionReply
still_running t = ActionReply.answers 200 (
    Json.object (
      Fields.field "data"
        (Json.object (
          Fields.field "attributes"
            (Json.object (Fields.field "status" (Json.str "active") Fields.end)) Fields.end))
        Fields.end))

wait_for_action-ends_example :
    is_some (wait_for_action still_running (λ t. t + 1) 31 130 100) ≡ true
wait_for_action-ends_example =
    wait_for_action-ends still_running (λ t. t + 1) 30 130 100 (λ t. omega arith) (omega arith)
