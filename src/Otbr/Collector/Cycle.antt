-- ===== src/Otbr/Collector/Cycle.antt =====
-- `poll_one`, `_apply_reachable_state` and `poll_all` of threadlens/collectors/otbr_rest.py.
pub mod Laws
pub mod Counters
pub mod Visible
use threadlens.Prelude.{
  ℕ, ◌-◌, Bool, true, false, ◌&&◌, ◌||◌, not, String, Option, none, some, List, [], ◌∷◌, ◌==◌, join,
  show_ℕ, is_some, non_blank, or_text, if◌then◌else◌, length, count_if, add_new, contains,
}
use threadlens.Prelude.Dict.{Dict, lookup, insert, keys}
use threadlens.Prelude.Codes.{eq_ℕ}
use threadlens.Config.{OtbrConfig}
use threadlens.Model.Capabilities.{OtbrRestCapabilities}
use threadlens.Model.Events.{Event, EventSeverity, Datum}
use threadlens.Model.State.{OtbrState}
use threadlens.Otbr.Snapshot.{
  ParsedOtbrSnapshot, OtbrReconciliationResult, no_snapshot, merge_snapshots,
  reconcile_otbr_snapshots, thread_stack_active, differ,
}
use threadlens.Otbr.Collector.{
  Collector, Reply, ok, malformed, status, http_error, RefreshEnd, completes, fails, Replies, emit,
  emit_if, otbr_event, store_otbr, mark_unreachable, reachable_state,
}
use threadlens.Otbr.Collector.Networks.{sync_thread_networks, correlate_trel_services}
use threadlens.Otbr.Collector.Reachable.{apply_reachable_state}

-- How `poll_one` ends: with the state it stored, or with an exception and the collector then.
pub data Polled : Type 0 where
  stored : OtbrState × Collector → Polled
  raised : String → Collector → Polled

-- `if last_error is None: last_error = f"{path} returned {code}"`
abbrev pub or_returned : Option String → String → ℕ → Option String
or_returned none path code = some (join (path ∷ " returned " ∷ show_ℕ code ∷ []))
or_returned (some e) path code = some e

abbrev pub capabilities_of : OtbrReconciliationResult → Bool → OtbrRestCapabilities
capabilities_of r devices_ok = record {
  rest_available = true;
  network_dataset_available = is_some r.snapshot.ext_pan_id;
  thread_stack_active = thread_stack_active r.snapshot.thread_state;
  legacy_node_available = r.legacy_node_available;
  json_api_state_stale = r.json_api_state_stale;
  topology_available = devices_ok;
  network_diagnostics_available = false;
  device_inventory_available = devices_ok && is_some r.snapshot.device_count;
}

abbrev pub snapshot_of : Option ParsedOtbrSnapshot → ParsedOtbrSnapshot
snapshot_of none = no_snapshot
snapshot_of (some s) = s

abbrev pub reconciled :
    ParsedOtbrSnapshot
    → Option ParsedOtbrSnapshot
    → Option ParsedOtbrSnapshot
    → Bool
    → OtbrReconciliationResult
reconciled node devices legacy use_legacy_fallback =
    reconcile_otbr_snapshots (merge_snapshots (node ∷ snapshot_of devices ∷ [])) legacy
      (is_some legacy) use_legacy_fallback

-- the end of a poll, behind the refresh of the device inventory
refreshed : RefreshEnd → OtbrState × Collector → Polled
refreshed completes result = stored result
refreshed (fails e) result = raised e result.1

conclude :
    OtbrConfig
    → ParsedOtbrSnapshot
    → Option ParsedOtbrSnapshot
    → Option ParsedOtbrSnapshot
    → RefreshEnd
    → Option String
    → ℕ
    → Collector
    → Polled
unfolding apply_reachable_state merge_snapshots reconcile_otbr_snapshots thread_stack_active
    refreshed
conclude config node devices legacy refresh last_error now c =
    let r = reconciled node devices legacy c.use_legacy_node_fallback in
    let result =
      apply_reachable_state config r (capabilities_of r (is_some devices)) last_error now c in
    if c.allow_read_only_actions && (is_some devices && thread_stack_active r.snapshot.thread_state)
    then refreshed refresh result
    else stored result

-- the third request, which is made only with the fallback on
ask_legacy :
    OtbrConfig
    → Reply
    → RefreshEnd
    → ParsedOtbrSnapshot
    → Option ParsedOtbrSnapshot
    → Option String
    → ℕ
    → Collector
    → Polled
unfolding conclude
ask_legacy config (ok s) refresh node devices last_error now c =
    conclude config node devices (some s) refresh last_error now c
ask_legacy config (malformed e) refresh node devices last_error now c = raised e c
ask_legacy config (status code) refresh node devices last_error now c =
    conclude config node devices none refresh (or_returned last_error "/node" code) now c
ask_legacy config (http_error e) refresh node devices last_error now c =
    conclude config node devices none refresh last_error now c

-- `last_error or "unreachable"`
abbrev pub error_text : Option String → String
error_text last_error = elim (non_blank last_error) [ none ↦ "unreachable" | some e ↦ e ]

after_devices :
    OtbrConfig
    → Replies
    → Option ParsedOtbrSnapshot
    → Option ParsedOtbrSnapshot
    → Option String
    → ℕ
    → Collector
    → Polled
unfolding conclude ask_legacy mark_unreachable
after_devices config replies none devices last_error now c =
    stored (mark_unreachable config (error_text last_error) now c)
after_devices config replies (some node) devices last_error now c =
    if c.use_legacy_node_fallback
    then ask_legacy config replies.legacy replies.inventory_refresh node devices last_error now c
    else conclude config node devices none replies.inventory_refresh last_error now c

ask_devices :
    OtbrConfig
    → Replies
    → Reply
    → Option ParsedOtbrSnapshot
    → Option String
    → ℕ
    → Collector
    → Polled
unfolding after_devices
ask_devices config replies (ok s) answer last_error now c =
    after_devices config replies answer (some s) last_error now c
ask_devices config replies (malformed e) answer last_error now c = raised e c
ask_devices config replies (status code) answer last_error now c =
    after_devices config replies answer none (or_returned last_error "/api/devices" code) now c
ask_devices config replies (http_error e) answer last_error now c =
    after_devices config replies answer none last_error now c

poll_node : OtbrConfig → Replies → Reply → ℕ → Collector → Polled
unfolding ask_devices mark_unreachable
poll_node config replies (ok s) now c =
    ask_devices config replies replies.devices (some s) none now c
poll_node config replies (malformed e) now c = raised e c
poll_node config replies (status code) now c =
    ask_devices config replies replies.devices none (or_returned none "/api/node" code) now c
poll_node config replies (http_error e) now c = stored (mark_unreachable config e now c)

unfoldable pub poll_one : OtbrConfig → Replies → ℕ → Collector → Polled
unfolding poll_node
poll_one config replies now c = poll_node config replies replies.node now c

-- `except Exception` in the loop of `poll_all`
settle : OtbrConfig → Polled → ℕ → OtbrState × Collector
unfolding mark_unreachable
settle config (stored result) now = result
settle config (raised e c) now = mark_unreachable config e now c

unfoldable pub poll_safely : OtbrConfig → Replies → ℕ → Collector → OtbrState × Collector
unfolding poll_one settle
poll_safely config replies now c = settle config (poll_one config replies now c) now

-- the loop, with the answers that each border router gives
unfoldable pub poll_each :
    (OtbrConfig → Replies) → List OtbrConfig → ℕ → Collector → List OtbrState × Collector
unfolding poll_safely
poll_each ask [] now c = ([], c)
poll_each ask (config ∷ configs) now c =
    let (state, a) = poll_safely config (ask config) now c in
    let (states, b) = poll_each ask configs now a in (state ∷ states, b)

-- `configured_ext_pan_ids.setdefault(ext_pan_id, set()).add(id)`
add_id : String → String → Dict (List String) → Dict (List String)
unfolding add_new
add_id ext_pan_id id d =
    insert ext_pan_id (add_new (elim (lookup ext_pan_id d) [ none ↦ [] | some ids ↦ ids ]) id) d

add_configured : OtbrState → Dict (List String) → Dict (List String)
unfolding add_id
add_configured state d = elim (non_blank state.ext_pan_id) [
  | none ↦ d
  | some x ↦ if state.reachable then add_id x state.id d else d
]

unfoldable pub configured_from : List OtbrState → Dict (List String) → Dict (List String)
unfolding add_configured
configured_from [] d = d
configured_from (state ∷ states) d = configured_from states (add_configured state d)

unfoldable pub poll_all :
    (OtbrConfig → Replies) → List OtbrConfig → ℕ → Collector → List OtbrState × Collector
unfolding poll_each configured_from sync_thread_networks correlate_trel_services
poll_all ask configs now c =
    let (states, a) = poll_each ask configs now (record c { last_poll_at = some now }) in
    let up = count_if (λ s. s.reachable) states in
    let counted = record a { reachable_count = up; unreachable_count = length states - up } in
    let configured = configured_from states [] in
    (
      states,
      correlate_trel_services (keys configured) (sync_thread_networks configured now counted),
    )
