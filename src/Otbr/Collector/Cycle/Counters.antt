-- ===== src/Otbr/Collector/Cycle/Counters.antt =====
-- The counters that `poll_all` of threadlens/collectors/otbr_rest.py leaves.
use threadlens.Prelude.{
  ℕ, ◌+◌, ◌-◌, ◌≡◌, ◌∙◌, refl, ap, ap₂, ◌≤◌, Bool, true, false, ◌&&◌, not, String, Option, none,
  some, List, [], ◌∷◌, arith, if◌then◌else◌, length, count_if, count_if-le-length, is_some,
}
use threadlens.Prelude.Dict.{lookup}
use threadlens.Config.{OtbrConfig}
use threadlens.Model.Capabilities.{OtbrRestCapabilities}
use threadlens.Model.State.{OtbrState}
use threadlens.Otbr.Snapshot.{
  thread_stack_active, differ, ParsedOtbrSnapshot, OtbrReconciliationResult,
}
use threadlens.Otbr.Collector.{
  Collector, Reply, ok, malformed, status, http_error, RefreshEnd, completes, fails, Replies,
  emit_if, mark_unreachable, unreachable_state, store_otbr, was_up, unreachable_event,
  reachable_state,
}
use threadlens.Otbr.Collector.Reachable.{
  apply_reachable_state, report_reachable, reachable_event, role_event, dataset_event,
  dataset_changed,
}
use threadlens.Otbr.Collector.Cycle.{
  poll_one, poll_safely, poll_each, poll_all, Polled, stored, raised, ask_devices, after_devices,
  ask_legacy, poll_node, settle, conclude, configured_from, reconciled, capabilities_of, error_text,
  or_returned, refreshed,
}
use threadlens.Otbr.Collector.Cycle.Laws.{answers, poll_safely-reachable, length-poll_each}
use threadlens.Otbr.Collector.Counters.{counters, emit-counters, emit_if-counters}
use threadlens.Otbr.Collector.Networks.Counters.{sync-counters}

report-counters :
    (config : OtbrConfig) (p : Option OtbrState) (s : OtbrState) (now : ℕ) (c : Collector)
    → counters (report_reachable config p s now c) ≡ counters c
unfolding report_reachable
report-counters config none s now c = emit-counters (reachable_event config now) now c
report-counters config (some p) s now c =
    let a = emit_if (not p.reachable) (reachable_event config now) now c in
    let moved = p.reachable && (differ p.role s.role && is_some s.role) in
    let b = emit_if moved (role_event config p s now) now a in
    emit_if-counters (p.reachable && dataset_changed p s) (dataset_event config p s now) now b
    ∙ emit_if-counters moved (role_event config p s now) now a
    ∙ emit_if-counters (not p.reachable) (reachable_event config now) now c

apply-counters :
    (config : OtbrConfig) (r : OtbrReconciliationResult) (k : OtbrRestCapabilities)
    (e : Option String) (now : ℕ) (c : Collector)
    → counters (apply_reachable_state config r k e now c).1 ≡ counters c
unfolding apply_reachable_state store_otbr
apply-counters config r k e now c =
    let p = lookup config.id c.known_otbrs in
    let s = reachable_state config p r k e now in
    report-counters config p s now (store_otbr config.id s c)

mark-counters :
    (config : OtbrConfig) (e : String) (now : ℕ) (c : Collector)
    → counters (mark_unreachable config e now c).1 ≡ counters c
unfolding mark_unreachable store_otbr
mark-counters config e now c =
    let p = lookup config.id c.known_otbrs in
    emit_if-counters (was_up p) (unreachable_event config e now) now
      (store_otbr config.id (unreachable_state config p e) c)

-- the state of the collector when a poll of one ends, with an exception or without
after : Polled → Collector
after (stored r) = r.1
after (raised e c) = c

refreshed-after : (f : RefreshEnd) (x : OtbrState × Collector) → after (refreshed f x) ≡ x.1
unfolding refreshed after
refreshed-after completes x = refl
refreshed-after (fails e) x = refl

if-counters :
    (b : Bool) (x y : Polled) (c : Collector)
    → counters (after x) ≡ counters c
    → counters (after y) ≡ counters c
    → counters (after (if b then x else y)) ≡ counters c
if-counters true x y c h k = h
if-counters false x y c h k = k

conclude-counters :
    (config : OtbrConfig) (n : ParsedOtbrSnapshot) (d l : Option ParsedOtbrSnapshot)
    (f : RefreshEnd) (e : Option String) (now : ℕ) (c : Collector)
    → counters (after (conclude config n d l f e now c)) ≡ counters c
unfolding conclude after
conclude-counters config n d l f e now c =
    let r = reconciled n d l c.use_legacy_node_fallback in
    let k = capabilities_of r (is_some d) in
    let x = apply_reachable_state config r k e now c in
    let h = apply-counters config r k e now c in
    if-counters
      (c.allow_read_only_actions && (is_some d && thread_stack_active r.snapshot.thread_state))
      (refreshed f x) (stored x) c (ap counters (refreshed-after f x) ∙ h) h

legacy-counters :
    (config : OtbrConfig) (r : Reply) (f : RefreshEnd) (n : ParsedOtbrSnapshot)
    (d : Option ParsedOtbrSnapshot) (e : Option String) (now : ℕ) (c : Collector)
    → counters (after (ask_legacy config r f n d e now c)) ≡ counters c
unfolding ask_legacy after
legacy-counters config (ok s) f n d e now c = conclude-counters config n d (some s) f e now c
legacy-counters config (malformed x) f n d e now c = refl
legacy-counters config (status k) f n d e now c =
    conclude-counters config n d none f (or_returned e "/node" k) now c
legacy-counters config (http_error x) f n d e now c = conclude-counters config n d none f e now c

after-counters :
    (config : OtbrConfig) (r : Replies) (n d : Option ParsedOtbrSnapshot) (e : Option String)
    (now : ℕ) (c : Collector)
    → counters (after (after_devices config r n d e now c)) ≡ counters c
unfolding after_devices after
after-counters config r none d e now c = mark-counters config (error_text e) now c
after-counters config r (some n) d e now c =
    if-counters c.use_legacy_node_fallback
      (ask_legacy config r.legacy r.inventory_refresh n d e now c)
      (conclude config n d none r.inventory_refresh e now c) c
      (legacy-counters config r.legacy r.inventory_refresh n d e now c)
      (conclude-counters config n d none r.inventory_refresh e now c)

devices-counters :
    (config : OtbrConfig) (r : Replies) (d : Reply) (n : Option ParsedOtbrSnapshot)
    (e : Option String) (now : ℕ) (c : Collector)
    → counters (after (ask_devices config r d n e now c)) ≡ counters c
unfolding ask_devices after
devices-counters config r (ok s) n e now c = after-counters config r n (some s) e now c
devices-counters config r (malformed x) n e now c = refl
devices-counters config r (status k) n e now c =
    after-counters config r n none (or_returned e "/api/devices" k) now c
devices-counters config r (http_error x) n e now c = after-counters config r n none e now c

poll-counters :
    (config : OtbrConfig) (r : Replies) (n : Reply) (now : ℕ) (c : Collector)
    → counters (after (poll_node config r n now c)) ≡ counters c
unfolding poll_node after
poll-counters config r (ok s) now c = devices-counters config r r.devices (some s) none now c
poll-counters config r (malformed x) now c = refl
poll-counters config r (status k) now c =
    devices-counters config r r.devices none (or_returned none "/api/node" k) now c
poll-counters config r (http_error x) now c = mark-counters config x now c

settle-counters :
    (config : OtbrConfig) (p : Polled) (now : ℕ) (c : Collector)
    → counters (after p) ≡ counters c
    → counters (settle config p now).1 ≡ counters c
unfolding settle after
settle-counters config (stored r) now c h = h
settle-counters config (raised e k) now c h = mark-counters config e now k ∙ h

safely-counters :
    (config : OtbrConfig) (r : Replies) (now : ℕ) (c : Collector)
    → counters (poll_safely config r now c).1 ≡ counters c
unfolding poll_safely poll_one
safely-counters config r now c =
    settle-counters config (poll_node config r r.node now c) now c
      (poll-counters config r r.node now c)

count-poll_each :
    (ask : OtbrConfig → Replies) (configs : List OtbrConfig) (now : ℕ) (c : Collector) (f g : Bool)
    → c.use_legacy_node_fallback ≡ f
    → c.allow_read_only_actions ≡ g
    → count_if (λ s. s.reachable) (poll_each ask configs now c).0
      ≡ count_if (λ config. answers (ask config) f g) configs
unfolding poll_each
count-poll_each ask [] now c f g h k = refl
count-poll_each ask (config ∷ configs) now c f g h k =
    let a = (poll_safely config (ask config) now c).1 in
    let same = safely-counters config (ask config) now c in
    ap₂ (λ b n. (if b then 1 else 0) + n)
      (poll_safely-reachable config (ask config) now c ∙ ap₂ (answers (ask config)) h k)
      (count-poll_each ask configs now a f g (ap (λ t. t.0) same ∙ h) (ap (λ t. t.1) same ∙ k))

-- A poll counts each configured border router once: as reachable, those whose answers say so, and
-- as unreachable, the others.
pub poll_all-counts :
    (ask : OtbrConfig → Replies) (configs : List OtbrConfig) (now : ℕ) (c : Collector)
    → ((poll_all ask configs now c).1.reachable_count
        ≡ count_if
            (λ config. answers (ask config) c.use_legacy_node_fallback c.allow_read_only_actions)
            configs)
      × ((poll_all ask configs now c).1.reachable_count
            + (poll_all ask configs now c).1.unreachable_count
          ≡ length configs)
unfolding poll_all
poll_all-counts ask configs now c = (
  reached
      ∙ count-poll_each ask configs now start c.use_legacy_node_fallback c.allow_read_only_actions
          refl refl,
  ap₂ (λ m n. m + n) reached (ap (λ k. k.3) same)
      ∙ split (count_if (λ s. s.reachable) polled.0) (length polled.0)
          (count_if-le-length (λ s. s.reachable) polled.0)
      ∙ length-poll_each ask configs now start,
)
  where
    start : Collector
    start = record c { last_poll_at = some now }

    polled : List OtbrState × Collector
    polled = poll_each ask configs now start

    counted : Collector
    counted = record polled.1 {
      reachable_count = count_if (λ s. s.reachable) polled.0;
      unreachable_count = length polled.0 - count_if (λ s. s.reachable) polled.0;
    }

    same : counters (poll_all ask configs now c).1 ≡ counters counted
    same = sync-counters (configured_from polled.0 []) now counted

    reached : (poll_all ask configs now c).1.reachable_count ≡ counted.reachable_count
    reached = ap (λ k. k.2) same

    split : (m n : ℕ) → m ≤ n → m + (n - m) ≡ n
    split m n h = omega arith
