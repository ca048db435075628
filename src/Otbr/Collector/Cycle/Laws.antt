-- ===== src/Otbr/Collector/Cycle/Laws.antt =====
-- What a poll of threadlens/collectors/otbr_rest.py establishes.
use threadlens.Prelude.{
  ℕ, ◌≡◌, ◌∙◌, refl, ap, Bool, true, false, ◌&&◌, String, Option, none, some, List, [], ◌∷◌, arith,
  if◌then◌else◌, length, eq_refl, is_some,
}
use threadlens.Prelude.Dict.{lookup, lookup-insert}
use threadlens.Config.{OtbrConfig}
use threadlens.Model.Events.{Event}
use threadlens.Model.Capabilities.{OtbrRestCapabilities}
use threadlens.Otbr.Snapshot.{ParsedOtbrSnapshot, OtbrReconciliationResult, thread_stack_active}
use threadlens.Model.State.{OtbrState}
use threadlens.Otbr.Collector.{
  Collector, Reply, ok, malformed, status, http_error, RefreshEnd, completes, fails, Replies, emit,
  emit_if, unreachable_event, mark_unreachable, unreachable_state, store_otbr, was_up,
  reachable_state,
}
use threadlens.Otbr.Collector.Reachable.{apply_reachable_state}
use threadlens.Otbr.Collector.Cycle.{
  poll_one, poll_safely, poll_each, Polled, stored, raised, ask_devices, after_devices, ask_legacy,
  poll_node, settle, error_text, or_returned, reconciled, capabilities_of, conclude, refreshed,
}

-- Whether a border router counts as reachable: `/api/node` gives a body that is read, no later body
-- that is asked for fails to be read, and the refresh of the inventory, where it is run, completes.
abbrev readable : Reply → Bool
readable (malformed _) = false
readable _ = true

abbrev is_ok : Reply → Bool
is_ok (ok _) = true
is_ok _ = false

abbrev body : Reply → Option ParsedOtbrSnapshot
body (ok s) = some s
body _ = none

abbrev completed : RefreshEnd → Bool
completed completes = true
completed (fails e) = false

-- The refresh is run where the actions are allowed, the devices were read, and the stack is active.
abbrev concluded :
    Bool
    → Bool
    → ParsedOtbrSnapshot
    → Option ParsedOtbrSnapshot
    → Option ParsedOtbrSnapshot
    → RefreshEnd
    → Bool
concluded fallback actions n d l refresh =
    if actions
      && (is_some d && thread_stack_active (reconciled n d l fallback).snapshot.thread_state)
    then completed refresh
    else true

abbrev with_node :
    Replies → Bool → Bool → Option ParsedOtbrSnapshot → Option ParsedOtbrSnapshot → Bool
with_node r fallback actions none d = false
with_node r fallback actions (some n) d =
    if fallback
    then readable r.legacy && concluded fallback actions n d (body r.legacy) r.inventory_refresh
    else concluded fallback actions n d none r.inventory_refresh

abbrev pub answers : Replies → Bool → Bool → Bool
answers r fallback actions =
    is_ok r.node
    && (readable r.devices && with_node r fallback actions (body r.node) (body r.devices))

unreachable-down :
    (config : OtbrConfig) (p : Option OtbrState) (e : String)
    → (unreachable_state config p e).reachable ≡ false
unfolding unreachable_state
unreachable-down config none e = refl
unreachable-down config (some p) e = refl

mark-down :
    (config : OtbrConfig) (e : String) (now : ℕ) (c : Collector)
    → (mark_unreachable config e now c).0.reachable ≡ false
unfolding mark_unreachable
mark-down config e now c = unreachable-down config (lookup config.id c.known_otbrs) e

-- A poll that ends with an exception is reported as unreachable by `poll_all`.
up : Polled → Bool
up (stored r) = r.0.reachable
up (raised e c) = false

reachable-up :
    (config : OtbrConfig) (p : Option OtbrState) (r : OtbrReconciliationResult)
    (k : OtbrRestCapabilities) (e : Option String) (now : ℕ)
    → (reachable_state config p r k e now).reachable ≡ true
unfolding reachable_state
reachable-up config none r k e now = refl
reachable-up config (some p) r k e now = refl

refreshed-up :
    (r : RefreshEnd) (x : OtbrState × Collector)
    → x.0.reachable ≡ true
    → up (refreshed r x) ≡ completed r
unfolding refreshed up
refreshed-up completes x h = h
refreshed-up (fails e) x h = refl

up-if :
    (b : Bool) (x y : Polled) (p q : Bool)
    → up x ≡ p
    → up y ≡ q
    → up (if b then x else y) ≡ (if b then p else q)
up-if true x y p q h k = h
up-if false x y p q h k = k

conclude-up :
    (config : OtbrConfig) (n : ParsedOtbrSnapshot) (d l : Option ParsedOtbrSnapshot)
    (f : RefreshEnd) (e : Option String) (now : ℕ) (c : Collector)
    → up (conclude config n d l f e now c)
      ≡ concluded c.use_legacy_node_fallback c.allow_read_only_actions n d l f
unfolding up conclude apply_reachable_state
conclude-up config n d l f e now c =
    let r = reconciled n d l c.use_legacy_node_fallback in
    let k = capabilities_of r (is_some d) in
    let x = apply_reachable_state config r k e now c in
    let h = reachable-up config (lookup config.id c.known_otbrs) r k e now in
    up-if (c.allow_read_only_actions && (is_some d && thread_stack_active r.snapshot.thread_state))
      (refreshed f x) (stored x) (completed f) true (refreshed-up f x h) h

legacy-up :
    (config : OtbrConfig) (r : Reply) (f : RefreshEnd) (n : ParsedOtbrSnapshot)
    (d : Option ParsedOtbrSnapshot) (e : Option String) (now : ℕ) (c : Collector)
    → up (ask_legacy config r f n d e now c) ≡ (
        readable r && concluded c.use_legacy_node_fallback c.allow_read_only_actions n d (body r) f)
unfolding ask_legacy up
legacy-up config (ok s) f n d e now c = conclude-up config n d (some s) f e now c
legacy-up config (malformed x) f n d e now c = refl
legacy-up config (status k) f n d e now c =
    conclude-up config n d none f (or_returned e "/node" k) now c
legacy-up config (http_error x) f n d e now c = conclude-up config n d none f e now c

after-up :
    (config : OtbrConfig) (r : Replies) (n d : Option ParsedOtbrSnapshot) (e : Option String)
    (now : ℕ) (c : Collector)
    → up (after_devices config r n d e now c)
      ≡ with_node r c.use_legacy_node_fallback c.allow_read_only_actions n d
unfolding after_devices up
after-up config r none d e now c = mark-down config (error_text e) now c
after-up config r (some n) d e now c =
    up-if c.use_legacy_node_fallback (ask_legacy config r.legacy r.inventory_refresh n d e now c)
      (conclude config n d none r.inventory_refresh e now c) _ _
      (legacy-up config r.legacy r.inventory_refresh n d e now c)
      (conclude-up config n d none r.inventory_refresh e now c)

devices-up :
    (config : OtbrConfig) (r : Replies) (d : Reply) (n : Option ParsedOtbrSnapshot)
    (e : Option String) (now : ℕ) (c : Collector)
    → up (ask_devices config r d n e now c)
      ≡ (readable d && with_node r c.use_legacy_node_fallback c.allow_read_only_actions n (body d))
unfolding ask_devices up
devices-up config r (ok s) n e now c = after-up config r n (some s) e now c
devices-up config r (malformed x) n e now c = refl
devices-up config r (status k) n e now c =
    after-up config r n none (or_returned e "/api/devices" k) now c
devices-up config r (http_error x) n e now c = after-up config r n none e now c

poll-up :
    (config : OtbrConfig) (r : Replies) (n : Reply) (now : ℕ) (c : Collector)
    → up (poll_node config r n now c) ≡ (
        is_ok n
        && (readable r.devices
            && with_node r c.use_legacy_node_fallback c.allow_read_only_actions
                (body n)
                (body r.devices)))
unfolding poll_node up
poll-up config r (ok s) now c = devices-up config r r.devices (some s) none now c
poll-up config r (malformed x) now c = refl
poll-up config r (status k) now c =
    devices-up config r r.devices none (or_returned none "/api/node" k) now c ∙ ground arith
poll-up config r (http_error x) now c = mark-down config x now c

settle-up : (config : OtbrConfig) (p : Polled) (now : ℕ) → (settle config p now).0.reachable ≡ up p
unfolding settle up
settle-up config (stored r) now = refl
settle-up config (raised e c) now = mark-down config e now c

-- A polled border router ends up reachable exactly if its answers say so, whatever was known of it:
-- `/api/node` gives a body that is read, no later body that is asked for fails to be read, and the
-- refresh of the inventory, where it is run, completes.
pub poll_safely-reachable :
    (config : OtbrConfig) (r : Replies) (now : ℕ) (c : Collector)
    → (poll_safely config r now c).0.reachable
      ≡ answers r c.use_legacy_node_fallback c.allow_read_only_actions
unfolding poll_safely poll_one
poll_safely-reachable config r now c =
    settle-up config (poll_node config r r.node now c) now ∙ poll-up config r r.node now c

-- One state for each configured border router, in their order.
pub length-poll_each :
    (ask : OtbrConfig → Replies) (configs : List OtbrConfig) (now : ℕ) (c : Collector)
    → length (poll_each ask configs now c).0 ≡ length configs
unfolding poll_each
length-poll_each ask [] now c = refl
length-poll_each ask (config ∷ configs) now c =
    ground (arith, length-poll_each ask configs now (poll_safely config (ask config) now c).1)

emit_quiet :
    (b : Bool) (e : Event) (now : ℕ) (c : Collector)
    → b ≡ false
    → (emit_if b e now c).events ≡ c.events
unfolding emit_if
emit_quiet b e now c h = rw (h) refl

emit_if-otbrs :
    (b : Bool) (e : Event) (now : ℕ) (c : Collector)
    → (emit_if b e now c).known_otbrs ≡ c.known_otbrs
unfolding emit_if emit
emit_if-otbrs b e now c = ground arith

quiet-mark :
    (config : OtbrConfig) (s : OtbrState) (e : String) (now : ℕ) (c : Collector)
    → lookup config.id c.known_otbrs ≡ some s
    → s.reachable ≡ false
    → (mark_unreachable config e now c).1.events ≡ c.events
unfolding mark_unreachable store_otbr
quiet-mark config s e now c h d =
    emit_quiet (was_up (lookup config.id c.known_otbrs)) (unreachable_event config e now) now
      (store_otbr config.id (unreachable_state config (lookup config.id c.known_otbrs) e) c)
      (ap was_up h ∙ d)

known-mark :
    (config : OtbrConfig) (e : String) (now : ℕ) (c : Collector)
    → lookup config.id (mark_unreachable config e now c).1.known_otbrs
      ≡ some (mark_unreachable config e now c).0
unfolding mark_unreachable store_otbr
known-mark config e now c =
    let p = lookup config.id c.known_otbrs in
    let s = unreachable_state config p e in
    ap (lookup config.id)
      (emit_if-otbrs (was_up p) (unreachable_event config e now) now (store_otbr config.id s c))
    ∙ ground (arith, lookup-insert config.id config.id s c.known_otbrs, eq_refl config.id)

-- A border router that stays unreachable is reported once: marking it again, for any reason and at
-- any time, adds no event.
pub mark_unreachable-twice :
    (config : OtbrConfig) (e e' : String) (now later : ℕ) (c : Collector)
    → (mark_unreachable config e' later (mark_unreachable config e now c).1).1.events
      ≡ (mark_unreachable config e now c).1.events
mark_unreachable-twice config e e' now later c =
    quiet-mark config (mark_unreachable config e now c).0 e' later
      (mark_unreachable config e now c).1 (known-mark config e now c) (mark-down config e now c)
