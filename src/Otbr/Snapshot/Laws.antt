-- ===== src/Otbr/Snapshot/Laws.antt =====
-- What `reconcile_otbr_snapshots` chooses.
use threadlens.Prelude.{
  is_some, non_blank, ◌≡◌, ◌∙◌, ap, refl, Bool, true, false, ◌&&◌, ◌||◌, String, Option, none, some,
  arith, ◌==◌, eq_iff, if◌then◌else◌,
}
use threadlens.Otbr.Snapshot.{
  ParsedOtbrSnapshot, reconcile_otbr_snapshots, chosen, alone, effective, thread_stack_active,
  differ, prefer_legacy_snapshot,
}

abbrev pub says_disabled : Option String → Bool
says_disabled none = false
says_disabled (some s) = s == "disabled"

disabled_inactive : thread_stack_active (some "disabled") ≡ false
unfolding thread_stack_active
disabled_inactive = refl

not_active_disabled : (s : Option String) → says_disabled s ≡ true → thread_stack_active s ≡ false
not_active_disabled none h = ground arith
not_active_disabled (some s) h =
    ap (λ t. thread_stack_active (some t)) ((eq_iff s "disabled").0 h) ∙ disabled_inactive

-- When the legacy endpoint decides: the fallback is on, it answered, its stack is active, and the
-- JSON API calls the stack disabled or gives another active state.
abbrev pub legacy_decides : ParsedOtbrSnapshot → ParsedOtbrSnapshot → Bool → Bool
legacy_decides j l asked =
    asked
    && (thread_stack_active l.thread_state
        && (says_disabled j.thread_state
            || (thread_stack_active j.thread_state && differ j.thread_state l.thread_state)))

taken : ParsedOtbrSnapshot × String × Bool → ParsedOtbrSnapshot
taken c = c.0

two_ways :
    (d l a f : Bool) (x y : ParsedOtbrSnapshot)
    → taken (
        if d && l
        then (x, "legacy_node", true)
        else if a && (l && f)
        then (x, "legacy_node", false)
        else (y, "json_api", false))
      ≡ (if l && (d || (a && f)) then x else y)
unfolding taken
two_ways true true a f x y = refl
two_ways true false true f x y = refl
two_ways true false false f x y = refl
two_ways false true true true x y = refl
two_ways false true true false x y = refl
two_ways false true false f x y = refl
two_ways false false true f x y = refl
two_ways false false false f x y = refl

effective-snapshot :
    (j l : ParsedOtbrSnapshot) (asked : Bool)
    → (if asked then effective j l else alone j).0
      ≡ (if legacy_decides j l asked then prefer_legacy_snapshot j l else j)
unfolding effective taken
effective-snapshot j l true =
    two_ways (says_disabled j.thread_state) (thread_stack_active l.thread_state)
      (thread_stack_active j.thread_state) (differ j.thread_state l.thread_state)
      (prefer_legacy_snapshot j l) j
effective-snapshot j l false = refl

-- The snapshot is the legacy one, with the fields that it lacks taken from the JSON API, exactly
-- when the legacy endpoint decides. Otherwise it is the JSON API's, unchanged.
pub reconcile-snapshot :
    (j l : ParsedOtbrSnapshot) (available fallback : Bool)
    → (reconcile_otbr_snapshots j (some l) available fallback).snapshot
      ≡ (if legacy_decides j l (available && fallback) then prefer_legacy_snapshot j l else j)
unfolding reconcile_otbr_snapshots chosen
reconcile-snapshot j l available fallback = effective-snapshot j l (available && fallback)

-- With the fallback on, an active stack that either endpoint reports is reported in the end, if
-- the JSON API calls the stack active or disabled.
pub reconcile-active :
    (j l : ParsedOtbrSnapshot)
    → (says_disabled j.thread_state || thread_stack_active j.thread_state) ≡ true
    → thread_stack_active (reconcile_otbr_snapshots j (some l) true true).snapshot.thread_state
      ≡ (thread_stack_active j.thread_state || thread_stack_active l.thread_state)
unfolding reconcile_otbr_snapshots chosen effective
reconcile-active j l h = ground (arith, not_active_disabled j.thread_state)

abbrev pub given : Option String → Bool
given s = is_some (non_blank s)

-- The snapshot of a reconciliation, by the side that it is taken from.
abbrev pub Keeps : ParsedOtbrSnapshot → ParsedOtbrSnapshot → Bool → ParsedOtbrSnapshot → Type 0
Keeps j l legacy s =
    (s.thread_state ≡ (if legacy then l.thread_state else j.thread_state))
    × (given s.network_name ≡ (given j.network_name || (legacy && given l.network_name)))
    × (given s.ext_pan_id ≡ (given j.ext_pan_id || (legacy && given l.ext_pan_id)))
    × (given s.pan_id ≡ (given j.pan_id || (legacy && given l.pan_id)))
    × (given s.rloc16 ≡ (given j.rloc16 || (legacy && given l.rloc16)))
    × (is_some s.channel ≡ (is_some j.channel || (legacy && is_some l.channel)))
    × (is_some s.partition_id ≡ (is_some j.partition_id || (legacy && is_some l.partition_id)))
    × (s.device_count ≡ j.device_count)

abbrev CameOut :
    ParsedOtbrSnapshot → ParsedOtbrSnapshot → ParsedOtbrSnapshot × String × Bool → Type 0
CameOut j l c = Keeps j l (c.1 == "legacy_node") c.0
