-- ===== src/Debounce.antt =====
-- threadlens/utils/debounce.py: a transition event is let through unless one with the same key
-- went through less than `debounce_seconds` ago.
pub mod Trace
use threadlens.Prelude.{
  ℕ, ◌+◌, ◌*◌, Bool, true, false, String, Option, none, some, [], ltb, if◌then◌else◌,
}
use threadlens.Prelude.Dict.{Dict, lookup, insert}

abbrev pub second : ℕ
second = 1_000_000

pub record EventDebouncer : Type 0 where
  pub debounce_seconds : ℕ
  pub last_event_at : Dict ℕ

-- `EventDebouncer(debounce_seconds)`
abbrev pub event_debouncer : ℕ → EventDebouncer
event_debouncer debounce_seconds = record {
  debounce_seconds = debounce_seconds;
  last_event_at = [];
}

-- `elapsed < debounce_seconds` for a signed `elapsed = current - previous`
abbrev pub too_soon : ℕ → ℕ → ℕ → Bool
too_soon debounce_seconds previous current = ltb current (previous + debounce_seconds * second)

emit_after : Option ℕ → String → ℕ → EventDebouncer → Bool × EventDebouncer
emit_after none key current d =
    (true, record d { last_event_at = insert key current d.last_event_at })
emit_after (some previous) key current d =
    if too_soon d.debounce_seconds previous current
    then (false, d)
    else (true, record d { last_event_at = insert key current d.last_event_at })

unfoldable pub should_emit : String → ℕ → EventDebouncer → Bool × EventDebouncer
unfolding emit_after
should_emit key current d = emit_after (lookup key d.last_event_at) key current d
