-- ===== src/Debounce/Trace.antt =====
-- Which calls of a whole sequence come through the debouncer.
use threadlens.Prelude.{
  ℕ, ◌+◌, ◌*◌, ◌≤◌, ◌≡◌, ◌≢◌, ◌⊎◌, sym, ◌∙◌, true, false, String, none, some, List, [], ◌∷◌,
  if◌then◌else◌, arith, ◌==◌, eq_iff, eq_refl, Bool-cases, Option-cases, inl, inr, All,
}
use native.Mathlib.Nat.{le_trans}
use threadlens.Prelude.Dict.{lookup, insert, lookup-insert}
use threadlens.Debounce.{EventDebouncer, too_soon, should_emit, emit_after, second}

-- The emissions of a sequence of calls, in order: the key and the time of each call let through.
unfoldable pub emissions : EventDebouncer → List (String × ℕ) → List (String × ℕ)
unfolding should_emit
emissions d [] = []
emissions d ((key, now) ∷ calls) =
    let (emitted, d') = should_emit key now d in
    let rest = emissions d' calls in if emitted then (key, now) ∷ rest else rest

-- After a call that is let through the time is on record under the key alone; a call that is held
-- back changes nothing.
pub should_emit-lookup :
    (key j : String) (now : ℕ) (d : EventDebouncer)
    → let (emitted, d') = should_emit key now d in
      lookup j d'.last_event_at ≡ (
        if emitted
        then (if j == key then some now else lookup j d.last_event_at)
        else lookup j d.last_event_at)
unfolding should_emit
should_emit-lookup key j now d = elim (Option-cases (lookup key d.last_event_at)) [
  | inl fresh ↦ rw (fresh, emit_after) (lookup-insert key j now d.last_event_at)
  | inr (previous, e) ↦ elim (Bool-cases (too_soon d.debounce_seconds previous now)) [
    | inl soon ↦ rw (e, emit_after, soon)
    | inr late ↦ rw (e, emit_after, late) (lookup-insert key j now d.last_event_at)
  ]
]

-- No two emissions of one key come within the window: each later one is at least
-- `debounce_seconds` after the earlier one.
abbrev Apart : ℕ → String × ℕ → String × ℕ → Type 0
Apart window (k, t) (j, u) = j ≡ k → t + window * second ≤ u

abbrev pub IsSpaced : ℕ → List (String × ℕ) → Type 0
IsSpaced window [] = Unit
IsSpaced window (e ∷ es) = All (Apart window e) es × IsSpaced window es

ne_of_eq_false : (j k : String) → j == k ≡ false → j ≢ k
ne_of_eq_false j k h e = ground (arith, eq_iff j k)

recorded : String → ℕ → EventDebouncer → EventDebouncer
recorded key now d = record d { last_event_at = insert key now d.last_event_at }

-- The two outcomes of a call.
outcome :
    (key : String) (now : ℕ) (d : EventDebouncer)
    → (should_emit key now d ≡ (false, d))
      ⊎ ((should_emit key now d ≡ (true, recorded key now d))
          × ((p : ℕ) → lookup key d.last_event_at ≡ some p → p + d.debounce_seconds * second ≤ now))
unfolding should_emit recorded
outcome key now d = elim (Option-cases (lookup key d.last_event_at)) [
  | inl fresh ↦ inr (rw (fresh, emit_after), λ p h. cc)
  | inr (previous, e) ↦ elim (Bool-cases (too_soon d.debounce_seconds previous now)) [
    | inl soon ↦ inl (rw (e, emit_after, soon))
    | inr late ↦ inr (rw (e, emit_after, late), λ p h. ground (arith, e, h))
  ]
]

lookup-recorded :
    (j key : String) (now : ℕ) (d : EventDebouncer)
    → lookup j (recorded key now d).last_event_at
      ≡ (if j == key then some now else lookup j d.last_event_at)
unfolding recorded
lookup-recorded j key now d = lookup-insert key j now d.last_event_at

Apart-later :
    (j : String) (w p q : ℕ) (es : List (String × ℕ))
    → p ≤ q
    → All (Apart w (j, q)) es
    → All (Apart w (j, p)) es
Apart-later j w p q [] le h = tt
Apart-later j w p q (e ∷ es) le h =
    (λ k. le_trans (omega arith) (h.0 k), Apart-later j w p q es le h.1)

-- Once a time is on record for `j`, every later emission of `j` is a window after it.
emissions_after :
    (j : String) (p : ℕ) (d : EventDebouncer) (calls : List (String × ℕ))
    → lookup j d.last_event_at ≡ some p
    → All (Apart d.debounce_seconds (j, p)) (emissions d calls)
unfolding emissions recorded
emissions_after j p d [] h = tt
emissions_after j p d ((key, now) ∷ calls) h = elim (outcome key now d) [
  | inl held ↦ rw held (emissions_after j p d calls h)
  | inr (e, late) ↦
      let at_j = lookup-recorded j key now d in
      let rest = λ (q : ℕ). emissions_after j q (recorded key now d) calls in
      elim (Bool-cases (j == key)) [
        | inl same ↦
            let k : j ≡ key = (eq_iff j key).0 same in
            let gap : p + d.debounce_seconds * second ≤ now = late p (rw (← k) h) in
            rw e (
              λ _. gap,
              Apart-later j d.debounce_seconds p now (emissions (recorded key now d) calls)
                  (omega arith) (rest now (at_j ∙ rw same)),
            )
        | inr other ↦
            rw e (λ k. absurd (ne_of_eq_false j key other (sym k)), rest p (at_j ∙ rw other h))
      ]
]

-- Whatever the calls, their order and their clock, two emissions of one key are at least
-- `debounce_seconds` apart.
pub emissions-IsSpaced :
    (d : EventDebouncer) (calls : List (String × ℕ))
    → IsSpaced d.debounce_seconds (emissions d calls)
unfolding emissions recorded
emissions-IsSpaced d [] = tt
emissions-IsSpaced d ((key, now) ∷ calls) = elim (outcome key now d) [
  | inl held ↦ rw held (emissions-IsSpaced d calls)
  | inr (e, late) ↦ rw e (
    emissions_after key now (recorded key now d) calls (lookup-recorded key key now d ∙ rw eq_refl),
    emissions-IsSpaced (recorded key now d) calls,
  )
]

-- A key with no emission on record is let through.
pub should_emit_fresh :
    (key : String) (now : ℕ) (d : EventDebouncer)
    → lookup key d.last_event_at ≡ none
    → (should_emit key now d).0 ≡ true
unfolding should_emit
should_emit_fresh key now d h = rw (h, emit_after)
