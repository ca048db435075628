-- ===== src/Storage/Events/Retention.antt =====
-- What the retention cleanup deletes, and what it leaves to the queries.
use threadlens.Prelude.{
  ℕ, ◌+◌, ◌-◌, ◌*◌, ◌≤◌, ◌<◌, ◌≡◌, refl, Bool, false, ◌&&◌, Option, some, List, [], ◌∷◌, ltb, not,
  filterb, count_if, length, All, arith, Bool-cases, inl, inr,
}
use threadlens.Model.Events.{Event}
use threadlens.Storage.Events.{
  EventQuery, at_least, columns_match, in_window, matches, count_events, cleanup_events, day,
}

and_false : (a b : Bool) → b ≡ false → (a && b) ≡ false
and_false a b h = ground arith

at_least-false : (o : Option ℕ) (s t : ℕ) → o ≡ some s → t < s → at_least o t ≡ false
unfolding at_least
at_least-false o s t h lt = rw h (ground arith)

-- An event before the window of a query does not match it.
matches_before :
    (q : EventQuery) (since : ℕ) (e : Event)
    → q.since ≡ some since
    → e.timestamp < since
    → matches q e ≡ false
unfolding matches
matches_before q since e h lt =
    let late : in_window q e ≡ false =
      ground (arith, at_least-false q.since since e.timestamp h lt) in
    and_false (columns_match q e) (in_window q e) late

module _ (cutoff : ℕ) where
  All-kept :
      (es : List Event)
      → All (λ e. cutoff ≤ e.timestamp) (filterb (λ e. not (ltb e.timestamp cutoff)) es)
  All-kept [] = tt
  All-kept (e ∷ es) = elim (Bool-cases (ltb e.timestamp cutoff)) [
    | inl old ↦ rw old (All-kept es)
    | inr recent ↦ rw recent (ground arith, All-kept es)
  ]

  count-kept :
      (q : EventQuery) (since : ℕ) (es : List Event)
      → q.since ≡ some since
      → cutoff ≤ since
      → count_if (matches q) (filterb (λ e. not (ltb e.timestamp cutoff)) es)
        ≡ count_if (matches q) es
  count-kept q since [] h le = refl
  count-kept q since (e ∷ es) h le = elim (Bool-cases (ltb e.timestamp cutoff)) [
    | inl old ↦
        rw old
          (ground (arith, count-kept q since es h le, matches_before q since e h (ground arith)))
    | inr recent ↦ rw recent (omega (arith, count-kept q since es h le))
  ]

  length-kept :
      (es : List Event)
      → count_if (λ e. ltb e.timestamp cutoff) es
          + length (filterb (λ e. not (ltb e.timestamp cutoff)) es)
        ≡ length es
  length-kept [] = omega arith
  length-kept (e ∷ es) = ground (arith, length-kept es)

-- After the cleanup no event is older than the retention, and the number reported is the number
-- of rows that went.
pub cleanup_events_lem :
    (now retention_days : ℕ) (table : List Event)
    → let (kept, deleted) = cleanup_events now retention_days table in
      All (λ e. now - retention_days * day ≤ e.timestamp) kept
      × (deleted + length kept ≡ length table)
unfolding cleanup_events
cleanup_events_lem now retention_days table =
    let cutoff = now - retention_days * day in (All-kept cutoff table, length-kept cutoff table)

-- A query over a window that the retention covers counts the same before and after the cleanup.
pub count_events-cleanup :
    (now retention_days : ℕ) (q : EventQuery) (since : ℕ) (table : List Event)
    → q.since ≡ some since
    → now - retention_days * day ≤ since
    → count_events q (cleanup_events now retention_days table).0 ≡ count_events q table
unfolding cleanup_events count_events
count_events-cleanup now retention_days q since table h le =
    count-kept (now - retention_days * day) q since table h le
