-- ===== src/Storage/Events/Laws.antt =====
-- What the queries return, and what the cleanup keeps.
use threadlens.Prelude.{
  ℕ, zero, suc, ◌≤◌, ◌≡◌, refl, sym, ◌∙◌, Bool, true, ◌&&◌, Option, none, some, List, [], ◌∷◌, leb,
  filterb, count_if, length, All, All-map, arith, Bool-cases, inl, inr,
}
use threadlens.Model.Events.{Event}
use threadlens.Storage.Events.{
  EventQuery, matches, insert_by_time, order_by_time, take, limited, get_events, count_events,
}

-- The timestamps rise from the front to the back.
abbrev pub IsOrdered : List Event → Type 0
IsOrdered [] = Unit
IsOrdered (e ∷ es) = All (λ x. e.timestamp ≤ x.timestamp) es × IsOrdered es

All-insert :
    (P : Event → Type 0) (e : Event) (es : List Event)
    → P e
    → All P es
    → All P (insert_by_time e es)
unfolding insert_by_time
All-insert P e [] p h = (p, tt)
All-insert P e (x ∷ es) p h = elim (Bool-cases (leb e.timestamp x.timestamp)) [
  | inl first ↦ rw first (p, h)
  | inr later ↦ rw later (h.0, All-insert P e es p h.1)
]

IsOrdered-insert : (e : Event) (es : List Event) → IsOrdered es → IsOrdered (insert_by_time e es)
unfolding insert_by_time
IsOrdered-insert e [] h = (tt, tt)
IsOrdered-insert e (x ∷ es) h = elim (Bool-cases (leb e.timestamp x.timestamp)) [
  | inl first ↦
      rw first
        ((ground arith, All-map (λ y (le : x.timestamp ≤ y.timestamp). ground arith) es h.0), h)
  | inr later ↦ rw later (
    All-insert (λ y. x.timestamp ≤ y.timestamp) e es (ground arith) h.0,
    IsOrdered-insert e es h.1,
  )
]

IsOrdered-order : (es : List Event) → IsOrdered (order_by_time es)
unfolding order_by_time
IsOrdered-order [] = tt
IsOrdered-order (e ∷ es) = IsOrdered-insert e (order_by_time es) (IsOrdered-order es)

All-take : (P : Event → Type 0) (n : ℕ) (es : List Event) → All P es → All P (take n es)
unfolding take
All-take P zero es h = tt
All-take P (suc n) [] h = tt
All-take P (suc n) (e ∷ es) h = (h.0, All-take P n es h.1)

IsOrdered-take : (n : ℕ) (es : List Event) → IsOrdered es → IsOrdered (take n es)
unfolding take
IsOrdered-take zero es h = tt
IsOrdered-take (suc n) [] h = tt
IsOrdered-take (suc n) (e ∷ es) h =
    (All-take (λ y. e.timestamp ≤ y.timestamp) n es h.0, IsOrdered-take n es h.1)

All-order : (P : Event → Type 0) (es : List Event) → All P es → All P (order_by_time es)
unfolding order_by_time
All-order P [] h = tt
All-order P (e ∷ es) h = All-insert P e (order_by_time es) h.0 (All-order P es h.1)

count-insert :
    (p : Event → Bool) (e : Event) (es : List Event)
    → count_if p (insert_by_time e es) ≡ count_if p (e ∷ es)
unfolding insert_by_time
count-insert p e [] = refl
count-insert p e (x ∷ es) = elim (Bool-cases (leb e.timestamp x.timestamp)) [
  | inl first ↦ rw first
  | inr later ↦ rw later (omega (arith, count-insert p e es))
]

count-order : (p : Event → Bool) (es : List Event) → count_if p (order_by_time es) ≡ count_if p es
unfolding order_by_time
count-order p [] = refl
count-order p (e ∷ es) = count-insert p e (order_by_time es) ∙ omega (arith, count-order p es)

All-filterb : (p : Event → Bool) (es : List Event) → All (λ e. p e ≡ true) (filterb p es)
All-filterb p [] = tt
All-filterb p (e ∷ es) = elim (Bool-cases (p e)) [
  | inl passes ↦ rw passes (passes, All-filterb p es)
  | inr fails ↦ rw fails (All-filterb p es)
]

count-filterb :
    (p q : Event → Bool) (es : List Event)
    → count_if p (filterb q es) ≡ count_if (λ e. q e && p e) es
count-filterb p q [] = refl
count-filterb p q (e ∷ es) = ground (arith, count-filterb p q es)

limited_lem :
    (P : Event → Type 0) (limit : Option ℕ) (es : List Event)
    → IsOrdered es × All P es
    → IsOrdered (limited limit es) × All P (limited limit es)
unfolding limited
limited_lem P none es h = h
limited_lem P (some n) es h = (IsOrdered-take n es h.0, All-take P n es h.1)

-- Whatever the limit, the events returned are in the order of their times and match the query.
pub get_events-IsOrdered_matching :
    (q : EventQuery) (limit : Option ℕ) (table : List Event)
    → IsOrdered (get_events q limit table)
      × All (λ e. matches q e ≡ true) (get_events q limit table)
unfolding get_events
get_events-IsOrdered_matching q limit table =
    limited_lem (λ e. matches q e ≡ true) limit (order_by_time (filterb (matches q) table))
      (
        IsOrdered-order (filterb (matches q) table),
        All-order (λ e. matches q e ≡ true) (filterb (matches q) table)
            (All-filterb (matches q) table),
      )

-- Without a limit the query returns the events that `count_events` counts, each as often as the
-- table holds it: for any further test `p`, as many results pass it as rows pass the query and `p`.
pub count-get_events :
    (q : EventQuery) (p : Event → Bool) (table : List Event)
    → count_if p (get_events q none table) ≡ count_if (λ e. matches q e && p e) table
unfolding get_events limited
count-get_events q p table =
    count-order p (filterb (matches q) table) ∙ count-filterb p (matches q) table

count_if_all : (es : List Event) → count_if (λ e. true) es ≡ length es
count_if_all [] = refl
count_if_all (e ∷ es) = omega (arith, count_if_all es)

count_if-and_true :
    (p : Event → Bool) (es : List Event) → count_if (λ e. p e && true) es ≡ count_if p es
count_if-and_true p [] = refl
count_if-and_true p (e ∷ es) = ground (arith, count_if-and_true p es)

-- The length of an unlimited result is the count of the same query.
pub length-get_events :
    (q : EventQuery) (table : List Event) → length (get_events q none table) ≡ count_events q table
unfolding count_events
length-get_events q table =
    sym (count_if_all (get_events q none table))
    ∙ count-get_events q (λ e. true) table
    ∙ count_if-and_true (matches q) table
