-- ===== src/Health/Rules/Agreement/Laws.antt =====
-- When the configured routers disagree about their network.
use threadlens.Prelude.{
  ℕ, ◌+◌, ◌≤◌, ◌≡◌, ◌↔◌, ◌≢◌, true, String, Option, none, some, List, [], ◌∷◌, ltb, arith, length,
  count_if, count_if-le-length, non_blank, ◌==◌, add_new, if◌then◌else◌, length-append, Bool-cases,
  inl, inr,
}
use threadlens.Model.Health.{HealthState}
use threadlens.Model.State.{OtbrState, same_class}
use threadlens.Otbr.Classify.{classify_primary_network}
use threadlens.Health.Rules.Agreement.{
  reachable_id, add_some, collect_ids, disagreement, primary_is_unknown, status, healthy_status,
}

abbrev pub reachable_count : List OtbrState → ℕ
reachable_count = count_if (λ (s : OtbrState). s.reachable)

length-add_new : (xs : List String) (x : String) → length (add_new xs x) ≤ length xs + 1
unfolding add_new
length-add_new xs x = ground (arith, length-append xs (x ∷ []))

length-add_text :
    (ids : List String) (o : Option String) → length (add_some ids (non_blank o)) ≤ length ids + 1
length-add_text ids none = omega arith
length-add_text ids (some x) = elim (Bool-cases (x == "")) [
  | inl blank ↦ rw blank (omega arith)
  | inr text ↦ rw text (length-add_new ids x)
]

length-add_some :
    (ids : List String) (s : OtbrState)
    → length (add_some ids (reachable_id s)) ≤ length ids + (if s.reachable then 1 else 0)
unfolding reachable_id
length-add_some ids s = elim (Bool-cases s.reachable) [
  | inl up ↦ rw up (length-add_text ids s.ext_pan_id)
  | inr down ↦ rw down (omega arith)
]

-- There are at most as many distinct networks as reachable routers.
pub length-collect_ids :
    (ids : List String) (states : List OtbrState)
    → length (collect_ids ids states) ≤ length ids + reachable_count states
unfolding collect_ids
length-collect_ids ids [] = omega arith
length-collect_ids ids (s ∷ states) =
    omega (arith, length-collect_ids (add_some ids (reachable_id s)) states, length-add_some ids s)

primary_is_unknown_iff : (ids : List String) → (primary_is_unknown ids ≡ true) ↔ (length ids ≢ 1)
unfolding classify_primary_network same_class
primary_is_unknown_iff [] = ground arith
primary_is_unknown_iff (x ∷ []) = ground arith
primary_is_unknown_iff (x ∷ y ∷ xs) = ground arith

-- The routers are degraded for disagreement exactly when their reachable ones report two or more
-- networks, and else healthy: the branch of the source for a mere warning is never taken.
pub disagreement_lem :
    (configured : List OtbrState)
    → disagreement configured ≡ (
        if ltb 1 (length (collect_ids [] configured))
        then status HealthState.degraded "configured_otbrs_disagree_on_ext_pan_id"
        else healthy_status)
unfolding disagreement
disagreement_lem configured = ground (
  arith,
  length-collect_ids [] configured,
  count_if-le-length (λ (s : OtbrState). s.reachable) configured,
  primary_is_unknown_iff (collect_ids [] configured),
)
