-- ===== src/Health/Rollup/Worst.antt =====
-- The state that a rollup picks.
use Prim.Native.Nat.{min}
use threadlens.Prelude.{
  ℕ, ◌≤◌, ◌≡◌, refl, ◌⊎◌, inl, inr, ◌∙◌, ap, List, [], ◌∷◌, ◌++◌, arith, All, All-map, Any,
  Bool-cases, ltb,
}
use threadlens.Model.Health.{HealthState}
use threadlens.Health.Rollup.{state_rank, min_by_rank, pick_worst}

-- The rank tells the states apart.
pub state_rank-injective : (a b : HealthState) → state_rank a ≡ state_rank b → a ≡ b
unfolding state_rank
state_rank-injective a b h = ground arith

-- The least rank of a list, from a start.
least : ℕ → List HealthState → ℕ
least r [] = r
least r (s ∷ ss) = least (min r (state_rank s)) ss

rank-min_by_rank :
    (best : HealthState) (ss : List HealthState)
    → state_rank (min_by_rank best ss) ≡ least (state_rank best) ss
unfolding min_by_rank least
rank-min_by_rank best [] = refl
rank-min_by_rank best (s ∷ ss) = elim (Bool-cases (ltb (state_rank s) (state_rank best))) [
  | inl less ↦ rw less (rank-min_by_rank s ss ∙ ap (λ r. least r ss) (ground arith))
  | inr more ↦ rw more (rank-min_by_rank best ss ∙ ap (λ r. least r ss) (ground arith))
]

least-min : (q r : ℕ) (ss : List HealthState) → least (min q r) ss ≡ min q (least r ss)
unfolding least
least-min q r [] = refl
least-min q r (s ∷ ss) = ap (λ t. least t ss) (omega arith) ∙ least-min q (min r (state_rank s)) ss

least-append : (r : ℕ) (xs ys : List HealthState) → least r (xs ++ ys) ≡ least (least r xs) ys
unfolding least
least-append r [] ys = refl
least-append r (x ∷ xs) ys = least-append (min r (state_rank x)) xs ys

least-le :
    (r : ℕ) (ss : List HealthState) → (least r ss ≤ r) × All (λ s. least r ss ≤ state_rank s) ss
unfolding least
least-le r [] = (omega arith, tt)
least-le r (s ∷ ss) =
    let (below, each) = least-le (min r (state_rank s)) ss in (omega arith, (omega arith, each))

-- The state picked is one of the states.
min_by_rank-Any :
    (best : HealthState) (ss : List HealthState) (w : HealthState)
    → min_by_rank best ss ≡ w
    → (best ≡ w) ⊎ Any (λ s. s ≡ w) ss
unfolding min_by_rank
min_by_rank-Any best [] w h = inl h
min_by_rank-Any best (s ∷ ss) w h = elim (Bool-cases (ltb (state_rank s) (state_rank best))) [
  | inl less ↦ inr (min_by_rank-Any s ss w (rw less at h))
  | inr more ↦ elim (min_by_rank-Any best ss w (rw more at h)) [
    | inl e ↦ inl e
    | inr a ↦ inr (inr a)
  ]
]

rank-pick_worst :
    (s : HealthState) (ss : List HealthState)
    → state_rank (pick_worst (s ∷ ss)) ≡ least (state_rank s) ss
unfolding pick_worst
rank-pick_worst s ss = rank-min_by_rank s ss

module _ (s : HealthState) (ss : List HealthState) where
  pub pick_worst-le : All (λ t. state_rank (pick_worst (s ∷ ss)) ≤ state_rank t) (s ∷ ss)
  pick_worst-le =
      All-map {P = λ t. least (state_rank s) ss ≤ state_rank t} (λ t h. rw (rank-pick_worst s ss) h)
        (s ∷ ss) (least-le (state_rank s) ss)

  pub pick_worst-Any : Any (λ t. t ≡ pick_worst (s ∷ ss)) (s ∷ ss)
  unfolding pick_worst
  pick_worst-Any = min_by_rank-Any s ss (min_by_rank s ss) refl

-- The worst of two groups is the worst of the worst of each.
pub pick_worst-append :
    (x : HealthState) (xs : List HealthState) (y : HealthState) (ys : List HealthState)
    → pick_worst ((x ∷ xs) ++ (y ∷ ys))
      ≡ pick_worst (pick_worst (x ∷ xs) ∷ pick_worst (y ∷ ys) ∷ [])
unfolding least
pick_worst-append x xs y ys = state_rank-injective _ _ (
    rank-pick_worst x (xs ++ y ∷ ys)
    ∙ least-append (state_rank x) xs (y ∷ ys)
    ∙ least-min (least (state_rank x) xs) (state_rank y) ys
    ∙ omega (
      arith,
      rank-pick_worst x xs,
      rank-pick_worst y ys,
      rank-pick_worst (pick_worst (x ∷ xs)) (pick_worst (y ∷ ys) ∷ []),
    ))

pub pick_worst_one : (s : HealthState) → pick_worst (s ∷ []) ≡ s
unfolding pick_worst
pick_worst_one s = refl
