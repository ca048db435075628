-- ===== src/Health/Rollup/Reasons.antt =====
-- The reasons that a rollup keeps, and how rollups compose.
use threadlens.Prelude.{
  ◌≤◌, ◌<◌, ◌≡◌, refl, sym, ◌∙◌, ap, ap₂, inl, inr, false, ◌&&◌, ◌||◌, String, List, [], ◌∷◌, ◌++◌,
  map, arith, All, All-map, Any, anyb, contains, IsDistinct, contains-add_all, IsDistinct-add_all,
  add_all, add_all-add_all, if◌then◌else◌, Bool-cases,
}
use threadlens.Model.Health.{HealthState, HealthStatus, same_state, same_state_iff}
use threadlens.Health.Rollup.{
  state_rank, pick_worst, status_reasons, merge_health, candidate_reasons, health_from_candidates,
}
use threadlens.Health.Rollup.Worst.{
  pick_worst-le, pick_worst-Any, pick_worst-append, pick_worst_one,
}

abbrev states : List HealthStatus → List HealthState
states = map (λ (t : HealthStatus). t.state)

contains-status_reasons :
    (r : String) (w : HealthState) (acc : List String) (ss : List HealthStatus)
    → contains r (status_reasons w acc ss)
      ≡ (contains r acc || anyb (λ t. same_state t.state w && contains r t.reasons) ss)
unfolding status_reasons
contains-status_reasons r w acc [] = ground arith
contains-status_reasons r w acc (s ∷ ss) = elim (Bool-cases (same_state s.state w)) [
  | inl same ↦ rw same (
      ground (
        arith,
        contains-status_reasons r w (add_all acc s.reasons) ss,
        contains-add_all r acc s.reasons,
      ))
  | inr other ↦ rw other (contains-status_reasons r w acc ss)
]

IsDistinct-status_reasons :
    (w : HealthState) (acc : List String) (ss : List HealthStatus)
    → IsDistinct acc
    → IsDistinct (status_reasons w acc ss)
unfolding status_reasons
IsDistinct-status_reasons w acc [] d = d
IsDistinct-status_reasons w acc (s ∷ ss) d = elim (Bool-cases (same_state s.state w)) [
  | inl same ↦
      rw same (
        IsDistinct-status_reasons w (add_all acc s.reasons) ss (IsDistinct-add_all acc s.reasons d))
  | inr other ↦ rw other (IsDistinct-status_reasons w acc ss d)
]

-- The state of a rollup is the state of one of its parts, and no part is worse.
pub merge_health-worst :
    (s : HealthStatus) (ss : List HealthStatus)
    → let w = (merge_health (s ∷ ss)).state in
      Any (λ t. t ≡ w) (states (s ∷ ss)) × All (λ t. state_rank w ≤ state_rank t) (states (s ∷ ss))
unfolding merge_health
merge_health-worst s ss = (pick_worst-Any s.state (states ss), pick_worst-le s.state (states ss))

-- The rollup of one part or more has the state of one of its parts, no part is worse, and its
-- reasons are exactly those of the parts in that state, each once.
pub merge_health-reasons :
    (s : HealthStatus) (ss : List HealthStatus)
    → let m = merge_health (s ∷ ss) in
      Any (λ t. t ≡ m.state) (states (s ∷ ss))
      × All (λ t. state_rank m.state ≤ state_rank t) (states (s ∷ ss))
      × IsDistinct m.reasons
      × ((r : String)
          → contains r m.reasons
            ≡ anyb (λ t. same_state t.state m.state && contains r t.reasons) (s ∷ ss))
unfolding merge_health
merge_health-reasons s ss =
    let w = pick_worst (states (s ∷ ss)) in
    (
      pick_worst-Any s.state (states ss),
      pick_worst-le s.state (states ss),
      IsDistinct-status_reasons w [] (s ∷ ss) tt,
      λ r. contains-status_reasons r w [] (s ∷ ss),
    )

-- The rule of a candidate list is the rollup of its candidates.
abbrev pub candidate_status : HealthState × List String → HealthStatus
candidate_status (state, reasons) = record { state = state; reasons = reasons }

candidate_reasons-eq :
    (w : HealthState) (acc : List String) (cs : List (HealthState × List String))
    → candidate_reasons w acc cs ≡ status_reasons w acc (map candidate_status cs)
unfolding candidate_reasons status_reasons
candidate_reasons-eq w acc [] = refl
candidate_reasons-eq w acc ((state, reasons) ∷ cs) =
    candidate_reasons-eq w (if same_state state w then add_all acc reasons else acc) cs

states-candidates :
    (cs : List (HealthState × List String))
    → map (λ (d : HealthState × List String). d.0) cs ≡ states (map candidate_status cs)
states-candidates [] = refl
states-candidates ((state, reasons) ∷ cs) = ap (λ ss. state ∷ ss) (states-candidates cs)

-- The choice among candidates, `health_from_candidates`, is the rollup of the candidates.
pub health_from_candidates-eq :
    (cs : List (HealthState × List String))
    → health_from_candidates cs ≡ merge_health (map candidate_status cs)
unfolding health_from_candidates merge_health
health_from_candidates-eq [] = refl
health_from_candidates-eq (c ∷ cs) =
    let e = states-candidates (c ∷ cs) in
    λ i. record {
      state = pick_worst (e i);
      reasons =
          ((candidate_reasons-eq _ [] (c ∷ cs))
              ∙ ap (λ w. status_reasons w [] (map candidate_status (c ∷ cs))) (ap pick_worst e))
            i;
    }

ranks_differ :
    (w v : HealthState)
    → state_rank w ≤ state_rank v
    → same_state v w ≡ false
    → state_rank w < state_rank v
unfolding state_rank same_state
ranks_differ w v h e = ground arith

-- Reasons are added group by group.
status_reasons-append :
    (w : HealthState) (acc : List String) (xs ys : List HealthStatus)
    → status_reasons w acc (xs ++ ys) ≡ status_reasons w (status_reasons w acc xs) ys
unfolding status_reasons
status_reasons-append w acc [] ys = refl
status_reasons-append w acc (x ∷ xs) ys =
    status_reasons-append w (if same_state x.state w then add_all acc x.reasons else acc) xs ys

status_reasons-add_all :
    (w : HealthState) (acc rs : List String) (ss : List HealthStatus)
    → status_reasons w (add_all acc rs) ss ≡ add_all acc (status_reasons w rs ss)
unfolding status_reasons
status_reasons-add_all w acc rs [] = refl
status_reasons-add_all w acc rs (s ∷ ss) = elim (Bool-cases (same_state s.state w)) [
  | inl same ↦ rw same (
      ap (λ zs. status_reasons w zs ss) (sym (add_all-add_all acc rs s.reasons))
      ∙ status_reasons-add_all w acc (add_all rs s.reasons) ss)
  | inr other ↦ rw other (status_reasons-add_all w acc rs ss)
]

status_reasons_none :
    (w : HealthState) (acc : List String) (ss : List HealthStatus)
    → All (λ t. state_rank w < state_rank t) (states ss)
    → status_reasons w acc ss ≡ acc
unfolding status_reasons
status_reasons_none w acc [] h = refl
status_reasons_none w acc (s ∷ ss) h = elim (Bool-cases (same_state s.state w)) [
  | inl same ↦ absurd (omega (arith, h.0, ap state_rank ((same_state_iff s.state w).0 same)))
  | inr other ↦ rw other (status_reasons_none w acc ss h.1)
]

-- What a group with worst state `v` adds to a rollup whose state `w` is no better.
group_reasons :
    (w v : HealthState) (acc : List String) (ss : List HealthStatus)
    → state_rank w ≤ state_rank v
    → All (λ t. state_rank v ≤ state_rank t) (states ss)
    → status_reasons w acc ss
      ≡ (if same_state v w then add_all acc (status_reasons v [] ss) else acc)
group_reasons w v acc ss h each = elim (Bool-cases (same_state v w)) [
  | inl same ↦
      rw (same, (same_state_iff v w).0 same) (unfold add_all in status_reasons-add_all w acc [] ss)
  | inr other ↦
      let worse : state_rank w < state_rank v = ranks_differ w v h other in
      rw other (
        status_reasons_none w acc ss (
          All-map {P = λ t. state_rank v ≤ state_rank t}
            (λ t (k : state_rank v ≤ state_rank t). omega arith) (states ss) each))
]

state-merge :
    (s : HealthStatus) (ss : List HealthStatus)
    → (merge_health (s ∷ ss)).state ≡ pick_worst (states (s ∷ ss))
unfolding merge_health
state-merge s ss = refl

reasons-merge :
    (s : HealthStatus) (ss : List HealthStatus)
    → (merge_health (s ∷ ss)).reasons ≡ status_reasons (merge_health (s ∷ ss)).state [] (s ∷ ss)
unfolding merge_health
reasons-merge s ss = refl

-- The same state and the same reasons make the same status.
status_path : (a b : HealthStatus) → a.state ≡ b.state → a.reasons ≡ b.reasons → a ≡ b
status_path a b p q = λ i. record { state = p i; reasons = q i }

states-append : (xs ys : List HealthStatus) → states (xs ++ ys) ≡ states xs ++ states ys
states-append [] ys = refl
states-append (x ∷ xs) ys = ap (λ ss. x.state ∷ ss) (states-append xs ys)

group-merge :
    (w : HealthState) (acc : List String) (s : HealthStatus) (ss : List HealthStatus)
    → state_rank w ≤ state_rank (merge_health (s ∷ ss)).state
    → status_reasons w acc (s ∷ ss) ≡ status_reasons w acc (merge_health (s ∷ ss) ∷ [])
group-merge w acc s ss h =
    group_reasons w (merge_health (s ∷ ss)).state acc (s ∷ ss) h (merge_health-worst s ss).1
    ∙ ap (λ rs. if same_state (merge_health (s ∷ ss)).state w then add_all acc rs else acc)
        (sym (reasons-merge s ss))
    ∙ (unfold status_reasons in refl)

-- Rollups compose: the rollup of two nonempty groups together is the rollup of their rollups,
-- with the same state and the same reasons in the same order.
pub merge_health-append :
    (x : HealthStatus) (xs : List HealthStatus) (y : HealthStatus) (ys : List HealthStatus)
    → merge_health ((x ∷ xs) ++ (y ∷ ys))
      ≡ merge_health (merge_health (x ∷ xs) ∷ merge_health (y ∷ ys) ∷ [])
merge_health-append x xs y ys =
    let mx = merge_health (x ∷ xs) in
    let my = merge_health (y ∷ ys) in
    let e : (merge_health ((x ∷ xs) ++ (y ∷ ys))).state ≡ (merge_health (mx ∷ my ∷ [])).state =
      state-merge x (xs ++ y ∷ ys)
      ∙ ap pick_worst (states-append (x ∷ xs) (y ∷ ys))
      ∙ pick_worst-append x.state (states xs) y.state (states ys)
      ∙ ap₂ (λ a b. pick_worst (a ∷ b ∷ [])) (sym (state-merge x xs)) (sym (state-merge y ys))
      ∙ sym (state-merge mx (my ∷ [])) in
    let w = (merge_health ((x ∷ xs) ++ (y ∷ ys))).state in
    status_path _ _ e (
      reasons-merge x (xs ++ y ∷ ys)
      ∙ status_reasons-append w [] (x ∷ xs) (y ∷ ys)
      ∙ group-merge w (status_reasons w [] (x ∷ xs)) y ys
          (rw e (merge_health-worst mx (my ∷ [])).1.1.0)
      ∙ ap (λ acc. status_reasons w acc (my ∷ []))
          (group-merge w [] x xs (rw e (merge_health-worst mx (my ∷ [])).1.0))
      ∙ sym (status_reasons-append w [] (mx ∷ []) (my ∷ []))
      ∙ ap (λ v. status_reasons v [] (mx ∷ my ∷ [])) e
      ∙ sym (reasons-merge mx (my ∷ [])))

-- A rollup of one rollup is that rollup.
pub merge_health_one :
    (s : HealthStatus) (ss : List HealthStatus)
    → merge_health (merge_health (s ∷ ss) ∷ []) ≡ merge_health (s ∷ ss)
merge_health_one s ss =
    let m = merge_health (s ∷ ss) in
    status_path _ _ (state-merge m [] ∙ pick_worst_one m.state) (
      reasons-merge m []
      ∙ ap (λ v. status_reasons v [] (m ∷ [])) (state-merge m [] ∙ pick_worst_one m.state)
      ∙ sym (group-merge m.state [] s ss (omega arith))
      ∙ sym (reasons-merge s ss))
