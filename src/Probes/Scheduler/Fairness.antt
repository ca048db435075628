-- ===== src/Probes/Scheduler/Fairness.antt =====
-- The round robin of threadlens/collectors/matter_probe_scheduler.py reaches every node.
use threadlens.Prelude.{
  ℕ, zero, suc, ◌+◌, ◌-◌, ◌*◌, ◌%◌, ◌≤◌, ◌<◌, ◌≡◌, refl, sym, ap, ◌∙◌, true, ◌||◌, some, List, [],
  ◌∷◌, leb, length, arith, Bool-cases, inl, inr, ◌⊎◌,
}
use mathlib.Core.Path.{subst}
use threadlens.Prelude.Codes.{eq_ℕ}
use threadlens.Probes.Scheduler.{
  insert_id, sort_ids, nth, smaller, limit_of, cycle_over, run_cycle, index_after,
}
use threadlens.Probes.Scheduler.Selection.{
  member, share, share_lem, Leads, Leads-next, cycle_over-member, cycle_over-next,
  length-cycle_over,
}

-- the index after some cycles, on the sorted ids
index_over : ℕ → List ℕ → ℕ → ℕ → ℕ
index_over m ids index zero = index
index_over m ids index (suc j) = index_over m ids (cycle_over m ids index).1 j

Reaches : ℕ → List ℕ → ℕ → ℕ → ℕ → Type 0
Reaches m ids index d x =
    (j : ℕ) × (j * share m ids ≤ d)
    × (member x (cycle_over m ids (index_over m ids index j)).0 ≡ true)

later :
    (m : ℕ) (ids : List ℕ) (index d x : ℕ)
    → share m ids ≤ d
    → Reaches m ids (cycle_over m ids index).1 (d - share m ids) x
    → Reaches m ids index d x
unfolding Reaches index_over
later m ids index d x h (j, e, r) = (suc j, omega arith, r)

now_or_later : (m : ℕ) (ids : List ℕ) (d : ℕ) → (d < share m ids) ⊎ (share m ids ≤ d)
now_or_later m ids d = elim (Bool-cases (leb (share m ids) d)) [
  | inl y ↦ inr (ground arith)
  | inr z ↦ inl (ground arith)
]

reaches :
    (m : ℕ) (ids : List ℕ) (index d p x bound : ℕ)
    → 0 < length ids
    → index < length ids
    → p < length ids
    → d < length ids
    → d ≤ bound
    → Leads (length ids) index d p
    → nth p ids ≡ some x
    → Reaches m ids index d x
unfolding Reaches index_over
reaches m ids index d p x zero z a b c le l e = (
  0,
  omega arith,
  cycle_over-member m ids index d p x z b (omega (arith, (share_lem m ids z).0)) l e,
)
reaches m ids index d p x (suc bound) z a b c le l e = elim (now_or_later m ids d) [
  | inl now ↦ (0, omega arith, cycle_over-member m ids index d p x z b now l e)
  | inr far ↦
      let k = share m ids in
      let next : (cycle_over m ids index).1 ≡ (index + k) % length ids =
        cycle_over-next m ids index z in
      later m ids index d x far (
        reaches m ids (cycle_over m ids index).1 (d - k) p x bound z (omega (arith, next)) b
          (omega arith) (omega (arith, (share_lem m ids z).0))
          (subst (λ q. Leads (length ids) q (d - k) p) (sym next)
            (Leads-next (length ids) index d p k a b far c l))
          e)
]

start_distance : (n index p : ℕ) → index < n → p < n → (d : ℕ) × (d < n) × Leads n index d p
unfolding Leads
start_distance n index p a b = elim (Bool-cases (leb index p)) [
  | inl y ↦ let h : index ≤ p = ground arith in (p - index, omega arith, inl (omega arith))
  | inr z ↦ let h : p < index = ground arith in (p + n - index, omega arith, inr (omega arith))
]

position :
    (x : ℕ) (xs : List ℕ) → member x xs ≡ true → (p : ℕ) × (p < length xs) × (nth p xs ≡ some x)
unfolding nth
position x [] h = absurd (cc)
position x (y ∷ ys) h = elim (Bool-cases (eq_ℕ x y)) [
  | inl same ↦ (0, omega arith, ground arith)
  | inr other ↦ let (p, lt, e) = position x ys (ground arith) in (suc p, omega arith, e)
]

length-insert : (x : ℕ) (xs : List ℕ) → length (insert_id x xs) ≡ length xs + 1
unfolding insert_id
length-insert x [] = omega arith
length-insert x (y ∷ ys) = ground (arith, length-insert x ys)

length-sort : (xs : List ℕ) → length (sort_ids xs) ≡ length xs
unfolding sort_ids
length-sort [] = refl
length-sort (x ∷ xs) = omega (arith, length-insert x (sort_ids xs), length-sort xs)

member-insert : (x y : ℕ) (ys : List ℕ) → member x (insert_id y ys) ≡ (eq_ℕ x y || member x ys)
unfolding insert_id
member-insert x y [] = refl
member-insert x y (z ∷ zs) = ground (arith, member-insert x y zs)

member-sort : (x : ℕ) (xs : List ℕ) → member x (sort_ids xs) ≡ member x xs
unfolding sort_ids
member-sort x [] = refl
member-sort x (y ∷ ys) = ground (arith, member-insert x y (sort_ids ys), member-sort x ys)

index_over-after :
    (m : ℕ) (ids : List ℕ) (index j : ℕ)
    → index_over m (sort_ids ids) index j ≡ index_after m ids index j
unfolding index_over index_after run_cycle
index_over-after m ids index zero = refl
index_over-after m ids index (suc j) =
    index_over-after m ids (cycle_over m (sort_ids ids) index).1 j

-- While the available nodes stay the same, each of them is probed within one round: from an index
-- within the list, some cycle `j` probes it, and the cycles before it probed fewer nodes than there
-- are, since each cycle probes `share` nodes, the limit or all of them.
pub run_cycle-reaches :
    (max_concurrent : ℕ) (node_ids : List ℕ) (index x : ℕ)
    → index < length node_ids
    → member x node_ids ≡ true
    → (j : ℕ) × (j * share max_concurrent node_ids < length node_ids)
      × (member x
            (run_cycle max_concurrent node_ids (index_after max_concurrent node_ids index j)).0
          ≡ true)
unfolding run_cycle Reaches
run_cycle-reaches m node_ids index x a h =
    let ids = sort_ids node_ids in
    let n : length ids ≡ length node_ids = length-sort node_ids in
    let (p, b, e) = position x ids (member-sort x node_ids ∙ h) in
    let (d, c, l) = start_distance (length ids) index p (omega arith) b in
    let (j, le, r) =
      reaches m ids index d p x d (omega arith) (omega arith) b c (omega arith) l e in
    (
      j,
      omega (arith, ap (λ q. j * smaller (limit_of m) q) n),
      ap (λ q. member x (cycle_over m ids q).0) (sym (index_over-after m node_ids index j)) ∙ r,
    )

-- A cycle probes as many nodes as the limit allows, or all of them, and leaves an index within the
-- list.
pub run_cycle-share :
    (max_concurrent : ℕ) (node_ids : List ℕ) (index : ℕ)
    → index < length node_ids
    → (length (run_cycle max_concurrent node_ids index).0 ≡ share max_concurrent node_ids)
      × ((run_cycle max_concurrent node_ids index).1 < length node_ids)
unfolding run_cycle
run_cycle-share m node_ids index h =
    let ids = sort_ids node_ids in
    let n : length ids ≡ length node_ids = length-sort node_ids in
    (
      length-cycle_over m ids index (omega arith) ∙ ap (smaller (limit_of m)) n,
      omega (arith, cycle_over-next m ids index (omega arith)),
    )
