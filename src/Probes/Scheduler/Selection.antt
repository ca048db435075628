-- ===== src/Probes/Scheduler/Selection.antt =====
-- What one cycle of the round robin of threadlens/collectors/matter_probe_scheduler.py selects.
use threadlens.Prelude.{
  ℕ, zero, suc, ◌+◌, ◌-◌, ◌*◌, ◌%◌, ◌≤◌, ◌<◌, ◌≡◌, refl, ap, ◌∙◌, Bool, true, false, ◌||◌, Option,
  none, some, List, [], ◌∷◌, leb, length, arith, Bool-cases, inl, inr, ◌⊎◌,
}
use Prim.Native.Nat.{◌/◌}
use threadlens.Prelude.Codes.{eq_ℕ}
use threadlens.Probes.Scheduler.{nth, append_at, select, smaller, limit_of, cycle_over}

remainder_small : (x n q r : ℕ) → x ≡ n * q + r → x < n → r ≡ x
remainder_small x n zero r e h = omega arith
remainder_small x n (suc q) r e h = omega arith

mod_small : (x n : ℕ) → x < n → x % n ≡ x
mod_small x n h = remainder_small x n (x / n) (x % n) (omega arith) h

remainder_once : (x n q r : ℕ) → x ≡ n * q + r → r < n → n ≤ x → x < n + n → r ≡ x - n
remainder_once x n zero r e l h k = omega arith
remainder_once x n (suc zero) r e l h k = omega arith
remainder_once x n (suc (suc q)) r e l h k = omega arith

mod_once : (x n : ℕ) → n ≤ x → x < n + n → x % n ≡ x - n
mod_once x n h k = remainder_once x n (x / n) (x % n) (omega arith) (omega arith) h k

-- the index of a position within one round of the start
wrapped : (x n : ℕ) → x < n + n → ((x < n) × (x % n ≡ x)) ⊎ ((n ≤ x) × (x % n ≡ x - n))
wrapped x n h = elim (Bool-cases (leb n x)) [
  | inl y ↦ inr (ground arith, mod_once x n (ground arith) h)
  | inr z ↦ inl (ground arith, mod_small x n (ground arith))
]

abbrev pub member : ℕ → List ℕ → Bool
member x [] = false
member x (y ∷ ys) = eq_ℕ x y || member x ys

member-append_at :
    (x : ℕ) (o : Option ℕ) (xs : List ℕ) → member x xs ≡ true → member x (append_at o xs) ≡ true
unfolding append_at
member-append_at x none xs h = h
member-append_at x (some y) xs h = ground arith

member-append_at_new :
    (x : ℕ) (o : Option ℕ) (xs : List ℕ) → o ≡ some x → member x (append_at o xs) ≡ true
unfolding append_at
member-append_at_new x none xs h = cc
member-append_at_new x (some y) xs h = ground arith

-- a selection holds the id at each of its offsets
member-select :
    (ids : List ℕ) (index offset count d x : ℕ)
    → d < count
    → nth ((index + (offset + d)) % length ids) ids ≡ some x
    → member x (select ids index offset count) ≡ true
unfolding select
member-select ids index offset zero d x h e = absurd (omega arith)
member-select ids index offset (suc count) zero x h e =
    member-append_at_new x (nth ((index + offset) % length ids) ids)
      (select ids index (suc offset) count)
      (ap (λ o. nth ((index + o) % length ids) ids) (omega arith) ∙ e)
member-select ids index offset (suc count) (suc d) x h e =
    member-append_at x (nth ((index + offset) % length ids) ids)
      (select ids index (suc offset) count)
      (member-select ids index (suc offset) count d x (omega arith)
        (ap (λ o. nth ((index + o) % length ids) ids) (omega arith) ∙ e))

-- a position within the list has an id
nth-some : (n : ℕ) (xs : List ℕ) → n < length xs → (x : ℕ) × (nth n xs ≡ some x)
unfolding nth
nth-some n [] h = absurd (omega arith)
nth-some zero (x ∷ xs) h = (x, refl)
nth-some (suc n) (x ∷ xs) h = nth-some n xs (omega arith)

length-append_at :
    (o : Option ℕ) (x : ℕ) (xs : List ℕ) → o ≡ some x → length (append_at o xs) ≡ length xs + 1
unfolding append_at
length-append_at none x xs h = cc
length-append_at (some y) x xs h = omega arith

-- no offset is out of range
length-select :
    (ids : List ℕ) (index offset count : ℕ)
    → 0 < length ids
    → length (select ids index offset count) ≡ count
unfolding select
length-select ids index offset zero h = refl
length-select ids index offset (suc count) h =
    let (x, e) = nth-some ((index + offset) % length ids) ids (omega arith) in
    length-append_at (nth ((index + offset) % length ids) ids) x
      (select ids index (suc offset) count) e
    ∙ omega (arith, length-select ids index (suc offset) count h)

-- how many nodes a cycle probes
abbrev pub share : ℕ → List ℕ → ℕ
share max_concurrent ids = smaller (limit_of max_concurrent) (length ids)

pub share_lem :
    (m : ℕ) (ids : List ℕ) → 0 < length ids → (0 < share m ids) × (share m ids ≤ length ids)
share_lem m ids h = ground arith

-- the offset `d` from the index leads to the position `p`
unfoldable pub Leads : ℕ → ℕ → ℕ → ℕ → Type 0
Leads n index d p = (index + d ≡ p) ⊎ (index + d ≡ p + n)

Leads-mod : (n index d p : ℕ) → p < n → Leads n index d p → (index + d) % n ≡ p
unfolding Leads
Leads-mod n index d p h (inl e) = ap (λ x. x % n) e ∙ mod_small p n h
Leads-mod n index d p h (inr e) =
    ap (λ x. x % n) e ∙ mod_once (p + n) n (omega arith) (omega arith) ∙ omega arith

pub Leads-next :
    (n index d p k : ℕ)
    → index < n
    → p < n
    → k ≤ d
    → d < n
    → Leads n index d p
    → Leads n ((index + k) % n) (d - k) p
unfolding Leads
Leads-next n index d p k h g le lt l = elim (wrapped (index + k) n (omega arith)) [
  | inl (a, e) ↦ elim l [ inl x ↦ inl (omega arith) | inr x ↦ inr (omega arith) ]
  | inr (a, e) ↦ elim l [ inl x ↦ inl (omega arith) | inr x ↦ inl (omega arith) ]
]

pub cycle_over-member :
    (m : ℕ) (ids : List ℕ) (index d p x : ℕ)
    → 0 < length ids
    → p < length ids
    → d < share m ids
    → Leads (length ids) index d p
    → nth p ids ≡ some x
    → member x (cycle_over m ids index).0 ≡ true
unfolding cycle_over
cycle_over-member m [] index d p x z h lt l e = absurd (omega arith)
cycle_over-member m (y ∷ ys) index d p x z h lt l e =
    let ids = y ∷ ys in
    member-select ids index 0 (share m ids) d x lt (
      ap (λ o. nth ((index + o) % length ids) ids) (omega arith)
      ∙ ap (λ q. nth q ids) (Leads-mod (length ids) index d p h l)
      ∙ e)

pub cycle_over-next :
    (m : ℕ) (ids : List ℕ) (index : ℕ)
    → 0 < length ids
    → (cycle_over m ids index).1 ≡ (index + share m ids) % length ids
unfolding cycle_over
cycle_over-next m [] index z = omega arith
cycle_over-next m (y ∷ ys) index z =
    ap (λ k. (index + k) % length (y ∷ ys)) (length-select (y ∷ ys) index 0 (share m (y ∷ ys)) z)

pub length-cycle_over :
    (m : ℕ) (ids : List ℕ) (index : ℕ)
    → 0 < length ids
    → length (cycle_over m ids index).0 ≡ share m ids
unfolding cycle_over
length-cycle_over m [] index z = omega arith
length-cycle_over m (y ∷ ys) index z = length-select (y ∷ ys) index 0 (share m (y ∷ ys)) z
