-- ===== src/Prelude/Texts.antt =====
-- Lists of texts read as Python's sets and duplicate-free lists, and dictionaries keyed by texts.
use Prim.Native.String.{String}
use mathlib.Core.Path.{◌≡◌, refl, sym, ◌∙◌, ap}
use mathlib.Core.Logic.{inl, inr}
use mathlib.Core.Bool.{Bool, false, ◌||◌}
use mathlib.Core.Option.{Option, none, some}
use mathlib.Core.List.{List, [], ◌∷◌, ◌++◌, append-nil, append_assoc}
use native.Mathlib.Omega.{arith}
use text.Mathlib.Text.{◌==◌}
use text.Mathlib.TextEquality.{eq_iff}
use threadlens.Prelude.Tests.{if◌then◌else◌, Bool-cases}

-- `s in xs`
abbrev pub contains : String → List String → Bool
contains s [] = false
contains s (x ∷ xs) = s == x || contains s xs

-- an optional text as a condition: an empty text counts as none
abbrev pub non_blank : Option String → Option String
non_blank none = none
non_blank (some s) = if s == "" then none else some s

-- `a or b`
abbrev pub or_text : Option String → Option String → Option String
or_text a b = elim (non_blank a) [ some s ↦ some s | none ↦ b ]

-- `if s not in xs: xs.append(s)`, also `xs.add(s)` on a set
unfoldable pub add_new : List String → String → List String
add_new xs s = if contains s xs then xs else xs ++ s ∷ []

-- the same for each text of a list, in order
unfoldable pub add_all : List String → List String → List String
add_all xs [] = xs
add_all xs (s ∷ ss) = add_all (add_new xs s) ss

-- No text stands twice.
abbrev pub IsDistinct : List String → Type 0
IsDistinct [] = Unit
IsDistinct (x ∷ xs) = (contains x xs ≡ false) × IsDistinct xs

pub contains-append :
    (s : String) (xs ys : List String) → contains s (xs ++ ys) ≡ (contains s xs || contains s ys)
contains-append s [] ys = refl
contains-append s (x ∷ xs) ys = ground (arith, contains-append s xs ys)

pub contains-add_new :
    (s t : String) (xs : List String) → contains s (add_new xs t) ≡ (contains s xs || s == t)
unfolding add_new
contains-add_new s t xs = ground (arith, contains-append s xs (t ∷ []), eq_iff s t)

pub contains-add_all :
    (s : String) (xs ss : List String)
    → contains s (add_all xs ss) ≡ (contains s xs || contains s ss)
unfolding add_all
contains-add_all s xs [] = ground arith
contains-add_all s xs (t ∷ ss) =
    ground (arith, contains-add_all s (add_new xs t) ss, contains-add_new s t xs)

IsDistinct-snoc :
    (xs : List String) (s : String)
    → contains s xs ≡ false
    → IsDistinct xs
    → IsDistinct (xs ++ s ∷ [])
IsDistinct-snoc [] s h d = (refl, tt)
IsDistinct-snoc (x ∷ xs) s h (fresh, d) = (
  ground (arith, contains-append x xs (s ∷ []), eq_iff s x, eq_iff x s),
  IsDistinct-snoc xs s (ground arith) d,
)

pub IsDistinct-add_new : (xs : List String) (s : String) → IsDistinct xs → IsDistinct (add_new xs s)
unfolding add_new
IsDistinct-add_new xs s d = elim (Bool-cases (contains s xs)) [
  | inl old ↦ rw old d
  | inr new ↦ rw new (IsDistinct-snoc xs s new d)
]

pub IsDistinct-add_all : (xs ss : List String) → IsDistinct xs → IsDistinct (add_all xs ss)
unfolding add_all
IsDistinct-add_all xs [] d = d
IsDistinct-add_all xs (s ∷ ss) d = IsDistinct-add_all (add_new xs s) ss (IsDistinct-add_new xs s d)

pub add_all-append : (xs ss ts : List String) → add_all xs (ss ++ ts) ≡ add_all (add_all xs ss) ts
unfolding add_all
add_all-append xs [] ts = refl
add_all-append xs (s ∷ ss) ts = add_all-append (add_new xs s) ss ts

add_all-add_new :
    (xs ys : List String) (s : String) → add_all xs (add_new ys s) ≡ add_new (add_all xs ys) s
unfolding add_new
add_all-add_new xs ys s = elim (Bool-cases (contains s ys)) [
  | inl old ↦ ground (arith, contains-add_all s xs ys)
  | inr new ↦ rw new (unfold add_all in add_all-append xs ys (s ∷ []))
]

-- Adding a list that was itself made without repetitions adds the same texts in the same order.
pub add_all-add_all :
    (xs ys ss : List String) → add_all xs (add_all ys ss) ≡ add_all (add_all xs ys) ss
unfolding add_all
add_all-add_all xs ys [] = refl
add_all-add_all xs ys (s ∷ ss) =
    add_all-add_all xs (add_new ys s) ss ∙ ap (λ zs. add_all zs ss) (add_all-add_new xs ys s)

-- Texts that are distinct and not there yet are appended as they are.
AllNew : List String → List String → Type 0
AllNew xs [] = Unit
AllNew xs (s ∷ ss) = (contains s xs ≡ false) × AllNew xs ss

AllNew-snoc :
    (xs ss : List String) (s : String)
    → AllNew xs ss
    → contains s ss ≡ false
    → AllNew (xs ++ s ∷ []) ss
unfolding AllNew
AllNew-snoc xs [] s h n = tt
AllNew-snoc xs (t ∷ ss) s h n = (
  ground (arith, contains-append t xs (s ∷ []), eq_iff t s, eq_iff s t),
  AllNew-snoc xs ss s h.1 (ground arith),
)

add_all-fresh : (xs ss : List String) → AllNew xs ss → IsDistinct ss → add_all xs ss ≡ xs ++ ss
unfolding AllNew add_all add_new
add_all-fresh xs [] h d = sym (append-nil xs)
add_all-fresh xs (s ∷ ss) h d = rw h.0 (
    add_all-fresh (xs ++ s ∷ []) ss (AllNew-snoc xs ss s h.1 d.0) d.1 ∙ append_assoc xs (s ∷ []) ss)

AllNew-nil : (ss : List String) → AllNew [] ss
unfolding AllNew
AllNew-nil [] = tt
AllNew-nil (s ∷ ss) = (refl, AllNew-nil ss)

pub add_all-nil_distinct : (ss : List String) → IsDistinct ss → add_all [] ss ≡ ss
add_all-nil_distinct ss d = add_all-fresh [] ss (AllNew-nil ss) d
