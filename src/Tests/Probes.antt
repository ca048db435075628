-- ===== src/Tests/Probes.antt =====
-- The probe scheduler.
use threadlens.Prelude.{ℕ, ◌*◌, ◌<◌, ◌≡◌, refl, arith, true, List, [], ◌∷◌, length}
use threadlens.Probes.Scheduler.{run_cycle, index_after}
use threadlens.Probes.Scheduler.Selection.{member, share}
use threadlens.Probes.Scheduler.Fairness.{run_cycle-reaches}

abbrev nodes : List ℕ
nodes = 9 ∷ 4 ∷ 7 ∷ []

run_cycle-reaches_example :
    (j : ℕ) × (j * share 2 nodes < length nodes)
    × (member 4 (run_cycle 2 nodes (index_after 2 nodes 1 j)).0 ≡ true)
run_cycle-reaches_example = run_cycle-reaches 2 nodes 1 4 (omega arith) refl
