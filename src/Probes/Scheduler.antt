-- ===== src/Probes/Scheduler.antt =====
-- `MatterProbeScheduler` of threadlens/collectors/matter_probe_scheduler.py: what one turn of the
-- loop does, and the round robin over the available nodes. Every selected node is probed: a probe
-- that raises ends its own task alone. The random jitter is an argument.
pub mod Selection
pub mod Fairness
use threadlens.Prelude.{
  ℕ, zero, suc, ◌+◌, ◌%◌, Bool, true, false, ◌&&◌, not, Option, none, some, List, [], ◌∷◌, leb, ltb,
  length, if◌then◌else◌,
}
use threadlens.Config.{MatterProbeConfig, probes_active, interval_seconds}

unfoldable pub should_run : MatterProbeConfig → Bool
unfolding probes_active
should_run config = probes_active config && config.schedule_enabled

-- What the loop does next: it ends, it sleeps and looks again, or it runs a cycle and then sleeps.
pub data Turn : Type 0 where
  ends : Turn
  sleeps : ℕ → Turn
  cycles : ℕ → Turn

unfoldable pub turn : MatterProbeConfig → Bool → Bool → ℕ → Turn
unfolding should_run interval_seconds
turn config running connected jitter =
    if not running
    then ends
    else if not (should_run config)
    then sleeps 60
    else if not connected
    then sleeps 30
    else cycles (interval_seconds config + jitter)

-- `sorted(node_ids)`
insert_id : ℕ → List ℕ → List ℕ
insert_id x [] = x ∷ []
insert_id x (y ∷ ys) = let rest = insert_id x ys in if leb x y then x ∷ y ∷ ys else y ∷ rest

sort_ids : List ℕ → List ℕ
unfolding insert_id
sort_ids [] = []
sort_ids (x ∷ xs) = insert_id x (sort_ids xs)

unfoldable pub nth : ℕ → List ℕ → Option ℕ
nth n [] = none
nth zero (x ∷ xs) = some x
nth (suc n) (x ∷ xs) = nth n xs

-- `selected.append(node_ids[index])`; an index out of range would raise, and there is none
unfoldable pub append_at : Option ℕ → List ℕ → List ℕ
append_at none rest = rest
append_at (some x) rest = x ∷ rest

-- the loop over the offsets, from `offset` on, `count` times
unfoldable pub select : List ℕ → ℕ → ℕ → ℕ → List ℕ
unfolding nth append_at
select ids index offset zero = []
select ids index offset (suc count) =
    append_at (nth ((index + offset) % length ids) ids) (select ids index (suc offset) count)

abbrev pub smaller : ℕ → ℕ → ℕ
smaller m n = if leb m n then m else n

-- `max(1, max_concurrent)`
abbrev pub limit_of : ℕ → ℕ
limit_of max_concurrent = if leb 1 max_concurrent then max_concurrent else 1

-- on the sorted ids: the nodes that are probed, and the next index
unfoldable pub cycle_over : ℕ → List ℕ → ℕ → List ℕ × ℕ
unfolding select
cycle_over max_concurrent [] index = ([], index)
cycle_over max_concurrent (x ∷ xs) index =
    let ids = x ∷ xs in
    let selected = select ids index 0 (smaller (limit_of max_concurrent) (length ids)) in
    (selected, (index + length selected) % length ids)

unfoldable pub run_cycle : ℕ → List ℕ → ℕ → List ℕ × ℕ
unfolding cycle_over sort_ids
run_cycle max_concurrent node_ids index = cycle_over max_concurrent (sort_ids node_ids) index

-- The index after a number of cycles over the same nodes.
unfoldable pub index_after : ℕ → List ℕ → ℕ → ℕ → ℕ
unfolding run_cycle
index_after max_concurrent node_ids index zero = index
index_after max_concurrent node_ids index (suc n) =
    index_after max_concurrent node_ids (run_cycle max_concurrent node_ids index).1 n
