-- ===== src/Matter/Observer/Backoff.antt =====
-- The reconnection of threadlens/collectors/matter_server.py, and the counts of its collector.
use threadlens.Prelude.{
  ℕ, ◌+◌, ◌*◌, ◌≤◌, ◌≡◌, refl, not, List, [], ◌∷◌, arith, All, length, count_if-le-length,
  if◌then◌else◌, ltb, leb,
}
use threadlens.Prelude.IntDict.{values}
use threadlens.Matter.Observer.{Observer, node_count, unavailable_node_count}
use threadlens.Matter.Observer.Lifecycle.{
  SessionEnd, raised, closed, backoffs, MatterCollector, status, total,
}

abbrev pub least_of : ℕ → ℕ → ℕ
least_of m n = if leb m n then m else n

abbrev pub most_of : ℕ → ℕ → ℕ
most_of m n = if leb m n then n else m

backoffs_between :
    (low high initial most backoff : ℕ) (ends : List SessionEnd)
    → (low ≤ initial) × (initial ≤ high)
    → (low ≤ most) × (most ≤ high)
    → (low ≤ backoff) × (backoff ≤ high)
    → (length (backoffs initial most backoff ends) ≡ length ends)
      × All (λ s. (low ≤ s) × (s ≤ high)) (backoffs initial most backoff ends)
unfolding backoffs
backoffs_between low high initial most backoff [] h k l = (refl, tt)
backoffs_between low high initial most backoff (raised ∷ ends) h k l = ground (
  arith,
  backoffs_between low high initial most (if ltb (backoff * 2) most then backoff * 2 else most)
      ends,
)
backoffs_between low high initial most backoff (closed ∷ ends) h k l =
    ground (arith, backoffs_between low high initial most initial ends)

-- However its sessions end, an observer that starts with the initial time backs off between two of
-- them, for a time between the initial and the greatest configured time, whichever of them is larger.
pub backoffs-bounds :
    (initial most : ℕ) (ends : List SessionEnd)
    → (length (backoffs initial most initial ends) ≡ length ends)
      × All
          (λ s. (least_of initial most ≤ s) × (s ≤ most_of initial most))
          (backoffs initial most initial ends)
backoffs-bounds initial most ends =
    backoffs_between (least_of initial most) (most_of initial most) initial most initial ends
      (ground arith) (ground arith) (ground arith)

total_le : (os : List Observer) → total unavailable_node_count os ≤ total node_count os
unfolding total unavailable_node_count node_count
total_le [] = omega arith
total_le (o ∷ os) =
    ground (arith, total_le os, count_if-le-length (λ n. not n.available) (values o.nodes))

-- In the status of the collector, connected and disconnected servers make up the configured ones, and
-- no more nodes are unavailable than are seen.
pub status-counts :
    (c : MatterCollector)
    → ((status c).connected + (status c).disconnected ≡ (status c).configured)
      × ((status c).unavailable_nodes ≤ (status c).nodes_seen)
unfolding status
status-counts c =
    ground
      (arith, total_le c.observers, count_if-le-length (λ (o : Observer). o.connected) c.observers)
