-- ===== src/Matter/Observer/Lifecycle.antt =====
-- The start of an observer, the reconnection of its session, and `MatterCollector`, of
-- threadlens/collectors/matter_server.py. The tasks that run a session and the probes are the event
-- loop's.
use threadlens.Prelude.{
  ℕ, ◌+◌, ◌-◌, ◌*◌, Bool, true, false, String, Option, none, some, List, [], ◌∷◌, ltb, length,
  count_if, ◌==◌, if◌then◌else◌,
}
use threadlens.Prelude.IntDict.{IntDict, insert}
use threadlens.Model.State.{MatterNodeState}
use threadlens.Storage.Table.{Table}
use threadlens.Matter.Observer.{Observer, persist_server_state, node_count, unavailable_node_count}

-- `_load_cache`: the rows of this server
unfoldable pub load_rows :
    String → Table MatterNodeState → IntDict MatterNodeState → IntDict MatterNodeState
unfolding insert
load_rows server_id [] nodes = nodes
load_rows server_id ((id, n) ∷ rows) nodes =
    load_rows server_id rows (if n.server_id == server_id then insert n.node_id n nodes else nodes)

unfoldable pub load_cache : Observer → Observer
unfolding load_rows
load_cache o = record o { nodes = load_rows o.server_config.id o.node_rows o.nodes }

unfoldable pub start : Observer → Observer
unfolding load_cache persist_server_state
start o = if o.running then o else persist_server_state (record (load_cache o) { running = true })

unfoldable pub stop : Observer → Observer
stop o = record o { running = false }

-- How a session ends.
pub data SessionEnd : Type 0 where
  raised closed : SessionEnd

-- The times that `_run` sleeps after each session of a list, while the observer runs. They are
-- counted in a unit in which the two configured times, which are floats, are whole numbers.
unfoldable pub backoffs : ℕ → ℕ → ℕ → List SessionEnd → List ℕ
backoffs initial max_backoff backoff [] = []
backoffs initial max_backoff backoff (raised ∷ ends) =
    backoff
    ∷ backoffs initial max_backoff
        (if ltb (backoff * 2) max_backoff then backoff * 2 else max_backoff) ends
backoffs initial max_backoff backoff (closed ∷ ends) =
    initial ∷ backoffs initial max_backoff initial ends

pub record MatterCollector : Type 0 where
  pub observers : List Observer
  pub running : Bool

-- `start` of the collector
unfoldable pub start_all : List Observer → List Observer
unfolding start
start_all [] = []
start_all (o ∷ os) = start o ∷ start_all os

unfoldable pub start_collector : MatterCollector → MatterCollector
unfolding start_all
start_collector c = elim c.observers [
  | [] ↦ c
  | o ∷ os ↦ if c.running then c else record { observers = start_all (o ∷ os); running = true }
]

pub record MatterStatus : Type 0 where
  pub configured : ℕ
  pub collector_running : Bool
  pub connected : ℕ
  pub disconnected : ℕ
  pub nodes_seen : ℕ
  pub unavailable_nodes : ℕ
  pub last_event_at : Option ℕ

later : Option ℕ → Option ℕ → Option ℕ
later none b = b
later (some a) none = some a
later (some a) (some b) = if ltb a b then some b else some a

latest_event : List Observer → Option ℕ
unfolding later
latest_event [] = none
latest_event (o ∷ os) = later o.last_event_at (latest_event os)

unfoldable pub total : (Observer → ℕ) → List Observer → ℕ
total f [] = 0
total f (o ∷ os) = f o + total f os

-- one observer per configured server
unfoldable pub status : MatterCollector → MatterStatus
unfolding total latest_event node_count unavailable_node_count
status c =
    let connected = count_if (λ (o : Observer). o.connected) c.observers in
    record {
      configured = length c.observers;
      collector_running = c.running;
      connected = connected;
      disconnected = length c.observers - connected;
      nodes_seen = total node_count c.observers;
      unavailable_nodes = total unavailable_node_count c.observers;
      last_event_at = latest_event c.observers;
    }
