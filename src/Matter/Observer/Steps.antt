-- ===== src/Matter/Observer/Steps.antt =====
-- The steps of an observer of threadlens/collectors/matter_server.py.
use threadlens.Prelude.{ℕ, ◌≡◌, String, Option, some, List, IsDistinct}
use threadlens.Prelude.Json.{Json, Fields}
use threadlens.Matter.Observer.{Observer}
use threadlens.Matter.Observer.Node.{store_node}
use threadlens.Matter.Observer.Handle.{
  on_connected, on_disconnected, send_command, request_command, sends, handle_message,
}
use threadlens.Prelude.Dict.{keys}
use threadlens.Model.State.{MatterNodeState, ThreadDeviceState}
use threadlens.Enrichment.Forgets.{correlate_rows}

-- What can happen to a running observer: its connection is made or lost, a message arrives, a
-- command is sent, or a request is. While probes run, also in the task that a result creates, a node
-- is stored with what a probe found, and at their end the Thread identities are correlated over the
-- rows of the table, of which the id is the primary key.
pub data Step (o : Observer) (o' : Observer) : Type 0 where
  connects : (now : ℕ) → o' ≡ on_connected now o → Step o o'
  disconnects :
      (reason : Option String) (now tick : ℕ) → o' ≡ on_disconnected reason now tick o → Step o o'
  receives : (payload : Fields) (now tick : ℕ) → o' ≡ handle_message payload now tick o → Step o o'
  commands : (command : String) → send_command command o ≡ some o' → Step o o'
  requests :
      (command message_id : String) (tick : ℕ)
      → request_command command message_id tick o ≡ sends o'
      → Step o o'
  persists :
      (n : MatterNodeState) → n.server_id ≡ o.server_config.id → o' ≡ store_node n o → Step o o'
  correlates :
      (compressed : String → Option String) (devices : List ThreadDeviceState)
      → IsDistinct (keys o.node_rows)
      → o' ≡ correlate_rows compressed devices o
      → Step o o'

pub data Reach (s : Observer) : Observer → Type 0 where
  here : Reach s s
  next : {o o' : Observer} → Reach s o → Step o o' → Reach s o'
