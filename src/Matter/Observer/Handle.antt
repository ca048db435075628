-- ===== src/Matter/Observer/Handle.antt =====
-- The messages of the websocket, the connection and the commands of
-- threadlens/collectors/matter_server.py. The task that `_handle_result` creates is counted; what it
-- does are steps of their own.
use threadlens.Prelude.{
  ℕ, suc, Bool, true, false, not, ◌&&◌, ◌||◌, String, Option, none, some, List, [], ◌∷◌, ◌++◌, join,
  contains, ◌==◌, if◌then◌else◌,
}
use threadlens.Prelude.Json.{Json, Fields, null, get_or_null, has, objects}
use threadlens.Model.Events.{EventSeverity, Datum}
use threadlens.Matter.Requests.{
  MatterCommandResult, registered, value_error, register, dispatch_incoming, cancel_all,
}
use threadlens.Matter.Observer.{Observer, persist_server_state, emit_server_event, allowed_commands}
use threadlens.Matter.Observer.Node.{process_node, process_node_removed}

unfoldable pub on_connected : ℕ → Observer → Observer
unfolding persist_server_state emit_server_event
on_connected now o =
    let seen = record o {
      capabilities = record (o.capabilities) { websocket_available = true };
      last_seen = some now;
      last_connected = some now;
      last_error = none;
      connected = true;
    } in
    if o.connected
    then persist_server_state seen
    else emit_server_event "matter_server.connected"
        (join ("Matter Server " ∷ o.server_config.id ∷ " connected" ∷ [])) EventSeverity.info [] now
        (persist_server_state seen)

-- `{"reason": reason} if reason else None`
reason_data : Option String → List (String × Datum)
reason_data none = []
reason_data (some reason) = if reason == "" then [] else ("reason", Datum.text reason) ∷ []

unfoldable pub on_disconnected : Option String → ℕ → ℕ → Observer → Observer
unfolding persist_server_state emit_server_event cancel_all reason_data
on_disconnected reason now tick o =
    let lost = record o {
      requests = cancel_all reason tick o.requests;
      last_error = reason;
      last_disconnected = some now;
      capabilities = record (o.capabilities) { websocket_available = false };
      connected = false;
    } in
    if o.connected
    then emit_server_event "matter_server.disconnected"
        (join ("Matter Server " ∷ o.server_config.id ∷ " disconnected" ∷ [])) EventSeverity.warning
        (reason_data reason) now (persist_server_state lost)
    else persist_server_state lost

-- `_send_command`; `none` is the `ValueError`
unfoldable pub send_command : String → Observer → Option Observer
send_command command o =
    if contains command allowed_commands
    then some (record o { sent_commands = o.sent_commands ++ command ∷ [] })
    else none

-- What `_request_command` does before it waits: it raises, it has its result, or it has sent the
-- command under a message id.
pub data Requested : Type 0 where
  raises : Requested
  returns : MatterCommandResult → Requested
  sends : Observer → Requested

not_connected : MatterCommandResult
not_connected = record {
  ok = false;
  result = null;
  error_code = null;
  details = some "websocket not connected";
  duration_ms = none;
  timed_out = false;
}

unfoldable pub request_command : String → String → ℕ → Observer → Requested
unfolding register not_connected
request_command command message_id tick o =
    if not (contains command allowed_commands)
    then raises
    else if not o.websocket
    then returns not_connected
    else elim (register message_id tick o.requests) [
      | value_error e ↦ raises
      | registered m ↦
          sends (record o { requests = m; sent_commands = o.sent_commands ++ command ∷ [] })
    ]

-- `_extract_nodes`
unfoldable pub extract_nodes : Json → Option (List Fields)
unfolding get_or_null has objects
extract_nodes (Json.array items) = some (objects items)
extract_nodes (Json.object result) = elim (get_or_null "nodes" result) [
  | Json.array items ↦ some (objects items)
  | _ ↦ if has "node_id" result then some (result ∷ []) else none
]
extract_nodes _ = none

unfoldable pub process_each : List Fields → ℕ → Observer → Observer
unfolding process_node
process_each [] now o = o
process_each (payload ∷ payloads) now o = process_each payloads now (process_node payload now o)

-- `asyncio.create_task(self._capture_thread_identities_for_available_nodes())`
unfoldable pub create_capture : Observer → Observer
create_capture o = record o { captures = suc o.captures }

unfoldable pub handle_nodes : Option (List Fields) → ℕ → Observer → Observer
unfolding process_each persist_server_state create_capture
handle_nodes none now o = o
handle_nodes (some payloads) now o = create_capture (
    persist_server_state (
      process_each payloads now
        (record o { capabilities = record (o.capabilities) { node_inventory_available = true } })))

unfoldable pub handle_result : Json → ℕ → Observer → Observer
unfolding extract_nodes handle_nodes
handle_result result now o = handle_nodes (extract_nodes result) now o

-- the events that the observer acts on
pub data ServerEvent : Type 0 where
  node_changed node_removed server_shutdown other : ServerEvent

event_of : String → ServerEvent
event_of name =
    if name == "node_added" || name == "node_updated"
    then node_changed
    else if name == "node_removed"
    then node_removed
    else if name == "server_shutdown"
    then server_shutdown
    else other

unfoldable pub server_event : Json → ServerEvent
unfolding event_of
server_event (Json.str name) = event_of name
server_event _ = other

unfoldable pub handle_changed : Json → ℕ → Observer → Observer
unfolding process_node persist_server_state
handle_changed (Json.object payload) now o = persist_server_state (process_node payload now o)
handle_changed _ now o = o

unfoldable pub handle_server_event : ServerEvent → Json → ℕ → ℕ → Observer → Observer
unfolding handle_changed process_node_removed persist_server_state on_disconnected
handle_server_event node_changed payload now tick o = handle_changed payload now o
handle_server_event node_removed payload now tick o =
    persist_server_state (process_node_removed payload now o)
handle_server_event server_shutdown payload now tick o =
    on_disconnected (some "server_shutdown") now tick o
handle_server_event other payload now tick o = o

unfoldable pub handle_event : Json → Json → ℕ → ℕ → Observer → Observer
unfolding server_event handle_server_event
handle_event event_type payload = handle_server_event (server_event event_type) payload

unfoldable pub looks_like_server_info : Fields → Bool
unfolding has
looks_like_server_info payload =
    has "schema_version" payload || (has "fabric_id" payload || has "sdk_version" payload)

-- a message that is no answer to a request
unfoldable pub handle_unclaimed : Fields → ℕ → ℕ → Observer → Observer
unfolding has get_or_null handle_result handle_event looks_like_server_info persist_server_state
handle_unclaimed payload now tick o =
    if has "result" payload && has "message_id" payload
    then handle_result (get_or_null "result" payload) now o
    else if has "event" payload
    then handle_event (get_or_null "event" payload) (get_or_null "data" payload) now tick o
    else if looks_like_server_info payload
    then persist_server_state o
    else o

unfoldable pub handle_message : Fields → ℕ → ℕ → Observer → Observer
unfolding dispatch_incoming handle_unclaimed
handle_message payload now tick o =
    let (claimed, requests) = dispatch_incoming payload tick o.requests in
    let received = record o { last_event_at = some now; requests = requests } in
    if claimed then received else handle_unclaimed payload now tick received
