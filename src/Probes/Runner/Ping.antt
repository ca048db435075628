-- ===== src/Probes/Runner/Ping.antt =====
-- `_run_ping` of threadlens/collectors/matter_probes.py. `compressed` is that of Network.antt.
use threadlens.Prelude.{
  ℕ, ◌+◌, Bool, true, false, String, Option, some, List, [], ◌∷◌, join, show_ℕ, is_some,
  if◌then◌else◌,
}
use threadlens.Network.{extract_ping_ipv6}
use threadlens.Model.Events.{EventSeverity, Datum}
use threadlens.Model.State.{MatterNodeState}
use threadlens.Matter.Requests.{MatterCommandResult}
use threadlens.Matter.Observer.{Observer, emit_node_event}
use threadlens.Matter.Observer.Node.{store_node}
use threadlens.Probes.Runner.{
  Answer, Request, count_failures, count_successes, code_datum, error_summary,
}

pub data PingEnd : Type 0 where
  timed_out succeeded failed : PingEnd

unfoldable pub ping_end : MatterCommandResult → PingEnd
ping_end r = if r.timed_out then timed_out else if r.ok then succeeded else failed

abbrev pub ping_ok : PingEnd → Bool
ping_ok succeeded = true
ping_ok _ = false

abbrev pub ping_event : PingEnd → String
ping_event timed_out = "matter_node.ping.timed_out"
ping_event succeeded = "matter_node.ping.succeeded"
ping_event failed = "matter_node.ping.failed"

abbrev pub ping_message : PingEnd → String
ping_message timed_out = "Ping timed out for Matter node "
ping_message succeeded = "Ping succeeded for Matter node "
ping_message failed = "Ping failed for Matter node "

abbrev pub ping_severity : PingEnd → EventSeverity
ping_severity succeeded = EventSeverity.info
ping_severity _ = EventSeverity.warning

-- the identity fields, where the identity is captured
unfoldable pub with_identity : Bool → Option String → ℕ → MatterNodeState → MatterNodeState
with_identity false ipv6 now n = n
with_identity true ipv6 now n = record n {
  thread_ipv6_address = ipv6;
  thread_identity_last_at = (if is_some ipv6 then some now else n.thread_identity_last_at);
}

-- the diagnostics of this ping, with the counts before its own event
unfoldable pub with_ping : PingEnd → ℕ → Observer → MatterNodeState → MatterNodeState
unfolding count_failures count_successes
with_ping e now o n =
    let failures =
      count_failures "matter_node.ping.failed" "matter_node.ping.timed_out" n.node_id now o in
    let successes = count_successes "matter_node.ping.succeeded" n.node_id now o in
    record n {
      ping_diagnostics_available = true;
      last_ping_at = some now;
      last_ping_ok = some (ping_ok e);
      ping_failures_24h = some (if ping_ok e then failures else failures + 1);
      ping_successes_24h = some (if ping_ok e then successes + 1 else successes);
    }

module _ (compressed : String → Option String) where
  ping_details : Answer → List (String × Datum)
  unfolding error_summary extract_ping_ipv6
  ping_details a =
      ("probe_type", Datum.text "ping_node")
      ∷ ("duration_ms", Datum.opt_number a.result.duration_ms)
      ∷ ("error_code", code_datum a.result.error_code)
      ∷ ("error_summary", Datum.opt_text (error_summary a.result))
      ∷ ("thread_ipv6_address", Datum.opt_text (extract_ping_ipv6 compressed a.result.result))
      ∷ []

  -- what follows the answer
  unfoldable pub settle_ping :
      MatterNodeState → Bool → Bool → ℕ → Answer → Bool × MatterNodeState × Observer
  unfolding ping_end with_identity with_ping extract_ping_ipv6 ping_details store_node
      emit_node_event
  settle_ping n update_diagnostics capture_identity now a =
      let e = ping_end a.result in
      let identified =
        with_identity capture_identity (extract_ping_ipv6 compressed a.result.result) now n in
      let pinged = with_ping e now a.observer identified in
      let emitted =
        emit_node_event n.node_id (ping_event e)
          (join (ping_message e ∷ show_ℕ n.node_id ∷ " on " ∷ a.observer.server_config.id ∷ []))
          (ping_severity e) (ping_details a) a.arrived a.observer in
      if update_diagnostics
      then (ping_ok e, pinged, store_node pinged emitted)
      else (ping_ok e, identified, a.observer)

  unfoldable pub run_ping :
      Request → MatterNodeState → Bool → Bool → ℕ → Observer → Bool × MatterNodeState × Observer
  unfolding settle_ping
  run_ping request n update_diagnostics capture_identity now o =
      settle_ping n update_diagnostics capture_identity now (request "ping_node" n.node_id "" o)
