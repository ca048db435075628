-- ===== src/Probes/Runner/Attempt.antt =====
-- `_attempt_read_probe` of threadlens/collectors/matter_probes.py.
use threadlens.Prelude.{
  ℕ, ◌+◌, Bool, true, false, ◌&&◌, String, Option, none, some, List, [], ◌∷◌, join, show_ℕ,
  if◌then◌else◌,
}
use threadlens.Model.Events.{EventSeverity, Datum}
use threadlens.Model.State.{MatterNodeState}
use threadlens.Probes.Planner.{ProbeCandidate}
use threadlens.Probes.Unsupported.{is_unsupported_attribute_error}
use threadlens.Matter.Requests.{MatterCommandResult}
use threadlens.Matter.Observer.{Observer, emit_node_event}
use threadlens.Matter.Observer.Node.{store_node}
use threadlens.Probes.Runner.{
  Answer, Request, count_failures, count_successes, is_generic_candidate, code_datum, error_summary,
}

-- `_ProbeAttemptOutcome`
pub record ProbeAttemptOutcome : Type 0 where
  pub ok : Option Bool
  pub limited : Bool
  pub candidate : ProbeCandidate
  pub command_result : MatterCommandResult

-- how a read ends
pub data ReadEnd : Type 0 where
  timed_out succeeded unsupported failed : ReadEnd

unfoldable pub read_end : MatterCommandResult → ReadEnd
unfolding is_unsupported_attribute_error
read_end r =
    if r.timed_out
    then timed_out
    else if r.ok
    then succeeded
    else if is_unsupported_attribute_error r
    then unsupported
    else failed

abbrev pub end_ok : ReadEnd → Option Bool
end_ok timed_out = some false
end_ok succeeded = some true
end_ok unsupported = none
end_ok failed = some false

abbrev pub end_limited : ReadEnd → Bool
end_limited unsupported = true
end_limited _ = false

abbrev pub end_event : ReadEnd → String
end_event timed_out = "matter_node.read_probe.timed_out"
end_event succeeded = "matter_node.read_probe.succeeded"
end_event unsupported = "matter_node.read_probe.unsupported"
end_event failed = "matter_node.read_probe.failed"

abbrev pub end_message : ReadEnd → String
end_message timed_out = "Read probe timed out for Matter node "
end_message succeeded = "Read probe succeeded for Matter node "
end_message unsupported = "Read probe unsupported for Matter node "
end_message failed = "Read probe failed for Matter node "

abbrev pub end_severity : ReadEnd → EventSeverity
end_severity succeeded = EventSeverity.info
end_severity _ = EventSeverity.warning

-- `ok is False`
abbrev pub is_failure : Option Bool → Bool
is_failure (some false) = true
is_failure _ = false

abbrev pub is_success : Option Bool → Bool
is_success (some true) = true
is_success _ = false

-- the counts of the last 24 hours, with this read
unfoldable pub read_failures : ProbeCandidate → ReadEnd → ℕ → ℕ → Observer → ℕ
unfolding count_failures is_generic_candidate
read_failures c e node_id now o =
    let known =
      count_failures "matter_node.read_probe.failed" "matter_node.read_probe.timed_out" node_id now
        o in
    if is_failure (end_ok e) && is_generic_candidate c then known + 1 else known

unfoldable pub read_successes : ReadEnd → ℕ → ℕ → Observer → ℕ
unfolding count_successes
read_successes e node_id now o =
    let known = count_successes "matter_node.read_probe.succeeded" node_id now o in
    if is_success (end_ok e) then known + 1 else known

-- the node as it was when the probe began, with the diagnostics of this read
unfoldable pub probed : MatterNodeState → ProbeCandidate → ReadEnd → ℕ → Observer → MatterNodeState
unfolding read_failures read_successes
probed n c e now o = record n {
  read_probe_diagnostics_available = true;
  last_read_probe_at = some now;
  read_probe_failures_24h = some (read_failures c e n.node_id now o);
  read_probe_successes_24h = some (read_successes e n.node_id now o);
}

unfoldable pub read_details : ProbeCandidate → MatterCommandResult → List (String × Datum)
unfolding error_summary
read_details c r =
    ("probe_type", Datum.text "read_attribute")
    ∷ ("probe_kind", Datum.text c.kind)
    ∷ ("probe_label", Datum.text c.label)
    ∷ ("attribute_path", Datum.text c.attribute_path)
    ∷ ("duration_ms", Datum.opt_number r.duration_ms)
    ∷ ("error_code", code_datum r.error_code)
    ∷ ("error_summary", Datum.opt_text (error_summary r))
    ∷ []

-- what follows the answer: the node is stored, and the event is inserted
unfoldable pub settle_read :
    MatterNodeState → ProbeCandidate → ℕ → Answer → ProbeAttemptOutcome × Observer
unfolding read_end probed store_node emit_node_event read_details
settle_read n c now a =
    let e = read_end a.result in
    (
      record { ok = end_ok e; limited = end_limited e; candidate = c; command_result = a.result },
      emit_node_event n.node_id (end_event e)
          (join (end_message e ∷ show_ℕ n.node_id ∷ " on " ∷ a.observer.server_config.id ∷ []))
          (end_severity e) (read_details c a.result) a.arrived
          (store_node (probed n c e now a.observer) a.observer),
    )

unfoldable pub attempt_read_probe :
    Request → MatterNodeState → ProbeCandidate → ℕ → Observer → ProbeAttemptOutcome × Observer
unfolding settle_read
attempt_read_probe request n c now o =
    settle_read n c now (request "read_attribute" n.node_id c.attribute_path o)
