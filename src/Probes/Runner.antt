-- ===== src/Probes/Runner.antt =====
-- `MatterProbeRunner` of threadlens/collectors/matter_probes.py, on the observer that makes it. The
-- request function is an argument, as it is of the runner: it has the answer to a command, the
-- observer as the handlers that ran meanwhile have left it, and the time. A request that raises is
-- not among its answers.
pub mod Attempt
pub mod Outcomes
pub mod Ping
pub mod Run
pub mod Verdicts
pub mod Skips
pub mod Overwrites
use threadlens.Prelude.{
  ℕ, ◌+◌, ◌-◌, Bool, true, false, ◌&&◌, ◌||◌, not, String, Option, none, some, List, [], ◌∷◌, join,
  show_ℕ, ◌==◌, is_some, if◌then◌else◌,
}
use threadlens.Prelude.Json.{Json, null}
use threadlens.Prelude.Show.{show}
use threadlens.Model.Events.{EventSeverity, Datum}
use threadlens.Model.State.{MatterNodeState, ErrorCode}
use threadlens.Storage.Events.{day}
use threadlens.Probes.Planner.{ProbeCandidate}
use threadlens.Matter.Requests.{MatterCommandResult}
use threadlens.Matter.Observer.{Observer, count_node_events, emit_node_event}

-- the answer to a command, and what the observer has become
pub record Answer : Type 0 where
  pub result : MatterCommandResult
  pub observer : Observer
  pub arrived : ℕ

-- `request_command(command, args)`: the command, the node, and the attribute path of a read
abbrev pub Request : Type 0
Request = String → ℕ → String → Observer → Answer

-- `read_probe_failures_24h` and its like: events of two types, or of one
unfoldable pub count_failures : String → String → ℕ → ℕ → Observer → ℕ
unfolding count_node_events
count_failures failed timed_out node_id now o =
    count_node_events node_id failed (now - day) o
    + count_node_events node_id timed_out (now - day) o

unfoldable pub count_successes : String → ℕ → ℕ → Observer → ℕ
unfolding count_node_events
count_successes succeeded node_id now = count_node_events node_id succeeded (now - day)

-- `health_weight in _GENERIC_WEIGHTS`
unfoldable pub is_generic_candidate : ProbeCandidate → Bool
is_generic_candidate c = c.health_weight == "generic" || c.health_weight == "override"

-- An error code is a number or a text.
abbrev pub error_code_of : Json → Option ErrorCode
error_code_of (Json.number n) = some (ErrorCode.number n)
error_code_of (Json.str s) = some (ErrorCode.text s)
error_code_of _ = none

abbrev pub code_datum : Json → Datum
code_datum (Json.number n) = Datum.number n
code_datum (Json.str s) = Datum.text s
code_datum _ = Datum.null

shown_code : Json → Option String
unfolding show
shown_code null = none
shown_code v = some (show v)

-- `_error_summary`
unfoldable pub error_summary : MatterCommandResult → Option String
unfolding shown_code
error_summary r = if r.ok then none else if r.timed_out then some "TimedOut" else elim r.details [
  | none ↦ shown_code r.error_code
  | some d ↦ if d == "" then shown_code r.error_code else some d
]

pub record MatterProbeRunResult : Type 0 where
  pub node_id : ℕ
  pub skipped : Bool
  pub skip_reason : Option String
  pub read_probe_attempted : Bool
  pub read_probe_ok : Option Bool
  pub ping_attempted : Bool
  pub ping_ok : Option Bool

-- `_skip`
unfoldable pub skip : ℕ → String → ℕ → Observer → MatterProbeRunResult × Observer
unfolding emit_node_event
skip node_id reason now o = (
  record {
    node_id = node_id;
    skipped = true;
    skip_reason = some reason;
    read_probe_attempted = false;
    read_probe_ok = none;
    ping_attempted = false;
    ping_ok = none;
  },
  emit_node_event node_id "matter_node.read_probe.skipped"
      (join
        ("Read probe skipped for Matter node " ∷ show_ℕ node_id ∷ " on " ∷ o.server_config.id ∷ []))
      EventSeverity.info
      (("probe_type", Datum.text "read_attribute") ∷ ("skip_reason", Datum.text reason) ∷ []) now o,
)
