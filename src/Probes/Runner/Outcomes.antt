-- ===== src/Probes/Runner/Outcomes.antt =====
-- `_aggregate_probe_outcomes` of threadlens/collectors/matter_probes.py.
use threadlens.Prelude.{
  Bool, true, false, ◌&&◌, ◌||◌, String, Option, none, some, List, [], ◌∷◌, ◌==◌, add_new,
  if◌then◌else◌,
}
use threadlens.Model.State.{MatterNodeState}
use threadlens.Probes.Planner.Plan.{or_nothing}
use threadlens.Probes.Runner.{is_generic_candidate, error_code_of}
use threadlens.Probes.Runner.Attempt.{ProbeAttemptOutcome, is_failure, is_success}

-- `next((outcome for outcome in outcomes if ...), None)`
unfoldable pub first_where :
    (ProbeAttemptOutcome → Bool) → List ProbeAttemptOutcome → Option ProbeAttemptOutcome
first_where p [] = none
first_where p (x ∷ xs) = let rest = first_where p xs in if p x then some x else rest

abbrev pub device_success : ProbeAttemptOutcome → Bool
device_success x = is_success x.ok && x.candidate.health_weight == "device_specific"

unfoldable pub generic_success : ProbeAttemptOutcome → Bool
unfolding is_generic_candidate
generic_success x = is_success x.ok && is_generic_candidate x.candidate

unfoldable pub generic_failure : ProbeAttemptOutcome → Bool
unfolding is_generic_candidate
generic_failure x = is_failure x.ok && is_generic_candidate x.candidate

-- `outcomes[-1]`
unfoldable pub last_of : ProbeAttemptOutcome → List ProbeAttemptOutcome → ProbeAttemptOutcome
last_of x [] = x
last_of x (y ∷ ys) = last_of y ys

abbrev pub limited_note : String
limited_note =
    "ThreadLens tried several read-only Matter attributes but could not find one this device accepts. Identical devices can use different Matter endpoints; unsupported paths are remembered and skipped on future probes."

-- the outcome that counts, with `last_ok` and `limited`
pub record Verdict : Type 0 where
  pub final : ProbeAttemptOutcome
  pub last_ok : Option Bool
  pub limited : Bool

unfoldable pub last_verdict : ProbeAttemptOutcome → Verdict
last_verdict x = record {
  final = x;
  last_ok = (if x.limited then none else x.ok);
  limited = x.limited;
}

unfoldable pub verdict : ProbeAttemptOutcome → List ProbeAttemptOutcome → Verdict
unfolding first_where generic_success generic_failure last_of last_verdict
verdict x xs = elim (first_where device_success (x ∷ xs)) [
  | some y ↦ record { final = y; last_ok = some true; limited = false }
  | none ↦ elim (first_where generic_success (x ∷ xs)) [
    | some y ↦ record { final = y; last_ok = some true; limited = false }
    | none ↦ elim (first_where generic_failure (x ∷ xs)) [
      | some y ↦ record { final = y; last_ok = some false; limited = false }
      | none ↦ last_verdict (last_of x xs)
    ]
  ]
]

unfoldable pub add_unsupported : List String → List ProbeAttemptOutcome → List String
unfolding add_new
add_unsupported known [] = known
add_unsupported known (x ∷ xs) =
    add_unsupported (if x.limited then add_new known x.candidate.attribute_path else known) xs

-- `unsupported_paths or None`
unfoldable pub some_paths : List String → Option (List String)
some_paths [] = none
some_paths (p ∷ ps) = some (p ∷ ps)

unfoldable pub judged : Verdict → MatterNodeState → List ProbeAttemptOutcome → MatterNodeState
unfolding add_unsupported some_paths
judged v n outcomes =
    let success = is_success v.last_ok in
    record n {
      last_read_probe_ok = v.last_ok;
      last_read_probe_limited = v.limited;
      last_read_probe_attribute_path = some v.final.candidate.attribute_path;
      last_read_probe_duration_ms = v.final.command_result.duration_ms;
      last_read_probe_error_code =
          (if success || v.limited then none else error_code_of v.final.command_result.error_code);
      last_probe_label = some v.final.candidate.label;
      last_unsupported_probe_paths =
          some_paths (add_unsupported (or_nothing n.last_unsupported_probe_paths) outcomes);
      last_read_probe_note = (if v.limited then some limited_note else none);
      last_successful_probe_kind =
          (if success then some v.final.candidate.kind else n.last_successful_probe_kind);
      last_successful_probe_path =
          (if success then some v.final.candidate.attribute_path else n.last_successful_probe_path);
    }

unfoldable pub aggregate_probe_outcomes :
    MatterNodeState → List ProbeAttemptOutcome → MatterNodeState
unfolding verdict judged
aggregate_probe_outcomes n [] = n
aggregate_probe_outcomes n (x ∷ xs) = judged (verdict x xs) n (x ∷ xs)
