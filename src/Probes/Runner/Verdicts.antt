-- ===== src/Probes/Runner/Verdicts.antt =====
-- What the reads of a node amount to (threadlens/collectors/matter_probes.py), and what the next plan
-- makes of it.
use threadlens.Prelude.{
  ◌≡◌, ◌∙◌, refl, ap, Bool, true, false, ◌&&◌, ◌||◌, String, Option, List, [], ◌∷◌, arith, anyb,
  contains, add_new, contains-add_new, ◌==◌,
}
use threadlens.Config.{MatterProbeConfig}
use threadlens.Model.State.{MatterNodeState}
use threadlens.Probes.Planner.Plan.{or_nothing, plan}
use threadlens.Probes.Planner.Laws.{paths, contains-plan}
use threadlens.Probes.Runner.Attempt.{ProbeAttemptOutcome}
use threadlens.Probes.Runner.Outcomes.{
  device_success, generic_success, add_unsupported, some_paths, judged, aggregate_probe_outcomes,
}

-- Some read that counts succeeded.
abbrev pub some_success : List ProbeAttemptOutcome → Bool
some_success = anyb (λ x. device_success x || generic_success x)

-- the path of some unsupported read
abbrev pub found_unsupported : String → List ProbeAttemptOutcome → Bool
found_unsupported p = anyb (λ x. x.limited && p == x.candidate.attribute_path)

contains-add_unsupported :
    (p : String) (known : List String) (xs : List ProbeAttemptOutcome)
    → contains p (add_unsupported known xs) ≡ (contains p known || found_unsupported p xs)
unfolding add_unsupported
contains-add_unsupported p known [] = ground arith
contains-add_unsupported p known (x ∷ xs) = ground (
  arith,
  contains-add_unsupported p known xs,
  contains-add_unsupported p (add_new known x.candidate.attribute_path) xs,
  contains-add_new p x.candidate.attribute_path known,
)

or_nothing-some_paths : (ps : List String) → or_nothing (some_paths ps) ≡ ps
unfolding some_paths
or_nothing-some_paths [] = refl
or_nothing-some_paths (p ∷ ps) = refl

aggregate-unsupported :
    (n : MatterNodeState) (x : ProbeAttemptOutcome) (xs : List ProbeAttemptOutcome)
    → or_nothing (aggregate_probe_outcomes n (x ∷ xs)).last_unsupported_probe_paths
      ≡ add_unsupported (or_nothing n.last_unsupported_probe_paths) (x ∷ xs)
unfolding aggregate_probe_outcomes judged
aggregate-unsupported n x xs =
    or_nothing-some_paths (add_unsupported (or_nothing n.last_unsupported_probe_paths) (x ∷ xs))

-- A path that a probe finds the node not to support is in no later plan for the node as the probe
-- leaves it, whatever the attributes and the settings are.
pub plan-aggregate :
    (n : MatterNodeState) (x : ProbeAttemptOutcome) (xs : List ProbeAttemptOutcome)
    (keys : Option (List String)) (config : MatterProbeConfig) (p : String)
    → found_unsupported p (x ∷ xs) ≡ true
    → contains p (paths (plan (aggregate_probe_outcomes n (x ∷ xs)) keys config)) ≡ false
plan-aggregate n x xs keys config p h =
    let m = aggregate_probe_outcomes n (x ∷ xs) in
    let a =
      ap (contains p) (aggregate-unsupported n x xs)
      ∙ contains-add_unsupported p (or_nothing n.last_unsupported_probe_paths) (x ∷ xs) in
    ground (arith, contains-plan m keys config p, a, h)
