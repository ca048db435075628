-- ===== src/Probes/Planner/Plan.antt =====
-- `MatterProbePlanner.plan` and `first_probe_candidate` of
-- threadlens/collectors/matter_probe_planner.py.
use threadlens.Prelude.{
  Bool, false, not, String, Option, none, some, List, [], ◌∷◌, ◌++◌, show_ℕ, contains, filterb,
  if◌then◌else◌,
}
use threadlens.Prelude.Dict.{lookup}
use threadlens.Config.{MatterProbeConfig, ProbeMode, MatterProbePerNodeOverride}
use threadlens.Model.State.{MatterNodeState}
use threadlens.Probes.Planner.{
  ProbeCandidate, dedupe_candidates, override_candidates, cached_success_candidate,
  discovered_candidates, generic_candidates, descriptor_candidates, device_specific_candidates,
}

-- `xs or []`
abbrev pub or_nothing : Option (List String) → List String
or_nothing none = []
or_nothing (some xs) = xs

-- `attribute_keys or frozenset(node.matter_attribute_keys or [])`
unfoldable pub planned_keys : Option (List String) → MatterNodeState → List String
planned_keys (some (k ∷ ks)) n = k ∷ ks
planned_keys _ n = or_nothing n.matter_attribute_keys

unfoldable pub per_node : MatterNodeState → MatterProbeConfig → Option MatterProbePerNodeOverride
unfolding lookup show_ℕ
per_node n config = lookup (show_ℕ n.node_id) config.advanced.per_node

-- `per_node is not None and per_node.disabled`
abbrev pub is_disabled : Option MatterProbePerNodeOverride → Bool
is_disabled none = false
is_disabled (some o) = o.disabled

-- the order of the mode
unfoldable pub in_order :
    ProbeMode
    → (overrides device cached discovered generics descriptors : List ProbeCandidate)
    → List ProbeCandidate
in_order ProbeMode.disabled overrides device cached discovered generics descriptors = []
in_order ProbeMode.conservative overrides device cached discovered generics descriptors =
    overrides ++ cached ++ discovered ++ generics
in_order ProbeMode.standard overrides device cached discovered generics descriptors =
    overrides ++ device ++ cached ++ discovered ++ generics
in_order ProbeMode.diagnostic overrides device cached discovered generics descriptors =
    overrides ++ device ++ cached ++ discovered ++ generics ++ descriptors

-- the candidates in order, before the doubles and the unsupported go
unfoldable pub ordered : MatterNodeState → List String → MatterProbeConfig → List ProbeCandidate
unfolding in_order per_node override_candidates cached_success_candidate discovered_candidates
    generic_candidates descriptor_candidates device_specific_candidates
ordered n keys config =
    in_order config.mode (override_candidates (per_node n config))
      (device_specific_candidates n keys config)
      (cached_success_candidate n (or_nothing n.last_unsupported_probe_paths))
      (discovered_candidates keys) (generic_candidates config.advanced) (descriptor_candidates keys)

unfoldable pub plan :
    MatterNodeState → Option (List String) → MatterProbeConfig → List ProbeCandidate
unfolding ordered planned_keys per_node dedupe_candidates
plan n attribute_keys config =
    if is_disabled (per_node n config)
    then []
    else filterb (λ c. not (contains c.attribute_path (or_nothing n.last_unsupported_probe_paths)))
        (dedupe_candidates (ordered n (planned_keys attribute_keys n) config))

unfoldable pub first_probe_candidate :
    MatterNodeState → Option (List String) → MatterProbeConfig → Option ProbeCandidate
unfolding plan
first_probe_candidate n attribute_keys config = elim (plan n attribute_keys config) [
  | [] ↦ none
  | c ∷ cs ↦ some c
]
