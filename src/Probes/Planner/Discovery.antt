-- ===== src/Probes/Planner/Discovery.antt =====
-- What threadlens/collectors/matter_probe_planner.py finds among a node's own attributes, and what it
-- always tries.
use threadlens.Prelude.{
  ℕ, zero, suc, ◌≤◌, ◌≡◌, ◌∙◌, refl, Bool, true, false, ◌||◌, String, Option, some, List, [], ◌∷◌,
  ◌++◌, map, contains, All, length, arith, ◌≢◌,
}
use threadlens.Config.{MatterProbeConfig, ProbeMode, MatterProbePerNodeOverride}
use threadlens.Model.State.{MatterNodeState}
use threadlens.Probes.Planner.{
  ProbeCandidate, AttributePath, candidate, path_text, parsed_keys, attempts, add_each, dedupe_from,
  dedupe_candidates, override_candidates, cached_success_candidate, discovered_candidates,
  generic_candidates, descriptor_candidates, device_specific_candidates,
}
use threadlens.Probes.Planner.Plan.{
  or_nothing, planned_keys, per_node, is_disabled, in_order, ordered, plan, first_probe_candidate,
}
use threadlens.Probes.Planner.Laws.{paths, unsupported, contains-plan}

add_each-length :
    (keys seen : List String) (room : ℕ) (ps : List AttributePath)
    → length (add_each keys seen room ps) ≤ room
unfolding add_each
add_each-length keys seen zero ps = ground arith
add_each-length keys seen (suc room) [] = ground arith
add_each-length keys seen (suc room) (p ∷ ps) =
    let path = path_text p.endpoint p.cluster p.attribute in
    ground
      (arith, add_each-length keys seen (suc room) ps, add_each-length keys (path ∷ seen) room ps)

-- Every path of a list stands among the keys.
abbrev pub AllAmong : List String → List ProbeCandidate → Type 0
AllAmong keys cs = All (λ c. contains c.attribute_path keys ≡ true) cs

add_each-AllAmong :
    (keys seen : List String) (room : ℕ) (ps : List AttributePath)
    → AllAmong keys (add_each keys seen room ps)
unfolding add_each
add_each-AllAmong keys seen zero ps = tt
add_each-AllAmong keys seen (suc room) [] = tt
add_each-AllAmong keys seen (suc room) (p ∷ ps) =
    let path = path_text p.endpoint p.cluster p.attribute in
    ground (
      arith,
      add_each-AllAmong keys seen (suc room) ps,
      add_each-AllAmong keys (path ∷ seen) room ps,
    )

-- At most twelve paths are discovered, and each is one of the node's own attributes.
pub discovered_candidates-AllAmong :
    (keys : List String)
    → (length (discovered_candidates keys) ≤ 12) × AllAmong keys (discovered_candidates keys)
unfolding discovered_candidates
discovered_candidates-AllAmong keys = (
  add_each-length keys [] 12 (attempts (parsed_keys keys)),
  add_each-AllAmong keys [] 12 (attempts (parsed_keys keys)),
)

contains-paths-append :
    (p : String) (cs ds : List ProbeCandidate)
    → contains p (paths (cs ++ ds)) ≡ (contains p (paths cs) || contains p (paths ds))
contains-paths-append p [] ds = refl
contains-paths-append p (c ∷ cs) ds = ground (arith, contains-paths-append p cs ds)

contains-generic :
    (kind label weight p : String) (b : Bool) (ps : List String)
    → contains p (paths (map (candidate kind label b weight) ps)) ≡ contains p ps
contains-generic kind label weight p b [] = refl
contains-generic kind label weight p b (q ∷ qs) =
    ground (arith, contains-generic kind label weight p b qs)

contains-after :
    (p : String) (cs ds : List ProbeCandidate)
    → contains p (paths ds) ≡ true
    → contains p (paths (cs ++ ds)) ≡ true
contains-after p cs ds h = ground (arith, contains-paths-append p cs ds)

contains-before :
    (p : String) (cs ds : List ProbeCandidate)
    → contains p (paths cs) ≡ true
    → contains p (paths (cs ++ ds)) ≡ true
contains-before p cs ds h = ground (arith, contains-paths-append p cs ds)

generics-in_order :
    (mode : ProbeMode) (o v s d g e : List ProbeCandidate) (p : String)
    → mode ≢ ProbeMode.disabled
    → contains p (paths g) ≡ true
    → contains p (paths (in_order mode o v s d g e)) ≡ true
unfolding in_order
generics-in_order ProbeMode.disabled o v s d g e p active h = absurd (active refl)
generics-in_order ProbeMode.conservative o v s d g e p active h = contains-after p (o ++ s ++ d) g h
generics-in_order ProbeMode.standard o v s d g e p active h =
    contains-after p (o ++ v ++ s ++ d) g h
generics-in_order ProbeMode.diagnostic o v s d g e p active h =
    contains-before p (o ++ v ++ s ++ d ++ g) e (contains-after p (o ++ v ++ s ++ d) g h)

-- In every mode but the disabled one, a node that is not switched off has a plan with each of the
-- configured fallback paths that it is not known not to support.
pub plan-fallback :
    (n : MatterNodeState) (keys : Option (List String)) (config : MatterProbeConfig) (p : String)
    → config.mode ≢ ProbeMode.disabled
    → is_disabled (per_node n config) ≡ false
    → contains p config.advanced.attributes.fallback ≡ true
    → contains p (unsupported n) ≡ false
    → contains p (paths (plan n keys config)) ≡ true
unfolding ordered generic_candidates
plan-fallback n keys config p active enabled h supported =
    let ks = planned_keys keys n in
    let g =
      contains-generic "basic_information" "Basic read check" "generic" p false
        config.advanced.attributes.fallback in
    let o =
      generics-in_order config.mode (override_candidates (per_node n config))
        (device_specific_candidates n ks config)
        (cached_success_candidate n (or_nothing n.last_unsupported_probe_paths))
        (discovered_candidates ks) (generic_candidates config.advanced) (descriptor_candidates ks) p
        active (g ∙ h) in
    ground (arith, contains-plan n keys config p, o)

order_first :
    (mode : ProbeMode) (c : ProbeCandidate) (o v s d g e : List ProbeCandidate)
    → mode ≢ ProbeMode.disabled
    → (cs : List ProbeCandidate) × (in_order mode (c ∷ o) v s d g e ≡ c ∷ cs)
unfolding in_order
order_first ProbeMode.disabled c o v s d g e active = absurd (active refl)
order_first ProbeMode.conservative c o v s d g e active = (_, refl)
order_first ProbeMode.standard c o v s d g e active = (_, refl)
order_first ProbeMode.diagnostic c o v s d g e active = (_, refl)

-- The first path that the operator prefers for a node is the first that is tried, unless the node is
-- known not to support it.
pub first_probe_candidate-override :
    (n : MatterNodeState) (keys : Option (List String)) (config : MatterProbeConfig)
    (o : MatterProbePerNodeOverride) (p : String) (ps : List String)
    → config.mode ≢ ProbeMode.disabled
    → per_node n config ≡ some o
    → o.disabled ≡ false
    → o.preferred ≡ p ∷ ps
    → contains p (unsupported n) ≡ false
    → first_probe_candidate n keys config
      ≡ some (candidate "override" "Configured read check" true "override" p)
unfolding first_probe_candidate plan ordered dedupe_candidates dedupe_from override_candidates
first_probe_candidate-override n keys config o p ps active chosen enabled preferred supported =
    let ks = planned_keys keys n in
    let first = candidate "override" "Configured read check" true "override" p in
    let q =
      order_first config.mode first
        (map (candidate "override" "Configured read check" true "override") ps)
        (device_specific_candidates n ks config)
        (cached_success_candidate n (or_nothing n.last_unsupported_probe_paths))
        (discovered_candidates ks) (generic_candidates config.advanced) (descriptor_candidates ks)
        active in
    rw
      (
        first_probe_candidate, plan, ordered, chosen, enabled, override_candidates, preferred, q.1,
        dedupe_candidates, dedupe_from, supported,
      )
      refl
