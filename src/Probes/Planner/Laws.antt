-- ===== src/Probes/Planner/Laws.antt =====
-- What a plan of threadlens/collectors/matter_probe_planner.py holds: which paths, and each once.
use threadlens.Prelude.{
  ◌≡◌, refl, ◌&&◌, not, String, Option, List, [], ◌∷◌, contains, IsDistinct, filterb, arith, eq_iff,
  eq_refl, Bool-cases, inl, inr,
}
use threadlens.Config.{MatterProbeConfig}
use threadlens.Model.State.{MatterNodeState}
use threadlens.Probes.Planner.{ProbeCandidate, dedupe_from, dedupe_candidates}
use threadlens.Probes.Planner.Plan.{or_nothing, planned_keys, per_node, is_disabled, ordered, plan}

abbrev pub paths : List ProbeCandidate → List String
paths [] = []
paths (c ∷ cs) = c.attribute_path ∷ paths cs

abbrev pub unsupported : MatterNodeState → List String
unsupported n = or_nothing n.last_unsupported_probe_paths

-- `_dedupe_candidates` keeps each path that is not seen yet, once.
contains-dedupe :
    (p : String) (seen : List String) (cs : List ProbeCandidate)
    → contains p (paths (dedupe_from seen cs)) ≡ (contains p (paths cs) && not (contains p seen))
unfolding dedupe_from
contains-dedupe p seen [] = refl
contains-dedupe p seen (c ∷ cs) = ground (
  arith,
  contains-dedupe p seen cs,
  contains-dedupe p (c.attribute_path ∷ seen) cs,
  eq_iff p c.attribute_path,
)

IsDistinct-dedupe :
    (seen : List String) (cs : List ProbeCandidate) → IsDistinct (paths (dedupe_from seen cs))
unfolding dedupe_from
IsDistinct-dedupe seen [] = tt
IsDistinct-dedupe seen (c ∷ cs) = ground (
  arith,
  IsDistinct-dedupe seen cs,
  IsDistinct-dedupe (c.attribute_path ∷ seen) cs,
  contains-dedupe c.attribute_path (c.attribute_path ∷ seen) cs,
  eq_refl c.attribute_path,
)

module _ (bad : List String) where
  kept : List ProbeCandidate → List ProbeCandidate
  kept = filterb (λ c. not (contains c.attribute_path bad))

  contains-kept :
      (p : String) (cs : List ProbeCandidate)
      → contains p (paths (kept cs)) ≡ (contains p (paths cs) && not (contains p bad))
  unfolding kept
  contains-kept p [] = refl
  contains-kept p (c ∷ cs) = ground (arith, contains-kept p cs, eq_iff p c.attribute_path)

  IsDistinct-kept :
      (cs : List ProbeCandidate) → IsDistinct (paths cs) → IsDistinct (paths (kept cs))
  unfolding kept
  IsDistinct-kept [] h = tt
  IsDistinct-kept (c ∷ cs) h =
      ground (arith, IsDistinct-kept cs h.1, contains-kept c.attribute_path cs)

-- No path stands twice in a plan.
pub plan-IsDistinct :
    (n : MatterNodeState) (keys : Option (List String)) (config : MatterProbeConfig)
    → IsDistinct (paths (plan n keys config))
unfolding plan kept dedupe_candidates
plan-IsDistinct n keys config = elim (Bool-cases (is_disabled (per_node n config))) [
  | inl h ↦ rw (plan, h) tt
  | inr h ↦
      rw (plan, h)
        (IsDistinct-kept (unsupported n)
          (dedupe_candidates (ordered n (planned_keys keys n) config))
          (IsDistinct-dedupe [] (ordered n (planned_keys keys n) config)))
]

-- The paths of a plan are the candidates of its mode but those that the node does not support, and
-- none where the node is switched off.
pub contains-plan :
    (n : MatterNodeState) (keys : Option (List String)) (config : MatterProbeConfig) (p : String)
    → contains p (paths (plan n keys config)) ≡ (
        not (is_disabled (per_node n config))
        && (contains p (paths (ordered n (planned_keys keys n) config))
            && not (contains p (unsupported n))))
unfolding plan kept dedupe_candidates
contains-plan n keys config p =
    let cs = ordered n (planned_keys keys n) config in
    ground (arith, contains-kept (unsupported n) p (dedupe_candidates cs), contains-dedupe p [] cs)
