-- ===== src/Health/Rules/Agreement.antt =====
-- `_configured_otbr_disagreement_health` and `_primary_network_unknown_health` of
-- threadlens/health/engine.py.
pub mod Laws
use threadlens.Prelude.{
  ℕ, Bool, true, false, ◌&&◌, not, String, Option, none, some, List, [], ◌∷◌, ◌==◌, leb, ltb,
  length, count_if, filterb, nonempty, non_blank, add_new, add_all, map, if◌then◌else◌,
}
use threadlens.Prelude.Dict.{Dict, lookup, insert}
use threadlens.Config.{OtbrConfig}
use threadlens.Model.Health.{HealthState, HealthStatus}
use threadlens.Model.State.{OtbrState, ThreadNetworkState, ThreadNetworkClassification, same_class}
use threadlens.Otbr.Classify.{classify_primary_network}

-- `{state.id: state for state in states}`: a later state of an id replaces an earlier one
unfoldable pub by_id : Dict OtbrState → List OtbrState → Dict OtbrState
by_id d [] = d
by_id d (s ∷ states) = by_id (insert s.id s d) states

found : List String → Dict OtbrState → List OtbrState
found [] d = []
found (i ∷ ids) d = elim (lookup i d) [ some s ↦ s ∷ found ids d | none ↦ found ids d ]

-- The configured ids are a set: each is looked up once.
unfoldable pub configured_otbr_states : List OtbrConfig → List OtbrState → List OtbrState
unfolding by_id found add_all
configured_otbr_states otbrs states =
    found (add_all [] (map (λ (o : OtbrConfig). o.id) otbrs)) (by_id [] states)

-- `state.ext_pan_id` under `state.reachable and state.ext_pan_id`: an empty text is no id
unfoldable pub reachable_id : OtbrState → Option String
reachable_id s = if s.reachable then non_blank s.ext_pan_id else none

abbrev pub add_some : List String → Option String → List String
add_some ids none = ids
add_some ids (some x) = add_new ids x

-- the set comprehension over the configured routers, from a start
unfoldable pub collect_ids : List String → List OtbrState → List String
unfolding add_new reachable_id
collect_ids ids [] = ids
collect_ids ids (s ∷ states) = collect_ids (add_some ids (reachable_id s)) states

abbrev pub status : HealthState → String → HealthStatus
status state reason = record { state = state; reasons = reason ∷ [] }

abbrev pub healthy_status : HealthStatus
healthy_status = record { state = HealthState.healthy; reasons = [] }

abbrev pub primary_is_unknown : List String → Bool
primary_is_unknown ids =
    same_class (classify_primary_network ids).1 ThreadNetworkClassification.unknown

-- on the configured routers that were observed
unfoldable pub disagreement : List OtbrState → HealthStatus
unfolding collect_ids same_class classify_primary_network
disagreement configured =
    if ltb (length configured) 2
    then healthy_status
    else let ext_pan_ids = collect_ids [] configured in
      if leb (length ext_pan_ids) 1
      then healthy_status
      else if primary_is_unknown ext_pan_ids
      then (if leb 2 (count_if (λ (s : OtbrState). s.reachable) configured)
          then status HealthState.degraded "configured_otbrs_disagree_on_ext_pan_id"
          else status HealthState.warning "configured_otbrs_disagree_on_ext_pan_id")
      else healthy_status

unfoldable pub configured_otbr_disagreement_health : List OtbrConfig → List OtbrState → HealthStatus
unfolding configured_otbr_states disagreement
configured_otbr_disagreement_health otbrs otbr_states =
    disagreement (configured_otbr_states otbrs otbr_states)

abbrev pub visible_unknown : ThreadNetworkState → Bool
visible_unknown n =
    same_class n.classification ThreadNetworkClassification.unknown && n.currently_visible

unfoldable pub primary_network_unknown_health :
    List OtbrConfig → List OtbrState → List ThreadNetworkState → HealthStatus
unfolding configured_otbr_states collect_ids same_class classify_primary_network
primary_network_unknown_health otbrs otbr_states thread_networks =
    if not (nonempty otbrs)
    then healthy_status
    else let ext_pan_ids = collect_ids [] (configured_otbr_states otbrs otbr_states) in
      if primary_is_unknown ext_pan_ids && ltb 1 (length ext_pan_ids)
      then status HealthState.warning "primary_thread_network_unknown"
      else if nonempty (filterb visible_unknown thread_networks) && not (nonempty ext_pan_ids)
      then status HealthState.warning "primary_thread_network_unknown"
      else healthy_status
