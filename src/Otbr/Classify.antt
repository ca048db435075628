-- ===== src/Otbr/Classify.antt =====
-- `classify_primary_network` and `classify_trel_service` of threadlens/collectors/otbr_rest.py.
-- A set of network ids is a list without repetitions.
use threadlens.Prelude.{
  Bool, true, false, ◌&&◌, String, Option, none, some, List, [], ◌∷◌, ◌==◌, contains, if◌then◌else◌,
}
use threadlens.Model.State.{ThreadNetworkClassification, same_class}

unfoldable pub classify_primary_network : List String → Option String × ThreadNetworkClassification
classify_primary_network [] = (none, ThreadNetworkClassification.unknown)
classify_primary_network (x ∷ []) = (some x, ThreadNetworkClassification.primary)
classify_primary_network (x ∷ y ∷ xs) = (none, ThreadNetworkClassification.unknown)

-- `a == b` for a text and an optional text
abbrev pub eq_some : String → Option String → Bool
eq_some s none = false
eq_some s (some t) = s == t

unfoldable pub classify_trel_service :
    Option String
    → List String
    → Option String
    → ThreadNetworkClassification
    → Option Bool × Option ThreadNetworkClassification
unfolding same_class
classify_trel_service none configured primary_id primary_class =
    (none, some ThreadNetworkClassification.unknown)
classify_trel_service (some x) configured primary_id primary_class =
    if contains x configured
    then (if same_class primary_class ThreadNetworkClassification.primary && eq_some x primary_id
        then (some false, some ThreadNetworkClassification.primary)
        else (some false, some ThreadNetworkClassification.observed_other))
    else (some true, some ThreadNetworkClassification.observed_other)
