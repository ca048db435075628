-- ===== src/Probes/Planner.antt =====
-- threadlens/collectors/matter_probe_planner.py: the attribute paths that a probe of a node tries, in
-- order. A set of texts is a list of them, in any order.
pub mod Plan
pub mod Laws
pub mod Discovery
use threadlens.Prelude.{
  ℕ, zero, suc, Bool, true, false, ◌&&◌, ◌||◌, not, String, Option, none, some, List, [], ◌∷◌, ◌++◌,
  map, leb, ltb, length, join, show_ℕ, ◌==◌, contains, filterb, if◌then◌else◌, add_all, or_text,
  non_blank,
}
use threadlens.Prelude.Codes.{eq_ℕ, strip}
use threadlens.Prelude.Ints.{codes, parse_codes}
use threadlens.Prelude.Words.{split, search, lower}
use threadlens.Prelude.Dict.{lookup}
use threadlens.Config.{
  MatterProbeConfig, ProbeMode, MatterProbeAdvancedConfig, MatterProbePerNodeOverride,
}
use threadlens.Model.State.{MatterNodeState}

pub record ProbeCandidate : Type 0 where
  pub kind : String
  pub label : String
  pub attribute_path : String
  pub required : Bool
  pub health_weight : String

pub record AttributePath : Type 0 where
  pub endpoint : ℕ
  pub cluster : ℕ
  pub attribute : ℕ

three_numbers : Option ℕ → Option ℕ → Option ℕ → Option AttributePath
three_numbers (some e) (some c) (some a) =
    some (record { endpoint = e; cluster = c; attribute = a })
three_numbers _ _ _ = none

three_parts : List (List ℕ) → Option AttributePath
unfolding three_numbers parse_codes
three_parts (e ∷ c ∷ a ∷ []) = three_numbers (parse_codes e) (parse_codes c) (parse_codes a)
three_parts _ = none

unfoldable pub parse_attribute_path : String → Option AttributePath
unfolding three_parts strip codes split
parse_attribute_path path = three_parts (split 47 (codes (strip path)))

-- the keys that are attribute paths
unfoldable pub parsed_keys : List String → List AttributePath
unfolding parse_attribute_path
parsed_keys [] = []
parsed_keys (key ∷ keys) =
    let rest = parsed_keys keys in
    elim (parse_attribute_path key) [ none ↦ rest | some p ↦ p ∷ rest ]

-- a number into a sorted list without repetition
insert_number : ℕ → List ℕ → List ℕ
insert_number n [] = n ∷ []
insert_number n (m ∷ ms) =
    let rest = insert_number n ms in
    if ltb n m then n ∷ m ∷ ms else if eq_ℕ n m then m ∷ ms else m ∷ rest

-- `sorted({endpoint for endpoint, cluster, _ in parsed_keys if cluster == cluster_id})`
unfoldable pub endpoints_in : ℕ → List AttributePath → List ℕ
unfolding insert_number
endpoints_in cluster_id [] = []
endpoints_in cluster_id (p ∷ ps) =
    let rest = endpoints_in cluster_id ps in
    if eq_ℕ p.cluster cluster_id then insert_number p.endpoint rest else rest

unfoldable pub endpoints_with_cluster : List String → ℕ → List ℕ
unfolding parsed_keys endpoints_in
endpoints_with_cluster keys cluster_id = endpoints_in cluster_id (parsed_keys keys)

-- `word in product_name.lower()`; no capital beyond ASCII becomes a letter of the words looked for
names : String → Option String → Bool
unfolding search lower
names word none = false
names word (some product) = search (lower word) (lower product)

unfoldable pub infer_device_types : List String → Option String → List String
unfolding names endpoints_with_cluster
infer_device_types keys product = elim (endpoints_with_cluster keys 258) [
  | e ∷ es ↦ "Window Covering" ∷ []
  | [] ↦ if names "blind" product || names "shade" product then "Window Covering" ∷ [] else []
]

-- `_dedupe_candidates`, with the paths seen so far
unfoldable pub dedupe_from : List String → List ProbeCandidate → List ProbeCandidate
dedupe_from seen [] = []
dedupe_from seen (c ∷ cs) =
    let rest =
      dedupe_from (if contains c.attribute_path seen then seen else c.attribute_path ∷ seen) cs in
    if contains c.attribute_path seen then rest else c ∷ rest

unfoldable pub dedupe_candidates : List ProbeCandidate → List ProbeCandidate
unfolding dedupe_from
dedupe_candidates = dedupe_from []

abbrev pub candidate : String → String → Bool → String → String → ProbeCandidate
candidate kind label required weight path = record {
  kind = kind;
  label = label;
  attribute_path = path;
  required = required;
  health_weight = weight;
}

unfoldable pub override_candidates : Option MatterProbePerNodeOverride → List ProbeCandidate
override_candidates none = []
override_candidates (some o) =
    map (candidate "override" "Configured read check" true "override") o.preferred

-- `text or default`
abbrev pub or_default : Option String → String → String
or_default text default = elim (non_blank text) [ none ↦ default | some s ↦ s ]

unfoldable pub cached_success_candidate : MatterNodeState → List String → List ProbeCandidate
cached_success_candidate n unsupported = elim (non_blank n.last_successful_probe_path) [
  | none ↦ []
  | some path ↦
      if contains path unsupported
      then []
      else candidate (or_default n.last_successful_probe_kind "cached")
          (or_default n.last_probe_label "Previous read check") false "generic" path
        ∷ []
]

unfoldable pub path_text : ℕ → ℕ → ℕ → String
unfolding join show_ℕ
path_text e c a = join (show_ℕ e ∷ "/" ∷ show_ℕ c ∷ "/" ∷ show_ℕ a ∷ [])

unfoldable pub cluster_label : ℕ → String
cluster_label cluster =
    if eq_ℕ cluster 40
    then "Device info read check"
    else if eq_ℕ cluster 258
    then "Device attribute read check"
    else if eq_ℕ cluster 29
    then "Descriptor read check"
    else "Discovered read check"

-- The calls of `add_candidate`, in order: `seen_paths` holds the paths of the candidates so far. The
-- search ends with the twelfth candidate.
unfoldable pub add_each : List String → List String → ℕ → List AttributePath → List ProbeCandidate
unfolding path_text cluster_label
add_each keys seen zero ps = []
add_each keys seen (suc room) [] = []
add_each keys seen (suc room) (p ∷ ps) =
    let path = path_text p.endpoint p.cluster p.attribute in
    let skipped = add_each keys seen (suc room) ps in
    let added = add_each keys (path ∷ seen) room ps in
    if not (contains path keys) || contains path seen
    then skipped
    else candidate "discovered" (cluster_label p.cluster) false "generic" path ∷ added

-- `for attribute_id in priorities: for endpoint in endpoints`
at_endpoints : ℕ → ℕ → List ℕ → List AttributePath
at_endpoints cluster attribute =
    map (λ e. record { endpoint = e; cluster = cluster; attribute = attribute })

in_cluster : ℕ → List ℕ → List ℕ → List AttributePath
unfolding at_endpoints
in_cluster cluster [] endpoints = []
in_cluster cluster (a ∷ attributes) endpoints =
    at_endpoints cluster a endpoints ++ in_cluster cluster attributes endpoints

path_before : AttributePath → AttributePath → Bool
path_before p q =
    ltb p.endpoint q.endpoint
    || (eq_ℕ p.endpoint q.endpoint
        && (ltb p.cluster q.cluster || (eq_ℕ p.cluster q.cluster && ltb p.attribute q.attribute)))

insert_path : AttributePath → List AttributePath → List AttributePath
unfolding path_before
insert_path p [] = p ∷ []
insert_path p (q ∷ qs) =
    let rest = insert_path p qs in if path_before q p then q ∷ rest else p ∷ q ∷ qs

sort_paths : List AttributePath → List AttributePath
unfolding insert_path
sort_paths [] = []
sort_paths (p ∷ ps) = insert_path p (sort_paths ps)

extra_cluster : AttributePath → Bool
extra_cluster p = eq_ℕ p.cluster 6 || (eq_ℕ p.cluster 8 || eq_ℕ p.cluster 3)

-- the paths that `_discovered_candidates` tries
unfoldable pub attempts : List AttributePath → List AttributePath
unfolding in_cluster sort_paths extra_cluster endpoints_in
attempts ps =
    in_cluster 40 (2 ∷ 4 ∷ 5 ∷ 3 ∷ 1 ∷ 0 ∷ 7 ∷ 8 ∷ []) (endpoints_in 40 ps)
    ++ in_cluster 258 (10 ∷ 0 ∷ 7 ∷ 8 ∷ 11 ∷ 12 ∷ []) (endpoints_in 258 ps)
    ++ in_cluster 29 (0 ∷ 1 ∷ 2 ∷ []) (endpoints_in 29 ps)
    ++ filterb extra_cluster (sort_paths ps)

unfoldable pub discovered_candidates : List String → List ProbeCandidate
unfolding add_each attempts parsed_keys
discovered_candidates keys = add_each keys [] 12 (attempts (parsed_keys keys))

unfoldable pub generic_candidates : MatterProbeAdvancedConfig → List ProbeCandidate
generic_candidates advanced =
    map (candidate "basic_information" "Basic read check" false "generic")
      advanced.attributes.fallback

unfoldable pub descriptor_candidates : List String → List ProbeCandidate
unfolding endpoints_with_cluster path_text
descriptor_candidates keys =
    let at = (λ (e : ℕ).
      candidate "descriptor" "Descriptor read check" false "generic" (path_text e 29 0)) in
    elim (endpoints_with_cluster keys 29) [ [] ↦ at 0 ∷ [] | e ∷ es ↦ map at (e ∷ es) ]

-- the types that the node has already come first
unfoldable pub device_types : MatterNodeState → List String → List String
unfolding infer_device_types add_all
device_types n keys = elim n.inferred_device_types [
  | none ↦ infer_device_types keys n.product
  | some types ↦ add_all (add_all [] types) (infer_device_types keys n.product)
]

unfoldable pub device_specific_candidates :
    MatterNodeState → List String → MatterProbeConfig → List ProbeCandidate
unfolding endpoints_with_cluster device_types path_text
device_specific_candidates n keys config =
    let window =
      candidate "window_covering_status" "Window covering read check" false "device_specific" in
    elim (endpoints_with_cluster keys 258) [
      | e ∷ es ↦ map (λ (i : ℕ). window (path_text i 258 10)) (e ∷ es)
      | [] ↦
          if contains "Window Covering" (device_types n keys)
          then map window config.advanced.attributes.window_covering
          else []
    ]
