-- ===== src/Otbr/Snapshot.antt =====
-- Snapshots of threadlens/collectors/otbr_parse.py: how the answers of several endpoints of one
-- border router become one. A channel and a partition id are natural numbers.
pub mod Laws
use threadlens.Prelude.{
  ℕ, Bool, true, false, ◌&&◌, not, String, Option, none, some, List, [], ◌∷◌, ◌==◌, contains,
  or_text, if◌then◌else◌,
}

pub record ParsedOtbrSnapshot : Type 0 where
  pub thread_state : Option String
  pub role : Option String
  pub network_name : Option String
  pub channel : Option ℕ
  pub ext_pan_id : Option String
  pub pan_id : Option String
  pub rloc16 : Option String
  pub partition_id : Option ℕ
  pub device_count : Option ℕ

-- `ParsedOtbrSnapshot()`
abbrev pub no_snapshot : ParsedOtbrSnapshot
no_snapshot = record {
  thread_state = none;
  role = none;
  network_name = none;
  channel = none;
  ext_pan_id = none;
  pan_id = none;
  rloc16 = none;
  partition_id = none;
  device_count = none;
}

pub record OtbrReconciliationResult : Type 0 where
  pub snapshot : ParsedOtbrSnapshot
  pub thread_state_source : String
  pub json_api_thread_state : Option String
  pub legacy_node_thread_state : Option String
  pub rest_endpoint_mismatch : Bool
  pub legacy_node_available : Bool
  pub json_api_state_stale : Bool

abbrev pub operational_roles : List String
operational_roles = "detached" ∷ "child" ∷ "router" ∷ "leader" ∷ []

unfoldable pub thread_stack_active : Option String → Bool
thread_stack_active none = false
thread_stack_active (some s) = contains s operational_roles

-- `a != b`, for two texts that may be missing
abbrev pub differ : Option String → Option String → Bool
differ none none = false
differ (some s) (some t) = not (s == t)
differ _ _ = true

abbrev pub materially_differs : Option String → Option String → Bool
materially_differs (some s) (some t) = not (s == t)
materially_differs _ _ = false

-- `a if a is not None else b`
abbrev pub or_else : Option ℕ → Option ℕ → Option ℕ
or_else none b = b
or_else (some n) b = some n

abbrev pub prefer_legacy_snapshot : ParsedOtbrSnapshot → ParsedOtbrSnapshot → ParsedOtbrSnapshot
prefer_legacy_snapshot json_api legacy = record {
  thread_state = legacy.thread_state;
  role =
      or_text legacy.role
        (if thread_stack_active legacy.thread_state then legacy.thread_state else none);
  network_name = or_text legacy.network_name json_api.network_name;
  channel = or_else legacy.channel json_api.channel;
  ext_pan_id = or_text legacy.ext_pan_id json_api.ext_pan_id;
  pan_id = or_text legacy.pan_id json_api.pan_id;
  rloc16 = or_text legacy.rloc16 json_api.rloc16;
  partition_id = or_else legacy.partition_id json_api.partition_id;
  device_count = json_api.device_count;
}

abbrev is_disabled : Option String → Bool
is_disabled none = false
is_disabled (some s) = s == "disabled"

-- The snapshot that is taken, the name of its source, and if the JSON API is held to be stale.
effective : ParsedOtbrSnapshot → ParsedOtbrSnapshot → ParsedOtbrSnapshot × String × Bool
unfolding thread_stack_active
effective json_api legacy =
    if is_disabled json_api.thread_state && thread_stack_active legacy.thread_state
    then (prefer_legacy_snapshot json_api legacy, "legacy_node", true)
    else if thread_stack_active json_api.thread_state
        && (thread_stack_active legacy.thread_state
            && differ json_api.thread_state legacy.thread_state)
    then (prefer_legacy_snapshot json_api legacy, "legacy_node", false)
    else (json_api, "json_api", false)

abbrev alone : ParsedOtbrSnapshot → ParsedOtbrSnapshot × String × Bool
alone json_api =
    (json_api, elim json_api.thread_state [ none ↦ "unknown" | some _ ↦ "json_api" ], false)

chosen : ParsedOtbrSnapshot → Option ParsedOtbrSnapshot → Bool → ParsedOtbrSnapshot × String × Bool
unfolding effective
chosen json_api none asked = alone json_api
chosen json_api (some legacy) asked = if asked then effective json_api legacy else alone json_api

abbrev pub legacy_state : Option ParsedOtbrSnapshot → Option String
legacy_state none = none
legacy_state (some legacy) = legacy.thread_state

unfoldable pub reconcile_otbr_snapshots :
    ParsedOtbrSnapshot → Option ParsedOtbrSnapshot → Bool → Bool → OtbrReconciliationResult
unfolding chosen
reconcile_otbr_snapshots json_api legacy legacy_available use_legacy_fallback =
    let c = chosen json_api legacy (legacy_available && use_legacy_fallback) in
    record {
      snapshot = c.0;
      thread_state_source = c.1;
      json_api_thread_state = json_api.thread_state;
      legacy_node_thread_state = legacy_state legacy;
      rest_endpoint_mismatch = materially_differs json_api.thread_state (legacy_state legacy);
      legacy_node_available = legacy_available;
      json_api_state_stale = c.2;
    }

abbrev pub merge_two : ParsedOtbrSnapshot → ParsedOtbrSnapshot → ParsedOtbrSnapshot
merge_two merged snapshot = record {
  thread_state = or_text merged.thread_state snapshot.thread_state;
  role = or_text merged.role snapshot.role;
  network_name = or_text merged.network_name snapshot.network_name;
  channel = or_else merged.channel snapshot.channel;
  ext_pan_id = or_text merged.ext_pan_id snapshot.ext_pan_id;
  pan_id = or_text merged.pan_id snapshot.pan_id;
  rloc16 = or_text merged.rloc16 snapshot.rloc16;
  partition_id = or_else merged.partition_id snapshot.partition_id;
  device_count = or_else merged.device_count snapshot.device_count;
}

-- the loop of `merge_snapshots`
merge_onto : ParsedOtbrSnapshot → List ParsedOtbrSnapshot → ParsedOtbrSnapshot
merge_onto merged [] = merged
merge_onto merged (s ∷ ss) = merge_onto (merge_two merged s) ss

unfoldable pub merge_snapshots : List ParsedOtbrSnapshot → ParsedOtbrSnapshot
unfolding merge_onto
merge_snapshots snapshots = merge_onto no_snapshot snapshots
