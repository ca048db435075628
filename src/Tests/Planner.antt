-- ===== src/Tests/Planner.antt =====
-- The planning and the running of probes, and the device inventory.
use threadlens.Prelude.{
  ℕ, ◌≡◌, ◌≢◌, refl, arith, true, false, none, some, String, Option, List, [], ◌∷◌, inl, contains,
  IsDistinct,
}
use threadlens.Prelude.Codes.{is_empty}
use threadlens.Prelude.IntDict.{lookup}
use threadlens.Prelude.Json.{Json}
use threadlens.Config.{MatterProbeConfig, ProbeMode}
use threadlens.Model.State.{MatterNodeState, ThreadDeviceState}
use threadlens.Storage.Table.{get_current_state, upsert_current_state, delete_current_state}
use threadlens.Matter.Requests.{success, failure}
use threadlens.Matter.Observer.{Observer}
use threadlens.Probes.Planner.{ProbeCandidate, candidate}
use threadlens.Probes.Planner.Plan.{plan, per_node, first_probe_candidate}
use threadlens.Probes.Planner.Laws.{paths, plan-IsDistinct}
use threadlens.Probes.Planner.Discovery.{plan-fallback, first_probe_candidate-override}
use threadlens.Probes.Runner.{Request}
use threadlens.Probes.Runner.Attempt.{ProbeAttemptOutcome, attempt_read_probe}
use threadlens.Probes.Runner.Outcomes.{aggregate_probe_outcomes}
use threadlens.Probes.Runner.Overwrites.{attempt_read_probe-overwrites}
use threadlens.Probes.Runner.Skips.{IsSkipped, not_known, probe-IsSkipped}
use threadlens.Probes.Runner.Run.{run_manual_probe, run_scheduled_probe}
use threadlens.Probes.Runner.Verdicts.{plan-aggregate}
use threadlens.Otbr.Parse.Inventory.{ParsedThreadDevice, seen_ids, persist_device_inventory}
use threadlens.Otbr.Parse.Laws.{persist_device_inventory-stale}
use threadlens.Tests.Matter.{blind, observer}

abbrev probing : MatterProbeConfig
probing = record {
  mode = ProbeMode.standard;
  manual_enabled = true;
  schedule_enabled = true;
  advanced = record {
    interval_seconds = none;
    max_concurrent = 1;
    jitter_seconds = 300;
    ping_enabled = false;
    attributes = record { window_covering = "1/258/10" ∷ []; fallback = "0/40/2" ∷ "0/40/4" ∷ [] };
    per_node = ("7", record { preferred = "1/6/0" ∷ []; disabled = false }) ∷ [];
  };
}

abbrev own_keys : Option (List String)
own_keys = some ("0/40/2" ∷ "0/40/3" ∷ "1/258/10" ∷ [])

plan-IsDistinct_example : IsDistinct (paths (plan blind own_keys probing))
plan-IsDistinct_example = plan-IsDistinct blind own_keys probing

active : probing.mode ≢ ProbeMode.disabled
active h = ground arith

plan-fallback_example : contains "0/40/4" (paths (plan blind own_keys probing)) ≡ true
unfolding per_node
plan-fallback_example = plan-fallback blind own_keys probing "0/40/4" active refl refl refl

first_probe_candidate-override_example :
    first_probe_candidate blind own_keys probing
    ≡ some (candidate "override" "Configured read check" true "override" "1/6/0")
unfolding per_node
first_probe_candidate-override_example =
    first_probe_candidate-override blind own_keys probing
      (record { preferred = "1/6/0" ∷ []; disabled = false }) "1/6/0" [] active refl refl refl refl

abbrev generic : ProbeCandidate
generic = candidate "basic_information" "Basic read check" false "generic" "0/40/2"

abbrev covering : ProbeCandidate
covering =
    candidate "window_covering_status" "Window covering read check" false "device_specific"
      "1/258/10"

-- a read that the device does not support, and one that succeeds
abbrev refused : ProbeAttemptOutcome
refused = record {
  ok = none;
  limited = true;
  candidate = covering;
  command_result = failure (Json.number 5) (some "unsupported attribute") 30;
}

abbrev read : ProbeAttemptOutcome
read = record {
  ok = some true;
  limited = false;
  candidate = generic;
  command_result = success (Json.number 1) 20;
}

plan-aggregate_example :
    contains "1/258/10"
      (paths (plan (aggregate_probe_outcomes blind (refused ∷ read ∷ [])) own_keys probing))
    ≡ false
plan-aggregate_example = plan-aggregate blind refused (read ∷ []) own_keys probing "1/258/10" refl

-- Meanwhile the node says that it is not available.
abbrev request : Request
request command node_id path o = record {
  result = success (Json.number 1) 20;
  observer = record o { nodes = (7, record blind { available = false }) ∷ [] };
  arrived = 9_000;
}

attempt_read_probe-overwrites_example :
    (k : MatterNodeState) × (lookup 7
        (attempt_read_probe request blind generic 8_000 observer).1.nodes
      ≡ some k)
    × (k.available ≡ true)
    × (k.last_unavailable ≡ none)
    × (k.last_seen ≡ some 1_000)
    × (k.last_read_probe_at ≡ some 8_000)
attempt_read_probe-overwrites_example =
    attempt_read_probe-overwrites request blind generic 8_000 observer

abbrev clock : Observer → ℕ
clock o = 8_000

abbrev same_form : String → Option String
same_form s = some s

probe-IsSkipped_example :
    IsSkipped observer (run_manual_probe request clock same_form probing 9 none observer)
    × IsSkipped observer (run_scheduled_probe request clock same_form probing 9 none observer)
unfolding lookup
probe-IsSkipped_example =
    probe-IsSkipped request clock same_form probing 9 none observer (inl (not_known refl))

abbrev new_device : ParsedThreadDevice
new_device = record {
  extended_address = "00112233aabbccdd";
  ipv6_address = some "fd00::7";
  rloc_address = none;
  role = some "child";
  device_type = none;
  hostname = none;
}

abbrev stored_device : ThreadDeviceState
stored_device = record {
  id = "kitchen:00112233aabbccdd";
  extended_address = "00112233aabbccdd";
  ipv6_address = some "fd00::7";
  rloc_address = none;
  role = some "child";
  device_type = none;
  hostname = none;
  source_otbr_id = "kitchen";
  ext_pan_id = none;
  last_seen = some 4_000;
}

abbrev gone_device : ThreadDeviceState
gone_device = record stored_device { id = "kitchen:ffff"; last_seen = some 1_000 }

persist_device_inventory-stale_example :
    contains "kitchen:00112233aabbccdd" (seen_ids "kitchen" (new_device ∷ [])) ≡ true
unfolding persist_device_inventory get_current_state upsert_current_state delete_current_state
    is_empty
persist_device_inventory-stale_example =
    persist_device_inventory-stale "kitchen" (new_device ∷ []) none 4_000
      (("kitchen:ffff", gone_device) ∷ []) "kitchen:00112233aabbccdd" stored_device refl refl refl
      refl
