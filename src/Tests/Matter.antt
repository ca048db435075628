-- ===== src/Tests/Matter.antt =====
-- A Matter server with a blind: its messages, probes and Thread identity.
use threadlens.Prelude.{
  ◌≤◌, ◌≡◌, refl, arith, true, false, none, some, String, Option, [], ◌∷◌, ◌⊎◌, All, Any, length,
}
use threadlens.Prelude.IntDict.{lookup}
use threadlens.Prelude.Json.{Json, Fields, end, field}
use threadlens.Config.{MatterServerConfig, default_flapping}
use threadlens.Model.Health.{HealthState}
use threadlens.Model.State.{MatterNodeState, ThreadDeviceState}
use threadlens.Storage.Table.{get_current_state}
use threadlens.Health.Rules.Nodes.{matter_node_candidates, node_subject_id}
use threadlens.Matter.Parse.{ParsedMatterNode, parse_matter_node}
use threadlens.Matter.Observer.{Observer, new_observer}
use threadlens.Matter.Observer.State.{blank_node}
use threadlens.Matter.Observer.Node.{process_node}
use threadlens.Matter.Observer.Handle.{on_connected}
use threadlens.Matter.Observer.Lifecycle.{SessionEnd, backoffs}
use threadlens.Matter.Observer.Availability.{
  outages, process_node-unknown_availability, process_node-outages, process_node-restarts_outage,
}
use threadlens.Matter.Observer.Outage.{process_node-timeline}
use threadlens.Health.Rules.Nodes.Laws.{node_state}
use threadlens.Matter.Observer.Backoff.{backoffs-bounds}
use threadlens.Network.{normalize_ipv6}
use threadlens.Enrichment.Thread.{correlated, build_thread_device_index}
use threadlens.Enrichment.Laws.{Has, correlate-source}
use threadlens.Enrichment.Forgets.{correlate_rows, process_node-forgets}
use threadlens.Tests.Data.{server}

abbrev pub house : MatterServerConfig
house = record {
  id = "main";
  name = "Main";
  websocket_url = "ws://main:5580/ws";
  variant = "python";
}

abbrev pub blind : MatterNodeState
blind = record (blank_node 7 "main") { available = true; last_seen = some 1_000 }

abbrev empty_observer : Observer
empty_observer = new_observer house 30 [] [] []

abbrev pub observer : Observer
observer = record empty_observer {
  nodes = (7, blind) ∷ [];
  node_rows = ("matter_node:main:7", blind) ∷ [];
  connected = true;
  websocket = true;
}

-- an update that says that the node is not available, and one that does not say
abbrev off : Fields
off = field "node_id" (Json.number 7) (field "available" (Json.flag false) end)

abbrev silent : Fields
silent =
    field "node_id" (Json.number 7)
      (field "attributes" (Json.object (field "0/40/3" (Json.str "Blind") end)) end)

abbrev parsed_off : ParsedMatterNode
parsed_off = record {
  node_id = 7;
  available = some false;
  node_label = none;
  vendor = none;
  vendor_id = none;
  product = none;
  product_id = none;
  serial = none;
  firmware = none;
}

abbrev parsed_silent : ParsedMatterNode
parsed_silent = record parsed_off { available = none; product = some "Blind" }

abbrev update : Fields
update = field "event" (Json.str "node_updated") (field "data" (Json.object off) end)

-- a connected observer that has sent what a session starts with and then asks for the nodes
abbrev listening : Observer
listening = record (on_connected 5_000 empty_observer) {
  sent_commands = "start_listening" ∷ "get_nodes" ∷ [];
}

process_node-unknown_availability_example :
    ((n : MatterNodeState) × (lookup 7 (process_node silent 6_000 observer).nodes ≡ some n)
      × (n.available ≡ true)
      × (n.last_unavailable ≡ none))
    × ((process_node silent 6_000 observer).events ≡ [])
unfolding parse_matter_node lookup
process_node-unknown_availability_example =
    process_node-unknown_availability silent parsed_silent blind 6_000 observer refl refl refl

process_node-outages_example :
    outages (process_node silent 6_000 observer).events ≡ outages observer.events
unfolding parse_matter_node
process_node-outages_example =
    process_node-outages silent parsed_silent 6_000 observer refl (λ n h k. ground arith)

process_node-restarts_outage_example :
    (n : MatterNodeState) × (lookup 7 (process_node off 6_000 observer).nodes ≡ some n)
    × (matter_node_candidates default_flapping n (some server) 7_000
        ≡ (HealthState.degraded, "matter_node_unavailable" ∷ []) ∷ [])
unfolding parse_matter_node
process_node-restarts_outage_example =
    process_node-restarts_outage off parsed_off 6_000 7_000 observer default_flapping (some server)
      refl refl refl (omega arith)

process_node-timeline_example :
    (n : MatterNodeState) × (lookup 7
        (process_node silent 9_000 (process_node off 6_000 observer)).nodes
      ≡ some n)
    × (node_state default_flapping n (some server) 1_800_006_000 ≡ HealthState.critical)
unfolding parse_matter_node
process_node-timeline_example =
    process_node-timeline off silent parsed_off parsed_silent 6_000 9_000 1_800_006_000 observer
      default_flapping (some server) refl refl refl refl refl refl

-- an initial time above the greatest one, which the configuration allows
backoffs-bounds_example :
    (length (backoffs 120 60 120 (SessionEnd.raised ∷ SessionEnd.raised ∷ SessionEnd.closed ∷ []))
      ≡ 3)
    × All
        (λ s. (60 ≤ s) × (s ≤ 120))
        (backoffs 120 60 120 (SessionEnd.raised ∷ SessionEnd.raised ∷ SessionEnd.closed ∷ []))
backoffs-bounds_example =
    backoffs-bounds 120 60 (SessionEnd.raised ∷ SessionEnd.raised ∷ SessionEnd.closed ∷ [])

-- every text stands for an address that is in its compressed form
abbrev same_form : String → Option String
same_form s = some s

abbrev blind_device : ThreadDeviceState
blind_device = record {
  id = "kitchen:00112233aabbccdd";
  extended_address = "00112233aabbccdd";
  ipv6_address = some "fd00::7";
  rloc_address = none;
  role = some "child";
  device_type = none;
  hostname = none;
  source_otbr_id = "kitchen";
  ext_pan_id = none;
  last_seen = some 4_000;
}

abbrev addressed : MatterNodeState
addressed = record blind { thread_ipv6_address = some "fd00::7" }

correlate-source_example :
    (addressed.thread_extended_address ≡ some "00112233aabbccdd")
    ⊎ ((a : String) × (normalize_ipv6 same_form addressed.thread_ipv6_address ≡ some a)
        × Any (Has same_form a "00112233aabbccdd") (blind_device ∷ []))
unfolding correlated build_thread_device_index
correlate-source_example =
    correlate-source same_form addressed (blind_device ∷ []) "00112233aabbccdd" refl

process_node-forgets_example :
    (n : MatterNodeState) × (get_current_state
        (node_subject_id "main" 7)
        (process_node off 6_000 (correlate_rows same_form (blind_device ∷ []) observer)).node_rows
      ≡ some n)
    × (n.thread_extended_address ≡ none)
unfolding parse_matter_node lookup
process_node-forgets_example =
    process_node-forgets same_form (blind_device ∷ []) off parsed_off blind 6_000 observer refl refl
