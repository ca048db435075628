-- ===== src/Health/Report.antt =====
-- `build_report` of threadlens/health/engine.py. The repository is its tables as they stand at
-- the call; the states in them are what `_load_states` returns.
pub mod Laws
pub mod Critical
use threadlens.Prelude.{
  ℕ, ◌+◌, ◌-◌, ◌*◌, Bool, true, false, ◌&&◌, ◌||◌, not, String, Option, none, some, List, [], ◌∷◌,
  ◌++◌, ◌==◌, ltb, length, count_if, map, if◌then◌else◌,
}
use threadlens.Prelude.Dict.{Dict, lookup, insert}
use threadlens.Config.{ThreadLensConfig, FlappingConfig, OtbrConfig, MatterServerConfig}
use threadlens.Model.Health.{
  HealthState, HealthStatus, OtbrHealthResult, MatterServerHealthResult, MatterNodeHealthResult,
  ThreadNetworkHealthResult, EnvironmentSummary, HealthReport,
}
use threadlens.Model.State.{
  OtbrState, MatterServerState, MatterNodeState, ThreadNetworkState, TrelServiceState,
}
use threadlens.Model.Events.{Event}
use threadlens.Storage.Events.{any_event, count_events}
use threadlens.Health.Rollup.{merge_health}
use threadlens.Health.Rules.{
  calculate_otbr_health, calculate_matter_server_health, calculate_thread_network_health,
}
use threadlens.Health.Rules.Nodes.{calculate_matter_node_health}
use threadlens.Health.Rules.Services.{
  ObserverView, calculate_mdns_health, calculate_trel_health, count_service_flaps, mdns_flap_events,
  trel_flap_events, foreign_visible,
}
use threadlens.Health.Rules.Agreement.{
  configured_otbr_disagreement_health, primary_network_unknown_health,
}

-- What the engine reads: the configuration, the observer and the repository.
pub record HealthContext : Type 0 where
  pub config : ThreadLensConfig
  pub observer : Option ObserverView
  pub otbr_states : List OtbrState
  pub matter_servers : List MatterServerState
  pub matter_nodes : List MatterNodeState
  pub thread_networks : List ThreadNetworkState
  pub trel_services : List TrelServiceState
  pub events : List Event

abbrev pub hour : ℕ
hour = 60 * 60 * 1_000_000

-- `next((item for item in states if item.id == id), None)`
unfoldable pub find_otbr : String → List OtbrState → Option OtbrState
find_otbr id [] = none
find_otbr id (s ∷ states) = if s.id == id then some s else find_otbr id states

unfoldable pub find_server : String → List MatterServerState → Option MatterServerState
find_server id [] = none
find_server id (s ∷ states) = if s.id == id then some s else find_server id states

-- `state.role_changes_1h`, or the role changes counted since then
role_changes : List Event → ℕ → OtbrState → ℕ
unfolding count_events
role_changes events since_1h state = elim state.role_changes_1h [
  | some n ↦ n
  | none ↦
      count_events
        (record any_event {
          source_id = some state.id;
          event_type = some "otbr.role_changed";
          since = some since_1h;
        })
        events
]

otbr_result : HealthContext → ℕ → OtbrConfig → OtbrHealthResult
unfolding find_otbr role_changes calculate_otbr_health
otbr_result c since_1h config = elim (find_otbr config.id c.otbr_states) [
  | none ↦ record {
    id = config.id;
    state = HealthState.unknown;
    reasons = "otbr_not_observed" ∷ [];
  }
  | some state ↦
      calculate_otbr_health c.config.flapping state (role_changes c.events since_1h state)
]

server_result : HealthContext → MatterServerConfig → MatterServerHealthResult
unfolding find_server calculate_matter_server_health
server_result c config = elim (find_server config.id c.matter_servers) [
  | none ↦ record {
    id = config.id;
    state = HealthState.unknown;
    reasons = "matter_server_not_observed" ∷ [];
  }
  | some state ↦ calculate_matter_server_health state
]

-- `{server.id: server for server in matter_servers}`
server_by_id : Dict MatterServerState → List MatterServerState → Dict MatterServerState
server_by_id d [] = d
server_by_id d (s ∷ servers) = server_by_id (insert s.id s d) servers

-- The test is on the classification alone.
observed_other_statuses : List ThreadNetworkHealthResult → List HealthStatus
observed_other_statuses [] = []
observed_other_statuses (item ∷ items) =
    if elim item.classification [ some v ↦ v == "observed_other" | none ↦ false ]
    then record {
      state = HealthState.warning;
      reasons = "observed_other_thread_network_visible" ∷ [];
    }
      ∷ observed_other_statuses items
    else observed_other_statuses items

unfoldable pub insufficient_data : Bool → EnvironmentSummary → Bool
insufficient_data mdns_enabled s =
    not (ltb 0 s.otbrs_configured || (ltb 0 s.matter_servers_configured || mdns_enabled))
    && not (
        ltb 0 s.otbrs_reachable
        || (ltb 0 s.matter_servers_connected
            || (ltb 0 s.matter_nodes_seen
                || (ltb 0 s.thread_networks_seen
                    || (ltb 0 s.foreign_trel_services_seen || ltb 0 s.events_24h)))))

unfoldable pub summarize : HealthContext → ℕ → EnvironmentSummary
unfolding count_events
summarize c since_24h = record {
  otbrs_configured = length c.config.otbrs;
  otbrs_reachable = count_if (λ (s : OtbrState). s.reachable) c.otbr_states;
  matter_servers_configured = length c.config.matter_servers;
  matter_servers_connected = count_if (λ (s : MatterServerState). s.connected) c.matter_servers;
  matter_nodes_seen = length c.matter_nodes;
  matter_nodes_unavailable = count_if (λ (n : MatterNodeState). not n.available) c.matter_nodes;
  thread_networks_seen =
      count_if (λ (n : ThreadNetworkState). n.currently_visible) c.thread_networks;
  foreign_trel_services_seen = count_if foreign_visible c.trel_services;
  events_24h = count_events (record any_event { since = some since_24h }) c.events;
  warnings_24h =
      count_events
        (record any_event {
          since = some since_24h;
          severities = "warning" ∷ "error" ∷ "critical" ∷ [];
        })
        c.events;
}

unfoldable pub otbr_health : HealthContext → ℕ → List OtbrHealthResult
unfolding otbr_result
otbr_health c since_1h = map (otbr_result c since_1h) c.config.otbrs

unfoldable pub matter_server_health : HealthContext → List MatterServerHealthResult
unfolding server_result
matter_server_health c = map (server_result c) c.config.matter_servers

unfoldable pub matter_node_health : HealthContext → ℕ → List MatterNodeHealthResult
unfolding server_by_id calculate_matter_node_health
matter_node_health c now =
    map
      (λ node.
        calculate_matter_node_health c.config.flapping node (server_by_id [] c.matter_servers) now)
      c.matter_nodes

unfoldable pub thread_network_health : HealthContext → List ThreadNetworkHealthResult
unfolding calculate_thread_network_health
thread_network_health c =
    map (λ network. calculate_thread_network_health network c.otbr_states) c.thread_networks

unfoldable pub mdns_health : HealthContext → ℕ → HealthStatus
unfolding calculate_mdns_health count_service_flaps
mdns_health c since_1h =
    calculate_mdns_health c.config.flapping c.config.mdns_enabled c.observer
      (count_service_flaps mdns_flap_events since_1h c.events)

unfoldable pub trel_health : HealthContext → ℕ → HealthStatus
unfolding calculate_trel_health count_service_flaps
trel_health c since_1h =
    calculate_trel_health c.config.flapping c.config.mdns_enabled c.observer c.trel_services
      (count_service_flaps trel_flap_events since_1h c.events)

-- `env_statuses.extend([mdns_health, trel_health, disagree_health, primary_unknown_health])`
unfoldable pub closing_statuses : HealthContext → ℕ → List HealthStatus
unfolding configured_otbr_disagreement_health primary_network_unknown_health
closing_statuses c since_1h =
    mdns_health c since_1h
    ∷ trel_health c since_1h
    ∷ configured_otbr_disagreement_health c.config.otbrs c.otbr_states
    ∷ primary_network_unknown_health c.config.otbrs c.otbr_states c.thread_networks
    ∷ []

abbrev pub otbr_status : OtbrHealthResult → HealthStatus
otbr_status r = record { state = r.state; reasons = r.reasons }

abbrev pub server_status : MatterServerHealthResult → HealthStatus
server_status r = record { state = r.state; reasons = r.reasons }

abbrev pub node_status : MatterNodeHealthResult → HealthStatus
node_status r = record { state = r.state; reasons = r.reasons }

-- `env_statuses`
unfoldable pub env_statuses : HealthContext → ℕ → List HealthStatus
unfolding observed_other_statuses
env_statuses c now =
    let since_1h = now - hour in
    map otbr_status (otbr_health c since_1h)
    ++ (map server_status (matter_server_health c)
        ++ (map node_status (matter_node_health c now)
            ++ (observed_other_statuses (thread_network_health c) ++ closing_statuses c since_1h)))

abbrev pub insufficient : HealthStatus
insufficient = record { state = HealthState.unknown; reasons = "insufficient_data" ∷ [] }

-- `environment`, before and after the test for insufficient data
unfoldable pub environment : HealthContext → ℕ → HealthStatus
environment c now =
    let observed = merge_health (env_statuses c now) in
    if insufficient_data c.config.mdns_enabled (summarize c (now - 24 * hour))
    then merge_health (observed ∷ insufficient ∷ [])
    else observed

unfoldable pub build_report : HealthContext → String → String → ℕ → HealthReport
build_report c version mode now =
    let since_1h = now - hour in
    record {
      version = version;
      mode = mode;
      site = c.config.site_name;
      overall = merge_health (environment c now ∷ []);
      environment = environment c now;
      summary = summarize c (now - 24 * hour);
      otbrs = otbr_health c since_1h;
      matter_servers = matter_server_health c;
      matter_nodes = matter_node_health c now;
      thread_networks = thread_network_health c;
      mdns = mdns_health c since_1h;
      trel = trel_health c since_1h;
    }
