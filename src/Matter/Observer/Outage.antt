-- ===== src/Matter/Observer/Outage.antt =====
-- An outage from the messages that threadlens/collectors/matter_server.py receives to the health that
-- threadlens/health/engine.py reports.
use threadlens.Prelude.{
  ℕ, ◌+◌, ◌*◌, ◌≡◌, ◌∙◌, sym, ap, refl, true, false, Option, none, some, ltb, if◌then◌else◌,
}
use threadlens.Prelude.IntDict.{lookup}
use threadlens.Prelude.Json.{Fields}
use threadlens.Config.{FlappingConfig}
use threadlens.Model.Health.{HealthState}
use threadlens.Model.State.{MatterNodeState, MatterServerState}
use threadlens.Health.Rules.Nodes.{observable}
use threadlens.Health.Rules.Nodes.Laws.{node_state, node_unavailable}
use threadlens.Matter.Parse.{ParsedMatterNode, parse_matter_node}
use threadlens.Matter.Observer.{Observer}
use threadlens.Matter.Observer.State.{prior, node_state_from, next_available, next_last_unavailable}
use threadlens.Matter.Observer.Node.{process_node}
use threadlens.Matter.Observer.Availability.{after, process_node-stored, prior_known}

available-after :
    (p : ParsedMatterNode) (payload : Fields) (now : ℕ) (o : Observer)
    → (after p payload now o).available ≡ next_available p.available (prior p.node_id o)
unfolding node_state_from
available-after p payload now o = refl

since-after :
    (p : ParsedMatterNode) (payload : Fields) (now : ℕ) (o : Observer)
    → (after p payload now o).last_unavailable
      ≡ next_last_unavailable p.available now (prior p.node_id o)
unfolding node_state_from
since-after p payload now o = refl

-- A payload says at `start` that a node is unavailable, and a later payload of the node does not say
-- whether it is available. Then the stored node is degraded until the configured minutes, here in
-- microseconds, have passed since `start`, and critical from then on, if its server reports
-- availability.
pub process_node-timeline :
    (off silent : Fields) (p q : ParsedMatterNode) (start later now : ℕ) (o : Observer)
    (f : FlappingConfig) (server : Option MatterServerState)
    → parse_matter_node off ≡ some p
    → p.available ≡ some false
    → parse_matter_node silent ≡ some q
    → q.available ≡ none
    → q.node_id ≡ p.node_id
    → observable server ≡ true
    → (n : MatterNodeState) × (lookup p.node_id
          (process_node silent later (process_node off start o)).nodes
        ≡ some n)
      × (node_state f n server now ≡ (
          if ltb now (start + f.matter_node_unavailable_critical_minutes * 60_000_000)
          then HealthState.degraded
          else HealthState.critical))
unfolding next_available next_last_unavailable
process_node-timeline off silent p q start later now o f server h down k quiet same seen =
    let first = process_node off start o in
    let n = after q silent later first in
    let known = process_node-stored off p start o h in
    let before = ap (λ id. prior id first) same ∙ prior_known p.node_id first _ known in
    let out =
      available-after q silent later first
      ∙ ap (λ a. next_available a (prior q.node_id first)) quiet
      ∙ ap (λ e. e.available) before
      ∙ available-after p off start o
      ∙ ap (λ a. next_available a (prior p.node_id o)) down in
    let since =
      since-after q silent later first
      ∙ ap (λ a. next_last_unavailable a later (prior q.node_id first)) quiet
      ∙ ap (λ e. e.last_unavailable) before
      ∙ since-after p off start o
      ∙ ap (λ a. next_last_unavailable a start (prior p.node_id o)) down in
    (
      n,
      ap (λ id. lookup id (process_node silent later first).nodes) (sym same)
          ∙ process_node-stored silent q later first k,
      node_unavailable f n server start now seen out since,
    )
