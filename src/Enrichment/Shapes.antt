-- ===== src/Enrichment/Shapes.antt =====
-- The correlation of threadlens/enrichment/thread_matter.py leaves everything but the two addresses
-- of a node's row as it was, and the cache of threadlens/collectors/matter_server.py too.
use threadlens.Prelude.{
  ℕ, ◌≡◌, ◌∙◌, refl, sym, ap, Bool, true, false, String, Option, some, List, [], ◌∷◌, ◌==◌, All,
  All-map, IsDistinct, if◌then◌else◌, eq_iff, Bool-cases, inl, inr,
}
use threadlens.Prelude.Dict.{Dict, keys}
use threadlens.Model.State.{MatterNodeState, ThreadDeviceState}
use threadlens.Storage.Table.{Table, get_current_state, upsert_current_state, get-upsert}
use threadlens.Storage.Table.Rows.{All-upsert, rows-found}
use threadlens.Health.Rules.Nodes.{node_subject_id}
use threadlens.Matter.Observer.{Observer}
use threadlens.Matter.Observer.Rows.{IsMirrored, HasOwnId, shapes}
use threadlens.Enrichment.Thread.{
  correlated, is_unchanged, update_nodes, build_thread_device_index,
  apply_thread_identity_correlation,
}
use threadlens.Enrichment.Forgets.{correlate_rows}

module _ (compressed : String → Option String) where
  -- one round of the loop
  abbrev updated :
      Bool → MatterNodeState → Dict String → Table MatterNodeState → Table MatterNodeState
  updated unchanged n index rows =
      if unchanged
      then rows
      else upsert_current_state (node_subject_id n.server_id n.node_id)
          (correlated compressed n index) rows

  updated-shapes :
      (b : Bool) (id j : String) (n : MatterNodeState) (index : Dict String)
      (rows : Table MatterNodeState)
      → id ≡ node_subject_id n.server_id n.node_id
      → shapes (get_current_state id rows) ≡ shapes (some n)
      → shapes (get_current_state j (updated b n index rows)) ≡ shapes (get_current_state j rows)
  updated-shapes true id j n index rows own h = refl
  updated-shapes false id j n index rows own h =
      let k = node_subject_id n.server_id n.node_id in
      let c = correlated compressed n index in
      ap shapes (get-upsert k j c rows)
      ∙ (elim (Bool-cases (j == k))
          as (λ _.
            shapes (if j == k then some c else get_current_state j rows)
            ≡ shapes (get_current_state j rows)) [
              | inl e ↦ rw e (
                  unfold correlated in
                  sym
                    (ap (λ i. shapes (get_current_state i rows)) ((eq_iff j k).0 e ∙ sym own) ∙ h))
              | inr e ↦ rw e refl
            ])

  updated-HasOwnId :
      (b : Bool) (n : MatterNodeState) (index : Dict String) (rows : Table MatterNodeState)
      → All HasOwnId rows
      → All HasOwnId (updated b n index rows)
  unfolding correlated
  updated-HasOwnId true n index rows a = a
  updated-HasOwnId false n index rows a =
      All-upsert HasOwnId (node_subject_id n.server_id n.node_id) (correlated compressed n index)
        rows a refl

  -- a listed row that the table still holds, up to the two addresses
  abbrev IsListed : Table MatterNodeState → String × MatterNodeState → Type 0
  IsListed rows (id, n) =
      (id ≡ node_subject_id n.server_id n.node_id)
      × (shapes (get_current_state id rows) ≡ shapes (some n))

  updates-shapes :
      (index : Dict String) (listed rows : Table MatterNodeState)
      → All (IsListed rows) listed
      → (j : String)
      → shapes (get_current_state j (update_nodes compressed index listed rows).1)
        ≡ shapes (get_current_state j rows)
  unfolding update_nodes
  updates-shapes index [] rows a j = refl
  updates-shapes index ((id, n) ∷ listed) rows a j =
      let b = is_unchanged compressed n index in
      let keep : (i : String)
          → shapes (get_current_state i (updated b n index rows))
            ≡ shapes (get_current_state i rows) =
        λ i. updated-shapes b id i n index rows a.0.0 a.0.1 in
      updates-shapes index listed (updated b n index rows)
        (All-map {P = IsListed rows} {Q = IsListed (updated b n index rows)}
          (λ r p. (p.0, keep r.0 ∙ p.1)) listed a.1)
        j
      ∙ keep j

  updates-HasOwnId :
      (index : Dict String) (listed rows : Table MatterNodeState)
      → All HasOwnId rows
      → All HasOwnId (update_nodes compressed index listed rows).1
  unfolding update_nodes
  updates-HasOwnId index [] rows a = a
  updates-HasOwnId index ((id, n) ∷ listed) rows a =
      let b = is_unchanged compressed n index in
      updates-HasOwnId index listed (updated b n index rows) (updated-HasOwnId b n index rows a)

  listed :
      (rows some_rows : Table MatterNodeState)
      → All HasOwnId some_rows
      → All (λ r. get_current_state r.0 rows ≡ some r.1) some_rows
      → All (IsListed rows) some_rows
  listed rows [] a b = tt
  listed rows (r ∷ rs) a b = ((a.0, ap shapes b.0), listed rows rs a.1 b.1)

  applied-shapes :
      (devices : List ThreadDeviceState) (rows : Table MatterNodeState)
      → All HasOwnId rows
      → IsDistinct (keys rows)
      → let after = (apply_thread_identity_correlation compressed devices rows).1 in
        All HasOwnId after
        × ((j : String) → shapes (get_current_state j after) ≡ shapes (get_current_state j rows))
  unfolding apply_thread_identity_correlation
  applied-shapes devices rows a d = by_index (build_thread_device_index compressed devices)
    where
      by_index :
          (index : Dict String)
          → let after =
              (elim index as (λ _. ℕ × Table MatterNodeState) [
                | [] ↦ (0, rows)
                | entry ∷ rest ↦ update_nodes compressed (entry ∷ rest) rows rows
              ]).1 in
            All HasOwnId after
            × ((j : String)
                → shapes (get_current_state j after) ≡ shapes (get_current_state j rows))
      by_index [] = (a, λ j. refl)
      by_index (entry ∷ rest) = (
        updates-HasOwnId (entry ∷ rest) rows rows a,
        updates-shapes (entry ∷ rest) rows rows (listed rows rows a (rows-found rows d)),
      )

  pub correlate_rows-IsMirrored :
      (devices : List ThreadDeviceState) (o : Observer)
      → IsDistinct (keys o.node_rows)
      → IsMirrored o
      → IsMirrored (correlate_rows compressed devices o)
  correlate_rows-IsMirrored devices o d m =
      let p = applied-shapes devices o.node_rows m.keyed d in
      record {
        distinct = m.distinct;
        mirror = (λ id. p.1 (node_subject_id o.server_config.id id) ∙ m.mirror id);
        own = m.own;
        keyed = p.0;
      }
