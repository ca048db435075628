-- ===== src/Enrichment/Thread.antt =====
-- threadlens/enrichment/thread_matter.py: the devices of the Thread networks, matched to the Matter
-- nodes by their addresses. `compressed` is that of Network.antt.
use threadlens.Prelude.{
  ℕ, suc, Bool, true, false, ◌&&◌, String, Option, none, some, List, [], ◌∷◌, ◌==◌, if◌then◌else◌,
  non_blank,
}
use threadlens.Prelude.Dict.{Dict, lookup, insert}
use threadlens.Network.{normalize_ipv6}
use threadlens.Model.State.{MatterNodeState, ThreadDeviceState}
use threadlens.Storage.Table.{Table, upsert_current_state}
use threadlens.Health.Rules.Nodes.{node_subject_id}

-- `a == b`
abbrev pub same_text : Option String → Option String → Bool
same_text none none = true
same_text (some s) (some t) = s == t
same_text _ _ = false

-- `if ext_address and ipv6: index[ipv6] = str(ext_address)`; a normalised address is not empty
unfoldable pub add_address : Option String → String → Dict String → Dict String
unfolding insert
add_address none ext index = index
add_address (some ipv6) ext index = if ext == "" then index else insert ipv6 ext index

-- `thread_index.get(ipv6)`, where the node has an address and no extended address
unfoldable pub next_extended : Option String → Option String → Dict String → Option String
unfolding lookup
next_extended none ext index = ext
next_extended (some ipv6) ext index = elim (non_blank ext) [
  | some e ↦ some e
  | none ↦ lookup ipv6 index
]

module _ (compressed : String → Option String) where
  -- with the index of the devices before
  unfoldable pub add_devices : List ThreadDeviceState → Dict String → Dict String
  unfolding add_address normalize_ipv6
  add_devices [] index = index
  add_devices (d ∷ ds) index =
      add_devices ds
        (add_address (normalize_ipv6 compressed d.ipv6_address) d.extended_address index)

  unfoldable pub build_thread_device_index : List ThreadDeviceState → Dict String
  unfolding add_devices
  build_thread_device_index devices = add_devices devices []

  -- `correlate_thread_identity`: the address and the extended address
  unfoldable pub correlate_thread_identity :
      MatterNodeState → Dict String → Option String × Option String
  unfolding next_extended normalize_ipv6
  correlate_thread_identity n index =
      let ipv6 = normalize_ipv6 compressed n.thread_ipv6_address in
      (ipv6, next_extended ipv6 n.thread_extended_address index)

  unfoldable pub correlated : MatterNodeState → Dict String → MatterNodeState
  unfolding correlate_thread_identity
  correlated n index =
      let found = correlate_thread_identity n index in
      record n { thread_ipv6_address = found.0; thread_extended_address = found.1 }

  unfoldable pub is_unchanged : MatterNodeState → Dict String → Bool
  unfolding correlate_thread_identity
  is_unchanged n index =
      let found = correlate_thread_identity n index in
      same_text found.1 n.thread_extended_address && same_text found.0 n.thread_ipv6_address

  -- the loop over the rows as they were listed, with the number of rows that change
  unfoldable pub update_nodes :
      Dict String → Table MatterNodeState → Table MatterNodeState → ℕ × Table MatterNodeState
  unfolding is_unchanged correlated
  update_nodes index [] rows = (0, rows)
  update_nodes index ((id, n) ∷ listed) rows =
      let unchanged = is_unchanged n index in
      let rest = update_nodes index listed (
        if unchanged
        then rows
        else upsert_current_state (node_subject_id n.server_id n.node_id) (correlated n index)
            rows) in
      (if unchanged then rest.0 else suc rest.0, rest.1)

  unfoldable pub apply_thread_identity_correlation :
      List ThreadDeviceState → Table MatterNodeState → ℕ × Table MatterNodeState
  unfolding build_thread_device_index update_nodes
  apply_thread_identity_correlation devices rows = elim (build_thread_device_index devices) [
    | [] ↦ (0, rows)
    | entry ∷ index ↦ update_nodes (entry ∷ index) rows rows
  ]
