-- ===== src/Enrichment/Laws.antt =====
-- Where the Thread identities of threadlens/enrichment/thread_matter.py come from.
use threadlens.Prelude.{
  ◌≡◌, refl, false, String, Option, none, some, List, [], ◌∷◌, ◌==◌, arith, eq_iff, Any, Bool-cases,
  inl, inr, ◌⊎◌,
}
use threadlens.Prelude.Dict.{Dict, lookup, lookup-insert}
use threadlens.Network.{normalize_ipv6}
use threadlens.Model.State.{MatterNodeState, ThreadDeviceState}
use threadlens.Enrichment.Thread.{
  add_address, next_extended, add_devices, build_thread_device_index, correlate_thread_identity,
  correlated,
}

add_address-lookup :
    (o : Option String) (e : String) (index : Dict String) (ipv6 ext : String)
    → lookup ipv6 (add_address o e index) ≡ some ext
    → ((o ≡ some ipv6) × (e ≡ ext) × ((ext == "") ≡ false)) ⊎ (lookup ipv6 index ≡ some ext)
unfolding add_address
add_address-lookup none e index ipv6 ext h = inr h
add_address-lookup (some a) e index ipv6 ext h = elim (Bool-cases (e == "")) [
  | inl blank ↦ inr (ground (arith, h, blank))
  | inr filled ↦ elim (Bool-cases (ipv6 == a)) [
    | inl same ↦ inl (ground (arith, h, filled, same, lookup-insert a ipv6 e index, eq_iff ipv6 a))
    | inr other ↦ inr (ground (arith, h, filled, other, lookup-insert a ipv6 e index))
  ]
]

module _ (compressed : String → Option String) where
  -- The device has the address, and the extended address, which is not empty.
  abbrev pub Has : String → String → ThreadDeviceState → Type 0
  Has ipv6 ext d =
      (normalize_ipv6 compressed d.ipv6_address ≡ some ipv6)
      × (d.extended_address ≡ ext)
      × ((ext == "") ≡ false)

  add_devices-lookup :
      (ds : List ThreadDeviceState) (index : Dict String) (ipv6 ext : String)
      → lookup ipv6 (add_devices compressed ds index) ≡ some ext
      → Any (Has ipv6 ext) ds ⊎ (lookup ipv6 index ≡ some ext)
  unfolding add_devices
  add_devices-lookup [] index ipv6 ext h = inr h
  add_devices-lookup (d ∷ ds) index ipv6 ext h =
      elim (add_devices-lookup ds
        (add_address (normalize_ipv6 compressed d.ipv6_address) d.extended_address index) ipv6 ext
        h) [
          | inl later ↦ inl (inr later)
          | inr now ↦
              elim (add_address-lookup (normalize_ipv6 compressed d.ipv6_address) d.extended_address
                index ipv6 ext now) [ inl has ↦ inl (inl has) | inr before ↦ inr before ]
        ]

  extended-lookup :
      (o ext : Option String) (index : Dict String) (e : String)
      → next_extended o ext index ≡ some e
      → (ext ≡ some e) ⊎ ((a : String) × (o ≡ some a) × (lookup a index ≡ some e))
  unfolding next_extended
  extended-lookup none ext index e h = inl h
  extended-lookup (some a) none index e h = inr (a, refl, h)
  extended-lookup (some a) (some s) index e h = elim (Bool-cases (s == "")) [
    | inl blank ↦ inr (a, refl, ground (arith, h, blank))
    | inr filled ↦ inl (ground (arith, h, filled))
  ]

  -- An extended address that a node has after the correlation is the one it had, or that of a device
  -- with the node's own address.
  pub correlate-source :
      (n : MatterNodeState) (devices : List ThreadDeviceState) (e : String)
      → (correlated compressed n
          (build_thread_device_index compressed devices)).thread_extended_address
        ≡ some e
      → (n.thread_extended_address ≡ some e)
        ⊎ ((a : String) × (normalize_ipv6 compressed n.thread_ipv6_address ≡ some a)
            × Any (Has a e) devices)
  unfolding correlated correlate_thread_identity build_thread_device_index lookup
  correlate-source n devices e h =
      let index = build_thread_device_index compressed devices in
      elim (extended-lookup (normalize_ipv6 compressed n.thread_ipv6_address)
        n.thread_extended_address index e h) [
          | inl own ↦ inl own
          | inr (a, address, found) ↦ elim (add_devices-lookup devices [] a e found) [
            | inl has ↦ inr (a, address, has)
            | inr none_left ↦ inl (ground (arith, none_left))
          ]
        ]
