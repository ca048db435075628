-- ===== src/Otbr/Parse/Laws.antt =====
-- What the inventory of threadlens/collectors/otbr_rest.py leaves stored.
use threadlens.Prelude.{
  ℕ, ◌≡◌, ◌∙◌, refl, sym, ap, Bool, true, false, ◌&&◌, ◌||◌, String, Option, none, some, List, [],
  ◌∷◌, ◌==◌, contains, arith, eq_iff, if◌then◌else◌, Bool-cases, inl, inr,
}
use threadlens.Prelude.Codes.{is_empty}
use threadlens.Model.State.{ThreadDeviceState}
use threadlens.Storage.Table.{
  Table, get_current_state, upsert_current_state, delete_current_state, get-upsert, get-delete,
}
use threadlens.Otbr.Parse.Inventory.{
  ParsedThreadDevice, device_state, upsert_devices, seen_ids, is_stale, delete_stale,
  persist_device_inventory,
}

-- some stored row is a stale device with the id
abbrev pub stale_at : String → List String → String → Table ThreadDeviceState → Bool
stale_at otbr_id seen j [] = false
stale_at otbr_id seen j ((id, d) ∷ stored) =
    (is_stale otbr_id seen d && j == d.id) || stale_at otbr_id seen j stored

get-delete_stale :
    (otbr_id : String) (seen : List String) (j : String) (stored rows : Table ThreadDeviceState)
    → get_current_state j (delete_stale otbr_id seen stored rows)
      ≡ (if stale_at otbr_id seen j stored then none else get_current_state j rows)
unfolding delete_stale
get-delete_stale otbr_id seen j [] rows = refl
get-delete_stale otbr_id seen j ((id, d) ∷ stored) rows = ground (
  arith,
  get-delete_stale otbr_id seen j stored rows,
  get-delete_stale otbr_id seen j stored (delete_current_state d.id rows),
  get-delete d.id j rows,
)

or_same : ThreadDeviceState → Option ThreadDeviceState → ThreadDeviceState
or_same e none = e
or_same e (some d) = d

some-injective : (e d : ThreadDeviceState) → some e ≡ some d → e ≡ d
unfolding or_same
some-injective e d h = ap (or_same e) h

-- a row that is stale is found
stale_at-get :
    (otbr_id : String) (seen : List String) (j : String) (d : ThreadDeviceState)
    (stored : Table ThreadDeviceState)
    → get_current_state j stored ≡ some d
    → is_stale otbr_id seen d ≡ true
    → j ≡ d.id
    → stale_at otbr_id seen j stored ≡ true
unfolding get_current_state
stale_at-get otbr_id seen j d [] h stale own = ground (arith, h)
stale_at-get otbr_id seen j d ((id, e) ∷ stored) h stale own = elim (Bool-cases (j == id)) [
  | inl same ↦
      let q = some-injective e d (ground (arith, h, same)) in
      let k = ap (is_stale otbr_id seen) q ∙ stale in
      let i = ap (λ c. c.id) q in ground (arith, k, i, own, eq_iff j e.id)
  | inr other ↦ ground (arith, h, other, stale_at-get otbr_id seen j d stored, stale, own)
]

-- a device that the inventory has is not stale
stale_at-seen :
    (otbr_id : String) (seen : List String) (j : String) (stored : Table ThreadDeviceState)
    → contains j seen ≡ true
    → stale_at otbr_id seen j stored ≡ false
unfolding is_stale
stale_at-seen otbr_id seen j [] h = refl
stale_at-seen otbr_id seen j ((id, d) ∷ stored) h =
    ground (arith, h, stale_at-seen otbr_id seen j stored, eq_iff j d.id)

upsert_devices-other :
    (otbr_id : String) (x : Option String) (now : ℕ) (ds : List ParsedThreadDevice) (j : String)
    (rows : Table ThreadDeviceState)
    → contains j (seen_ids otbr_id ds) ≡ false
    → get_current_state j (upsert_devices otbr_id x now ds rows) ≡ get_current_state j rows
unfolding upsert_devices seen_ids device_state
upsert_devices-other otbr_id x now [] j rows h = refl
upsert_devices-other otbr_id x now (d ∷ ds) j rows h =
    let s = device_state otbr_id x now d in
    ground (
      arith,
      h,
      upsert_devices-other otbr_id x now ds j (upsert_current_state s.id s rows),
      get-upsert s.id j s rows,
    )

-- what an upsert of the inventory leaves under one of its ids: a device of this border router
upsert_devices-seen :
    (otbr_id : String) (x : Option String) (now : ℕ) (ds : List ParsedThreadDevice) (j : String)
    (rows : Table ThreadDeviceState)
    → contains j (seen_ids otbr_id ds) ≡ true
    → (d : ThreadDeviceState) × (get_current_state j (upsert_devices otbr_id x now ds rows)
        ≡ some d)
      × (d.id ≡ j)
      × (d.source_otbr_id ≡ otbr_id)
      × (d.last_seen ≡ some now)
unfolding upsert_devices seen_ids device_state
upsert_devices-seen otbr_id x now [] j rows h = ground (arith, h)
upsert_devices-seen otbr_id x now (d ∷ ds) j rows h =
    let s = device_state otbr_id x now d in
    let rows' = upsert_current_state s.id s rows in
    elim (Bool-cases (contains j (seen_ids otbr_id ds))) [
      | inl later ↦ upsert_devices-seen otbr_id x now ds j rows' later
      | inr now_last ↦ (
        s,
        upsert_devices-other otbr_id x now ds j rows' now_last
            ∙ ground (arith, h, now_last, get-upsert s.id j s rows),
        ground (arith, h, now_last, eq_iff j s.id),
        refl,
        refl,
      )
    ]

stale_lem :
    (otbr_id : String) (seen : List String) (d : ThreadDeviceState)
    → d.source_otbr_id ≡ otbr_id
    → is_empty d.id ≡ false
    → contains d.id seen ≡ false
    → is_stale otbr_id seen d ≡ true
unfolding is_stale
stale_lem otbr_id seen d h k l = ground (arith, h, k, l, eq_iff d.source_otbr_id otbr_id)

kept :
    (b : Bool) (row : Option ThreadDeviceState) (d : ThreadDeviceState)
    → (if b then none else row) ≡ some d
    → (b ≡ false) × (row ≡ some d)
kept true row d h = ground (arith, h)
kept false row d h = (refl, h)

-- After an inventory is stored, each of its devices has a row, of this border router and seen now.
pub persist_device_inventory-seen :
    (otbr_id : String) (inventory : List ParsedThreadDevice) (x : Option String) (now : ℕ)
    (rows : Table ThreadDeviceState) (j : String)
    → contains j (seen_ids otbr_id inventory) ≡ true
    → (d : ThreadDeviceState) × (get_current_state j
          (persist_device_inventory otbr_id inventory x now rows)
        ≡ some d)
      × (d.source_otbr_id ≡ otbr_id)
      × (d.last_seen ≡ some now)
unfolding persist_device_inventory
persist_device_inventory-seen otbr_id inventory x now rows j h =
    let seen = seen_ids otbr_id inventory in
    let stored = upsert_devices otbr_id x now inventory rows in
    let u = upsert_devices-seen otbr_id x now inventory j rows h in
    (
      u.0,
      ground (
        arith,
        get-delete_stale otbr_id seen j stored stored,
        stale_at-seen otbr_id seen j stored h,
        u.1,
      ),
      u.3,
      u.4,
    )

-- After an inventory is stored, every device of this border router that has a row under its own id,
-- which is not empty, is one of the inventory.
pub persist_device_inventory-stale :
    (otbr_id : String) (inventory : List ParsedThreadDevice) (x : Option String) (now : ℕ)
    (rows : Table ThreadDeviceState) (j : String) (d : ThreadDeviceState)
    → get_current_state j (persist_device_inventory otbr_id inventory x now rows) ≡ some d
    → j ≡ d.id
    → is_empty j ≡ false
    → d.source_otbr_id ≡ otbr_id
    → contains j (seen_ids otbr_id inventory) ≡ true
unfolding persist_device_inventory
persist_device_inventory-stale otbr_id inventory x now rows j d h own filled here =
    let seen = seen_ids otbr_id inventory in
    let stored = upsert_devices otbr_id x now inventory rows in
    let g = get-delete_stale otbr_id seen j stored stored in
    elim (Bool-cases (contains j seen)) [
      | inl e ↦ e
      | inr e ↦
          let stale =
            stale_lem otbr_id seen d here (ground (arith, own, filled)) (ground (arith, own, e)) in
          let before =
            kept (stale_at otbr_id seen j stored) (get_current_state j stored) d (sym g ∙ h) in
          ground (arith, before.0, stale_at-get otbr_id seen j d stored before.1 stale own)
    ]
