-- ===== src/Otbr/Collector/Networks/Laws.antt =====
-- What `_sync_thread_networks` and `_correlate_trel_services` establish.
use threadlens.Prelude.{
  ℕ, ◌≡◌, ◌∙◌, refl, ap, sym, Bool, true, false, ◌&&◌, ◌||◌, not, String, Option, none, some, List,
  [], ◌∷◌, arith, contains, if◌then◌else◌, length, ◌==◌, eq_iff, Bool-cases, inl, inr,
}
use threadlens.Prelude.Codes.{eq_ℕ}
use threadlens.Prelude.Dict.{Dict, lookup, keys, lookup-insert}
use threadlens.Model.Events.{Event}
use threadlens.Model.State.{ThreadNetworkState, TrelServiceState, ThreadNetworkClassification}
use threadlens.Otbr.Classify.{classify_primary_network, classify_trel_service}
use threadlens.Otbr.Collector.{Collector, emit}
use threadlens.Otbr.Collector.Networks.{
  classify_network, seen_network, store_network, see, see_each, lose, lose_each, was_hidden,
  seen_event, lost_event, sync_thread_networks, correlate,
}

-- Whether a network is known as visible.
abbrev pub shown : Option ThreadNetworkState → Bool
shown none = false
shown (some n) = n.currently_visible

abbrev visible : String → Collector → Bool
visible j c = shown (lookup j c.known_networks)

emit-networks :
    (e : Event) (now : ℕ) (c : Collector) → (emit e now c).known_networks ≡ c.known_networks
unfolding emit
emit-networks e now c = ground arith

visible-emit :
    (j : String) (e : Event) (now : ℕ) (c : Collector) → visible j (emit e now c) ≡ visible j c
visible-emit j e now c = ap (λ d. shown (lookup j d)) (emit-networks e now c)

visible-store :
    (j id : String) (n : ThreadNetworkState) (c : Collector)
    → visible j (store_network id n c) ≡ (if j == id then n.currently_visible else visible j c)
unfolding store_network
visible-store j id n c = ground (arith, lookup-insert id j n c.known_networks)

visible-emit_if :
    (j : String) (b : Bool) (e : Event) (now : ℕ) (c : Collector)
    → visible j (if b then emit e now c else c) ≡ visible j c
visible-emit_if j true e now c = visible-emit j e now c
visible-emit_if j false e now c = refl

visible-see :
    (j id : String) (ids : List String) (p : Option String × ThreadNetworkClassification) (now : ℕ)
    (c : Collector)
    → visible j (see id ids p now c) ≡ (j == id || visible j c)
unfolding see seen_network
visible-see j id ids p now c =
    let n = seen_network id ids p now c in
    visible-emit_if j (was_hidden (lookup id c.known_networks)) (seen_event id n now) now
      (store_network id n c)
    ∙ visible-store j id n c
    ∙ ground arith

visible-lose :
    (j id : String) (seen : List String) (p : ThreadNetworkState) (now : ℕ) (c : Collector)
    → visible j (lose seen id p now c)
      ≡ (if j == id && (not (contains id seen) && p.currently_visible) then false else visible j c)
unfolding lose
visible-lose j id seen p now c =
    let n = record p { currently_visible = false; last_seen = some now } in
    ground (
      arith,
      visible-emit j (lost_event id n now) now (store_network id n c),
      visible-store j id n c,
    )

see_each-visible :
    (j : String) (d : Dict (List String)) (p : Option String × ThreadNetworkClassification)
    (now : ℕ) (c : Collector)
    → visible j (see_each d p now c) ≡ (contains j (keys d) || visible j c)
unfolding see_each
see_each-visible j [] p now c = refl
see_each-visible j ((id, ids) ∷ d) p now c =
    ground (arith, see_each-visible j d p now (see id ids p now c), visible-see j id ids p now c)

lose_each-kept :
    (j : String) (seen : List String) (d : Dict ThreadNetworkState) (now : ℕ) (c : Collector)
    → contains j seen ≡ true
    → visible j (lose_each seen d now c) ≡ visible j c
unfolding lose_each
lose_each-kept j seen [] now c h = refl
lose_each-kept j seen ((id, p) ∷ d) now c h = elim (Bool-cases (j == id)) [
  | inl y ↦
      let k : contains id seen ≡ true = ap (λ x. contains x seen) (sym ((eq_iff j id).0 y)) ∙ h in
      ground (
        arith,
        lose_each-kept j seen d now (lose seen id p now c) h,
        visible-lose j id seen p now c,
      )
  | inr n ↦
      ground (
        arith,
        lose_each-kept j seen d now (lose seen id p now c) h,
        visible-lose j id seen p now c,
      )
]

lose_each-hidden :
    (j : String) (seen : List String) (d : Dict ThreadNetworkState) (now : ℕ) (c : Collector)
    → contains j seen ≡ false
    → (visible j c ≡ true → shown (lookup j d) ≡ true)
    → visible j (lose_each seen d now c) ≡ false
unfolding lose_each lookup
lose_each-hidden j seen [] now c h e = ground (arith, e)
lose_each-hidden j seen ((id, p) ∷ d) now c h e = elim (Bool-cases (j == id)) [
  | inl y ↦
      let k : contains id seen ≡ false = ap (λ x. contains x seen) (sym ((eq_iff j id).0 y)) ∙ h in
      let gone : visible j (lose seen id p now c) ≡ false =
        ground (arith, visible-lose j id seen p now c, e) in
      lose_each-hidden j seen d now (lose seen id p now c) h (λ v. ground (arith, v, gone))
  | inr n ↦
      let same : visible j (lose seen id p now c) ≡ visible j c =
        ground (arith, visible-lose j id seen p now c) in
      lose_each-hidden j seen d now (lose seen id p now c) h (λ v. ground (arith, e (sym same ∙ v)))
]

-- After `_sync_thread_networks` a network is visible exactly if it is one of those handed over: any
-- other that was visible is marked as lost.
pub sync_thread_networks-visible :
    (j : String) (configured : Dict (List String)) (now : ℕ) (c : Collector)
    → shown (lookup j (sync_thread_networks configured now c).known_networks)
      ≡ contains j (keys configured)
unfolding sync_thread_networks
sync_thread_networks-visible j configured now c = elim (Bool-cases (contains j (keys configured))) [
  | inl y ↦
      lose_each-kept j (keys configured) a.known_networks now a y
      ∙ see_each-visible j configured p now c
      ∙ ground arith
  | inr n ↦ lose_each-hidden j (keys configured) a.known_networks now a n (λ v. v) ∙ sym n
]
  where
    p : Option String × ThreadNetworkClassification
    p = classify_primary_network (keys configured)

    a : Collector
    a = see_each configured p now c

-- The network that a border router reports is the primary one if it is the only one, and of an
-- unknown class otherwise: no reported network is ever classified as another's.
pub classify_network-lem :
    (x : String) (ids : List String)
    → contains x ids ≡ true
    → classify_network x (classify_primary_network ids) ≡ (
        if eq_ℕ (length ids) 1
        then ThreadNetworkClassification.primary
        else ThreadNetworkClassification.unknown)
unfolding classify_network classify_primary_network
classify_network-lem x [] h = ground arith
classify_network-lem x (y ∷ []) h = ground arith
classify_network-lem x (y ∷ z ∷ ids) h = ground arith

-- Where a TREL service comes from, by the set of networks that the reachable border routers report.
abbrev pub origin : List String → Option String → Option Bool
origin ids none = none
origin ids (some x) = some (not (contains x ids))

classify-origin :
    (x : Option String) (ids : List String) (p : Option String) (k : ThreadNetworkClassification)
    → (classify_trel_service x ids p k).0 ≡ origin ids x
unfolding classify_trel_service
classify-origin none ids p k = refl
classify-origin (some x) ids p k = ground arith

-- A TREL service is foreign exactly if it announces a network that no reachable border router
-- reports, and of unknown origin if it announces none.
pub correlate-foreign :
    (ids : List String) (t : TrelServiceState)
    → (correlate ids t).is_foreign ≡ origin ids t.ext_pan_id
unfolding correlate
correlate-foreign ids t =
    let p = classify_primary_network ids in classify-origin t.ext_pan_id ids p.0 p.1
