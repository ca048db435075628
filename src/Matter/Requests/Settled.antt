-- ===== src/Matter/Requests/Settled.antt =====
-- The pending requests and the futures of threadlens/collectors/matter_ws.py, over its steps.
use threadlens.Prelude.{
  ℕ, ◌<◌, ◌≡◌, ◌≢◌, refl, Bool, true, false, String, Option, none, some, List, [], ◌∷◌, arith,
  contains, Option-cases, inl, inr, ◌==◌, eq_iff, if◌then◌else◌, ◌-◌,
}
use threadlens.Prelude.Dict.{lookup, erase, keys, lookup-erase, erase_absent, lookup-contains}
use threadlens.Prelude.Json.{Fields, null}
use threadlens.Matter.Requests.{
  MatterCommandResult, waiting, done, cancelled, RequestManager, new_manager, registered, register,
  settle, cancel_place, discard, dispatch_id, message_id, dispatch_incoming, cancel_one,
  cancel_each, cancel_all, cancel_detail, wait_returns, wait_times_out, response, started, failure,
}
use threadlens.Matter.Requests.Steps.{
  Step, registers, receives, disconnects, returns, times_out, Reach, here, next, IsConsistent,
  new_manager-IsConsistent, with_request, with_request-IsConsistent, closed, closed-IsConsistent,
}

-- `_discard` of an id that is not pending
pub forgotten-lem :
    (id : String) (b : Bool) (m : RequestManager)
    → lookup id m.pending ≡ none
    → discard id b m ≡ record m { registered_at = erase id m.registered_at }
unfolding discard cancel_place
forgotten-lem id b m h = ground (arith, erase_absent id m.pending h)

forgotten :
    (id : String) (b : Bool) (m : RequestManager)
    → lookup id m.pending ≡ none
    → IsConsistent m
    → IsConsistent (discard id b m)
forgotten id b m h c =
    rw (forgotten-lem id b m h) (record {
      distinct = c.distinct;
      bound = c.bound;
      waits = c.waits;
      one = c.one;
      held = c.held;
    })

pub settle-discard :
    (id : String) (place : ℕ) (r : MatterCommandResult) (m : RequestManager)
    → lookup id m.pending ≡ some place
    → m.futures place ≡ waiting
    → discard id false (settle place r m) ≡ closed id place (done r) m
unfolding discard settle
settle-discard id place r m h w = ground arith

pub discard_pending :
    (id : String) (place : ℕ) (m : RequestManager)
    → lookup id m.pending ≡ some place
    → m.futures place ≡ waiting
    → discard id true m ≡ closed id place cancelled m
unfolding discard cancel_place
discard_pending id place m h w = ground arith

-- The three ends of a pending request.
answered :
    (id : String) (place : ℕ) (r : MatterCommandResult) (m : RequestManager)
    → lookup id m.pending ≡ some place
    → IsConsistent m
    → IsConsistent (discard id false (settle place r m))
answered id place r m h c =
    rw (settle-discard id place r m h (c.waits id place h))
      (closed-IsConsistent id place (done r) m h refl c)

dispatch_id-IsConsistent :
    (id : String) (payload : Fields) (now : ℕ) (m : RequestManager)
    → IsConsistent m
    → IsConsistent (dispatch_id id payload now m).1
unfolding dispatch_id
dispatch_id-IsConsistent id payload now m c = elim (Option-cases (lookup id m.pending)) [
  | inl absent ↦ rw (dispatch_id, absent) c
  | inr (place, h) ↦ elim (Option-cases (response payload (now - started id now m))) [
    | inl other ↦ rw (dispatch_id, h, other) c
    | inr (r, answer) ↦ rw (dispatch_id, h, answer) (answered id place r m h c)
  ]
]

dispatch-IsConsistent :
    (payload : Fields) (now : ℕ) (m : RequestManager)
    → IsConsistent m
    → IsConsistent (dispatch_incoming payload now m).1
unfolding dispatch_incoming
dispatch-IsConsistent payload now m c = elim (Option-cases (message_id payload)) [
  | inl other ↦ rw (dispatch_incoming, other) c
  | inr (id, h) ↦ rw (dispatch_incoming, h) (dispatch_id-IsConsistent id payload now m c)
]

cancel_one-IsConsistent :
    (detail id : String) (now : ℕ) (m : RequestManager)
    → IsConsistent m
    → IsConsistent (cancel_one detail id now m)
unfolding cancel_one
cancel_one-IsConsistent detail id now m c = elim (Option-cases (lookup id m.pending)) [
  | inl absent ↦ rw (cancel_one, absent) (forgotten id false m absent c)
  | inr (place, h) ↦
      rw (cancel_one, h)
        (answered id place (failure null (some detail) (now - started id now m)) m h c)
]

cancel_each-IsConsistent :
    (detail : String) (ids : List String) (now : ℕ) (m : RequestManager)
    → IsConsistent m
    → IsConsistent (cancel_each detail ids now m)
unfolding cancel_each
cancel_each-IsConsistent detail [] now m c = c
cancel_each-IsConsistent detail (id ∷ ids) now m c =
    cancel_each-IsConsistent detail ids now (cancel_one detail id now m)
      (cancel_one-IsConsistent detail id now m c)

times_out-IsConsistent :
    (id : String) (m : RequestManager)
    → IsConsistent m
    → IsConsistent (discard id false (discard id true m))
times_out-IsConsistent id m c = elim (Option-cases (lookup id m.pending)) [
  | inl absent ↦
      forgotten id false (discard id true m) (rw (forgotten-lem id true m absent) absent)
        (forgotten id true m absent c)
  | inr (place, h) ↦ rw (discard_pending id place m h (c.waits id place h)) (
      forgotten id false (closed id place cancelled m)
        (ground (arith, lookup-erase id id m.pending c.distinct, eq_iff id id))
        (closed-IsConsistent id place cancelled m h refl c))
]

pub register-lem :
    (id : String) (now : ℕ) (m m' : RequestManager)
    → register id now m ≡ registered m'
    → (lookup id m.pending ≡ none) × (m' ≡ with_request id now m)
unfolding register
register-lem id now m m' h = ground arith

register-IsConsistent :
    (id : String) (now : ℕ) (m m' : RequestManager)
    → register id now m ≡ registered m'
    → IsConsistent m
    → IsConsistent m'
register-IsConsistent id now m m' h c =
    let p = register-lem id now m m' h in rw p.1 (with_request-IsConsistent id now m p.0 c)

Step-IsConsistent : {m m' : RequestManager} → Step m m' → IsConsistent m → IsConsistent m'
unfolding cancel_all wait_returns wait_times_out
Step-IsConsistent {m} {m'} (registers id now h) c = register-IsConsistent id now m m' h c
Step-IsConsistent {m} (receives payload now h) c = rw h (dispatch-IsConsistent payload now m c)
Step-IsConsistent {m} (disconnects reason now h) c =
    rw h (cancel_each-IsConsistent (cancel_detail reason) (keys m.pending) now m c)
Step-IsConsistent {m} (returns id since now r gone h) c = rw h (forgotten id false m gone c)
Step-IsConsistent {m} (times_out id since now h) c = rw h (times_out-IsConsistent id m c)

-- Whatever requests are registered, payloads arrive, connections end, and waits return or time out,
-- from the empty manager on: each pending request has a waiting future of its own, and every
-- waiting future is that of a pending request.
pub Reach-IsConsistent : {m : RequestManager} → Reach new_manager m → IsConsistent m
Reach-IsConsistent here = new_manager-IsConsistent
Reach-IsConsistent (next r s) = Step-IsConsistent s (Reach-IsConsistent r)

cancel_one-lookup :
    (detail id j : String) (now : ℕ) (m : RequestManager)
    → IsConsistent m
    → lookup j (cancel_one detail id now m).pending ≡ (if j == id then none else lookup j m.pending)
unfolding cancel_one discard settle
cancel_one-lookup detail id j now m c = ground (arith, lookup-erase id j m.pending c.distinct)

cancel_each-lookup :
    (detail : String) (ids : List String) (j : String) (now : ℕ) (m : RequestManager)
    → IsConsistent m
    → lookup j (cancel_each detail ids now m).pending
      ≡ (if contains j ids then none else lookup j m.pending)
unfolding cancel_each
cancel_each-lookup detail [] j now m c = refl
cancel_each-lookup detail (id ∷ ids) j now m c = ground (
  arith,
  cancel_each-lookup detail ids j now (cancel_one detail id now m)
      (cancel_one-IsConsistent detail id now m c),
  cancel_one-lookup detail id j now m c,
)

pub cancel_all-pending :
    (reason : Option String) (now : ℕ) (m : RequestManager)
    → IsConsistent m
    → (j : String) → lookup j (cancel_all reason now m).pending ≡ none
unfolding cancel_all
cancel_all-pending reason now m c j =
    let e = cancel_each-lookup (cancel_detail reason) (keys m.pending) j now m c in
    elim (Option-cases (lookup j m.pending)) [
      | inl absent ↦ ground (arith, e)
      | inr (i, h) ↦ ground (arith, e, lookup-contains j i m.pending h)
    ]

-- After a disconnection, in every state that the steps reach, no request is pending and no future
-- that was given out waits any more.
pub cancel_all-settles :
    (m : RequestManager) (reason : Option String) (now : ℕ)
    → Reach new_manager m
    → (i : ℕ) → i < (cancel_all reason now m).next
    → (cancel_all reason now m).futures i ≢ waiting
cancel_all-settles m reason now r i h w =
    let c = Reach-IsConsistent (next r (disconnects reason now refl)) in
    let p = c.held i h w in
    ground (arith, p.1, cancel_all-pending reason now m (Reach-IsConsistent r) p.0)
