-- ===== src/Matter/Requests/Answers.antt =====
-- What the answer to a request of threadlens/collectors/matter_ws.py does, and who gets it.
use threadlens.Prelude.{
  ℕ, ◌<◌, ◌≡◌, refl, Bool, true, false, String, none, some, List, [], ◌∷◌, arith, Option-cases, inl,
  inr, eq_iff, ◌-◌, join,
}
use threadlens.Prelude.Dict.{lookup, keys, lookup-insert, lookup-erase}
use threadlens.Prelude.Json.{Fields, null}
use threadlens.Matter.Requests.{
  MatterCommandResult, waiting, done, RequestManager, new_manager, set, registered, value_error,
  register, settle, cancel_place, discard, message_id, dispatch_id, dispatch_incoming, cancel_one,
  cancel_each, cancel_all, cancel_detail, wait_returns, wait_times_out, wait_for, response, started,
  failure,
}
use threadlens.Matter.Requests.Steps.{
  Step, registers, receives, disconnects, returns, times_out, Reach, here, next, closed,
}
use threadlens.Matter.Requests.Settled.{settle-discard, Reach-IsConsistent, register-lem}

-- The place `i` is given out and holds the result `r`.
abbrev pub Holds : ℕ → MatterCommandResult → RequestManager → Type 0
Holds i r m = (i < m.next) × (m.futures i ≡ done r)

discard-Holds :
    (i : ℕ) (r : MatterCommandResult) (id : String) (b : Bool) (m : RequestManager)
    → Holds i r m
    → Holds i r (discard id b m)
unfolding discard cancel_place set
discard-Holds i r id b m h = ground arith

settle-Holds :
    (i : ℕ) (r : MatterCommandResult) (place : ℕ) (q : MatterCommandResult) (m : RequestManager)
    → Holds i r m
    → Holds i r (settle place q m)
unfolding settle set
settle-Holds i r place q m h = ground arith

dispatch_id-Holds :
    (i : ℕ) (r : MatterCommandResult) (id : String) (payload : Fields) (now : ℕ)
    (m : RequestManager)
    → Holds i r m
    → Holds i r (dispatch_id id payload now m).1
unfolding dispatch_id
dispatch_id-Holds i r id payload now m h = elim (Option-cases (lookup id m.pending)) [
  | inl absent ↦ rw (dispatch_id, absent) h
  | inr (place, e) ↦ elim (Option-cases (response payload (now - started id now m))) [
    | inl other ↦ rw (dispatch_id, e, other) h
    | inr (q, answer) ↦
        rw (dispatch_id, e, answer)
          (discard-Holds i r id false (settle place q m) (settle-Holds i r place q m h))
  ]
]

dispatch-Holds :
    (i : ℕ) (r : MatterCommandResult) (payload : Fields) (now : ℕ) (m : RequestManager)
    → Holds i r m
    → Holds i r (dispatch_incoming payload now m).1
unfolding dispatch_incoming
dispatch-Holds i r payload now m h = elim (Option-cases (message_id payload)) [
  | inl other ↦ rw (dispatch_incoming, other) h
  | inr (id, e) ↦ rw (dispatch_incoming, e) (dispatch_id-Holds i r id payload now m h)
]

cancel_one-Holds :
    (i : ℕ) (r : MatterCommandResult) (detail id : String) (now : ℕ) (m : RequestManager)
    → Holds i r m
    → Holds i r (cancel_one detail id now m)
unfolding cancel_one
cancel_one-Holds i r detail id now m h = elim (Option-cases (lookup id m.pending)) [
  | inl absent ↦ rw (cancel_one, absent) (discard-Holds i r id false m h)
  | inr (place, e) ↦
      let q = failure null (some detail) (now - started id now m) in
      rw (cancel_one, e)
        (discard-Holds i r id false (settle place q m) (settle-Holds i r place q m h))
]

cancel_each-Holds :
    (i : ℕ) (r : MatterCommandResult) (detail : String) (ids : List String) (now : ℕ)
    (m : RequestManager)
    → Holds i r m
    → Holds i r (cancel_each detail ids now m)
unfolding cancel_each
cancel_each-Holds i r detail [] now m h = h
cancel_each-Holds i r detail (id ∷ ids) now m h =
    cancel_each-Holds i r detail ids now (cancel_one detail id now m)
      (cancel_one-Holds i r detail id now m h)

Step-Holds :
    {m m' : RequestManager} (i : ℕ) (r : MatterCommandResult)
    → Step m m'
    → Holds i r m
    → Holds i r m'
unfolding cancel_all wait_returns wait_times_out set
Step-Holds {m} {m'} i r (registers id now e) h =
    let p = register-lem id now m m' e in rw p.1 (ground arith)
Step-Holds {m} i r (receives payload now e) h = rw e (dispatch-Holds i r payload now m h)
Step-Holds {m} i r (disconnects reason now e) h =
    rw e (cancel_each-Holds i r (cancel_detail reason) (keys m.pending) now m h)
Step-Holds {m} i r (returns id since now q gone e) h = rw e (discard-Holds i r id false m h)
Step-Holds {m} i r (times_out id since now e) h =
    rw e (discard-Holds i r id false (discard id true m) (discard-Holds i r id true m h))

-- The result of a request is set once: no later registration, payload, disconnection or end of a
-- wait changes it.
pub Reach-Holds :
    {m m' : RequestManager} (i : ℕ) (r : MatterCommandResult)
    → Reach m m'
    → Holds i r m
    → Holds i r m'
Reach-Holds i r here h = h
Reach-Holds i r (next q s) h = Step-Holds i r s (Reach-Holds i r q h)

-- In a state that the steps reach, a payload that is a response to a pending request is consumed,
-- sets the result of that request and of no other, and the request is pending no more.
pub dispatch-answers :
    (m : RequestManager) (payload : Fields) (id : String) (place now : ℕ) (r : MatterCommandResult)
    → Reach new_manager m
    → message_id payload ≡ some id
    → lookup id m.pending ≡ some place
    → response payload (now - started id now m) ≡ some r
    → dispatch_incoming payload now m ≡ (true, closed id place (done r) m)
unfolding dispatch_incoming dispatch_id
dispatch-answers m payload id place now r reach h k a =
    let w = (Reach-IsConsistent reach).waits id place k in
    rw (dispatch_incoming, h, dispatch_id, k, a, settle-discard id place r m k w) refl

-- The call that waits for a request raises `KeyError` where the response came before it, although
-- the result is there.
pub response_before_wait :
    (m : RequestManager) (payload : Fields) (id : String) (place now later : ℕ)
    (r : MatterCommandResult)
    → Reach new_manager m
    → message_id payload ≡ some id
    → lookup id m.pending ≡ some place
    → response payload (now - started id now m) ≡ some r
    → (wait_for id later (dispatch_incoming payload now m).1 ≡ none)
      × ((dispatch_incoming payload now m).1.futures place ≡ done r)
unfolding wait_for set
response_before_wait m payload id place now later r reach h k a =
    rw (dispatch-answers m payload id place now r reach h k a) (
      ground
        (arith, lookup-erase id id m.pending (Reach-IsConsistent reach).distinct, eq_iff id id))

-- A request that `register` takes is pending, its future waits, and until it has ended a second
-- registration under its id raises the `ValueError` for a duplicate.
pub register_twice :
    (id : String) (now later : ℕ) (m m' : RequestManager)
    → register id now m ≡ registered m'
    → (lookup id m'.pending ≡ some m.next)
      × (m'.futures m.next ≡ waiting)
      × (register id later m' ≡ value_error (join ("Duplicate message_id: " ∷ id ∷ [])))
unfolding register set
register_twice id now later m m' h =
    let p = register-lem id now m m' h in
    rw p.1 (ground (arith, h, lookup-insert id id m.next m.pending, eq_iff id id))
