-- ===== src/Matter/Requests/Contract.antt =====
-- What the request manager of threadlens/collectors/matter_ws.py promises, step by step, of the
-- requests that are open and of the futures that their callers hold.
use threadlens.Prelude.{
  ℕ, ◌-◌, ◌≡◌, ◌∙◌, refl, sym, ap, Bool, true, false, ◌||◌, ◌⊎◌, not, String, Option, none, some,
  arith, Option-cases, Bool-cases, inl, inr, ◌==◌, eq_iff, ltb, if◌then◌else◌,
}
use mathlib.Core.Path.{subst}
use threadlens.Prelude.Dict.{lookup, lookup-insert, lookup-erase}
use threadlens.Prelude.Codes.{eq_ℕ}
use threadlens.Prelude.Json.{Fields}
use threadlens.Matter.Requests.{
  MatterCommandResult, RequestManager, new_manager, Future, is_done, waiting, done, cancelled, set,
  settle, discard, message_id, dispatch_id, dispatch_incoming, cancel_all, wait_returns,
  wait_times_out, response, started,
}
use threadlens.Matter.Requests.Steps.{
  Step, registers, receives, disconnects, returns, times_out, Reach, IsConsistent, closed,
}
use threadlens.Matter.Requests.Settled.{
  register-lem, settle-discard, discard_pending, forgotten-lem, cancel_all-pending,
  cancel_all-settles, Reach-IsConsistent,
}

-- The request `id` becomes open, with a new future that waits. No other changes.
abbrev pub Opens : String → RequestManager → RequestManager → Type 0
Opens id m m' =
    (lookup id m.pending ≡ none)
    × ((j : String) → lookup j m'.pending ≡ (if j == id then some m.next else lookup j m.pending))
    × ((i : ℕ) → m'.futures i ≡ (if eq_ℕ i m.next then waiting else m.futures i))

abbrev is_place : Option ℕ → ℕ → Bool
is_place none i = false
is_place (some place) i = eq_ℕ i place

-- The request `id` is not open any more, and its future, if it was open, has come to `f`. No other
-- changes.
abbrev pub Closes : String → Future → RequestManager → RequestManager → Type 0
Closes id f m m' =
    ((j : String) → lookup j m'.pending ≡ (if j == id then none else lookup j m.pending))
    × ((i : ℕ) → m'.futures i ≡ (if is_place (lookup id m.pending) i then f else m.futures i))

-- No request is open, and of the futures that were given out none waits.
abbrev pub Clears : RequestManager → Type 0
Clears m' =
    ((j : String) → lookup j m'.pending ≡ none)
    × ((i : ℕ) → (not (ltb i m'.next) || is_done (m'.futures i)) ≡ true)

abbrev pub Stays : RequestManager → RequestManager → Type 0
Stays m m' =
    ((j : String) → lookup j m'.pending ≡ lookup j m.pending)
    × ((i : ℕ) → m'.futures i ≡ m.futures i)

-- A response to an open request closes it with what the response carries. Nothing else changes
-- anything.
abbrev pub Answered :
    String → Option ℕ → Option MatterCommandResult → RequestManager → RequestManager → Type 0
Answered id (some place) (some r) m m' = Closes id (done r) m m'
Answered id _ _ m m' = Stays m m'

abbrev pub Receives : Option String → Fields → ℕ → RequestManager → RequestManager → Type 0
Receives none payload now m m' = Stays m m'
Receives (some id) payload now m m' =
    Answered id (lookup id m.pending) (response payload (now - started id now m)) m m'

-- What each step does.
unfoldable pub Promise : (m m' : RequestManager) → Step m m' → Type 0
Promise m m' (registers id now h) = Opens id m m'
Promise m m' (receives payload now h) = Receives (message_id payload) payload now m m'
Promise m m' (disconnects reason now h) = Clears m'
Promise m m' (returns id since now r gone h) = Stays m m'
Promise m m' (times_out id since now h) = Closes id cancelled m m'

closed-Closes :
    (id : String) (place : ℕ) (f : Future) (m : RequestManager)
    → lookup id m.pending ≡ some place
    → IsConsistent m
    → Closes id f m (closed id place f m)
unfolding set
closed-Closes id place f m h c =
    (λ j. lookup-erase id j m.pending c.distinct, λ i. ground (arith, h))

absent-Closes :
    (id : String) (f : Future) (m : RequestManager) → lookup id m.pending ≡ none → Closes id f m m
absent-Closes id f m h = (λ j. ground (arith, h, eq_iff j id), λ i. ground (arith, h))

settle-Closes :
    (id : String) (place : ℕ) (r : MatterCommandResult) (m : RequestManager)
    → lookup id m.pending ≡ some place
    → IsConsistent m
    → Closes id (done r) m (discard id false (settle place r m))
settle-Closes id place r m h c =
    subst (λ k. Closes id (done r) m k) (sym (settle-discard id place r m h (c.waits id place h)))
      (closed-Closes id place (done r) m h c)

-- by the place of the request and the response
dispatched :
    (id : String) (m : RequestManager) (place : Option ℕ) (answer : Option MatterCommandResult)
    → lookup id m.pending ≡ place
    → IsConsistent m
    → Answered id place answer m
        (elim place as (λ _. Bool × RequestManager) [
          | none ↦ (false, m)
          | some place ↦ elim answer as (λ _. Bool × RequestManager) [
            | none ↦ (false, m)
            | some r ↦ (true, discard id false (settle place r m))
          ]
        ]).1
dispatched id m none answer h c = (λ j. refl, λ i. refl)
dispatched id m (some place) none h c = (λ j. refl, λ i. refl)
dispatched id m (some place) (some r) h c = settle-Closes id place r m h c

dispatch_id-Receives :
    (id : String) (payload : Fields) (now : ℕ) (m : RequestManager)
    → IsConsistent m
    → Receives (some id) payload now m (dispatch_id id payload now m).1
unfolding dispatch_id
dispatch_id-Receives id payload now m c =
    dispatched id m (lookup id m.pending) (response payload (now - started id now m)) refl c

dispatch-Receives :
    (payload : Fields) (now : ℕ) (m : RequestManager)
    → IsConsistent m
    → Receives (message_id payload) payload now m (dispatch_incoming payload now m).1
unfolding dispatch_incoming
dispatch-Receives payload now m c = elim (Option-cases (message_id payload)) [
  | inl other ↦ rw (dispatch_incoming, other) (λ j. refl, λ i. refl)
  | inr (id, h) ↦ rw (dispatch_incoming, h) (dispatch_id-Receives id payload now m c)
]

forgotten-Stays :
    (id : String) (b : Bool) (m : RequestManager)
    → lookup id m.pending ≡ none
    → Stays m (discard id b m)
forgotten-Stays id b m h = (
  λ j. ap (λ k. lookup j k.pending) (forgotten-lem id b m h),
  λ i. ap (λ k. k.futures i) (forgotten-lem id b m h),
)

-- `discard` again, behind a step that leaves the request closed
then_forgotten :
    (id : String) (f : Future) (m k : RequestManager)
    → lookup id k.pending ≡ none
    → Closes id f m k
    → Closes id f m (discard id false k)
then_forgotten id f m k h p =
    let s = forgotten-Stays id false k h in (λ j. s.0 j ∙ p.0 j, λ i. s.1 i ∙ p.1 i)

times_out-Closes :
    (id : String) (m : RequestManager)
    → IsConsistent m
    → Closes id cancelled m (discard id false (discard id true m))
times_out-Closes id m c = elim (Option-cases (lookup id m.pending)) [
  | inl absent ↦
      let s = forgotten-Stays id true m absent in
      let p = absent-Closes id cancelled m absent in
      then_forgotten id cancelled m (discard id true m) (s.0 id ∙ absent)
        (λ j. s.0 j ∙ p.0 j, λ i. s.1 i ∙ p.1 i)
  | inr (place, h) ↦
      let k = closed id place cancelled m in
      let p = closed-Closes id place cancelled m h c in
      rw (discard_pending id place m h (c.waits id place h))
        (then_forgotten id cancelled m k (p.0 id ∙ ground (arith, eq_iff id id)) p)
]

done_or_waiting : (f : Future) → (f ≡ waiting) ⊎ (is_done f ≡ true)
done_or_waiting waiting = inl refl
done_or_waiting (done r) = inr refl
done_or_waiting cancelled = inr refl

cancel_all-Clears :
    (reason : Option String) (now : ℕ) (m : RequestManager)
    → Reach new_manager m
    → Clears (cancel_all reason now m)
cancel_all-Clears reason now m r =
    let k = cancel_all reason now m in
    (
      cancel_all-pending reason now m (Reach-IsConsistent r),
      λ i. elim (done_or_waiting (k.futures i)) [
        | inr d ↦ ground (arith, d)
        | inl w ↦ elim (Bool-cases (ltb i k.next)) [
          | inl h ↦ absurd (cancel_all-settles m reason now r i (ground (arith, h)) w)
          | inr h ↦ ground (arith, h)
        ]
      ],
    )

-- From every state that the steps reach, every step does what the contract says. Registering opens
-- a request that was not open, with a new future that waits. A response to an open request closes
-- it and gives its result to its future, and another payload changes nothing. A disconnection closes
-- all and leaves no future waiting. A wait that returns changes nothing, and one that times out
-- closes its request and cancels its future.
pub Step-Promise :
    (m m' : RequestManager) (r : Reach new_manager m) (s : Step m m') → Promise m m' s
unfolding Promise cancel_all wait_returns wait_times_out set
Step-Promise m m' r (registers id now h) =
    let p = register-lem id now m m' h in
    (
      p.0,
      λ j. ap (λ k. lookup j k.pending) p.1 ∙ lookup-insert id j m.next m.pending,
      λ i. ap (λ k. k.futures i) p.1,
    )
Step-Promise m m' r (receives payload now h) =
    rw h (dispatch-Receives payload now m (Reach-IsConsistent r))
Step-Promise m m' r (disconnects reason now h) = rw h (cancel_all-Clears reason now m r)
Step-Promise m m' r (returns id since now q gone h) = rw h (forgotten-Stays id false m gone)
Step-Promise m m' r (times_out id since now h) = rw h (times_out-Closes id m (Reach-IsConsistent r))
