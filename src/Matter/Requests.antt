-- ===== src/Matter/Requests.antt =====
-- threadlens/collectors/matter_ws.py. A future is a place in a store, so a request that is no longer
-- pending is still held by the call that waits for it. `now` is the monotonic clock in milliseconds.
pub mod Steps
pub mod Settled
pub mod Answers
pub mod Contract
use threadlens.Prelude.{
  ℕ, zero, suc, ◌-◌, Bool, true, false, String, Option, none, some, List, [], ◌∷◌, join,
  if◌then◌else◌, leb, is_some,
}
use threadlens.Prelude.Codes.{eq_ℕ, strip, is_empty, length}
use threadlens.Prelude.Dict.{Dict, lookup, insert, erase, keys}
use threadlens.Prelude.Json.{Json, Fields, null, str, get, get_or_null, has}
use threadlens.Prelude.Show.{show}

-- `error_code` and `result` hold `null` for `None`.
pub record MatterCommandResult : Type 0 where
  pub ok : Bool
  pub result : Json
  pub error_code : Json
  pub details : Option String
  pub duration_ms : Option ℕ
  pub timed_out : Bool

-- `text[:n]`
unfoldable pub take_text : ℕ → String → String
take_text zero s = ""
take_text (suc n) String.[] = ""
take_text (suc n) (String.◌∷◌ c s) = String.◌∷◌ c (take_text n s)

unfoldable pub sanitize_error_details : Json → Option String
unfolding show strip length take_text join
sanitize_error_details null = none
sanitize_error_details details =
    let shown = strip (show details) in
    if is_empty shown
    then none
    else if leb (length shown) 200
    then some shown
    else some (join (take_text 200 shown ∷ "..." ∷ []))

pub data Future : Type 0 where
  waiting : Future
  done : MatterCommandResult → Future
  cancelled : Future

abbrev pub is_done : Future → Bool
is_done waiting = false
is_done (done r) = true
is_done cancelled = true

-- `pending` holds the places of the futures; `next` is the first place that is free.
pub record RequestManager : Type 0 where
  pub pending : Dict ℕ
  pub registered_at : Dict ℕ
  pub futures : ℕ → Future
  pub next : ℕ

abbrev pub new_manager : RequestManager
new_manager = record { pending = []; registered_at = []; futures = (λ i. waiting); next = 0 }

unfoldable pub set : ℕ → Future → (ℕ → Future) → ℕ → Future
set place f futures i = if eq_ℕ i place then f else futures i

-- the manager, or the `ValueError`
pub data Registered : Type 0 where
  value_error : String → Registered
  registered : RequestManager → Registered

unfoldable pub register : String → ℕ → RequestManager → Registered
unfolding lookup insert set
register id now m =
    if is_empty id
    then value_error "message_id must not be empty"
    else if is_some (lookup id m.pending)
    then value_error (join ("Duplicate message_id: " ∷ id ∷ []))
    else registered (record {
      pending = insert id m.next m.pending;
      registered_at = insert id now m.registered_at;
      futures = set m.next waiting m.futures;
      next = suc m.next;
    })

-- `future.set_result(result)` under `if not future.done()`
unfoldable pub settle : ℕ → MatterCommandResult → RequestManager → RequestManager
unfolding set
settle place r m =
    if is_done (m.futures place) then m else record m { futures = set place (done r) m.futures }

-- the future is cancelled only where the caller asks for it and it is not done
unfoldable pub cancel_place : Option ℕ → RequestManager → RequestManager
unfolding set
cancel_place none m = m
cancel_place (some place) m =
    if is_done (m.futures place) then m else record m { futures = set place cancelled m.futures }

-- `_discard`
unfoldable pub discard : String → Bool → RequestManager → RequestManager
unfolding lookup erase cancel_place
discard id cancel_future m =
    let popped = record m {
      pending = erase id m.pending;
      registered_at = erase id m.registered_at;
    } in
    if cancel_future then cancel_place (lookup id m.pending) popped else popped

-- `self._registered_at.get(message_id, time.monotonic())`
unfoldable pub started : String → ℕ → RequestManager → ℕ
unfolding lookup
started id now m = elim (lookup id m.registered_at) [ none ↦ now | some t ↦ t ]

abbrev pub success : Json → ℕ → MatterCommandResult
success result elapsed = record {
  ok = true;
  result = result;
  error_code = null;
  details = none;
  duration_ms = some elapsed;
  timed_out = false;
}

abbrev pub failure : Json → Option String → ℕ → MatterCommandResult
failure code details elapsed = record {
  ok = false;
  result = null;
  error_code = code;
  details = details;
  duration_ms = some elapsed;
  timed_out = false;
}

-- the result that a payload carries, if it is a response
unfoldable pub response : Fields → ℕ → Option MatterCommandResult
unfolding has get_or_null sanitize_error_details
response payload elapsed =
    if has "result" payload
    then some (success (get_or_null "result" payload) elapsed)
    else if has "error_code" payload
    then some (
        failure (get_or_null "error_code" payload)
          (sanitize_error_details (get_or_null "details" payload)) elapsed)
    else none

-- a payload whose `message_id` is a text
unfoldable pub dispatch_id : String → Fields → ℕ → RequestManager → Bool × RequestManager
unfolding lookup response settle discard started
dispatch_id id payload now m = elim (lookup id m.pending) [
  | none ↦ (false, m)
  | some place ↦ elim (response payload (now - started id now m)) [
    | none ↦ (false, m)
    | some r ↦ (true, discard id false (settle place r m))
  ]
]

-- `message_id`, where it is a text
unfoldable pub message_id : Fields → Option String
unfolding get_or_null
message_id payload = elim (get_or_null "message_id" payload) [ Json.str id ↦ some id | _ ↦ none ]

unfoldable pub dispatch_incoming : Fields → ℕ → RequestManager → Bool × RequestManager
unfolding message_id dispatch_id
dispatch_incoming payload now m = elim (message_id payload) [
  | none ↦ (false, m)
  | some id ↦ dispatch_id id payload now m
]

-- one round of the loop in `cancel_all`
unfoldable pub cancel_one : String → String → ℕ → RequestManager → RequestManager
unfolding lookup settle discard started
cancel_one detail id now m = elim (lookup id m.pending) [
  | none ↦ discard id false m
  | some place ↦
      discard id false (settle place (failure null (some detail) (now - started id now m)) m)
]

unfoldable pub cancel_each : String → List String → ℕ → RequestManager → RequestManager
unfolding cancel_one
cancel_each detail [] now m = m
cancel_each detail (id ∷ ids) now m = cancel_each detail ids now (cancel_one detail id now m)

-- `sanitize_error_details(reason) or "disconnected"`
unfoldable pub cancel_detail : Option String → String
unfolding sanitize_error_details
cancel_detail none = "disconnected"
cancel_detail (some reason) = elim (sanitize_error_details (str reason)) [
  | none ↦ "disconnected"
  | some detail ↦ detail
]

unfoldable pub cancel_all : Option String → ℕ → RequestManager → RequestManager
unfolding cancel_detail cancel_each
cancel_all reason now m = cancel_each (cancel_detail reason) (keys m.pending) now m

-- The start of `wait_for`: the future it waits for, and when the request was registered; `none` is
-- the `KeyError`.
unfoldable pub wait_for : String → ℕ → RequestManager → Option (ℕ × ℕ)
unfolding lookup started
wait_for id now m = elim (lookup id m.pending) [
  | none ↦ none
  | some place ↦ some (place, started id now m)
]

-- a result without a duration is given the one until now
unfoldable pub with_duration : MatterCommandResult → ℕ → MatterCommandResult
with_duration r elapsed = elim r.duration_ms [
  | none ↦ record r { duration_ms = some elapsed }
  | some d ↦ r
]

-- The end of `wait_for` when the future holds a result. A caller that is itself cancelled, which
-- discards its request and leaves the shielded future waiting, is left out.
unfoldable pub wait_returns :
    String → ℕ → MatterCommandResult → ℕ → RequestManager → MatterCommandResult × RequestManager
unfolding with_duration discard
wait_returns id since r now m = (with_duration r (now - since), discard id false m)

-- The end of `wait_for` when the time is over.
unfoldable pub wait_times_out :
    String → ℕ → ℕ → RequestManager → MatterCommandResult × RequestManager
unfolding discard
wait_times_out id since now m = (
  record {
    ok = false;
    result = null;
    error_code = null;
    details = none;
    duration_ms = some (now - since);
    timed_out = true;
  },
  discard id false (discard id true m),
)
