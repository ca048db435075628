-- ===== src/Matter/Requests/Steps.antt =====
-- The steps of the request manager of threadlens/collectors/matter_ws.py, as the calls of it can
-- follow one another. A message id is a fresh uuid: the id whose result a wait returns is not
-- pending again.
use threadlens.Prelude.{
  ℕ, suc, ◌<◌, ◌≡◌, true, String, Option, none, some, arith, IsDistinct, Bool-cases, inl, inr,
  eq_iff,
}
use threadlens.Prelude.Codes.{eq_ℕ}
use threadlens.Prelude.Dict.{
  lookup, insert, erase, keys, lookup-insert, lookup-erase, IsDistinct-insert, IsDistinct-erase,
}
use threadlens.Prelude.Json.{Fields}
use threadlens.Matter.Requests.{
  MatterCommandResult, Future, is_done, waiting, RequestManager, new_manager, set, registered,
  register, dispatch_incoming, cancel_all, wait_returns, wait_times_out,
}

pub data Step (m : RequestManager) (m' : RequestManager) : Type 0 where
  registers : (id : String) (now : ℕ) → register id now m ≡ registered m' → Step m m'
  receives : (payload : Fields) (now : ℕ) → m' ≡ (dispatch_incoming payload now m).1 → Step m m'
  disconnects : (reason : Option String) (now : ℕ) → m' ≡ cancel_all reason now m → Step m m'
  returns :
      (id : String) (since now : ℕ) (r : MatterCommandResult)
      → lookup id m.pending ≡ none
      → m' ≡ (wait_returns id since r now m).1
      → Step m m'
  times_out : (id : String) (since now : ℕ) → m' ≡ (wait_times_out id since now m).1 → Step m m'

pub data Reach (s : RequestManager) : RequestManager → Type 0 where
  here : Reach s s
  next : {k m : RequestManager} → Reach s k → Step k m → Reach s m

-- A pending request has a future of its own that waits, and a future that waits is pending.
pub record IsConsistent (m : RequestManager) : Type 0 where
  pub distinct : IsDistinct (keys m.pending)
  pub bound : (id : String) (i : ℕ) → lookup id m.pending ≡ some i → i < m.next
  pub waits : (id : String) (i : ℕ) → lookup id m.pending ≡ some i → m.futures i ≡ waiting
  pub one :
      (id j : String) (i : ℕ) → lookup id m.pending ≡ some i → lookup j m.pending ≡ some i → id ≡ j
  pub held :
      (i : ℕ) → i < m.next → m.futures i ≡ waiting → (id : String) × (lookup id m.pending ≡ some i)

pub new_manager-IsConsistent : IsConsistent new_manager
unfolding lookup
new_manager-IsConsistent = record {
  distinct = tt;
  bound = (λ id i h. ground arith);
  waits = (λ id i h. ground arith);
  one = (λ id j i h k. ground arith);
  held = (λ i h k. ground arith);
}

-- the manager behind `register`
abbrev pub with_request : String → ℕ → RequestManager → RequestManager
with_request id now m = record {
  pending = insert id m.next m.pending;
  registered_at = insert id now m.registered_at;
  futures = set m.next waiting m.futures;
  next = suc m.next;
}

pub with_request-IsConsistent :
    (id : String) (now : ℕ) (m : RequestManager)
    → lookup id m.pending ≡ none
    → IsConsistent m
    → IsConsistent (with_request id now m)
unfolding set
with_request-IsConsistent id now m fresh c = record {
  distinct = IsDistinct-insert id m.next m.pending c.distinct;
  bound = (λ j i h. ground (arith, lookup-insert id j m.next m.pending, c.bound j i));
  waits = (λ j i h. ground (arith, lookup-insert id j m.next m.pending, c.waits j i, c.bound j i));
  one = (λ j k i h l. ground (
    arith,
    lookup-insert id j m.next m.pending,
    lookup-insert id k m.next m.pending,
    c.one j k i,
    c.bound j i,
    c.bound k i,
    eq_iff j id,
    eq_iff k id,
  ));
  held = (λ i h w. elim (Bool-cases (eq_ℕ i m.next)) [
    | inl e ↦ (id, ground (arith, lookup-insert id id m.next m.pending, eq_iff id id))
    | inr e ↦
        let p = c.held i (ground arith) (ground arith) in
        (p.0, ground (arith, lookup-insert id p.0 m.next m.pending, p.1, eq_iff p.0 id))
  ]);
}

-- the manager behind the end of a pending request
abbrev pub closed : String → ℕ → Future → RequestManager → RequestManager
closed id place f m = record {
  pending = erase id m.pending;
  registered_at = erase id m.registered_at;
  futures = set place f m.futures;
  next = m.next;
}

pub closed-IsConsistent :
    (id : String) (place : ℕ) (f : Future) (m : RequestManager)
    → lookup id m.pending ≡ some place
    → is_done f ≡ true
    → IsConsistent m
    → IsConsistent (closed id place f m)
unfolding set
closed-IsConsistent id place f m known settled c = record {
  distinct = IsDistinct-erase id m.pending c.distinct;
  bound = (λ j i h. ground (arith, lookup-erase id j m.pending c.distinct, c.bound j i));
  waits = (λ j i h.
      ground (
        arith,
        lookup-erase id j m.pending c.distinct,
        c.waits j i,
        c.one j id place,
        eq_iff j id,
      ));
  one = (λ j k i h l. ground (
    arith,
    lookup-erase id j m.pending c.distinct,
    lookup-erase id k m.pending c.distinct,
    c.one j k i,
  ));
  held = (λ i h w.
      let p = c.held i h (ground arith) in
      (p.0, ground (arith, lookup-erase id p.0 m.pending c.distinct, p.1, eq_iff p.0 id)));
}
