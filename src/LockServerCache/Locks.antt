-- ===== src/LockServerCache/Locks.antt =====
-- One lock of lock_server_cache.cc and what its clients may believe of it: the clients' phases agree
-- with the lock's holder, queue and retrying client, whatever `acquire` and `release` do.
use cse_yet_another_file_sys.Prelude.{
  ◌≡◌, refl, ap, sym, ◌∙◌, Bool, true, false, ◌||◌, ◌&&◌, not, List, [], ◌∷◌, arith, inl, inr,
  Bool-cases,
}
use cse_yet_another_file_sys.Bytes.{Bytes}
use cse_yet_another_file_sys.Ids.{same_id, set_insert, member}
use cse_yet_another_file_sys.Ids.Laws.{
  IsSorted, same_id_iff, same_id_comm, set_insert-IsSorted, member-set_insert,
}
use cse_yet_another_file_sys.LockServerCache.{LockStatus, ServerState, ServerLock, new_lock}

-- A client has not asked for the lock, was told RETRY, was told OK, or is about to call `release`.
pub data Phase : Type 0 where
  out waiting holds releasing : Phase

abbrev pub owns : Phase → Bool
owns Phase.holds = true
owns Phase.releasing = true
owns _ = false

abbrev pub waits : Phase → Bool
waits Phase.waiting = true
waits _ = false

abbrev pub Phases : Type 0
Phases = Bytes → Phase

abbrev pub move : Phases → Bytes → Phase → Phases
move phase id p c = elim (same_id c id) [ true ↦ p | false ↦ phase c ]

-- What the reply to an `acquire` makes of a client.
abbrev pub told : LockStatus → Phase
told LockStatus.ok = Phase.holds
told _ = Phase.waiting

abbrev pub has_holder : ServerState → Bool
has_holder ServerState.locked = true
has_holder ServerState.revoking = true
has_holder _ = false

abbrev pub is_retrying : ServerState → Bool
is_retrying ServerState.retrying = true
is_retrying _ = false

abbrev pub queue_fits : ServerState → List Bytes → Bool
queue_fits ServerState.retrying ids = true
queue_fits ServerState.revoking [] = false
queue_fits ServerState.revoking (x ∷ xs) = true
queue_fits ServerState.unlocked [] = true
queue_fits ServerState.unlocked (x ∷ xs) = false
queue_fits ServerState.locked [] = true
queue_fits ServerState.locked (x ∷ xs) = false

abbrev pub is_holder : ServerLock → Bytes → Bool
is_holder lock c = has_holder lock.server_state && same_id c lock.client_holding

abbrev pub is_waiter : ServerLock → Bytes → Bool
is_waiter lock c =
    member c lock.clients_queue || is_retrying lock.server_state && same_id c lock.client_retrying

-- The invariant of a lock and its clients.
pub record Agrees (lock : ServerLock) (phase : Phases) : Type 0 where
  pub sorted : IsSorted lock.clients_queue
  pub fits : queue_fits lock.server_state lock.clients_queue ≡ true
  pub apart :
      is_retrying lock.server_state && member lock.client_retrying lock.clients_queue ≡ false
  pub owners : (c : Bytes) → owns (phase c) ≡ is_holder lock c
  pub waiters : (c : Bytes) → waits (phase c) ≡ is_waiter lock c

pub new_lock-Agrees : Agrees new_lock (λ c. Phase.out)
unfolding IsSorted member
new_lock-Agrees = record {
  sorted = tt;
  fits = refl;
  apart = refl;
  owners = λ c. refl;
  waiters = λ c. refl;
}

abbrev pub lock_with : ServerState → Bytes → Bytes → List Bytes → ServerLock
lock_with state h r q = record {
  server_state = state;
  client_holding = h;
  client_retrying = r;
  clients_queue = q;
}

distribute : (p x y : Bool) → p && x ≡ false → p && y ≡ false → p && (x || y) ≡ false
distribute true x y h k = rw (h, k) refl
distribute false x y h k = refl

or_assoc : (x y z : Bool) → x || (y || z) ≡ (x || y) || z
or_assoc true y z = refl
or_assoc false y z = refl

pub or_false : (x : Bool) → x || false ≡ x
or_false true = refl
or_false false = refl

pub still_some :
    (id : Bytes) (q : List Bytes) → queue_fits ServerState.revoking (set_insert id q) ≡ true
unfolding set_insert
still_some id [] = refl
still_some id (x ∷ xs) = ground arith

pub and_false : (x : Bool) → x && false ≡ false
and_false true = refl
and_false false = refl

pub both : (x y : Bool) → x && y ≡ true → (x ≡ true) × (y ≡ true)
both true y h = (refl, h)
both false y h = ground arith

pub holder_calm : (st : ServerState) → has_holder st ≡ true → is_retrying st ≡ false
holder_calm ServerState.unlocked h = refl
holder_calm ServerState.locked h = refl
holder_calm ServerState.revoking h = refl
holder_calm ServerState.retrying h = ground arith

pub owner_calm : (p : Phase) → owns p ≡ true → waits p ≡ false
owner_calm Phase.holds h = refl
owner_calm Phase.releasing h = refl
owner_calm Phase.out h = refl
owner_calm Phase.waiting h = ground arith

module _ (id : Bytes) (phase : Phases) where
  owns-move :
      (p : Phase) (c : Bytes)
      → owns p ≡ false
      → owns (phase id) ≡ false
      → owns (move phase id p c) ≡ owns (phase c)
  owns-move p c none free = elim (Bool-cases (same_id c id)) [
    | inl y ↦
        let e : c ≡ id = (same_id_iff c id).0 y in
        rw (y, owns) (none ∙ sym free ∙ ap (λ d. owns (phase d)) (sym e))
    | inr n ↦ rw (n, owns) refl
  ]

  waits-move : (c : Bytes) → waits (move phase id Phase.waiting c) ≡ same_id c id || waits (phase c)
  waits-move c = grind arith

  owns-holds : (c : Bytes) → owns (move phase id Phase.holds c) ≡ same_id c id || owns (phase c)
  owns-holds c = grind arith

  waits-holds :
      (c : Bytes) → waits (move phase id Phase.holds c) ≡ not (same_id c id) && waits (phase c)
  waits-holds c = grind arith

  -- A client that must wait is queued, and the state keeps its kind.
  pub queued-Agrees :
      (st st' : ServerState) (h r : Bytes) (q : List Bytes)
      → has_holder st ≡ has_holder st'
      → is_retrying st ≡ is_retrying st'
      → queue_fits st' (set_insert id q) ≡ true
      → is_retrying st && same_id id r ≡ false
      → owns (phase id) ≡ false
      → Agrees (lock_with st h r q) phase
      → Agrees (lock_with st' h r (set_insert id q)) (move phase id Phase.waiting)
  queued-Agrees st st' h r q holder retry fits other free a = record {
    sorted = set_insert-IsSorted id q a.sorted;
    fits = fits;
    apart =
        rw (← retry, member-set_insert r id q, same_id_comm r id)
          (distribute (is_retrying st) (same_id id r) (member r q) other a.apart);
    owners = λ c. owns-move Phase.waiting c refl free ∙ a.owners c ∙ rw holder;
    waiters = λ c.
        waits-move c
        ∙ ap (◌||◌ (same_id c id)) (a.waiters c)
        ∙ rw (← retry, member-set_insert c id q)
            (or_assoc (same_id c id) (member c q) (is_retrying st && same_id c r));
  }

  -- A client that gets the lock is no waiter any more.
  pub granted-Agrees :
      (st st' : ServerState) (h r r' : Bytes) (q : List Bytes)
      → has_holder st ≡ false
      → has_holder st' ≡ true
      → is_retrying st' ≡ false
      → queue_fits st' q ≡ true
      → ((c : Bytes) → not (same_id c id) && is_waiter (lock_with st h r q) c ≡ member c q)
      → Agrees (lock_with st h r q) phase
      → Agrees (lock_with st' id r' q) (move phase id Phase.holds)
  granted-Agrees st st' h r r' q none holder calm fits rest a = record {
    sorted = a.sorted;
    fits = fits;
    apart = rw calm refl;
    owners = λ c.
        owns-holds c
        ∙ ap (◌||◌ (same_id c id)) (a.owners c)
        ∙ rw (none, holder) (or_false (same_id c id));
    waiters = λ c.
        waits-holds c
        ∙ ap (◌&&◌ (not (same_id c id))) (a.waiters c)
        ∙ rest c
        ∙ rw calm (sym (or_false (member c q)));
  }
