-- ===== src/LockServerCache/Exclusion.antt =====
-- What lock_server_cache.cc promises its clients.
use cse_yet_another_file_sys.Prelude.{
  ℕ, ◌≡◌, refl, sym, ◌∙◌, subst, Bool, true, false, ◌||◌, List, [], ◌∷◌, Option, none, some, arith,
  inl, inr, ◌⊎◌, update, update_self, done,
}
use cse_yet_another_file_sys.Bytes.{Bytes}
use cse_yet_another_file_sys.Ids.{same_id, member, order}
use cse_yet_another_file_sys.Ids.Laws.{same_id_iff, same_id_refl, IsSorted, member_after}
use cse_yet_another_file_sys.LockServerCache.{
  LockStatus, ServerState, ServerLock, LockServer, Send, message, retry_to, new_lock, lock_of,
  acquire, release, serve_acquire, serve_release,
}
use cse_yet_another_file_sys.LockServerCache.Locks.{
  owns, waits, Phases, is_waiter, Agrees, both, lock_with, or_false, holder_calm,
}
use cse_yet_another_file_sys.LockServerCache.Clients.{
  System, Reach, Reach-Consistent, owned_there, release_there, acquire_there,
}
use Prim.Native.Nat.{Ordering}

-- Mutual exclusion: in every state that the clients can reach, at most one client owns a lock.
pub mutual_exclusion :
    {nacquire : ℕ} {s : System} (lid : ℕ) (a b : Bytes)
    → Reach nacquire s
    → owns (s.phase lid a) ≡ true
    → owns (s.phase lid b) ≡ true
    → a ≡ b
mutual_exclusion {s} lid a b r in_a in_b =
    let agrees = Reach-Consistent r lid in
    let (_, x) = both _ _ (sym (agrees.owners a) ∙ in_a) in
    let (_, y) = both _ _ (sym (agrees.owners b) ∙ in_b) in
    (same_id_iff a _).0 x ∙ sym ((same_id_iff b _).0 y)

-- What `release` comes to when a client waits.
pub record HandsOver (phase : Phases) (lock : ServerLock) (w : Bytes) : Type 0 where
  pub next : Bytes
  pub ok : (serve_release lock).reply ≡ LockStatus.ok
  pub told_to : (serve_release lock).send ≡ message (retry_to next)
  pub waited : waits (phase next) ≡ true
  pub least : (w ≡ next) ⊎ (order next w ≡ Ordering.lt)
  pub granted : (serve_acquire next (serve_release lock).lock).reply ≡ LockStatus.ok

granted_lem :
    (n h : Bytes) (rest : List Bytes)
    → (serve_acquire n (lock_with ServerState.retrying h n rest)).reply ≡ LockStatus.ok
unfolding serve_acquire
granted_lem n h [] = rw (serve_acquire, same_id_refl n) refl
granted_lem n h (x ∷ rest) = rw (serve_acquire, same_id_refl n) refl

hands_over :
    (phase : Phases) (w : Bytes) (st : ServerState) (h r : Bytes) (q : List Bytes)
    → Agrees (lock_with st h r q) phase
    → member w q ≡ true
    → HandsOver phase (lock_with st h r q) w
unfolding serve_release IsSorted member
hands_over phase w st h r [] a m = ground arith
hands_over phase w st h r (n ∷ rest) a m = record {
  next = n;
  ok = refl;
  told_to = refl;
  waited = a.waiters n ∙ rw (member, same_id_refl n) refl;
  least = member_after w n rest m a.sorted.0;
  granted = granted_lem n [] rest;
}

-- A client that waits is in the queue while another one owns the lock.
in_queue :
    (phase : Phases) (lock : ServerLock) (w o : Bytes)
    → Agrees lock phase
    → owns (phase o) ≡ true
    → waits (phase w) ≡ true
    → member w lock.clients_queue ≡ true
in_queue phase lock w o a owner waiter =
    let (held, _) = both _ _ (sym (a.owners o) ∙ owner) in
    let same : is_waiter lock w ≡ member w lock.clients_queue =
      rw (holder_calm lock.server_state held) (or_false (member w lock.clients_queue)) in
    sym same ∙ sym (a.waiters w) ∙ waiter

-- In every state that the clients can reach, when a client that owns a lock releases it while a client `w` waits
-- for it, the server answers OK and tells a waiting client to retry, which is `w` or comes before `w` in the
-- order of strings; the `acquire` of that client, if nothing comes between, is answered OK.
pub release_hands_over :
    {nacquire : ℕ} {s : System} (lid : ℕ) (o w : Bytes)
    → Reach nacquire s
    → owns (s.phase lid o) ≡ true
    → waits (s.phase lid w) ≡ true
    → (n : Bytes) × (send : Send) × (t : LockServer) × (u : LockServer) × (release lid o s.server
        ≡ done ((LockStatus.ok, message (retry_to n)), t))
      × (waits (s.phase lid n) ≡ true)
      × ((w ≡ n) ⊎ (order n w ≡ Ordering.lt))
      × (acquire lid n t ≡ done ((LockStatus.ok, send), u))
unfolding acquire
release_hands_over {s} lid o w r owner waiter =
    let (lock, there) = owned_there s lid o (Reach-Consistent r) owner in
    let a : Agrees lock (s.phase lid) =
      subst
        (λ (x : Option ServerLock).
          Agrees (elim x [ none ↦ new_lock | some lock ↦ lock ]) (s.phase lid))
        there (Reach-Consistent r lid) in
    let h =
      hands_over (s.phase lid) w lock.server_state lock.client_holding lock.client_retrying
        lock.clients_queue a (in_queue (s.phase lid) lock w o a owner waiter) in
    let t : LockServer = record s.server {
      lock_manager = update s.server.lock_manager lid (some (serve_release lock).lock);
    } in
    let served = serve_acquire h.next (serve_release lock).lock in
    let u : LockServer = record t { lock_manager = update t.lock_manager lid (some served.lock) } in
    (
      h.next,
      (serve_acquire h.next (serve_release lock).lock).send,
      t,
      u,
      release_there s.server lid o lock there ∙ rw (h.ok, h.told_to) refl,
      h.waited,
      h.least,
      acquire_there t lid h.next (serve_release lock).lock
            (update_self s.server.lock_manager lid (some (serve_release lock).lock))
          ∙ rw h.granted refl,
    )

or_true : (x y : Bool) → y ≡ true → x || y ≡ true
or_true true y h = refl
or_true false y h = h

remembered :
    (phase : Phases) (w : Bytes) (st : ServerState) (h r : Bytes) (q : List Bytes)
    → Agrees (lock_with st h r q) phase
    → waits (phase w) ≡ true
    → ((st ≡ ServerState.revoking) × (owns (phase h) ≡ true))
      ⊎ ((st ≡ ServerState.retrying) × (waits (phase r) ≡ true))
unfolding member
remembered phase w ServerState.revoking h r q a k = inl (refl, a.owners h ∙ same_id_refl h)
remembered phase w ServerState.retrying h r q a k =
    inr (refl, a.waiters r ∙ or_true (member r q) (same_id r r) (same_id_refl r))
remembered phase w ServerState.unlocked h r [] a k = ground (arith, a.waiters w)
remembered phase w ServerState.unlocked h r (x ∷ q) a k = ground (arith, a.fits)
remembered phase w ServerState.locked h r [] a k = ground (arith, a.waiters w)
remembered phase w ServerState.locked h r (x ∷ q) a k = ground (arith, a.fits)

-- In every state that the clients can reach, while a client waits for a lock, either the state is `revoking` and
-- the client that is written down as the holder owns the lock, or the state is `retrying` and the client
-- that is written down as the retrying one waits.
pub waiter_remembered :
    {nacquire : ℕ} {s : System} (lid : ℕ) (w : Bytes)
    → Reach nacquire s
    → waits (s.phase lid w) ≡ true
    → (((lock_of s.server lid).server_state ≡ ServerState.revoking)
        × (owns (s.phase lid (lock_of s.server lid).client_holding) ≡ true))
      ⊎ (((lock_of s.server lid).server_state ≡ ServerState.retrying)
          × (waits (s.phase lid (lock_of s.server lid).client_retrying) ≡ true))
waiter_remembered {s} lid w r waiter =
    let lock = lock_of s.server lid in
    remembered (s.phase lid) w lock.server_state lock.client_holding lock.client_retrying
      lock.clients_queue (Reach-Consistent r lid) waiter
