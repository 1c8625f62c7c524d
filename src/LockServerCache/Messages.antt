-- ===== src/LockServerCache/Messages.antt =====
-- The messages that lock_server_cache.cc sends after its critical sections: whom they tell, and when they come too late.
use cse_yet_another_file_sys.Prelude.{
  ℕ, ◌≡◌, ◌≢◌, refl, ap, ap₂, sym, ◌∙◌, subst, List, [], ◌∷◌, Option, none, some, arith, inl, inr,
  Bool-cases, update, update_self, done,
}
use cse_yet_another_file_sys.Bytes.{Bytes}
use cse_yet_another_file_sys.Ids.{same_id}
use cse_yet_another_file_sys.LockServerCache.{
  LockStatus, ServerState, ServerLock, LockServer, Send, nothing, revoke_holder, message, Message,
  revoke_to, new_lock, lock_of, acquire, release, serve_acquire, serve_release, deliver, Served,
  retried, enqueue,
}
use cse_yet_another_file_sys.LockServerCache.Locks.{lock_with}
use cse_yet_another_file_sys.LockServerCache.Clients.{
  release_there, manager_of, send_of, acquire_there,
}

-- The message, with the holder's name as it is read.
abbrev addressed : Send → Bytes → Option Message
addressed nothing h = none
addressed revoke_holder h = some (revoke_to h)
addressed (message m) h = some m

deliver_lem :
    (lid : ℕ) (send : Send) (t : LockServer)
    → deliver lid send t ≡ addressed send (lock_of t lid).client_holding
unfolding deliver
deliver_lem lid nothing t = refl
deliver_lem lid revoke_holder t = refl
deliver_lem lid (message m) t = refl

abbrev Tells : Served → Type 0
Tells served =
    served.lock.server_state ≡ ServerState.revoking
    → addressed served.send served.lock.client_holding ≡ some (revoke_to served.lock.client_holding)

Tells-retried :
    (id h r : Bytes) (q : List Bytes) → Tells (retried id (lock_with ServerState.retrying h r q))
Tells-retried id h r [] now = ground arith
Tells-retried id h r (x ∷ q) now = refl

tells :
    (id : Bytes) (st : ServerState) (h r : Bytes) (q : List Bytes)
    → st ≢ ServerState.revoking
    → Tells (serve_acquire id (lock_with st h r q))
unfolding serve_acquire
tells id ServerState.unlocked h r q before now = ground arith
tells id ServerState.locked h r q before now = refl
tells id ServerState.revoking h r q before now = absurd (before refl)
tells id ServerState.retrying h r q before now = elim (Bool-cases (same_id id r)) [
  | inl y ↦
      let e : serve_acquire id (lock_with ServerState.retrying h r q)
          ≡ retried id (lock_with ServerState.retrying h r q) =
        rw (y, serve_acquire) refl in
      subst Tells (sym e) (Tells-retried id h r q) now
  | inr n ↦
      let e : serve_acquire id (lock_with ServerState.retrying h r q)
          ≡ enqueue id ServerState.retrying nothing (lock_with ServerState.retrying h r q) =
        rw (n, serve_acquire) refl in
      subst Tells (sym e) (λ later. ground arith) now
]

-- The holder is told when it must give the lock up: an `acquire` that brings a lock into `revoking`, sent at
-- once, tells the client that then holds it.
pub revoke_sent :
    (s : LockServer) (lid : ℕ) (id : Bytes) {reply : LockStatus} {send : Send} {t : LockServer}
    → acquire lid id s ≡ done ((reply, send), t)
    → (lock_of s lid).server_state ≢ ServerState.revoking
    → (lock_of t lid).server_state ≡ ServerState.revoking
    → deliver lid send t ≡ some (revoke_to (lock_of t lid).client_holding)
unfolding acquire deliver
revoke_sent s lid id {reply} {send} {t} e before now =
    let lock = lock_of s lid in
    let served = serve_acquire id lock in
    let same : lock_of t lid ≡ served.lock =
      ap (λ (m : ℕ → Option ServerLock). elim (m lid) [ none ↦ new_lock | some l ↦ l ])
        (sym (ap (manager_of s) e))
      ∙ rw (update_self s.lock_manager lid (some served.lock)) refl in
    deliver_lem lid send t
    ∙ subst
        (λ (p : Send × ServerLock).
          addressed p.0 p.1.client_holding ≡ some (revoke_to p.1.client_holding))
        (ap₂ (λ (x : Send) (l : ServerLock). (x, l)) (ap send_of e) (sym same))
        (tells id lock.server_state lock.client_holding lock.client_retrying lock.clients_queue
          before (sym (ap (λ (l : ServerLock). l.server_state) same) ∙ now))

either :
    (q : List Bytes) (st : ServerState) (h r : Bytes)
    → ((serve_release (lock_with st h r q)).reply ≡ LockStatus.ok)
      × ((serve_release (lock_with st h r q)).lock.client_holding ≡ [])
unfolding serve_release
either [] st h r = (refl, refl)
either (x ∷ q) st h r = (refl, refl)

locked_lem :
    (id : Bytes) (lock : ServerLock)
    → lock.server_state ≡ ServerState.locked
    → serve_acquire id lock ≡ enqueue id ServerState.revoking revoke_holder lock
unfolding serve_acquire
locked_lem id lock e = rw (e, serve_acquire) refl

released_lem :
    (lock : ServerLock)
    → ((serve_release lock).reply ≡ LockStatus.ok) × ((serve_release lock).lock.client_holding ≡ [])
released_lem lock =
    either lock.clients_queue lock.server_state lock.client_holding lock.client_retrying

-- The sending may come too late: when `id` asks for a lock that `o` holds and `o` releases it before the
-- holder's name is read, the revoke is addressed to the empty name.
pub revoke_misdirected :
    (s : LockServer) (lid : ℕ) (o id : Bytes) (lock : ServerLock)
    → s.lock_manager lid ≡ some lock
    → lock.server_state ≡ ServerState.locked
    → (send after : Send) × (t : LockServer) × (u : LockServer) × (acquire lid id s
        ≡ done ((LockStatus.retry, send), t))
      × (release lid o t ≡ done ((LockStatus.ok, after), u))
      × (deliver lid send u ≡ some (revoke_to []))
unfolding acquire release deliver
revoke_misdirected s lid o id lock e locked =
    let asked = serve_acquire id lock in
    let freed = serve_release asked.lock in
    let t : LockServer = record s { lock_manager = update s.lock_manager lid (some asked.lock) } in
    let u : LockServer = record t { lock_manager = update t.lock_manager lid (some freed.lock) } in
    (
      revoke_holder,
      freed.send,
      t,
      u,
      acquire_there s lid id lock e ∙ rw (locked_lem id lock locked) refl,
      release_there t lid o asked.lock (update_self s.lock_manager lid (some asked.lock))
          ∙ rw (released_lem asked.lock).0 refl,
      rw (lock_of, update_self t.lock_manager lid (some freed.lock), (released_lem asked.lock).1)
          refl,
    )
