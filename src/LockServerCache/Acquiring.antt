-- ===== src/LockServerCache/Acquiring.antt =====
-- `acquire` of lock_server_cache.cc keeps a lock and its clients in agreement, in each of the four states.
use cse_yet_another_file_sys.Prelude.{
  ◌≡◌, refl, sym, subst, true, false, ◌&&◌, not, List, [], ◌∷◌, arith, inl, inr, Bool-cases,
}
use cse_yet_another_file_sys.Bytes.{Bytes}
use cse_yet_another_file_sys.Ids.{same_id, set_insert, member}
use cse_yet_another_file_sys.Ids.Laws.{same_id_iff}
use cse_yet_another_file_sys.LockServerCache.{
  ServerState, ServerLock, Served, serve_acquire, retried, enqueue, nothing,
}
use cse_yet_another_file_sys.LockServerCache.Locks.{
  owns, Phases, move, told, is_waiter, Agrees, lock_with, or_false, still_some, queued-Agrees,
  granted-Agrees,
}

module _ (id : Bytes) (phase : Phases) where
  -- `acquire` by a client that does not own the lock.
  Keeps : ServerLock → Type 0
  Keeps lock =
      Agrees lock phase
      → Agrees (serve_acquire id lock).lock (move phase id (told (serve_acquire id lock).reply))

  module _ (free : owns (phase id) ≡ false) where
    serve_unlocked : (h r : Bytes) (q : List Bytes) → Keeps (lock_with ServerState.unlocked h r q)
    unfolding serve_acquire Keeps member
    serve_unlocked h r [] a =
        granted-Agrees id phase ServerState.unlocked ServerState.locked h r r [] refl refl refl refl
          (λ c. ground arith) a
    serve_unlocked h r (x ∷ xs) a = ground (arith, a.fits)

    serve_locked : (h r : Bytes) (q : List Bytes) → Keeps (lock_with ServerState.locked h r q)
    unfolding serve_acquire Keeps set_insert
    serve_locked h r [] a =
        queued-Agrees id phase ServerState.locked ServerState.revoking h r [] refl refl refl refl
          free a
    serve_locked h r (x ∷ xs) a = ground (arith, a.fits)

    serve_revoking : (h r : Bytes) (q : List Bytes) → Keeps (lock_with ServerState.revoking h r q)
    unfolding serve_acquire Keeps set_insert
    serve_revoking h r q a =
        queued-Agrees id phase ServerState.revoking ServerState.revoking h r q refl refl
          (still_some id q) refl free a

    -- The client that was told to retry is the only waiter outside the queue.
    rest_waits :
        (h r : Bytes) (q : List Bytes)
        → same_id id r ≡ true
        → member r q ≡ false
        → (c : Bytes)
        → not (same_id c id) && is_waiter (lock_with ServerState.retrying h r q) c ≡ member c q
    rest_waits h r q told apart c =
        let e : id ≡ r = (same_id_iff id r).0 told in
        elim (Bool-cases (same_id c r)) [
          | inl y ↦ let f : c ≡ r = (same_id_iff c r).0 y in rw (e, y, f, apart) refl
          | inr n ↦ rw (e, n) (or_false (member c q))
        ]

    After : Served → Type 0
    After served = Agrees served.lock (move phase id (told served.reply))

    serve_told :
        (h r : Bytes) (q : List Bytes)
        → same_id id r ≡ true
        → Agrees (lock_with ServerState.retrying h r q) phase
        → After (retried id (lock_with ServerState.retrying h r q))
    unfolding After
    serve_told h r [] y a =
        granted-Agrees id phase ServerState.retrying ServerState.locked h r [] [] refl refl refl
          refl (rest_waits h r [] y a.apart) a
    serve_told h r (x ∷ xs) y a =
        granted-Agrees id phase ServerState.retrying ServerState.revoking h r [] (x ∷ xs) refl refl
          refl refl (rest_waits h r (x ∷ xs) y a.apart) a

    serve_retrying : (h r : Bytes) (q : List Bytes) → Keeps (lock_with ServerState.retrying h r q)
    unfolding serve_acquire Keeps After
    serve_retrying h r q a = elim (Bool-cases (same_id id r)) [
      | inl y ↦
          let e : serve_acquire id (lock_with ServerState.retrying h r q)
              ≡ retried id (lock_with ServerState.retrying h r q) =
            rw (y, serve_acquire) refl in
          subst After (sym e) (serve_told h r q y a)
      | inr n ↦
          let e : serve_acquire id (lock_with ServerState.retrying h r q)
              ≡ enqueue id ServerState.retrying nothing (lock_with ServerState.retrying h r q) =
            rw (n, serve_acquire) refl in
          subst After (sym e) (
            queued-Agrees id phase ServerState.retrying ServerState.retrying h r q refl refl refl n
              free a)
    ]

    serve_any : (st : ServerState) (h r : Bytes) (q : List Bytes) → Keeps (lock_with st h r q)
    serve_any ServerState.unlocked h r q = serve_unlocked h r q
    serve_any ServerState.locked h r q = serve_locked h r q
    serve_any ServerState.revoking h r q = serve_revoking h r q
    serve_any ServerState.retrying h r q = serve_retrying h r q

    pub serve_acquire-Agrees :
        (lock : ServerLock)
        → Agrees lock phase
        → Agrees (serve_acquire id lock).lock (move phase id (told (serve_acquire id lock).reply))
    unfolding Keeps
    serve_acquire-Agrees lock a =
        serve_any lock.server_state lock.client_holding lock.client_retrying lock.clients_queue a
