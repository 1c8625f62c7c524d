-- ===== src/LockServerCache/Clients.antt =====
-- The clients of lock_server_cache.cc, interleaved in any order. A client asks for a lock that it does
-- not own (it retries by asking again), decides to give one up, and calls `release` for it; the
-- server serves one request at a time, under its mutex.
use cse_yet_another_file_sys.Prelude.{
  ℕ, Option-cases, ◌≡◌, ◌≢◌, refl, ap, sym, ◌∙◌, subst, Bool, true, false, Option, none, some,
  arith, inl, inr, Bool-cases, ==_iff, ◌==◌, update, update_self, Outcome, done, exited, fault,
}
use cse_yet_another_file_sys.Bytes.{Bytes}
use cse_yet_another_file_sys.Ids.{same_id}
use cse_yet_another_file_sys.Ids.Laws.{same_id_iff}
use cse_yet_another_file_sys.LockServerCache.{
  LockStatus, ServerLock, LockServer, Send, nothing, lock_server_init, new_lock, lock_of, acquire,
  release, serve_acquire, serve_release,
}
use cse_yet_another_file_sys.LockServerCache.Locks.{
  Phase, owns, waits, Phases, move, told, Agrees, new_lock-Agrees,
}
use cse_yet_another_file_sys.LockServerCache.Acquiring.{serve_acquire-Agrees}
use cse_yet_another_file_sys.LockServerCache.Releasing.{releases}

pub record System : Type 0 where
  pub server : LockServer
  pub phase : ℕ → Phases

abbrev pub with_phase : System → ℕ → Bytes → Phase → ℕ → Phases
with_phase s lid id p = update s.phase lid (move (s.phase lid) id p)

pub data Step (s : System) : System → Type 0 where
  ask :
      (lid : ℕ) (id : Bytes) {reply : LockStatus} {send : Send} {t : LockServer}
      → owns (s.phase lid id) ≡ false
      → acquire lid id s.server ≡ done ((reply, send), t)
      → Step s (record { server = t; phase = with_phase s lid id (told reply) })
  give_up :
      (lid : ℕ) (id : Bytes)
      → s.phase lid id ≡ Phase.holds
      → Step s (record s { phase = with_phase s lid id Phase.releasing })
  give_back :
      (lid : ℕ) (id : Bytes) {reply : LockStatus} {send : Send} {t : LockServer}
      → s.phase lid id ≡ Phase.releasing
      → release lid id s.server ≡ done ((reply, send), t)
      → Step s (record { server = t; phase = with_phase s lid id Phase.out })

-- The server as it is constructed, whatever the memory of `nacquire` holds.
abbrev pub start : ℕ → System
start nacquire = record { server = lock_server_init nacquire; phase = λ lid c. Phase.out }

pub data Reach (nacquire : ℕ) : System → Type 0 where
  begin : Reach nacquire (start nacquire)
  next : {s t : System} → Reach nacquire s → Step s t → Reach nacquire t

abbrev pub Consistent : System → Type 0
Consistent s = (lid : ℕ) → Agrees (lock_of s.server lid) (s.phase lid)

-- A call changes one lock and one lock's phases.
at_lock :
    (s : System) (t : LockServer) (lid : ℕ) (lock : ServerLock) (phases : Phases)
    → t.lock_manager ≡ update s.server.lock_manager lid (some lock)
    → Consistent s
    → Agrees lock phases
    → Consistent (record { server = t; phase = update s.phase lid phases })
at_lock s t lid lock phases e c a other = elim (Bool-cases (lid == other)) [
  | inl y ↦ rw (e, lock_of, update, y) a
  | inr n ↦ rw (e, lock_of, update, n) (c other)
]

abbrev pub manager_of :
    LockServer → Outcome ((LockStatus × Send) × LockServer) → ℕ → Option ServerLock
manager_of s (done (r, t)) = t.lock_manager
manager_of s exited = s.lock_manager
manager_of s fault = s.lock_manager

abbrev pub reply_of : Outcome ((LockStatus × Send) × LockServer) → LockStatus
reply_of (done (r, t)) = r.0
reply_of exited = LockStatus.rpcerr
reply_of fault = LockStatus.rpcerr

abbrev pub send_of : Outcome ((LockStatus × Send) × LockServer) → Send
send_of (done (r, t)) = r.1
send_of exited = nothing
send_of fault = nothing

owned_new : (phase : Phases) (id : Bytes) → Agrees new_lock phase → owns (phase id) ≢ true
owned_new phase id a h = ground (arith, a.owners id)

-- A client that owns a lock has a lock that is there.
pub owned_there :
    (s : System) (lid : ℕ) (id : Bytes)
    → Consistent s
    → owns (s.phase lid id) ≡ true
    → (lock : ServerLock) × (s.server.lock_manager lid ≡ some lock)
owned_there s lid id c h = elim (Option-cases (s.server.lock_manager lid)) [
  | inl e ↦ absurd (
      owned_new (s.phase lid) id
        (subst
          (λ (o : Option ServerLock).
            Agrees (elim o [ none ↦ new_lock | some lock ↦ lock ]) (s.phase lid))
          e (c lid))
        h)
  | inr (lock, e) ↦ (lock, e)
]

-- What `acquire` answers on a lock that is there.
pub acquire_there :
    (s : LockServer) (lid : ℕ) (id : Bytes) (lock : ServerLock)
    → s.lock_manager lid ≡ some lock
    → acquire lid id s
      ≡ done (
        ((serve_acquire id lock).reply, (serve_acquire id lock).send),
        record s { lock_manager = update s.lock_manager lid (some (serve_acquire id lock).lock) },
      )
unfolding acquire
acquire_there s lid id lock e = rw (lock_of, e) refl

-- What `release` answers on a lock that is there.
pub release_there :
    (s : LockServer) (lid : ℕ) (id : Bytes) (lock : ServerLock)
    → s.lock_manager lid ≡ some lock
    → release lid id s
      ≡ done (
        ((serve_release lock).reply, (serve_release lock).send),
        record s { lock_manager = update s.lock_manager lid (some (serve_release lock).lock) },
      )
unfolding release
release_there s lid id lock e = rw (e, release) refl

-- A decision to give the lock up is the client's own.
give_up-Agrees :
    (lock : ServerLock) (phase : Phases) (id : Bytes)
    → phase id ≡ Phase.holds
    → Agrees lock phase
    → Agrees lock (move phase id Phase.releasing)
give_up-Agrees lock phase id h a = record {
  sorted = a.sorted;
  fits = a.fits;
  apart = a.apart;
  owners = λ c. same owns refl c ∙ a.owners c;
  waiters = λ c. same waits refl c ∙ a.waiters c;
}
  where
    same :
        (f : Phase → Bool)
        → f Phase.releasing ≡ f Phase.holds
        → (c : Bytes) → f (move phase id Phase.releasing c) ≡ f (phase c)
    same f e c = elim (Bool-cases (same_id c id)) [
      | inl y ↦
          rw (y, move) (e ∙ ap f (sym h) ∙ ap (λ d. f (phase d)) (sym ((same_id_iff c id).0 y)))
      | inr n ↦ rw (n, move) refl
    ]

Step-Consistent : {s t : System} → Consistent s → Step s t → Consistent t
unfolding acquire
Step-Consistent {s} c (ask lid id {reply} {send} {t} free e) =
    at_lock s t lid _ _ (sym (ap (manager_of s.server) e)) c (
      subst
        (λ r.
          Agrees (serve_acquire id (lock_of s.server lid)).lock (move (s.phase lid) id (told r)))
        (ap reply_of e) (serve_acquire-Agrees id (s.phase lid) free (lock_of s.server lid) (c lid)))
Step-Consistent {s} c (give_up lid id h) = λ other. elim (Bool-cases (lid == other)) [
  | inl y ↦
      let here : lid ≡ other = (==_iff lid other).0 y in
      subst (λ k. Agrees (lock_of s.server k) (with_phase s lid id Phase.releasing k)) here
        (subst (Agrees (lock_of s.server lid)) (sym (update_self s.phase lid _))
          (give_up-Agrees (lock_of s.server lid) (s.phase lid) id h (c lid)))
  | inr n ↦ rw (update, n) (c other)
]
Step-Consistent {s} c (give_back lid id {reply} {send} {t} h e) =
    let owner : owns (s.phase lid id) ≡ true = ap owns h in
    let (lock, there) = owned_there s lid id c owner in
    let e' = sym (release_there s.server lid id lock there) ∙ e in
    let a =
      subst
        (λ (o : Option ServerLock).
          Agrees (elim o [ none ↦ new_lock | some lock ↦ lock ]) (s.phase lid))
        there (c lid) in
    at_lock s t lid (serve_release lock).lock _ (sym (ap (manager_of s.server) e')) c (
      releases id (s.phase lid) owner lock.server_state lock.client_holding lock.client_retrying
        lock.clients_queue a)

start-Consistent : (nacquire : ℕ) → Consistent (start nacquire)
start-Consistent nacquire lid = new_lock-Agrees

-- Whatever the clients do in whatever order, every lock agrees with its clients: the ones that were told
-- OK and have not released are the holder alone, and the ones that were told RETRY are those in the
-- queue and the one that was told to retry.
pub Reach-Consistent : {nacquire : ℕ} {s : System} → Reach nacquire s → Consistent s
Reach-Consistent {nacquire} begin = start-Consistent nacquire
Reach-Consistent {nacquire} (next r step) = Step-Consistent (Reach-Consistent r) step
