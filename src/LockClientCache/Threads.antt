-- ===== src/LockClientCache/Threads.antt =====
-- The threads of a client that use one of its locks, with the messages of the server: their sections run one at a
-- time, in any order. A wait ends only by a signal.
use cse_yet_another_file_sys.Prelude.{
  ℕ, suc, ◌+◌, ◌≡◌, Bool, true, false, Option, none, some, update, done,
}
use cse_yet_another_file_sys.LockServerCache.{LockStatus}
use cse_yet_another_file_sys.LockClientCache.{
  ClientState, CachedLock, Pause, Section, new_cached_lock, returns, fails, calls_acquire,
  calls_release, waits_turn, waits_release, waits_retry, acquire_enter, take_turn, rpc_start,
  rpc_again, rpc_reply, release_enter, release_reply, revoke_enter, revoke_reply, retry_enter,
}

-- Where a thread is. `failed` is in none of the methods, but it kept the mutex.
pub data Stage : Type 0 where
  idle calling turn turn_signalled giving giving_signalled retrying retrying_signalled owner handing
        failed :
      Stage

-- What the section of an `acquire` makes of its thread.
abbrev pub after : Pause → Stage
after returns = Stage.owner
after fails = Stage.failed
after calls_acquire = Stage.calling
after calls_release = Stage.handing
after waits_turn = Stage.turn
after waits_release = Stage.giving
after waits_retry = Stage.retrying

-- What the section of a `release` makes of its thread.
abbrev pub after_release : Pause → Stage
after_release calls_release = Stage.handing
after_release _ = Stage.idle

abbrev pub is_calling : Pause → ℕ
is_calling calls_release = 1
is_calling _ = 0

-- A signal wakes a thread that waits, and is lost otherwise.
abbrev pub woken : Stage → Stage
woken Stage.turn = Stage.turn_signalled
woken Stage.giving = Stage.giving_signalled
woken Stage.retrying = Stage.retrying_signalled
woken p = p

abbrev pub wake : Option ℕ → (ℕ → Stage) → ℕ → Stage
wake none stage = stage
wake (some c) stage = update stage c (woken (stage c))

abbrev pub is_failed : Pause → Bool
is_failed fails = true
is_failed _ = false

-- `revokes` counts the revoke handlers that are in their call; in a `stuck` client the mutex is held for ever.
pub record Client : Type 0 where
  pub lock : CachedLock
  pub stage : ℕ → Stage
  pub revokes : ℕ
  pub stuck : Bool

-- A thread has run a section of its `acquire`.
abbrev pub ran : Client → ℕ → Section × CachedLock → Client
ran s c (section, l) = record s {
  lock = l;
  stage = wake section.signalled (update s.stage c (after section.pause));
  stuck = is_failed section.pause;
}

-- A thread has run a section of its `release`.
abbrev pub gave : Client → ℕ → Section → CachedLock → Client
gave s c section l = record s {
  lock = l;
  stage = wake section.signalled (update s.stage c (after_release section.pause));
}

-- A handler has run a section.
abbrev pub served : Client → ℕ → Section × CachedLock → Client
served s revokes (section, l) = record s {
  lock = l;
  stage = wake section.signalled s.stage;
  revokes = revokes;
}

-- A server that is `polite` sends a retry only while the client asks for the lock.
pub data Step (polite : Bool) (s : Client) : Client → Type 0 where
  enter :
      (c : ℕ)
      → s.stuck ≡ false
      → s.stage c ≡ Stage.idle
      → Step polite s (ran s c (acquire_enter c s.lock))
  reply :
      (c : ℕ) (ret : LockStatus)
      → s.stuck ≡ false
      → s.stage c ≡ Stage.calling
      → Step polite s (ran s c (rpc_reply ret s.lock))
  turn_comes :
      (c : ℕ)
      → s.stuck ≡ false
      → s.stage c ≡ Stage.turn_signalled
      → Step polite s (ran s c (take_turn s.lock))
  given_back :
      (c : ℕ)
      → s.stuck ≡ false
      → s.stage c ≡ Stage.giving_signalled
      → Step polite s (ran s c (rpc_start s.lock))
  retry_comes :
      (c : ℕ)
      → s.stuck ≡ false
      → s.stage c ≡ Stage.retrying_signalled
      → Step polite s (ran s c (rpc_again s.lock))
  releases :
      (c : ℕ) {section : Section} {l : CachedLock}
      → s.stuck ≡ false
      → s.stage c ≡ Stage.owner
      → release_enter s.lock ≡ done (section, l)
      → Step polite s (gave s c section l)
  released :
      (c : ℕ) {section : Section} {l : CachedLock}
      → s.stuck ≡ false
      → s.stage c ≡ Stage.handing
      → release_reply s.lock ≡ done (section, l)
      → Step polite s (gave s c section l)
  revoked :
      s.stuck ≡ false
      → Step polite s
          (served s (s.revokes + is_calling (revoke_enter s.lock).0.pause) (revoke_enter s.lock))
  revoke_ends :
      (n : ℕ)
      → s.stuck ≡ false
      → s.revokes ≡ suc n
      → Step polite s (served s n (revoke_reply s.lock))
  retried :
      s.stuck ≡ false
      → (polite ≡ true → s.lock.client_state ≡ ClientState.acquiring)
      → Step polite s (served s s.revokes (retry_enter s.lock))

abbrev pub start : Client
start = record { lock = new_cached_lock; stage = λ c. Stage.idle; revokes = 0; stuck = false }

pub data Reach (polite : Bool) : Client → Type 0 where
  begin : Reach polite start
  next : {s t : Client} → Reach polite s → Step polite s t → Reach polite t
