-- ===== src/LockClientCache.antt =====
-- class lock_client_cache of lock_client_cache.h and lock_client_cache.cc: a client keeps a lock until the server
-- asks for it back, and its threads queue for it. A method is cut where it lets go of the mutex: at a
-- remote call, at a wait and at its end. A thread's condition variable is its name.
pub mod Threads
pub mod Lines
pub mod Holding
pub mod Giving
pub mod Stepping
pub mod Exclusion
mod Tests
use cse_yet_another_file_sys.Prelude.{
  ℕ, Bool, true, false, ◌&&◌, leb, List, [], ◌∷◌, ◌++◌, length, Option, none, some, Outcome, done,
  exited, fault, Exec, update, if◌then◌else◌,
}
use cse_yet_another_file_sys.LockServerCache.{LockStatus}

-- `enum client_states_t`.
pub data ClientState : Type 0 where
  unowned free locked acquiring releasing : ClientState

-- `enum server_response_t`. RETRY is never stored.
pub data ServerResponse : Type 0 where
  empty revoke retry retry_refused : ServerResponse

pub record CachedLock : Type 0 where
  pub threads_queue : List ℕ
  pub client_state : ClientState
  pub server_response : ServerResponse

-- Where a section of a method ends: it returns (`acquire` with OK), it returns NOENT and keeps the mutex, it
-- calls the server with the mutex released, or it waits.
pub data Pause : Type 0 where
  returns : Pause
  fails : Pause
  calls_acquire : Pause
  calls_release : Pause
  waits_turn : Pause
  waits_release : Pause
  waits_retry : Pause

-- The end of a section, and the condition variable that it signalled.
pub record Section : Type 0 where
  pub pause : Pause
  pub signalled : Option ℕ

abbrev pub quiet : Pause → Section
quiet p = record { pause = p; signalled = none }

-- `new client_cached_lock()` zeroes its members.
abbrev pub new_cached_lock : CachedLock
new_cached_lock = record {
  threads_queue = [];
  client_state = ClientState.unowned;
  server_response = ServerResponse.empty;
}

abbrev pub is_retry : ServerResponse → Bool
is_retry ServerResponse.retry = true
is_retry _ = false

abbrev pub is_revoke : ServerResponse → Bool
is_revoke ServerResponse.revoke = true
is_revoke _ = false

abbrev pub is_free : ClientState → Bool
is_free ClientState.free = true
is_free _ = false

abbrev pub with_state : ClientState → CachedLock → CachedLock
with_state state l = record l { client_state = state }

-- The signal to the first thread of a queue.
abbrev pub front : List ℕ → Option ℕ
front [] = none
front (c ∷ cs) = some c

-- `rpc_acquire` up to its call.
unfoldable pub rpc_start : CachedLock → Section × CachedLock
rpc_start l = (quiet calls_acquire, with_state ClientState.acquiring l)

-- The end of a round of its loop, and the test of the next: it returns NOENT without unlocking.
unfoldable pub rpc_again : CachedLock → Section × CachedLock
rpc_again l =
    let l' = record l { server_response = ServerResponse.empty } in
    elim l.client_state [
      | ClientState.acquiring ↦ (quiet calls_acquire, l')
      | _ ↦ (quiet fails, l')
    ]

-- From the reply to the call on.
unfoldable pub rpc_reply : LockStatus → CachedLock → Section × CachedLock
unfolding rpc_again
rpc_reply LockStatus.ok l = (quiet returns, with_state ClientState.locked l)
rpc_reply ret l = if is_retry l.server_response then rpc_again l else (quiet waits_retry, l)

-- The first `switch` of `acquire`: the queue was empty. The default case returns without unlocking.
unfoldable pub enter_alone : ClientState → CachedLock → Section × CachedLock
unfolding rpc_start
enter_alone ClientState.unowned l = rpc_start l
enter_alone ClientState.free l = (quiet returns, with_state ClientState.locked l)
enter_alone ClientState.releasing l = (quiet waits_release, l)
enter_alone _ l = (quiet fails, l)

-- `acquire` up to its first wait or call.
unfoldable pub acquire_enter : ℕ → CachedLock → Section × CachedLock
unfolding enter_alone
acquire_enter cond l =
    let l' = record l { threads_queue = l.threads_queue ++ (cond ∷ []) } in
    elim l.threads_queue [ [] ↦ enter_alone l.client_state l' | c ∷ cs ↦ (quiet waits_turn, l') ]

-- The second `switch` of `acquire`, after the wait for the thread's turn.
unfoldable pub take_turn : CachedLock → Section × CachedLock
unfolding rpc_start
take_turn l = elim l.client_state [
  | ClientState.unowned ↦ rpc_start l
  | ClientState.free ↦ (quiet returns, with_state ClientState.locked l)
  | ClientState.locked ↦ (quiet returns, with_state ClientState.locked l)
  | _ ↦ (quiet fails, l)
]

-- The end of `release`: the thread leaves the queue, whose front must be there, and the next one is signalled.
unfoldable pub leave : Bool → CachedLock → Outcome (Section × CachedLock)
leave still_cached l = elim l.threads_queue [
  | [] ↦ fault
  | c ∷ [] ↦ done (quiet returns, record l { threads_queue = [] })
  | c ∷ d ∷ cs ↦ done (
    record { pause = returns; signalled = some d },
    record {
      threads_queue = d ∷ cs;
      client_state = if still_cached then ClientState.locked else l.client_state;
      server_response = l.server_response;
    },
  )
]

unfoldable pub release_enter : CachedLock → Outcome (Section × CachedLock)
unfolding leave
release_enter l =
    if is_revoke l.server_response && leb (length l.threads_queue) 1
    then done (quiet calls_release, with_state ClientState.releasing l)
    else leave true (with_state ClientState.free l)

-- From the reply to the call of `release` on.
unfoldable pub release_reply : CachedLock → Outcome (Section × CachedLock)
unfolding leave
release_reply l =
    leave false
      (record l { client_state = ClientState.unowned; server_response = ServerResponse.empty })

unfoldable pub revoke_enter : CachedLock → Section × CachedLock
revoke_enter l =
    if is_free l.client_state && leb (length l.threads_queue) 1
    then (quiet calls_release, with_state ClientState.releasing l)
    else (quiet returns, record l { server_response = ServerResponse.revoke })

-- From the reply to the call of `revoke_handler` on.
unfoldable pub revoke_reply : CachedLock → Section × CachedLock
revoke_reply l = (
  record { pause = returns; signalled = front l.threads_queue },
  with_state ClientState.unowned l,
)

unfoldable pub retry_enter : CachedLock → Section × CachedLock
retry_enter l = (
  record { pause = returns; signalled = front l.threads_queue },
  record l { server_response = ServerResponse.retry },
)

-- `lock_cache`; the locks are never deleted.
abbrev pub LockCache : Type 0
LockCache = ℕ → Option CachedLock

abbrev pub or_new : Option CachedLock → CachedLock
or_new none = new_cached_lock
or_new (some l) = l

-- `acquire` makes the lock where there is none.
unfoldable pub acquire : ℕ → ℕ → Exec LockCache Section
unfolding acquire_enter
acquire lid cond cache =
    let (section, l) = acquire_enter cond (or_new (cache lid)) in
    done (section, update cache lid (some l))

-- The other sections access the lock through its pointer, which is NULL where there is none.
unfoldable pub on_lock : ℕ → (CachedLock → Outcome (Section × CachedLock)) → Exec LockCache Section
on_lock lid step cache = elim (cache lid) [
  | none ↦ fault
  | some l ↦ elim (step l) [
    | done (section, l') ↦ done (section, update cache lid (some l'))
    | exited ↦ exited
    | fault ↦ fault
  ]
]

unfoldable pub release : ℕ → Exec LockCache Section
unfolding on_lock release_enter
release lid = on_lock lid release_enter

unfoldable pub revoke_handler : ℕ → Exec LockCache Section
unfolding on_lock revoke_enter
revoke_handler lid = on_lock lid (λ l. done (revoke_enter l))

unfoldable pub retry_handler : ℕ → Exec LockCache Section
unfolding on_lock retry_enter
retry_handler lid = on_lock lid (λ l. done (retry_enter l))
