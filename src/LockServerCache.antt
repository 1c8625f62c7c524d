-- ===== src/LockServerCache.antt =====
-- class lock_server_cache of lock_server_cache.h and lock_server_cache.cc. A method is its critical
-- section, a process over the state, and then one message at most, sent with the mutex released.
-- `revoke` and `retry` of lock_protocol.h are the messages; the thread that sends one may be
-- overtaken by others before it does.
pub mod Locks
pub mod Acquiring
pub mod Releasing
pub mod Clients
pub mod Exclusion
pub mod Messages
mod Tests
use cse_yet_another_file_sys.Prelude.{
  ℕ, Bool, true, false, Option, none, some, List, [], ◌∷◌, Exec, Outcome, done, exited, fault,
  update,
}
use cse_yet_another_file_sys.Bytes.{Bytes}
use cse_yet_another_file_sys.Ids.{same_id, set_insert}

-- `enum xxstatus` of lock_protocol.
pub data LockStatus : Type 0 where
  ok retry rpcerr noent ioerr : LockStatus

-- `enum server_states_t`, whose first value is `none`.
pub data ServerState : Type 0 where
  unlocked locked revoking retrying : ServerState

pub record ServerLock : Type 0 where
  pub server_state : ServerState
  pub client_holding : Bytes
  pub client_retrying : Bytes
  pub clients_queue : List Bytes

-- A key without a lock is one whose pointer is NULL. The constructor leaves `nacquire` as it is.
pub record LockServer : Type 0 where
  pub nacquire : ℕ
  pub lock_manager : ℕ → Option ServerLock

pub data Message : Type 0 where
  revoke_to retry_to : Bytes → Message

-- What is left to send after the mutex is released; the holder's name is read only then.
pub data Send : Type 0 where
  nothing : Send
  revoke_holder : Send
  message : Message → Send

pub record Served : Type 0 where
  pub reply : LockStatus
  pub send : Send
  pub lock : ServerLock

abbrev pub lock_server_init : ℕ → LockServer
lock_server_init nacquire = record { nacquire = nacquire; lock_manager = λ lid. none }

-- `new server_lock` with its state set.
abbrev pub new_lock : ServerLock
new_lock = record {
  server_state = ServerState.unlocked;
  client_holding = [];
  client_retrying = [];
  clients_queue = [];
}

abbrev pub lock_of : LockServer → ℕ → ServerLock
lock_of s lid = elim (s.lock_manager lid) [ none ↦ new_lock | some lock ↦ lock ]

abbrev pub enqueue : Bytes → ServerState → Send → ServerLock → Served
enqueue id state send lock = record {
  reply = LockStatus.retry;
  send = send;
  lock = record lock { server_state = state; clients_queue = set_insert id lock.clients_queue };
}

abbrev grant : Bytes → ServerState → Send → ServerLock → Served
grant id state send lock = record {
  reply = LockStatus.ok;
  send = send;
  lock = record lock { client_holding = id; server_state = state };
}

-- The client that was told to retry: it gets the lock, and loses it at once if others wait.
abbrev pub retried : Bytes → ServerLock → Served
retried id lock = elim lock.clients_queue [
  | [] ↦ grant id ServerState.locked nothing (record lock { client_retrying = [] })
  | x ∷ xs ↦
      grant id ServerState.revoking (message (revoke_to id)) (record lock { client_retrying = [] })
]

-- The `switch` of `acquire`.
unfoldable pub serve_acquire : Bytes → ServerLock → Served
unfolding same_id set_insert
serve_acquire id lock = elim lock.server_state [
  | ServerState.unlocked ↦ grant id ServerState.locked nothing lock
  | ServerState.locked ↦ enqueue id ServerState.revoking revoke_holder lock
  | ServerState.revoking ↦ enqueue id ServerState.revoking nothing lock
  | ServerState.retrying ↦ elim (same_id id lock.client_retrying) [
    | true ↦ retried id lock
    | false ↦ enqueue id ServerState.retrying nothing lock
  ]
]

-- `release` on a lock that is there. The client that calls is not looked at.
unfoldable pub serve_release : ServerLock → Served
serve_release lock = elim lock.clients_queue [
  | [] ↦ record {
    reply = LockStatus.ok;
    send = nothing;
    lock = record lock { client_holding = []; server_state = ServerState.unlocked };
  }
  | next ∷ rest ↦ record {
    reply = LockStatus.ok;
    send = message (retry_to next);
    lock = record {
      server_state = ServerState.retrying;
      client_holding = [];
      client_retrying = next;
      clients_queue = rest;
    };
  }
]

abbrev keep : LockServer → ℕ → Served → Outcome ((LockStatus × Send) × LockServer)
keep s lid served = done (
  (served.reply, served.send),
  record s { lock_manager = update s.lock_manager lid (some served.lock) },
)

unfoldable pub acquire : ℕ → Bytes → Exec LockServer (LockStatus × Send)
unfolding serve_acquire
acquire lid id s = keep s lid (serve_acquire id (lock_of s lid))

-- A lock that was never acquired is a NULL pointer.
unfoldable pub release : ℕ → Bytes → Exec LockServer (LockStatus × Send)
unfolding serve_release
release lid id s = elim (s.lock_manager lid) [
  | none ↦ fault
  | some lock ↦ keep s lid (serve_release lock)
]

-- The sending, in the state that it finds.
unfoldable pub deliver : ℕ → Send → LockServer → Option Message
deliver lid nothing s = none
deliver lid revoke_holder s = some (revoke_to (lock_of s lid).client_holding)
deliver lid (message m) s = some m

unfoldable pub stat : ℕ → Exec LockServer (LockStatus × ℕ)
stat lid s = done ((LockStatus.ok, s.nacquire), s)
