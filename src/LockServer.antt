-- ===== src/LockServer.antt =====
-- class lock_server of lock_server.h and lock_server.cc: locks with a condition variable each. A handler runs
-- under the mutex up to its end or to its wait, and from there again when it is woken.
pub mod Safety
pub mod Threads
mod Tests
use cse_yet_another_file_sys.Prelude.{
  ℕ, Bool, true, false, Option, none, some, Exec, done, fault, update,
}

-- `locked` and `conditions` have the same keys once a lock was acquired; a key that is in neither is `none`.
pub record LockTable : Type 0 where
  pub nacquire : ℕ
  pub locked : ℕ → Option Bool

-- How far a call of `acquire` comes.
pub data Progress : Type 0 where
  granted waits : Progress

abbrev pub lock_table_init : LockTable
lock_table_init = record { nacquire = 0; locked = λ lid. none }

unfoldable pub lock : ℕ → LockTable → LockTable
lock lid s = record s { locked = update s.locked lid (some true) }

unfoldable pub unlock : ℕ → LockTable → LockTable
unlock lid s = record s { locked = update s.locked lid (some false) }

-- From the start of `acquire`.
unfoldable pub acquire_enter : ℕ → Exec LockTable Progress
unfolding lock
acquire_enter lid s = elim (s.locked lid) [
  | none ↦ done (Progress.granted, lock lid s)
  | some false ↦ done (Progress.granted, lock lid s)
  | some true ↦ done (Progress.waits, s)
]

-- From the end of `pthread_cond_wait`, which may also return without a signal.
unfoldable pub acquire_wake : ℕ → Exec LockTable Progress
unfolding lock
acquire_wake lid s = elim (s.locked lid) [
  | some true ↦ done (Progress.waits, s)
  | _ ↦ done (Progress.granted, lock lid s)
]

-- Without a condition variable for the lock, the signal is on a NULL pointer.
unfoldable pub release : ℕ → Exec LockTable Unit
unfolding unlock
release lid s = elim (s.locked lid) [ none ↦ fault | some b ↦ done (tt, unlock lid s) ]

unfoldable pub stat : ℕ → Exec LockTable ℕ
stat lid s = done (s.nacquire, s)
