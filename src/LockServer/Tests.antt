-- ===== src/LockServer/Tests.antt =====
-- Runs of the handlers of lock_server.cc, and the use of the theorem at one of them.
use cse_yet_another_file_sys.Prelude.{ℕ, ◌≡◌, refl}
use cse_yet_another_file_sys.LockServer.{
  lock_table_init, lock, unlock, acquire_enter, acquire_wake, release,
}
use cse_yet_another_file_sys.LockServer.Safety.{Stage}
use cse_yet_another_file_sys.LockServer.Threads.{System, with_stage, Step, Reach, start, one_owner}

abbrev entered : System
entered = record { table = lock 7 lock_table_init; stage = with_stage start 7 1 Stage.owner }

abbrev waiting : System
waiting = record { table = entered.table; stage = with_stage entered 7 2 Stage.asleep }

Reach-waiting : Reach waiting
unfolding acquire_enter lock
Reach-waiting =
    Reach.next (Reach.next Reach.begin (Step.enter 7 1 refl refl)) (Step.enter 7 2 refl refl)

abbrev given_back : System
given_back = record { table = unlock 7 waiting.table; stage = with_stage waiting 7 1 Stage.idle }

abbrev woken : System
woken = record { table = lock 7 given_back.table; stage = with_stage given_back 7 2 Stage.owner }

Reach-woken : Reach woken
unfolding acquire_wake release unlock lock
Reach-woken =
    Reach.next (Reach.next Reach-waiting (Step.give_back 7 1 refl refl)) (Step.wake 7 2 refl refl)

one_owner_example : ◌≡◌ {A = ℕ} 2 2
one_owner_example = one_owner {s = woken} 7 2 2 Reach-woken refl refl
