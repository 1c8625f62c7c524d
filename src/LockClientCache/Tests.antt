-- ===== src/LockClientCache/Tests.antt =====
-- Runs of the sections of lock_client_cache.cc, and the use of the theorems at them.
use cse_yet_another_file_sys.Prelude.{ℕ, ◌≡◌, ◌≢◌, refl, Bool, true, false, none, fault}
use cse_yet_another_file_sys.LockServerCache.{LockStatus}
use cse_yet_another_file_sys.LockClientCache.{
  ClientState, ServerResponse, acquire_enter, rpc_reply, take_turn, release,
}
use cse_yet_another_file_sys.LockClientCache.Threads.{
  Stage, Client, ran, enter, reply, Reach, begin, next, start,
}
use cse_yet_another_file_sys.LockClientCache.Exclusion.{
  one_thread, acquire_sound, retried_then_revoked, retry_replaced, spurious_wakeup,
}

-- Thread 1 asks the server.
abbrev asking : Client
asking = ran start 1 (acquire_enter 1 start.lock)

Reach-asking : {polite : Bool} → Reach polite asking
Reach-asking = next begin (enter 1 refl refl)

-- It has the lock, and thread 2 waits for its turn.
abbrev granted : Client
granted = ran asking 1 (rpc_reply LockStatus.ok asking.lock)

abbrev contended : Client
contended = ran granted 2 (acquire_enter 2 granted.lock)

Reach-contended : {polite : Bool} → Reach polite contended
unfolding acquire_enter rpc_reply
Reach-contended = next (next Reach-asking (reply 1 LockStatus.ok refl refl)) (enter 2 refl refl)

one_thread_example : ◌≡◌ {A = ℕ} 1 1
unfolding acquire_enter rpc_reply
one_thread_example = one_thread {s = contended} 1 1 Reach-contended refl refl

acquire_sound_example :
    (contended.stuck ≡ false)
    × ((c : ℕ) → contended.stage c ≢ Stage.failed)
    × ((c : ℕ) → contended.stage c ≡ Stage.owner → contended.lock.client_state ≡ ClientState.locked)
acquire_sound_example = acquire_sound {s = contended} Reach-contended

retry_replaced_example :
    let u = retried_then_revoked asking in
    let v = ran u 1 (rpc_reply LockStatus.retry u.lock) in
    Reach true v × (v.stage 1 ≡ Stage.retrying) × (v.lock.server_response ≡ ServerResponse.revoke)
unfolding acquire_enter
retry_replaced_example = retry_replaced {s = asking} 1 Reach-asking refl

spurious_wakeup_example :
    let t = ran contended 2 (take_turn contended.lock) in
    (t.stage 1 ≡ Stage.owner) × (t.stage 2 ≡ Stage.owner) × (◌≢◌ {A = ℕ} 1 2)
unfolding acquire_enter rpc_reply
spurious_wakeup_example = spurious_wakeup {s = contended} 1 2 Reach-contended refl refl

-- A release of a lock that the client never asked for goes through a NULL pointer.
no_lock : release 3 (λ lid. none) ≡ fault
unfolding release
no_lock = refl
