-- ===== src/LockServerCache/Tests.antt =====
-- The theorems on lock_server_cache.cc at a run of two clients: the first gets lock 7, the second waits.
use cse_yet_another_file_sys.Prelude.{◌≡◌, refl, true, [], ◌∷◌, none, some, ◌⊎◌, update, done}
use cse_yet_another_file_sys.Bytes.{Bytes}
use cse_yet_another_file_sys.Ids.{order, same_id, set_insert}
use cse_yet_another_file_sys.LockServerCache.{
  LockStatus, ServerState, ServerLock, LockServer, Send, revoke_holder, message, retry_to,
  revoke_to, lock_server_init, lock_of, acquire, release, serve_acquire, deliver,
}
use cse_yet_another_file_sys.LockServerCache.Locks.{Phase, owns, waits, lock_with}
use cse_yet_another_file_sys.LockServerCache.Clients.{
  System, ask, Reach, begin, next, start, with_phase, Consistent, Reach-Consistent,
}
use cse_yet_another_file_sys.LockServerCache.Exclusion.{
  mutual_exclusion, release_hands_over, waiter_remembered,
}
use cse_yet_another_file_sys.LockServerCache.Messages.{revoke_misdirected}
use Prim.Native.Nat.{Ordering}

abbrev first : Bytes
first = b'a' ∷ []

abbrev second : Bytes
second = b'b' ∷ []

abbrev held : ServerLock
held = lock_with ServerState.locked first [] []

abbrev wanted : ServerLock
wanted = lock_with ServerState.revoking first [] (second ∷ [])

abbrev server_held : LockServer
server_held = record { nacquire = 0; lock_manager = update (λ lid. none) 7 (some held) }

abbrev server_wanted : LockServer
server_wanted = record {
  nacquire = 0;
  lock_manager = update server_held.lock_manager 7 (some wanted);
}

abbrev one : System
one = record { server = server_held; phase = with_phase (start 0) 7 first Phase.holds }

abbrev two : System
two = record { server = server_wanted; phase = with_phase one 7 second Phase.waiting }

first_asks :
    acquire 7 first (lock_server_init 0) ≡ done ((LockStatus.ok, Send.nothing), server_held)
unfolding acquire serve_acquire
first_asks = refl

second_asks : acquire 7 second server_held ≡ done ((LockStatus.retry, revoke_holder), server_wanted)
unfolding acquire serve_acquire set_insert
second_asks = refl

Reach-one : Reach 0 one
Reach-one = next begin (ask 7 first refl first_asks)

Reach-two : Reach 0 two
unfolding same_id order
Reach-two = next Reach-one (ask 7 second refl second_asks)

owner : owns (two.phase 7 first) ≡ true
unfolding same_id order
owner = refl

waiter : waits (two.phase 7 second) ≡ true
unfolding same_id order
waiter = refl

Reach-Consistent_example : Consistent two
Reach-Consistent_example = Reach-Consistent Reach-two

mutual_exclusion_example : first ≡ first
mutual_exclusion_example = mutual_exclusion 7 first first Reach-two owner owner

release_hands_over_example :
    (n : Bytes) × (send : Send) × (t : LockServer) × (u : LockServer) × (release 7 first
        server_wanted
      ≡ done ((LockStatus.ok, message (retry_to n)), t))
    × (waits (two.phase 7 n) ≡ true)
    × ((second ≡ n) ⊎ (order n second ≡ Ordering.lt))
    × (acquire 7 n t ≡ done ((LockStatus.ok, send), u))
release_hands_over_example = release_hands_over 7 first second Reach-two owner waiter

waiter_remembered_example :
    (((lock_of two.server 7).server_state ≡ ServerState.revoking)
      × (owns (two.phase 7 (lock_of two.server 7).client_holding) ≡ true))
    ⊎ (((lock_of two.server 7).server_state ≡ ServerState.retrying)
        × (waits (two.phase 7 (lock_of two.server 7).client_retrying) ≡ true))
waiter_remembered_example = waiter_remembered 7 second Reach-two waiter

revoke_misdirected_example :
    (send after : Send) × (t : LockServer) × (u : LockServer) × (acquire 7 second server_held
      ≡ done ((LockStatus.retry, send), t))
    × (release 7 first t ≡ done ((LockStatus.ok, after), u))
    × (deliver 7 send u ≡ some (revoke_to []))
revoke_misdirected_example = revoke_misdirected server_held 7 first second held refl refl
