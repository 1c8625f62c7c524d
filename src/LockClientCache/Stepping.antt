-- ===== src/LockClientCache/Stepping.antt =====
-- Every section of lock_client_cache.cc keeps what holds of the threads.
use cse_yet_another_file_sys.Prelude.{
  ℕ, suc, ◌+◌, ◌≡◌, refl, ap, sym, ◌∙◌, subst, Bool, true, false, List, [], ◌∷◌, arith, ◌&&◌, leb,
  length, Bool-cases, inl, inr, ◌⊎◌,
}
use cse_yet_another_file_sys.LockClientCache.{
  ClientState, ServerResponse, CachedLock, quiet, returns, calls_release, with_state, is_free,
  release_enter, release_reply, revoke_enter, revoke_reply, retry_enter, front,
}
use cse_yet_another_file_sys.LockClientCache.Threads.{
  Stage, woken, wake, is_calling, Client, served, Step, enter, reply, turn_comes, given_back,
  retry_comes, releases, released, revoked, revoke_ends, retried, Reach, begin, next,
}
use cse_yet_another_file_sys.LockClientCache.Lines.{InLine, front_woken}
use cse_yet_another_file_sys.LockClientCache.Holding.{
  fits, misses, Holds, moves, enters, rpc_start-Moves, take_turn-Moves, rpc_again-Moves,
  rpc_reply-Moves,
}
use cse_yet_another_file_sys.LockClientCache.Giving.{
  release_enter-Gives, release_reply-Gives, handed_fits, given_fits, gives,
}

revoke_cases :
    (l : CachedLock)
    → ((is_free l.client_state ≡ true)
        × (revoke_enter l ≡ (quiet calls_release, with_state ClientState.releasing l)))
      ⊎ (revoke_enter l ≡ (quiet returns, record l { server_response = ServerResponse.revoke }))
unfolding revoke_enter
revoke_cases l = elim (Bool-cases (is_free l.client_state && leb (length l.threads_queue) 1)) [
  | inl y ↦ inl (ground (arith, y), rw y refl)
  | inr n ↦ inr (rw n refl)
]

fits_revoked :
    (q : List ℕ) (first : Stage) (state : ClientState) (n : ℕ)
    → is_free state ≡ true
    → fits q first state n ≡ true
    → fits q first ClientState.releasing (n + 1) ≡ true
fits_revoked [] first state n y h = ground (arith, y, h)
fits_revoked (f ∷ q) first state n y h = absurd (ground (arith, y, h))

-- The stage of the first thread after a signal to it.
abbrev signal : List ℕ → Stage → Stage
signal [] first = Stage.owner
signal (f ∷ q) first = woken first

signal_line :
    (q : List ℕ) (first : Stage) (stage : ℕ → Stage)
    → InLine q first stage
    → InLine q (signal q first) (wake (front q) stage)
signal_line [] first stage h = record { stages = h.stages; distinct = tt; active = refl }
signal_line (f ∷ q) first stage h = front_woken f q first stage h

misses-signal :
    (q : List ℕ) (first : Stage) (r : ServerResponse) → misses (signal q first) r ≡ false
misses-signal [] first r = refl
misses-signal (f ∷ q) first r = ground arith

fits_finished :
    (q : List ℕ) (first : Stage) (state : ClientState) (n : ℕ)
    → fits q first state (suc n) ≡ true
    → fits q (signal q first) ClientState.unowned n ≡ true
fits_finished [] first state n h = ground (arith, h)
fits_finished (f ∷ q) first state n h = ground (arith, h)

fits_retried :
    (q : List ℕ) (first : Stage) (state : ClientState) (n : ℕ)
    → state ≡ ClientState.acquiring
    → fits q first state n ≡ true
    → fits q (signal q first) state n ≡ true
fits_retried [] first state n e h = ground (arith, e, h)
fits_retried (f ∷ q) first state n e h = ground (arith, e, h)

module _ {polite : Bool} {s : Client} (h : Holds polite s) where
  revoke_served :
      Holds polite
        (served s (s.revokes + is_calling (revoke_enter s.lock).0.pause) (revoke_enter s.lock))
  revoke_served = elim (revoke_cases s.lock) [
    | inl (y, e) ↦
        subst (λ r. Holds polite (served s (s.revokes + is_calling r.0.pause) r)) (sym e)
          (record {
            first = h.first;
            line = h.line;
            heard = h.heard;
            fitting = λ yes. (
              fits_revoked s.lock.threads_queue h.first s.lock.client_state s.revokes y
                  (h.fitting yes).0,
              (h.fitting yes).1,
            );
          })
    | inr e ↦
        subst (λ r. Holds polite (served s (s.revokes + is_calling r.0.pause) r)) (sym e)
          (record {
            first = h.first;
            line = h.line;
            heard = ground arith;
            fitting = λ yes.
                let none_more : s.revokes + 0 ≡ s.revokes = omega arith in
                (
                  ap (fits s.lock.threads_queue h.first s.lock.client_state) none_more
                      ∙ (h.fitting yes).0,
                  (h.fitting yes).1,
                );
          })
  ]

  revoke_finished : (n : ℕ) → s.revokes ≡ suc n → Holds polite (served s n (revoke_reply s.lock))
  unfolding revoke_reply
  revoke_finished n count =
      let fit = λ (yes : polite ≡ true).
        sym (ap (fits s.lock.threads_queue h.first s.lock.client_state) count)
        ∙ (h.fitting yes).0 in
      record {
        first = signal s.lock.threads_queue h.first;
        line = signal_line s.lock.threads_queue h.first s.stage h.line;
        heard = misses-signal s.lock.threads_queue h.first s.lock.server_response;
        fitting = λ yes. (
          fits_finished s.lock.threads_queue h.first s.lock.client_state n (fit yes),
          (h.fitting yes).1,
        );
      }

  retry_served :
      (polite ≡ true → s.lock.client_state ≡ ClientState.acquiring)
      → Holds polite (served s s.revokes (retry_enter s.lock))
  unfolding retry_enter
  retry_served asks = record {
    first = signal s.lock.threads_queue h.first;
    line = signal_line s.lock.threads_queue h.first s.stage h.line;
    heard = misses-signal s.lock.threads_queue h.first ServerResponse.retry;
    fitting = λ yes. (
      fits_retried s.lock.threads_queue h.first s.lock.client_state s.revokes (asks yes)
          (h.fitting yes).0,
      (h.fitting yes).1,
    );
  }

pub Step-Holds : {polite : Bool} {s t : Client} → Holds polite s → Step polite s t → Holds polite t
Step-Holds {s} h (enter c runs here) = enters h c here
Step-Holds {s} h (reply c ret runs here) =
    moves h c Stage.calling _ here refl (rpc_reply-Moves ret s.lock)
Step-Holds {s} h (turn_comes c runs here) =
    moves h c Stage.turn_signalled _ here refl (take_turn-Moves s.lock)
Step-Holds {s} h (given_back c runs here) =
    moves h c Stage.giving_signalled _ here refl (rpc_start-Moves s.lock)
Step-Holds {s} h (retry_comes c runs here) =
    moves h c Stage.retrying_signalled _ here refl (rpc_again-Moves s.lock)
Step-Holds {s} h (releases c {section} {l} runs here e) =
    gives h c Stage.owner ClientState.free ClientState.locked s.lock.server_response
      (release_enter s.lock) section l here refl (release_enter-Gives s.lock c)
      (handed_fits s.lock.client_state) e
Step-Holds {s} h (released c {section} {l} runs here e) =
    gives h c Stage.handing ClientState.unowned ClientState.unowned ServerResponse.empty
      (release_reply s.lock) section l here refl (release_reply-Gives s.lock c)
      (given_fits s.lock.client_state) e
Step-Holds {s} h (revoked runs) = revoke_served h
Step-Holds {s} h (revoke_ends n runs count) = revoke_finished h n count
Step-Holds {s} h (retried runs asks) = retry_served h asks

pub Reach-Holds : {polite : Bool} {s : Client} → Reach polite s → Holds polite s
Reach-Holds begin = record {
  first = Stage.owner;
  line = record { stages = λ c. refl; distinct = tt; active = refl };
  heard = refl;
  fitting = λ yes. (refl, refl);
}
Reach-Holds (next r step) = Step-Holds (Reach-Holds r) step
