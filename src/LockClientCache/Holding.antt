-- ===== src/LockClientCache/Holding.antt =====
-- What holds in every state of the threads of lock_client_cache.cc: they stand in a line, no retry is stored while one waits for it, and
-- with a polite server the state of the lock fits the thread at the front.
use cse_yet_another_file_sys.Prelude.{
  ℕ, ◌==◌, ◌≡◌, refl, ap, sym, ◌∙◌, subst, Bool, true, false, none, List, [], ◌∷◌, ◌++◌, arith,
  update, inl, inr, ◌⊎◌,
}
use cse_yet_another_file_sys.LockServerCache.{LockStatus}
use cse_yet_another_file_sys.LockClientCache.{
  ClientState, ServerResponse, CachedLock, Section, quiet, waits_turn, acquire_enter, take_turn,
  rpc_start, rpc_again, rpc_reply,
}
use cse_yet_another_file_sys.LockClientCache.Threads.{Stage, after, wake, is_failed, Client, ran}
use cse_yet_another_file_sys.LockClientCache.Lines.{
  InLine, is_active, acting, first_enters, other_enters, front_moves,
}

-- The states of a lock whose queue is empty, with the revoke handlers in their call.
abbrev pub fits_none : ClientState → ℕ → Bool
fits_none ClientState.unowned n = n == 0
fits_none ClientState.free n = n == 0
fits_none ClientState.releasing n = n == 1
fits_none _ n = false

-- The states of a lock by the stage of the thread at the front.
abbrev pub fits_front : Stage → ClientState → ℕ → Bool
fits_front Stage.owner ClientState.locked n = n == 0
fits_front Stage.turn_signalled ClientState.locked n = n == 0
fits_front Stage.turn_signalled ClientState.unowned n = n == 0
fits_front Stage.calling ClientState.acquiring n = n == 0
fits_front Stage.retrying ClientState.acquiring n = n == 0
fits_front Stage.retrying_signalled ClientState.acquiring n = n == 0
fits_front Stage.giving ClientState.releasing n = n == 1
fits_front Stage.giving_signalled ClientState.unowned n = n == 0
fits_front Stage.handing ClientState.releasing n = n == 0
fits_front _ _ n = false

abbrev pub fits : List ℕ → Stage → ClientState → ℕ → Bool
fits [] first state n = fits_none state n
fits (f ∷ q) first state n = fits_front first state n

-- A thread waits for a retry while one is stored.
abbrev pub misses : Stage → ServerResponse → Bool
misses Stage.retrying ServerResponse.retry = true
misses _ _ = false

pub record Holds (polite : Bool) (s : Client) : Type 0 where
  pub first : Stage
  pub line : InLine s.lock.threads_queue first s.stage
  pub heard : misses first s.lock.server_response ≡ false
  pub fitting :
      polite ≡ true
      → (fits s.lock.threads_queue first s.lock.client_state s.revokes ≡ true) × (s.stuck ≡ false)

-- A section that the thread at the front runs at a stage, and that leaves it there.
pub record Moves (p : Stage) (l : CachedLock) (r : Section × CachedLock) : Type 0 where
  same : r.1.threads_queue ≡ l.threads_queue
  silent : r.0.signalled ≡ none
  active : is_active (after r.0.pause) ≡ true
  heard : misses (after r.0.pause) r.1.server_response ≡ false
  fitting :
      (n : ℕ)
      → fits_front p l.client_state n ≡ true
      → (fits_front (after r.0.pause) r.1.client_state n ≡ true) × (is_failed r.0.pause ≡ false)

pub rpc_start-Moves : (l : CachedLock) → Moves Stage.giving_signalled l (rpc_start l)
unfolding rpc_start
rpc_start-Moves l = record {
  same = refl;
  silent = refl;
  active = refl;
  heard = refl;
  fitting = λ n h. ground (arith, h);
}

pub take_turn-Moves : (l : CachedLock) → Moves Stage.turn_signalled l (take_turn l)
unfolding take_turn
take_turn-Moves l = record {
  same = ground arith;
  silent = ground arith;
  active = ground arith;
  heard = ground arith;
  fitting = λ n h. ground (arith, h);
}

pub rpc_again-Moves : (l : CachedLock) → Moves Stage.retrying_signalled l (rpc_again l)
unfolding rpc_again
rpc_again-Moves l = record {
  same = ground arith;
  silent = ground arith;
  active = ground arith;
  heard = ground arith;
  fitting = λ n h. ground (arith, h);
}

pub rpc_reply-Moves : (ret : LockStatus) (l : CachedLock) → Moves Stage.calling l (rpc_reply ret l)
unfolding rpc_reply
rpc_reply-Moves ret l = record {
  same = ground arith;
  silent = ground arith;
  active = ground arith;
  heard = ground arith;
  fitting = λ n h. ground (arith, h);
}

pub queue_cases : (q : List ℕ) → (q ≡ []) ⊎ ((f : ℕ) × (rest : List ℕ) × (q ≡ f ∷ rest))
queue_cases [] = inl refl
queue_cases (f ∷ rest) = inr (f, rest, refl)

-- A thread that finds the queue empty.
record Alone (c : ℕ) (l : CachedLock) (r : Section × CachedLock) : Type 0 where
  alone : r.1.threads_queue ≡ c ∷ []
  silent : r.0.signalled ≡ none
  active : is_active (after r.0.pause) ≡ true
  heard : misses (after r.0.pause) r.1.server_response ≡ false
  fitting :
      (n : ℕ)
      → fits_none l.client_state n ≡ true
      → (fits_front (after r.0.pause) r.1.client_state n ≡ true) × (is_failed r.0.pause ≡ false)

acquire_enter-Alone :
    (c : ℕ) (l : CachedLock) → l.threads_queue ≡ [] → Alone c l (acquire_enter c l)
unfolding acquire_enter
acquire_enter-Alone c l e = record {
  alone = ground (arith, e);
  silent = ground (arith, e);
  active = ground (arith, e);
  heard = ground (arith, e);
  fitting = λ n h. ground (arith, h, e);
}

acquire_enter_behind :
    (c f : ℕ) (rest : List ℕ) (l : CachedLock)
    → l.threads_queue ≡ f ∷ rest
    → acquire_enter c l ≡ (quiet waits_turn, record l { threads_queue = (f ∷ rest) ++ (c ∷ []) })
unfolding acquire_enter
acquire_enter_behind c f rest l e = ground (arith, e)

module _ {polite : Bool} {s : Client} (h : Holds polite s) where
  pub moves :
      (c : ℕ) (p : Stage) (r : Section × CachedLock)
      → s.stage c ≡ p
      → is_active p ≡ true
      → Moves p s.lock r
      → Holds polite (ran s c r)
  moves c p r here a m =
      let (rest, queue, eq) =
        acting s.lock.threads_queue h.first s.stage c h.line (ap is_active here ∙ a) in
      let at_front : InLine (c ∷ rest) h.first s.stage =
        subst (λ q. InLine q h.first s.stage) queue h.line in
      let moved = front_moves c rest h.first (after r.0.pause) s.stage at_front m.active in
      let line =
        subst (λ q. InLine q (after r.0.pause) (update s.stage c (after r.0.pause)))
          (sym (m.same ∙ queue)) moved in
      record {
        first = after r.0.pause;
        line =
            subst
              (λ o.
                InLine r.1.threads_queue (after r.0.pause)
                  (wake o (update s.stage c (after r.0.pause))))
              (sym m.silent) line;
        heard = m.heard;
        fitting = λ yes.
            let fit : fits_front p s.lock.client_state s.revokes ≡ true =
              sym (ap (λ q. fits q p s.lock.client_state s.revokes) queue)
              ∙ ap (λ f. fits s.lock.threads_queue f s.lock.client_state s.revokes)
                  (sym (eq ∙ here))
              ∙ (h.fitting yes).0 in
            let (fit', fine) = m.fitting s.revokes fit in
            (
              ap (λ q. fits q (after r.0.pause) r.1.client_state s.revokes) (m.same ∙ queue) ∙ fit',
              fine,
            );
      }

  pub enters : (c : ℕ) → s.stage c ≡ Stage.idle → Holds polite (ran s c (acquire_enter c s.lock))
  enters c here = elim (queue_cases s.lock.threads_queue) [
    | inl e ↦
        let m = acquire_enter-Alone c s.lock e in
        let r = acquire_enter c s.lock in
        let line =
          first_enters h.first (after r.0.pause) s.stage c
            (subst (λ q. InLine q h.first s.stage) e h.line) m.active in
        record {
          first = after r.0.pause;
          line =
              subst
                (λ q.
                  InLine q (after r.0.pause)
                    (wake r.0.signalled (update s.stage c (after r.0.pause))))
                (sym m.alone)
                (subst
                  (λ o.
                    InLine (c ∷ []) (after r.0.pause) (wake o (update s.stage c (after r.0.pause))))
                  (sym m.silent) line);
          heard = m.heard;
          fitting = λ yes.
              let fit =
                sym (ap (λ q. fits q h.first s.lock.client_state s.revokes) e)
                ∙ (h.fitting yes).0 in
              let (fit', fine) = m.fitting s.revokes fit in
              (ap (λ q. fits q (after r.0.pause) r.1.client_state s.revokes) m.alone ∙ fit', fine);
        }
    | inr (f, rest, e) ↦
        let line =
          other_enters f rest h.first s.stage c (subst (λ q. InLine q h.first s.stage) e h.line)
            here in
        subst (λ r. Holds polite (ran s c r)) (sym (acquire_enter_behind c f rest s.lock e))
          (record {
            first = h.first;
            line = line;
            heard = h.heard;
            fitting = λ yes. (
              sym (ap (λ q. fits q h.first s.lock.client_state s.revokes) e) ∙ (h.fitting yes).0,
              refl,
            );
          })
  ]
