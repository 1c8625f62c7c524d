-- ===== src/LockClientCache/Giving.antt =====
-- A thread of lock_client_cache.cc that has the lock gives it up.
use cse_yet_another_file_sys.Prelude.{
  ℕ, ◌≡◌, refl, ap, sym, ◌∙◌, subst, Bool, true, some, List, [], ◌∷◌, arith, update, Outcome, done,
  Bool-cases, inl, inr, ◌⊎◌, done_injective,
}
use cse_yet_another_file_sys.LockClientCache.{
  ClientState, ServerResponse, CachedLock, Section, quiet, returns, calls_release, with_state,
  is_revoke, release_enter, release_reply,
}
use cse_yet_another_file_sys.LockClientCache.Threads.{Stage, Client, gave}
use cse_yet_another_file_sys.LockClientCache.Lines.{
  InLine, is_active, acting, front_moves, last_leaves, front_leaves,
}
use cse_yet_another_file_sys.LockClientCache.Holding.{fits_none, fits_front, fits, Holds}

-- What the thread at the front may find when it gives the lock up: it goes to the server, the client
-- keeps it with nobody waiting, or the next thread gets it.
abbrev pub Gives :
    CachedLock
    → List ℕ
    → ClientState
    → ClientState
    → ServerResponse
    → Outcome (Section × CachedLock)
    → Type 0
Gives l rest kept handed response o =
    ((rest ≡ []) × (o ≡ done (quiet calls_release, with_state ClientState.releasing l)))
    ⊎ ((rest ≡ [])
        × (o
            ≡ done (
              quiet returns,
              record { threads_queue = []; client_state = kept; server_response = response },
            )))
    ⊎ ((d : ℕ) × (cs : List ℕ) × (rest ≡ d ∷ cs)
        × (o
            ≡ done (
              record { pause = returns; signalled = some d },
              record { threads_queue = d ∷ cs; client_state = handed; server_response = response },
            )))

pub release_enter-Gives :
    (l : CachedLock) (c : ℕ) (rest : List ℕ)
    → l.threads_queue ≡ c ∷ rest
    → Gives l rest ClientState.free ClientState.locked l.server_response (release_enter l)
unfolding release_enter
release_enter-Gives l c [] e = elim (Bool-cases (is_revoke l.server_response)) [
  | inl y ↦ inl (refl, ground (arith, e, y))
  | inr n ↦ inr (inl (refl, ground (arith, e, n)))
]
release_enter-Gives l c (d ∷ cs) e = inr (inr (d, cs, refl, ground (arith, e)))

pub release_reply-Gives :
    (l : CachedLock) (c : ℕ) (rest : List ℕ)
    → l.threads_queue ≡ c ∷ rest
    → Gives l rest ClientState.unowned ClientState.unowned ServerResponse.empty (release_reply l)
unfolding release_reply
release_reply-Gives l c [] e = inr (inl (refl, ground (arith, e)))
release_reply-Gives l c (d ∷ cs) e = inr (inr (d, cs, refl, ground (arith, e)))

pub handed_fits :
    (state : ClientState) (n : ℕ)
    → fits_front Stage.owner state n ≡ true
    → (fits_none ClientState.free n ≡ true)
      × (fits_front Stage.turn_signalled ClientState.locked n ≡ true)
      × (fits_front Stage.handing ClientState.releasing n ≡ true)
handed_fits state n h = (ground (arith, h), ground (arith, h), ground (arith, h))

pub given_fits :
    (state : ClientState) (n : ℕ)
    → fits_front Stage.handing state n ≡ true
    → (fits_none ClientState.unowned n ≡ true)
      × (fits_front Stage.turn_signalled ClientState.unowned n ≡ true)
      × (fits_front Stage.handing ClientState.releasing n ≡ true)
given_fits state n h = (ground (arith, h), ground (arith, h), ground (arith, h))

module _ {polite : Bool} {s : Client} (h : Holds polite s) where
  -- The thread at the front gives the lock up.
  pub gives :
      (c : ℕ) (p : Stage) (kept handed : ClientState) (response : ServerResponse)
      (o : Outcome (Section × CachedLock)) (section : Section) (l : CachedLock)
      → s.stage c ≡ p
      → is_active p ≡ true
      → ((rest : List ℕ)
          → s.lock.threads_queue ≡ c ∷ rest
          → Gives s.lock rest kept handed response o)
      → ((n : ℕ)
          → fits_front p s.lock.client_state n ≡ true
          → (fits_none kept n ≡ true)
            × (fits_front Stage.turn_signalled handed n ≡ true)
            × (fits_front Stage.handing ClientState.releasing n ≡ true))
      → o ≡ done (section, l)
      → Holds polite (gave s c section l)
  gives c p kept handed response o section l here a cases fit e =
      let (rest, queue, eq) =
        acting s.lock.threads_queue h.first s.stage c h.line (ap is_active here ∙ a) in
      let at_front : InLine (c ∷ rest) h.first s.stage =
        subst (λ q. InLine q h.first s.stage) queue h.line in
      let fit_p : polite ≡ true → fits_front p s.lock.client_state s.revokes ≡ true = λ yes.
        sym (ap (λ q. fits q p s.lock.client_state s.revokes) queue)
        ∙ ap (λ f. fits s.lock.threads_queue f s.lock.client_state s.revokes) (sym (eq ∙ here))
        ∙ (h.fitting yes).0 in
      elim (cases rest queue) [
        | inl (last, v) ↦
            subst (λ r. Holds polite (gave s c r.0 r.1)) (done_injective (sym v ∙ e))
              (record {
                first = Stage.handing;
                line =
                    subst (λ q. InLine q Stage.handing (update s.stage c Stage.handing)) (sym queue)
                      (front_moves c rest h.first Stage.handing s.stage at_front refl);
                heard = refl;
                fitting = λ yes. (
                  ap (λ q. fits q Stage.handing ClientState.releasing s.revokes) queue
                      ∙ (fit s.revokes (fit_p yes)).2,
                  (h.fitting yes).1,
                );
              })
        | inr (inl (last, v)) ↦
            subst (λ r. Holds polite (gave s c r.0 r.1)) (done_injective (sym v ∙ e))
              (record {
                first = Stage.owner;
                line =
                    last_leaves c h.first s.stage
                      (subst (λ r. InLine (c ∷ r) h.first s.stage) last at_front);
                heard = refl;
                fitting = λ yes. ((fit s.revokes (fit_p yes)).0, (h.fitting yes).1);
              })
        | inr (inr (d, cs, more, v)) ↦
            subst (λ r. Holds polite (gave s c r.0 r.1)) (done_injective (sym v ∙ e))
              (record {
                first = Stage.turn_signalled;
                line =
                    front_leaves c d cs h.first s.stage
                      (subst (λ r. InLine (c ∷ r) h.first s.stage) more at_front);
                heard = refl;
                fitting = λ yes. ((fit s.revokes (fit_p yes)).1, (h.fitting yes).1);
              })
      ]
