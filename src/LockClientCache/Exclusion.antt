-- ===== src/LockClientCache/Exclusion.antt =====
-- What the threads of a client of lock_client_cache.cc can rely on, and where a wakeup without a signal breaks it.
use cse_yet_another_file_sys.Prelude.{
  update, update_self, ℕ, ◌+◌, ◌==◌, ◌≡◌, ◌≢◌, refl, ap, sym, ◌∙◌, subst, Bool, true, false, some,
  List, [], ◌∷◌, arith, done,
}
use cse_yet_another_file_sys.LockServerCache.{LockStatus}
use cse_yet_another_file_sys.LockClientCache.{
  ClientState, ServerResponse, CachedLock, Section, quiet, returns, waits_retry, front, with_state,
  take_turn, retry_enter, revoke_enter, rpc_reply, release_enter,
}
use cse_yet_another_file_sys.LockClientCache.Threads.{
  Stage, Client, ran, gave, served, is_calling, Step, Reach, next, reply, revoked, retried, wake,
  woken, after,
}
use cse_yet_another_file_sys.LockClientCache.Lines.{InLine, is_active, acting}
use cse_yet_another_file_sys.LockClientCache.Holding.{Holds, fits, fits_front}
use cse_yet_another_file_sys.LockClientCache.Stepping.{Reach-Holds}

-- A thread that acts is the first of the queue.
first_of :
    {polite : Bool} {s : Client} (h : Holds polite s) (c : ℕ) (p : Stage)
    → s.stage c ≡ p
    → is_active p ≡ true
    → (rest : List ℕ) × (s.lock.threads_queue ≡ c ∷ rest) × (h.first ≡ p)
first_of {s} h c p here a =
    let (rest, queue, eq) =
      acting s.lock.threads_queue h.first s.stage c h.line (ap is_active here ∙ a) in
    (rest, queue, eq ∙ here)

head_injective : {c d : ℕ} {cs ds : List ℕ} → c ∷ cs ≡ d ∷ ds → c ≡ d
head_injective {c} e = ap (λ (xs : List ℕ). elim xs [ [] ↦ c | x ∷ rest ↦ x ]) e

-- In every state that the threads of a client and the messages of the server can reach, whatever the server
-- answers and whenever it sends a revoke or a retry, if waits end only by a signal: two threads that both have the
-- lock are the same.
pub one_thread :
    {s : Client} (c d : ℕ)
    → Reach false s
    → s.stage c ≡ Stage.owner
    → s.stage d ≡ Stage.owner
    → c ≡ d
one_thread c d r e e' =
    let h = Reach-Holds r in
    let (rest, queue, eq) = first_of h c Stage.owner e refl in
    let (rest', queue', eq') = first_of h d Stage.owner e' refl in
    head_injective (sym queue ∙ queue')

-- With a server that sends a retry only while the client asks for the lock, in every state that can be reached: the
-- mutex is not held for ever, no acquire has failed, and a lock that a thread has is in the state `locked`.
pub acquire_sound :
    {s : Client}
    → Reach true s
    → (s.stuck ≡ false)
      × ((c : ℕ) → s.stage c ≢ Stage.failed)
      × ((c : ℕ) → s.stage c ≡ Stage.owner → s.lock.client_state ≡ ClientState.locked)
acquire_sound {s} r =
    let h = Reach-Holds r in
    let fit = h.fitting refl in
    let at_front = λ (c : ℕ) (p : Stage) (here : s.stage c ≡ p) (a : is_active p ≡ true).
      let (rest, queue, eq) = first_of h c p here a in
      sym (ap (λ q. fits q p s.lock.client_state s.revokes) queue)
      ∙ ap (λ f. fits s.lock.threads_queue f s.lock.client_state s.revokes) (sym eq)
      ∙ fit.0 in
    (
      fit.1,
      λ c e. ground (arith, at_front c Stage.failed e refl),
      λ c e. locked_of s.lock.client_state s.revokes (at_front c Stage.owner e refl),
    )
  where
    locked_of :
        (state : ClientState) (n : ℕ)
        → fits_front Stage.owner state n ≡ true
        → state ≡ ClientState.locked
    locked_of state n e = ground (arith, e)

-- The client after a message of the server while a thread asks: a retry, and a revoke after it.
abbrev pub retried_then_revoked : Client → Client
retried_then_revoked s =
    let t = served s s.revokes (retry_enter s.lock) in
    served t (t.revokes + is_calling (revoke_enter t.lock).0.pause) (revoke_enter t.lock)

-- In every state that can be reached with a server that sends a retry only while the client asks for the lock, where
-- a thread asks: a retry, a revoke and then the answer RETRY are steps of the client. After them the thread waits
-- for a retry although one has come, and what is stored is the revoke.
pub retry_replaced :
    {s : Client} (c : ℕ)
    → Reach true s
    → s.stage c ≡ Stage.calling
    → let u = retried_then_revoked s in
      let v = ran u c (rpc_reply LockStatus.retry u.lock) in
      Reach true v × (v.stage c ≡ Stage.retrying) × (v.lock.server_response ≡ ServerResponse.revoke)
unfolding retry_enter revoke_enter rpc_reply
retry_replaced {s} c r e =
    let h = Reach-Holds r in
    let (fit, free) = h.fitting refl in
    let (rest, queue, eq) = first_of h c Stage.calling e refl in
    let state : s.lock.client_state ≡ ClientState.acquiring = asks s.lock.client_state s.revokes (
      sym (ap (λ q. fits q Stage.calling s.lock.client_state s.revokes) queue)
      ∙ ap (λ f. fits s.lock.threads_queue f s.lock.client_state s.revokes) (sym eq)
      ∙ fit) in
    let l : CachedLock = record s.lock { server_response = ServerResponse.retry } in
    let u = retried_then_revoked s in
    let runs : revoke_enter l
        ≡ (quiet returns, record l { server_response = ServerResponse.revoke }) =
      rw (revoke_enter, state) refl in
    let woke : wake (front s.lock.threads_queue) s.stage c ≡ Stage.calling =
      ap (λ (q : List ℕ). wake (front q) s.stage c) queue
      ∙ update_self s.stage c (woken (s.stage c))
      ∙ ap woken e in
    let still : u.stage c ≡ Stage.calling =
      ap
        (λ (p : Section × CachedLock).
          wake p.0.signalled (wake (front s.lock.threads_queue) s.stage) c)
        runs
      ∙ woke in
    let stored : u.lock.server_response ≡ ServerResponse.revoke =
      ap (λ (p : Section × CachedLock). p.1.server_response) runs in
    let waits : rpc_reply LockStatus.retry u.lock ≡ (quiet waits_retry, u.lock) =
      rw (rpc_reply, stored) refl in
    (
      next (next (next r (retried free (λ _. state))) (revoked free))
          (reply c LockStatus.retry free still),
      ap (λ (p : Section × CachedLock). wake p.0.signalled (update u.stage c (after p.0.pause)) c)
            waits
          ∙ update_self u.stage c Stage.retrying,
      ap (λ (p : Section × CachedLock). p.1.server_response) waits ∙ stored,
    )
  where
    asks :
        (state : ClientState) (n : ℕ)
        → fits_front Stage.calling state n ≡ true
        → state ≡ ClientState.acquiring
    asks state n e = ground (arith, e)

-- The thread behind the front waits for its turn.
second_waits :
    {polite : Bool} {s : Client} (h : Holds polite s) (c d : ℕ) (cs : List ℕ)
    → s.lock.threads_queue ≡ c ∷ d ∷ cs
    → (s.stage d ≡ Stage.turn) × ((c == d) ≡ false)
second_waits {s} h c d cs queue =
    let line : InLine (c ∷ d ∷ cs) h.first s.stage =
      subst (λ q. InLine q h.first s.stage) queue h.line in
    (ground (arith, line.stages d, line.distinct), ground (arith, line.distinct))

release_next :
    (l : CachedLock) (c d : ℕ) (cs : List ℕ)
    → l.threads_queue ≡ c ∷ d ∷ cs
    → release_enter l
      ≡ done (
        record { pause = returns; signalled = some d },
        record {
          threads_queue = d ∷ cs;
          client_state = ClientState.locked;
          server_response = l.server_response;
        },
      )
unfolding release_enter
release_next l c d cs e = ground (arith, e)

-- A release while others wait, whether the server has asked for the lock or not, hands it to the next thread of the
-- queue without a call to the server: the release ends, and when that thread runs its `acquire` returns OK.
pub release-take_turn :
    {polite : Bool} {s : Client} (c d : ℕ) (cs : List ℕ)
    → Reach polite s
    → s.stuck ≡ false
    → s.stage c ≡ Stage.owner
    → s.lock.threads_queue ≡ c ∷ d ∷ cs
    → (t : Client) × (u : Client) × Step polite s t
      × Step polite t u
      × (t.stage c ≡ Stage.idle)
      × (u.stage d ≡ Stage.owner)
      × (u.lock.threads_queue ≡ d ∷ cs)
unfolding take_turn
release-take_turn {polite} {s} c d cs r runs here queue =
    let (waits, apart) = second_waits (Reach-Holds r) c d cs queue in
    let section : Section = record { pause = returns; signalled = some d } in
    let l : CachedLock = record {
      threads_queue = d ∷ cs;
      client_state = ClientState.locked;
      server_response = s.lock.server_response;
    } in
    let t = gave s c section l in
    let woken_d : t.stage d ≡ Stage.turn_signalled = ground (arith, waits, apart) in
    (
      t,
      ran t d (take_turn l),
      Step.releases c runs here (release_next s.lock c d cs queue),
      Step.turn_comes d runs woken_d,
      ground (arith, apart),
      ground arith,
      refl,
    )

-- With the same server: `pthread_cond_wait` may return without a signal, and `acquire` does not test again
-- whether its turn has come. Whenever a thread has the lock and another one waits for its turn, such
-- a return gives the lock to the other one too: both have it.
pub spurious_wakeup :
    {s : Client} (c d : ℕ)
    → Reach true s
    → s.stage c ≡ Stage.owner
    → s.stage d ≡ Stage.turn
    → let t = ran s d (take_turn s.lock) in
      (t.stage c ≡ Stage.owner) × (t.stage d ≡ Stage.owner) × (c ≢ d)
unfolding take_turn
spurious_wakeup {s} c d r owns waits =
    let locked = (acquire_sound r).2 c owns in
    let taken : take_turn s.lock ≡ (quiet returns, with_state ClientState.locked s.lock) =
      rw (take_turn, locked) refl in
    (
      ground (arith, owns, waits, taken),
      ground (arith, owns, waits, taken),
      λ e. ground (arith, owns, waits, ap s.stage e),
    )
