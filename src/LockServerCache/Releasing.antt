-- ===== src/LockServerCache/Releasing.antt =====
-- `release` of lock_server_cache.cc by the client that owns the lock keeps it in agreement with its clients.
use cse_yet_another_file_sys.Prelude.{
  ◌≡◌, refl, ap, sym, ◌∙◌, subst, true, false, ◌&&◌, not, List, [], ◌∷◌, arith, inl, inr,
  Bool-cases,
}
use cse_yet_another_file_sys.Bytes.{Bytes}
use cse_yet_another_file_sys.Ids.{same_id, member}
use cse_yet_another_file_sys.Ids.Laws.{IsSorted, same_id_iff, member_later, member-cons}
use cse_yet_another_file_sys.LockServerCache.{ServerState, serve_release}
use cse_yet_another_file_sys.LockServerCache.Locks.{
  Phase, owns, waits, Phases, move, has_holder, Agrees, lock_with, or_false, and_false, both,
  holder_calm, owner_calm,
}

module _ (id : Bytes) (phase : Phases) where
  -- `release` by the client that owns the lock.
  module _ (owner : owns (phase id) ≡ true) where
    owns_out : (c : Bytes) → owns (move phase id Phase.out c) ≡ not (same_id c id) && owns (phase c)
    owns_out c = grind arith

    waits_out : (c : Bytes) → waits (move phase id Phase.out c) ≡ waits (phase c)
    waits_out c = elim (Bool-cases (same_id c id)) [
      | inl y ↦
          let e : c ≡ id = (same_id_iff c id).0 y in
          rw (y, waits) (sym (ap (λ d. waits (phase d)) e ∙ owner_calm (phase id) owner))
      | inr n ↦ rw (n, waits) refl
    ]

    module _ (st : ServerState) (h r : Bytes) (q : List Bytes)
        (a : Agrees (lock_with st h r q) phase) where
      held : (has_holder st ≡ true) × (id ≡ h)
      held =
          let (left, right) = both (has_holder st) (same_id id h) (sym (a.owners id) ∙ owner) in
          (left, (same_id_iff id h).0 right)

      none_owns : (c : Bytes) → not (same_id c id) && owns (phase c) ≡ false
      none_owns c = elim (Bool-cases (same_id c id)) [
        | inl y ↦ rw y refl
        | inr n ↦ rw n (
            a.owners c ∙ rw (subst (λ d. same_id c d ≡ false) held.1 n) (and_false (has_holder st)))
      ]

      queue_waits : (c : Bytes) → waits (phase c) ≡ member c q
      queue_waits c = a.waiters c ∙ rw (holder_calm st held.0) (or_false (member c q))

    pub releases :
        (st : ServerState) (h r : Bytes) (q : List Bytes)
        → Agrees (lock_with st h r q) phase
        → Agrees (serve_release (lock_with st h r q)).lock (move phase id Phase.out)
    unfolding serve_release member IsSorted
    releases st h r [] a = record {
      sorted = tt;
      fits = refl;
      apart = refl;
      owners = λ c. owns_out c ∙ none_owns st h r [] a c;
      waiters = λ c. waits_out c ∙ queue_waits st h r [] a c;
    }
    releases st h r (n ∷ rest) a = record {
      sorted = a.sorted.1;
      fits = refl;
      apart = member_later n rest a.sorted.0;
      owners = λ c. owns_out c ∙ none_owns st h r (n ∷ rest) a c;
      waiters = λ c. waits_out c ∙ queue_waits st h r (n ∷ rest) a c ∙ member-cons c n rest;
    }
