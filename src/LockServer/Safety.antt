-- ===== src/LockServer/Safety.antt =====
-- One lock of lock_server.cc and how far its clients are with their calls.
use cse_yet_another_file_sys.Prelude.{
  ℕ, ◌≡◌, ◌≢◌, refl, sym, ◌∙◌, Bool, true, false, Option, some, arith, inl, inr, Bool-cases, ==_iff,
  ◌==◌, update, update_ne,
}
use cse_yet_another_file_sys.LockServer.{Progress}

-- A client does not want the lock, is in the wait of its `acquire`, or was granted the lock.
pub data Stage : Type 0 where
  idle asleep owner : Stage

abbrev pub after : Progress → Stage
after Progress.granted = Stage.owner
after Progress.waits = Stage.asleep

-- An owner has a lock that is locked, and is the only one.
pub record IsSafe (locked : Option Bool) (stage : ℕ → Stage) : Type 0 where
  pub taken : (c : ℕ) → stage c ≡ Stage.owner → locked ≡ some true
  pub single : (c d : ℕ) → stage c ≡ Stage.owner → stage d ≡ Stage.owner → c ≡ d

-- A lock that is not locked has no owner, so the one that is granted it is the only one.
pub granted-IsSafe :
    (locked : Option Bool) (stage : ℕ → Stage) (c : ℕ)
    → locked ≢ some true
    → IsSafe locked stage
    → IsSafe (some true) (update stage c Stage.owner)
granted-IsSafe locked stage c free h = record {
  taken = λ d e. refl;
  single = λ d d' e e'. only d e ∙ sym (only d' e');
}
  where
    only : (d : ℕ) → update stage c Stage.owner d ≡ Stage.owner → d ≡ c
    only d e = elim (Bool-cases (c == d)) [
      | inl y ↦ sym ((==_iff c d).0 y)
      | inr n ↦ absurd (free (h.taken d (sym (update_ne stage c d Stage.owner (ground arith)) ∙ e)))
    ]

-- One that was not the owner sleeps.
pub asleep-IsSafe :
    (locked : Option Bool) (stage : ℕ → Stage) (c : ℕ)
    → IsSafe locked stage
    → IsSafe locked (update stage c Stage.asleep)
asleep-IsSafe locked stage c h = record {
  taken = λ d e. h.taken d (was d e);
  single = λ d d' e e'. h.single d d' (was d e) (was d' e');
}
  where
    was : (d : ℕ) → update stage c Stage.asleep d ≡ Stage.owner → stage d ≡ Stage.owner
    was d e = ground (arith, e)

pub released-IsSafe :
    (locked : Option Bool) (stage : ℕ → Stage) (c : ℕ)
    → stage c ≡ Stage.owner
    → IsSafe locked stage
    → IsSafe (some false) (update stage c Stage.idle)
released-IsSafe locked stage c own h = record {
  taken = λ d e. absurd (gone d e);
  single = λ d d' e e'. absurd (gone d e);
}
  where
    gone : (d : ℕ) → update stage c Stage.idle d ≢ Stage.owner
    gone d e = elim (Bool-cases (c == d)) [
      | inl y ↦ ground (arith, e)
      | inr n ↦
          ground (arith, h.single c d own (sym (update_ne stage c d Stage.idle (ground arith)) ∙ e))
    ]
