-- ===== src/Fifo.antt =====
-- class fifo of rpc/fifo.h: a queue of at most `max` elements, or of any number where that is 0. A method runs under
-- the mutex up to its end or to its wait, and from there around its loop again.
pub mod Threads
mod Tests
use cse_yet_another_file_sys.Prelude.{
  ℕ, ◌+◌, Bool, true, false, ◌&&◌, not, List, [], ◌∷◌, ◌++◌, Option, none, some, ◌==◌, ltb,
  if◌then◌else◌, length,
}

-- What one round of a method's loop comes to.
pub data Round (A : Type 0) : Type 0 where
  returns : A → Round A
  waits : Round A

pub record Fifo (T : Type 0) : Type 0 where
  pub q : List T
  pub max : ℕ

module _ {T : Type 0} where
  abbrev pub fifo_init : ℕ → Fifo T
  fifo_init limit = record { q = []; max = limit }

  -- `!max_ || q_.size() < max_`
  unfoldable pub has_space : Fifo T → Bool
  has_space f = if f.max == 0 then true else ltb (length f.q) f.max

  -- The name says a number, and the type is bool.
  unfoldable pub size : Fifo T → Bool
  size f = not (length f.q == 0)

  -- With what it returns, `enq` signals `non_empty_c_` where that is true.
  unfoldable pub enq : T → Bool → Fifo T → Round Bool × Fifo T
  unfolding has_space
  enq e blocking f =
      if has_space f
      then (Round.returns true, record f { q = f.q ++ (e ∷ []) })
      else if blocking
      then (Round.waits, f)
      else (Round.returns false, f)

  -- The element, and whether `has_space_c_` is signalled.
  unfoldable pub deq : Fifo T → Round (T × Bool) × Fifo T
  deq f = elim f.q [
    | [] ↦ (Round.waits, f)
    | e ∷ q ↦ (Round.returns (e, not (f.max == 0) && ltb (length q) f.max), record f { q = q })
  ]
