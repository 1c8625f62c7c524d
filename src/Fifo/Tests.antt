-- ===== src/Fifo/Tests.antt =====
-- A run of a queue of one place: the second element waits until the first came out.
use cse_yet_another_file_sys.Prelude.{ℕ, ◌≡◌, refl, true, List, [], ◌∷◌, arith}
use cse_yet_another_file_sys.Fifo.{has_space, enq, deq, size}
use cse_yet_another_file_sys.Fifo.Threads.{System, Step, Reach, IsServed, Reach-IsServed}

abbrev holding : ℕ → ℕ → ℕ → List ℕ → List ℕ → System ℕ
holding e asleep woken entered left = record {
  fifo = record { q = e ∷ []; max = 1 };
  enq_asleep = asleep;
  enq_woken = woken;
  deq_asleep = 0;
  deq_woken = 0;
  entered = entered;
  left = left;
}

abbrev last : System ℕ
last = holding 6 0 0 (5 ∷ 6 ∷ []) (5 ∷ [])

Reach-last : Reach 1 last
unfolding enq deq has_space
Reach-last =
    Reach.next
      (Reach.next (Reach.next (Reach.next Reach.begin (Step.enters 5 true)) (Step.enters 6 true))
        Step.leaves)
      (Step.enters_again 6 (omega arith))

-- `size` tells only whether there is an element.
size_of_one : size last.fifo ≡ true
unfolding size
size_of_one = refl

Reach-IsServed_example : IsServed 1 last
Reach-IsServed_example = Reach-IsServed 1 Reach-last
