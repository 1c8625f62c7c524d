-- ===== src/Fifo/Threads.antt =====
-- The threads of a queue of rpc/fifo.h in any order: what comes out is what went in, in its order, the queue keeps its
-- bound, and no thread sleeps through what it waits for.
use cse_yet_another_file_sys.Prelude.{
  ℕ, ◌+◌, ◌-◌, ◌<◌, ◌≤◌, ◌≡◌, ◌≢◌, refl, ap, sym, ◌∙◌, Bool, true, false, List, [], ◌∷◌, ◌++◌, ◌==◌,
  ltb, if◌then◌else◌, length, length-append, append_assoc, arith, Bool-cases, inl, inr,
}
use cse_yet_another_file_sys.Fifo.{Round, returns, waits, Fifo, fifo_init, has_space, enq, deq}

-- How many threads sleep in each wait and how many were woken from it, and all that went in and came out.
pub record System (T : Type 0) : Type 0 where
  pub fifo : Fifo T
  pub enq_asleep : ℕ
  pub enq_woken : ℕ
  pub deq_asleep : ℕ
  pub deq_woken : ℕ
  pub entered : List T
  pub left : List T

module _ {T : Type 0} where
  abbrev pub start : ℕ → System T
  start limit = record {
    fifo = fifo_init limit;
    enq_asleep = 0;
    enq_woken = 0;
    deq_asleep = 0;
    deq_woken = 0;
    entered = [];
    left = [];
  }

  -- A signal wakes a thread, if one sleeps.
  abbrev pub signal_non_empty : System T → System T
  signal_non_empty s = record s {
    deq_asleep = s.deq_asleep - 1;
    deq_woken = if s.deq_asleep == 0 then s.deq_woken else s.deq_woken + 1;
  }

  abbrev pub signal_has_space : Bool → System T → System T
  signal_has_space false s = s
  signal_has_space true s = record s {
    enq_asleep = s.enq_asleep - 1;
    enq_woken = if s.enq_asleep == 0 then s.enq_woken else s.enq_woken + 1;
  }

  abbrev pub after_enq : T → System T → Round Bool × Fifo T → System T
  after_enq e s (returns true, f) =
      signal_non_empty (record s { fifo = f; entered = s.entered ++ (e ∷ []) })
  after_enq e s (returns false, f) = record s { fifo = f }
  after_enq e s (waits, f) = record s { fifo = f; enq_asleep = s.enq_asleep + 1 }

  abbrev pub after_deq : System T → Round (T × Bool) × Fifo T → System T
  after_deq s (returns (e, signal), f) =
      signal_has_space signal (record s { fifo = f; left = s.left ++ (e ∷ []) })
  after_deq s (waits, f) = record s { fifo = f; deq_asleep = s.deq_asleep + 1 }

  abbrev pub wake_enq : System T → System T
  wake_enq s = record s { enq_asleep = s.enq_asleep - 1; enq_woken = s.enq_woken + 1 }

  abbrev pub wake_deq : System T → System T
  wake_deq s = record s { deq_asleep = s.deq_asleep - 1; deq_woken = s.deq_woken + 1 }

  abbrev pub without_enq : System T → System T
  without_enq s = record s { enq_woken = s.enq_woken - 1 }

  abbrev pub without_deq : System T → System T
  without_deq s = record s { deq_woken = s.deq_woken - 1 }

  -- A call, a woken thread that goes around its loop, and a wakeup without a signal.
  pub data Step (s : System T) : System T → Type 0 where
    enters : (e : T) (blocking : Bool) → Step s (after_enq e s (enq e blocking s.fifo))
    enters_again :
        (e : T) → 0 < s.enq_woken → Step s (after_enq e (without_enq s) (enq e true s.fifo))
    leaves : Step s (after_deq s (deq s.fifo))
    leaves_again : 0 < s.deq_woken → Step s (after_deq (without_deq s) (deq s.fifo))
    enq_wakes : 0 < s.enq_asleep → Step s (wake_enq s)
    deq_wakes : 0 < s.deq_asleep → Step s (wake_deq s)

  pub data Reach (limit : ℕ) : System T → Type 0 where
    begin : Reach limit (start limit)
    next : {s t : System T} → Reach limit s → Step s t → Reach limit t

-- Where a thread sleeps, as many others are woken as there is for them to do.
pub record IsServed {T : Type 0} (limit : ℕ) (s : System T) : Type 0 where
  pub bound : s.fifo.max ≡ limit
  pub order : s.entered ≡ s.left ++ s.fifo.q
  pub bounded : limit ≢ 0 → length s.fifo.q ≤ limit
  pub deq_served : 0 < s.deq_asleep → length s.fifo.q ≤ s.deq_woken
  pub enq_served : 0 < s.enq_asleep → limit ≤ length s.fifo.q + s.enq_woken

module _ {T : Type 0} (limit : ℕ) (s : System T) (h : IsServed limit s) where
  -- A round of `enq`, of a thread that was woken where one fewer is left.
  enq-IsServed :
      (e : T) (blocking : Bool) (woken : ℕ)
      → s.enq_woken ≤ woken + 1
      → (blocking ≡ false → s.enq_woken ≤ woken)
      → IsServed limit (after_enq e (record s { enq_woken = woken }) (enq e blocking s.fifo))
  unfolding enq has_space
  enq-IsServed e blocking woken near same = elim (Bool-cases (has_space s.fifo)) [
    | inl y ↦ rw y (record {
      bound = h.bound;
      order = ap (λ x. x ++ (e ∷ [])) h.order ∙ append_assoc s.left s.fifo.q (e ∷ []);
      bounded = λ limited. ground (arith, y, h.bound, limited, length-append s.fifo.q (e ∷ []));
      deq_served =
          λ asleep. ground (arith, h.deq_served (omega arith), length-append s.fifo.q (e ∷ []));
      enq_served =
          λ asleep. omega (arith, h.enq_served asleep, near, length-append s.fifo.q (e ∷ []));
    })
    | inr n ↦ elim (Bool-cases blocking) [
      | inl b ↦
          rw (n, b)
            (record {
              bound = h.bound;
              order = h.order;
              bounded = h.bounded;
              deq_served = h.deq_served;
              enq_served = λ asleep. ground (arith, n, h.bound);
            })
      | inr b ↦
          rw (n, b)
            (record {
              bound = h.bound;
              order = h.order;
              bounded = h.bounded;
              deq_served = h.deq_served;
              enq_served = λ asleep. omega (arith, h.enq_served asleep, same b);
            })
    ]
  ]

  -- A round of `deq`, likewise.
  deq-IsServed :
      (woken : ℕ) (q : List T)
      → s.deq_woken ≤ woken + 1
      → s.fifo.q ≡ q
      → IsServed limit (after_deq (record s { deq_woken = woken }) (deq s.fifo))
  unfolding deq
  deq-IsServed woken [] near e =
      let empty : length s.fifo.q ≡ 0 = ap length e in
      rw e (record {
        bound = h.bound;
        order = h.order ∙ ap (◌++◌ s.left) e;
        bounded = λ limited. omega arith;
        deq_served = λ asleep. omega arith;
        enq_served = λ asleep. omega (arith, h.enq_served asleep, empty);
      })
  deq-IsServed woken (x ∷ q) near e =
      let one_less : length s.fifo.q ≡ length q + 1 = omega (arith, ap length e) in
      let moved : s.entered ≡ (s.left ++ (x ∷ [])) ++ q =
        h.order ∙ ap (◌++◌ s.left) e ∙ sym (append_assoc s.left (x ∷ []) q) in
      let rest : 0 < s.deq_asleep → length q ≤ woken =
        λ asleep. omega (arith, h.deq_served asleep, one_less, near) in
      elim (Bool-cases (s.fifo.max == 0)) [
        | inl z ↦
            rw (e, z)
              (record {
                bound = h.bound;
                order = moved;
                bounded = λ limited. omega (arith, h.bounded limited, one_less);
                deq_served = rest;
                enq_served = λ asleep. ground (arith, h.bound, z);
              })
        | inr n ↦
            let limited : limit ≢ 0 = ground (arith, h.bound, n) in
            let space : ltb (length q) s.fifo.max ≡ true =
              ground (arith, h.bound, h.bounded limited, one_less) in
            rw (e, n, space)
              (record {
                bound = h.bound;
                order = moved;
                bounded = λ limited. omega (arith, h.bounded limited, one_less);
                deq_served = rest;
                enq_served = λ asleep. ground (arith, h.enq_served (omega arith), one_less);
              })
      ]

Step-IsServed :
    {T : Type 0} (limit : ℕ) {s t : System T} → Step s t → IsServed limit s → IsServed limit t
Step-IsServed limit {s} (enters e blocking) h =
    enq-IsServed limit s h e blocking s.enq_woken (omega arith) (λ b. omega arith)
Step-IsServed limit {s} (enters_again e woken) h =
    enq-IsServed limit s h e true (s.enq_woken - 1) (omega arith) (λ b. ground (arith, b))
Step-IsServed limit {s} leaves h = deq-IsServed limit s h s.deq_woken s.fifo.q (omega arith) refl
Step-IsServed limit {s} (leaves_again woken) h =
    deq-IsServed limit s h (s.deq_woken - 1) s.fifo.q (omega arith) refl
Step-IsServed limit {s} (enq_wakes asleep) h = record {
  bound = h.bound;
  order = h.order;
  bounded = h.bounded;
  deq_served = h.deq_served;
  enq_served = λ more. omega (arith, h.enq_served asleep);
}
Step-IsServed limit {s} (deq_wakes asleep) h = record {
  bound = h.bound;
  order = h.order;
  bounded = h.bounded;
  deq_served = λ more. omega (arith, h.deq_served asleep);
  enq_served = h.enq_served;
}

-- A queue with a limit has at most that many elements; what came out of it, then what it has, is all that went in, in
-- that order. While a thread sleeps in `deq`, there is a woken one for each element that the queue has; while a
-- thread sleeps in `enq`, there is a woken one for each place that is free. This is after any calls of any threads,
-- also when waits end without a signal.
pub Reach-IsServed : {T : Type 0} (limit : ℕ) {s : System T} → Reach limit s → IsServed limit s
Reach-IsServed limit begin = record {
  bound = refl;
  order = refl;
  bounded = λ limited. omega arith;
  deq_served = λ asleep. omega arith;
  enq_served = λ asleep. omega (arith, asleep);
}
Reach-IsServed limit (next r step) = Step-IsServed limit step (Reach-IsServed limit r)
