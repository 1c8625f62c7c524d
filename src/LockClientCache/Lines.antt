-- ===== src/LockClientCache/Lines.antt =====
-- The queue of a lock of lock_client_cache.cc as a line of threads: the front one acts, the others wait.
use cse_yet_another_file_sys.Prelude.{
  ℕ, ◌==◌, ◌≡◌, refl, ap, Bool, true, false, ◌||◌, some, List, [], ◌∷◌, ◌++◌, arith, inl, inr,
  Bool-cases, update, if◌then◌else◌,
}
use cse_yet_another_file_sys.LockClientCache.Threads.{Stage, woken, wake}

abbrev pub contains : ℕ → List ℕ → Bool
contains c [] = false
contains c (d ∷ ds) = (d == c) || contains c ds

abbrev pub IsDistinct : List ℕ → Type 0
IsDistinct [] = Unit
IsDistinct (c ∷ cs) = (contains c cs ≡ false) × IsDistinct cs

-- A stage of a thread at the front.
abbrev pub is_active : Stage → Bool
is_active Stage.idle = false
is_active Stage.turn = false
is_active _ = true

-- The stages of all threads, by the queue and the stage of the first.
abbrev pub expected : List ℕ → Stage → ℕ → Stage
expected [] first c = Stage.idle
expected (f ∷ q) first c = if f == c then first else if contains c q then Stage.turn else Stage.idle

pub record InLine (q : List ℕ) (first : Stage) (stage : ℕ → Stage) : Type 0 where
  pub stages : (c : ℕ) → stage c ≡ expected q first c
  pub distinct : IsDistinct q
  pub active : is_active first ≡ true

contains-append : (c d : ℕ) (q : List ℕ) → contains c (q ++ (d ∷ [])) ≡ (contains c q || (d == c))
contains-append c d [] = ground arith
contains-append c d (e ∷ q) = ground (arith, contains-append c d q)

IsDistinct-append :
    (q : List ℕ) (c : ℕ) → IsDistinct q → contains c q ≡ false → IsDistinct (q ++ (c ∷ []))
IsDistinct-append [] c h n = (refl, tt)
IsDistinct-append (d ∷ q) c h n =
    (ground (arith, contains-append d c q), IsDistinct-append q c h.1 (ground arith))

-- A thread at a stage of the front is the front.
pub acting :
    (q : List ℕ) (first : Stage) (stage : ℕ → Stage) (c : ℕ)
    → InLine q first stage
    → is_active (stage c) ≡ true
    → (rest : List ℕ) × (q ≡ c ∷ rest) × (first ≡ stage c)
acting [] first stage c h a = absurd (ground (arith, h.stages c))
acting (f ∷ q) first stage c h a = elim (Bool-cases (f == c)) [
  | inl y ↦ let e : f ≡ c = ground arith in (q, ap (λ d. d ∷ q) e, ground (arith, h.stages c))
  | inr n ↦ absurd (ground (arith, h.stages c))
]

pub first_enters :
    (first p : Stage) (stage : ℕ → Stage) (c : ℕ)
    → InLine [] first stage
    → is_active p ≡ true
    → InLine (c ∷ []) p (update stage c p)
first_enters first p stage c h a = record {
  stages = λ d. ground (arith, h.stages d);
  distinct = (refl, tt);
  active = a;
}

pub other_enters :
    (f : ℕ) (q : List ℕ) (first : Stage) (stage : ℕ → Stage) (c : ℕ)
    → InLine (f ∷ q) first stage
    → stage c ≡ Stage.idle
    → InLine ((f ∷ q) ++ (c ∷ [])) first (update stage c Stage.turn)
other_enters f q first stage c h out = record {
  stages = λ d. ground (arith, h.stages d, h.stages c, contains-append d c q, h.active);
  distinct = IsDistinct-append (f ∷ q) c h.distinct (ground (arith, h.stages c, h.active));
  active = h.active;
}

pub front_moves :
    (f : ℕ) (q : List ℕ) (first p : Stage) (stage : ℕ → Stage)
    → InLine (f ∷ q) first stage
    → is_active p ≡ true
    → InLine (f ∷ q) p (update stage f p)
front_moves f q first p stage h a = record {
  stages = λ d. ground (arith, h.stages d);
  distinct = h.distinct;
  active = a;
}

pub last_leaves :
    (f : ℕ) (first : Stage) (stage : ℕ → Stage)
    → InLine (f ∷ []) first stage
    → InLine [] Stage.owner (update stage f Stage.idle)
last_leaves f first stage h = record {
  stages = λ d. ground (arith, h.stages d);
  distinct = tt;
  active = refl;
}

pub front_leaves :
    (f g : ℕ) (q : List ℕ) (first : Stage) (stage : ℕ → Stage)
    → InLine (f ∷ g ∷ q) first stage
    → InLine (g ∷ q) Stage.turn_signalled (wake (some g) (update stage f Stage.idle))
front_leaves f g q first stage h =
    let waits : update stage f Stage.idle g ≡ Stage.turn = ground (arith, h.stages g) in
    record {
      stages = λ d. ground (arith, h.stages d, waits, ap woken waits);
      distinct = h.distinct.1;
      active = refl;
    }

woken-is_active : (p : Stage) → is_active p ≡ true → is_active (woken p) ≡ true
woken-is_active p h = ground arith

pub front_woken :
    (f : ℕ) (q : List ℕ) (first : Stage) (stage : ℕ → Stage)
    → InLine (f ∷ q) first stage
    → InLine (f ∷ q) (woken first) (wake (some f) stage)
front_woken f q first stage h =
    let here : stage f ≡ first = ground (arith, h.stages f) in
    record {
      stages = λ d. ground (arith, h.stages d, ap woken here);
      distinct = h.distinct;
      active = woken-is_active first h.active;
    }
