-- ===== src/Prelude/Process.antt =====
-- Methods of one process: they change a state, and may end the process or leave defined behaviour.
use mathlib.Core.Path.{◌≡◌, refl, ap, sym}
use mathlib.Core.Bool.{Bool, true, false}
use native.Mathlib.Omega.{arith}
use cse_yet_another_file_sys.Prelude.Tests.{if◌then◌else◌}

-- How a call ends: it returns, it ends the process (`exit`, a `VERIFY` that fails), or it does what C++
-- leaves undefined (an access out of bounds, a use of indeterminate memory, an exception that nothing catches).
pub data Outcome {ℓ} (A : Type ℓ) : Type ℓ where
  done : A → Outcome A
  exited : Outcome A
  fault : Outcome A

abbrev pub Exec {ℓ} : Type ℓ → Type ℓ → Type ℓ
Exec S A = S → Outcome (A × S)

module _ {ℓ} {S A : Type ℓ} where
  abbrev pub pure : A → Exec S A
  pure a s = done (a, s)

  abbrev pub exit : Exec S A
  exit s = exited

  abbrev pub crash : Exec S A
  crash s = fault

module _ {ℓ} {S A B : Type ℓ} where
  abbrev pub continue : Outcome (A × S) → (A → Exec S B) → Outcome (B × S)
  continue (done (a, s)) f = f a s
  continue exited f = exited
  continue fault f = fault

  infixl 10 ◌>>=◌
  abbrev pub ◌>>=◌ : Exec S A → (A → Exec S B) → Exec S B
  ◌>>=◌ m f s = continue (m s) f

module _ {ℓ} {S B : Type ℓ} where
  infixl 10 ◌>>◌
  abbrev pub ◌>>◌ : Exec S (Unit {ℓ}) → Exec S B → Exec S B
  m >> k = m >>= λ _. k

-- A call that returns goes on with what follows it.
pub bind_done {ℓ} :
    {S A B : Type ℓ} (m : Exec S A) (f : A → Exec S B) {s s' : S} {a : A}
    → m s ≡ done (a, s')
    → (m >>= f) s ≡ f a s'
bind_done m f e = rw (e, continue)

continue_assoc {ℓ} :
    {S A B C : Type ℓ} (o : Outcome (A × S)) (f : A → Exec S B) (g : B → Exec S C)
    → continue (continue o f) g ≡ continue o (λ a s. continue (f a s) g)
continue_assoc (done (a, s)) f g = refl
continue_assoc exited f g = refl
continue_assoc fault f g = refl

-- A sequence of calls may be cut anywhere.
pub bind_assoc {ℓ} :
    {S A B C : Type ℓ} (m : Exec S A) (f : A → Exec S B) (g : B → Exec S C) (s : S)
    → (m >>= f >>= g) s ≡ (m >>= λ a. f a >>= g) s
bind_assoc m f g s = continue_assoc (m s) f g

pub done_injective {ℓ} : {A : Type ℓ} {a b : A} → done a ≡ done b → a ≡ b
done_injective {a} h = ap (λ o. elim o [ done x ↦ x | exited ↦ a | fault ↦ a ]) h

-- What a call that returned did first, and then.
pub bind_split {ℓ} :
    {S A B : Type ℓ} (o : Outcome (A × S)) (f : A → Exec S B) {r : B × S}
    → continue o f ≡ done r
    → (a : A) × (s : S) × (o ≡ done (a, s)) × (f a s ≡ done r)
bind_split (done (a, s)) f h = (a, s, refl, h)
bind_split exited f h = ground (arith, h)
bind_split fault f h = ground (arith, h)

-- A value that is returned after a test leaves the state.
pub checked_same {ℓ} :
    {S A : Type ℓ} (b : Bool) (a : A) (s t : S) {r : A}
    → (if b then pure a else crash) s ≡ done (r, t)
    → t ≡ s
checked_same true a s t h = sym (ap (λ p. p.1) (done_injective h))
checked_same false a s t h = ground (arith, h)

-- A call that returns under a test whose other branch ends the process.
pub if_done {ℓ} :
    {S A : Type ℓ} (b : Bool) (m k : Exec S A) (s : S) {r : A × S}
    → k s ≡ exited
    → (if b then m else k) s ≡ done r
    → m s ≡ done r
if_done true m k s e h = h
if_done false m k s e h = ground (arith, e, h)
