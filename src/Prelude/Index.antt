-- ===== src/Prelude/Index.antt =====
-- What indexing sees of the lists that `++`, `take`, `drop` and `set` make.
use Prim.Native.Nat.{ℕ, zero, suc, ◌+◌, ◌<◌}
use mathlib.Core.Path.{◌≡◌, refl, ap, subst}
use mathlib.Core.Logic.{◌⊎◌, inl, inr}
use mathlib.Core.List.{List, [], ◌∷◌, ◌++◌}
use mathlib.Core.Option.{some, some-injective}
use native.Mathlib.Omega.{arith}
use cse_yet_another_file_sys.Prelude.Lists.{length, get_elem?, take, drop, set, All}

module _ {ℓ} {A : Type ℓ} where
  pub get_elem?-snoc :
      (xs : List A) (b : A) (k : ℕ) {c : A}
      → get_elem? (xs ++ b ∷ []) k ≡ some c
      → (get_elem? xs k ≡ some c) ⊎ ((k ≡ length xs) × (b ≡ c))
  get_elem?-snoc [] b zero h = inr (refl, ground arith)
  get_elem?-snoc [] b (suc k) h = absurd (ground arith)
  get_elem?-snoc (x ∷ xs) b zero h = inl h
  get_elem?-snoc (x ∷ xs) b (suc k) h = elim (get_elem?-snoc xs b k h) [
    | inl e ↦ inl e
    | inr (e, f) ↦ inr (ap suc e, f)
  ]

  pub get_elem?-take :
      (n : ℕ) (xs : List A) (k : ℕ) {c : A}
      → get_elem? (take n xs) k ≡ some c
      → (get_elem? xs k ≡ some c) × (k < n)
  get_elem?-take zero xs k h = absurd (ground arith)
  get_elem?-take (suc n) [] k h = absurd (ground arith)
  get_elem?-take (suc n) (x ∷ xs) zero h = (h, omega arith)
  get_elem?-take (suc n) (x ∷ xs) (suc k) h =
      let (e, l) = get_elem?-take n xs k h in (e, omega arith)

  pub get_elem?-drop :
      (n : ℕ) (xs : List A) (k : ℕ) → get_elem? (drop n xs) k ≡ get_elem? xs (n + k)
  get_elem?-drop zero xs k = let e : k ≡ zero + k = omega arith in ap (get_elem? xs) e
  get_elem?-drop (suc n) [] k = refl
  get_elem?-drop (suc n) (x ∷ xs) k =
      let e : suc n + k ≡ suc (n + k) = omega arith in rw e (get_elem?-drop n xs k)

  pub get_elem?-lt : (xs : List A) (k : ℕ) {c : A} → get_elem? xs k ≡ some c → k < length xs
  get_elem?-lt [] k h = absurd (ground arith)
  get_elem?-lt (x ∷ xs) zero h = omega arith
  get_elem?-lt (x ∷ xs) (suc k) h = omega (arith, get_elem?-lt xs k h)

  pub get_elem?-All {κ} :
      (P : A → Type κ) (xs : List A) (k : ℕ) {c : A} → All P xs → get_elem? xs k ≡ some c → P c
  get_elem?-All P [] k a h = absurd (ground arith)
  get_elem?-All P (x ∷ xs) zero {c} a h = subst P (some-injective x c h) a.0
  get_elem?-All P (x ∷ xs) (suc k) a h = get_elem?-All P xs k a.1 h

  pub All-of_get_elem? {κ} :
      (P : A → Type κ) (xs : List A) → ((k : ℕ) (c : A) → get_elem? xs k ≡ some c → P c) → All P xs
  All-of_get_elem? P [] h = tt
  All-of_get_elem? P (x ∷ xs) h = (h 0 x refl, All-of_get_elem? P xs (λ k c. h (suc k) c))

  -- Writing at the end of a prefix makes it one longer.
  pub take-set_end :
      (n : ℕ) (xs : List A) (v : A)
      → n < length xs
      → take (suc n) (set xs n v) ≡ take n xs ++ v ∷ []
  take-set_end zero (x ∷ xs) v h = refl
  take-set_end (suc n) (x ∷ xs) v h = ap (◌∷◌ x) (take-set_end n xs v (omega arith))
  take-set_end zero [] v h = absurd (omega arith)
  take-set_end (suc n) [] v h = absurd (omega arith)

  pub get_elem?-set_self :
      (xs : List A) (i : ℕ) (v : A) → i < length xs → get_elem? (set xs i v) i ≡ some v
  get_elem?-set_self [] i v h = absurd (omega arith)
  get_elem?-set_self (x ∷ xs) zero v h = refl
  get_elem?-set_self (x ∷ xs) (suc i) v h = get_elem?-set_self xs i v (omega arith)
