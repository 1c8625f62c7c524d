-- ===== src/YfsClient/Numbers.antt =====
-- The name that yfs_client.cc makes of a number is the number again.
use cse_yet_another_file_sys.Prelude.{
  ℕ, zero, suc, ◌+◌, ◌-◌, ◌*◌, ◌/◌, ◌%◌, ◌<◌, ◌^◌, ◌≡◌, ap, ◌∙◌, subst, true, Bool-cases, inl, inr,
  [], ◌∷◌, ◌++◌, All, All-append, ltb, arith, length, length-append, ◌≤◌,
}
use cse_yet_another_file_sys.Bytes.{Bytes}
use cse_yet_another_file_sys.YfsClient.Names.{
  digits, filename, is_digit, read_digits, read_magnitude, n2i,
}
use Prim.Native.Nat.pow

abbrev IsDigits : Bytes → Type 0
IsDigits s = All (λ c. is_digit c ≡ true) s

read_digits-snoc :
    (s : Bytes) (finum d : ℕ)
    → IsDigits s
    → d < 10
    → read_digits finum (s ++ ((48 + d) ∷ [])) ≡ read_digits finum s * 10 + d
unfolding read_digits
read_digits-snoc [] finum d h small = ground arith
read_digits-snoc (c ∷ s) finum d h small =
    rw h.0 (read_digits-snoc s (finum * 10 + (c - 48)) d h.1 small)

-- The digits of a number are digits, and are read as the number.
digits_lem :
    (rounds n : ℕ)
    → n < 10 ^ rounds
    → IsDigits (digits rounds n) × (read_digits 0 (digits rounds n) ≡ n)
unfolding digits read_digits
digits_lem zero n h = (tt, omega arith)
digits_lem (suc rounds) n h = elim (Bool-cases (ltb n 10)) [
  | inl y ↦ rw y (ground arith)
  | inr k ↦
      let fits : n < 10 ^ rounds * 10 = subst (λ m. n < m) (pow.suc 10 rounds) h in
      let (front, reads) = digits_lem rounds (n / 10) (omega (arith, fits)) in
      rw k (
        All-append (λ c. is_digit c ≡ true) (digits rounds (n / 10)) ((48 + n % 10) ∷ []) front
            (ground arith, tt),
        read_digits-snoc (digits rounds (n / 10)) 0 (n % 10) front (omega arith)
            ∙ ap (λ m. m * 10 + n % 10) reads
            ∙ omega arith,
      )
]

n2i-digits : (unset : ℕ) (s : Bytes) → IsDigits s → 1 ≤ length s → n2i unset s ≡ read_magnitude s
unfolding n2i read_magnitude
n2i-digits unset [] h some_digit = absurd (omega (arith, some_digit))
n2i-digits unset (c ∷ s) h some_digit = ground (arith, h.0)

length-digits : (rounds n : ℕ) → 1 ≤ length (digits (suc rounds) n)
unfolding digits
length-digits rounds n = elim (Bool-cases (ltb n 10)) [
  | inl y ↦ rw y (omega arith)
  | inr k ↦ rw k (omega (arith, length-append (digits rounds (n / 10)) ((48 + n % 10) ∷ [])))
]

-- A number of 64 bits is read back from the name that is made of it.
pub n2i-filename : (unset inum : ℕ) → inum < 2 ^ 64 → n2i unset (filename inum) ≡ inum
unfolding filename read_magnitude
n2i-filename unset inum h =
    let (all, reads) = digits_lem 20 inum (omega (arith, h)) in
    n2i-digits unset (digits 20 inum) all (length-digits 19 inum) ∙ rw reads (ground (arith, h))
