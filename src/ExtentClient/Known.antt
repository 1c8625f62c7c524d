-- ===== src/ExtentClient/Known.antt =====
-- What is known of the files of the extent server behind extent_client.cc.
use cse_yet_another_file_sys.Prelude.{
  ℕ, zero, suc, ◌+◌, ◌^◌, ◌<◌, ◌≤◌, ◌≡◌, refl, ap, sym, ◌∙◌, fun_ext, Bool-cases, inl, inr, true,
  ◌==◌, ==_iff, ltb, Option, none, some, Option-cases, some_injective, [], ◌∷◌, All, update, arith,
}
use cse_yet_another_file_sys.Bytes.{Bytes, IsByte}
use cse_yet_another_file_sys.Disk.{BlockManager}
use cse_yet_another_file_sys.Manager.Sound.{IsSound}
use cse_yet_another_file_sys.Server.{mask}
use cse_yet_another_file_sys.Server.View.{File, view}
use cse_yet_another_file_sys.ExtentClient.Backing.{
  Backing, known, unknown, bytes_in, contents_of, contents, all_bytes, first_free,
}

-- An id that has contents is one that `mask` leaves.
pub there :
    (v : ℕ → Option File) (id : ℕ) (b : Bytes)
    → contents_of v id ≡ some b
    → (mask id ≡ id) × (bytes_in (v (mask id)) ≡ some b) × (id < 2 ^ 31)
there v id b h = elim (Bool-cases (ltb id (2 ^ 31))) [
  | inl y ↦
      let small : id < 2 ^ 31 = ground (arith, y) in
      let same : mask id ≡ id = omega (arith, small) in
      (same, ap (λ i. bytes_in (v i)) same ∙ sym (rw y refl) ∙ h, small)
  | inr n ↦ absurd (ground (arith, n, h))
]

pub contents_of-update :
    (v : ℕ → Option File) (id : ℕ) (o : Option File)
    → id < 2 ^ 31
    → contents_of (update v id o) ≡ update (contents_of v) id (bytes_in o)
contents_of-update v id o small = fun_ext λ j. elim (Bool-cases (id == j)) [
  | inl y ↦
      let e : id ≡ j = (==_iff id j).0 y in
      let low : ltb j (2 ^ 31) ≡ true = ground (arith, small, e) in rw (y, low) refl
  | inr n ↦ rw n refl
]

pub all_bytes-IsByte : (buf : Bytes) → all_bytes buf ≡ true → All IsByte buf
all_bytes-IsByte [] h = tt
all_bytes-IsByte (b ∷ bs) h = (ground (arith, h), all_bytes-IsByte bs (ground (arith, h)))

pub first_free_lem :
    (v : ℕ → Option File) (rounds j k : ℕ)
    → first_free v rounds j ≡ some k
    → (j ≤ k) × (k < j + rounds) × (v k ≡ none)
first_free_lem v zero j k h = absurd (ground (arith, h))
first_free_lem v (suc rounds) j k h = elim (Option-cases (v j)) [
  | inl e ↦
      let found : j ≡ k = some_injective (sym (rw (e, first_free) refl) ∙ h) in
      (omega (arith, found), omega (arith, found), ap v (sym found) ∙ e)
  | inr (f, e) ↦
      let (lo, hi, free) = first_free_lem v rounds (j + 1) k (sym (rw (e, first_free) refl) ∙ h) in
      (omega (arith, lo), omega (arith, hi), free)
]

-- Where there are contents, the server's disk is known to be sound and has a file of them.
pub known_of :
    (r : Backing) (id : ℕ) (b : Bytes)
    → contents r id ≡ some b
    → (s : BlockManager) × (p : IsSound s) × (n : ℕ) × (f : File) × (r ≡ known s p n)
      × (view s (mask id) ≡ some f)
      × (f.bytes ≡ b)
known_of (known s p n) id b h = elim (Option-cases (view s (mask id))) [
  | inl e ↦
      let gone : bytes_in (view s (mask id)) ≡ none = ap bytes_in e in
      absurd (ground (arith, gone, (there (view s) id b h).1))
  | inr (f, e) ↦
      (s, p, n, f, refl, e, some_injective (sym (ap bytes_in e) ∙ (there (view s) id b h).1))
]
known_of (unknown o n) id b h = absurd (ground (arith, h))

pub first_free_here :
    (v : ℕ → Option File) (rounds j : ℕ) → v j ≡ none → first_free v (suc rounds) j ≡ some j
first_free_here v rounds j e = rw (e, first_free) refl
