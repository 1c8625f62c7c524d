-- ===== src/Bytes.antt =====
-- Byte strings, and arrays of little-endian 32-bit words laid over them, as the casts of
-- inode_manager.cc between `char *` and `blockid_t *` or `struct inode *` read them.
use cse_yet_another_file_sys.Prelude.{
  ℕ, zero, suc, ◌+◌, ◌*◌, ◌/◌, ◌%◌, ◌^◌, ◌<◌, ◌≡◌, refl, ap, ap₂, List, [], ◌∷◌, ◌++◌, arith,
  length, All,
}

abbrev pub Bytes : Type 0
Bytes = List ℕ

abbrev pub IsByte : ℕ → Type 0
IsByte b = b < 256

abbrev pub IsWord : ℕ → Type 0
IsWord w = w < 2 ^ 32

-- The four bytes of a uint32_t, lowest first.
abbrev pub unword : ℕ → Bytes → Bytes
unword w rest = w % 256 ∷ w / 256 % 256 ∷ w / 65536 % 256 ∷ w / 16777216 % 256 ∷ rest

abbrev pub word : ℕ → ℕ → ℕ → ℕ → ℕ
word a b c d = a + 256 * b + 65536 * c + 16777216 * d

unfoldable pub words : Bytes → List ℕ
words (a ∷ b ∷ c ∷ d ∷ rest) = word a b c d ∷ words rest
words _ = []

unfoldable pub unwords : List ℕ → Bytes
unwords [] = []
unwords (w ∷ ws) = unword w (unwords ws)

word-unword :
    (w : ℕ) → IsWord w → word (w % 256) (w / 256 % 256) (w / 65536 % 256) (w / 16777216 % 256) ≡ w
word-unword w h = omega arith

-- Words written at the front of a buffer are read back, and the rest is untouched.
pub words-unwords :
    (ws : List ℕ) (r : Bytes) → All IsWord ws → words (unwords ws ++ r) ≡ ws ++ words r
unfolding words unwords
words-unwords [] r h = refl
words-unwords (w ∷ ws) r h = ap₂ ◌∷◌ (word-unword w h.0) (words-unwords ws r h.1)

pub words-IsWord : (bs : Bytes) → All IsByte bs → All IsWord (words bs)
unfolding words
words-IsWord (a ∷ b ∷ c ∷ d ∷ rest) (p, (q, (r, (s, t)))) = (omega arith, words-IsWord rest t)
words-IsWord (a ∷ b ∷ c ∷ []) h = tt
words-IsWord (a ∷ b ∷ []) h = tt
words-IsWord (a ∷ []) h = tt
words-IsWord [] h = tt

pub unwords-IsByte : (ws : List ℕ) → All IsByte (unwords ws)
unfolding unwords
unwords-IsByte [] = tt
unwords-IsByte (w ∷ ws) =
    (omega arith, (omega arith, (omega arith, (omega arith, unwords-IsByte ws))))

pub length-unwords : (ws : List ℕ) → length (unwords ws) ≡ 4 * length ws
unfolding unwords
length-unwords [] = refl
length-unwords (w ∷ ws) = omega (arith, length-unwords ws)

pub length-words : (n : ℕ) (bs : Bytes) → length bs ≡ 4 * n → length (words bs) ≡ n
unfolding words
length-words zero [] h = refl
length-words (suc n) (a ∷ b ∷ c ∷ d ∷ rest) h = ap suc (length-words n rest (omega arith))
length-words zero (a ∷ bs) h = absurd (omega arith)
length-words (suc n) [] h = absurd (omega arith)
length-words (suc n) (a ∷ []) h = absurd (omega arith)
length-words (suc n) (a ∷ b ∷ []) h = absurd (omega arith)
length-words (suc n) (a ∷ b ∷ c ∷ []) h = absurd (omega arith)
