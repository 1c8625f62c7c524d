-- ===== src/YfsClient/Names.antt =====
-- `filename` and `n2i` of yfs_client.cc: a number as the decimal digits that a stream prints, and what a stream reads
-- as an unsigned number of 64 bits.
use cse_yet_another_file_sys.Prelude.{
  ℕ, zero, suc, ◌+◌, ◌-◌, ◌*◌, ◌/◌, ◌%◌, ◌^◌, Bool, true, ◌&&◌, ◌==◌, [], ◌∷◌, ◌++◌, if◌then◌else◌,
  leb, ltb,
}
use cse_yet_another_file_sys.Bytes.{Bytes}

-- The digits that are left, of a number below 10 ^ rounds.
unfoldable pub digits : ℕ → ℕ → Bytes
digits zero n = []
digits (suc rounds) n =
    let front = digits rounds (n / 10) in
    if ltb n 10 then (48 + n) ∷ [] else front ++ ((48 + n % 10) ∷ [])

-- A number of 64 bits has at most 20 digits.
unfoldable pub filename : ℕ → Bytes
unfolding digits
filename inum = digits 20 inum

abbrev pub is_digit : ℕ → Bool
is_digit c = leb 48 c && leb c 57

abbrev pub is_space : ℕ → Bool
is_space c = if c == 32 then true else leb 9 c && leb c 13

-- The digits up to the first other byte.
unfoldable pub read_digits : ℕ → Bytes → ℕ
read_digits finum [] = finum
read_digits finum (c ∷ n) =
    let rest = read_digits (finum * 10 + (c - 48)) n in if is_digit c then rest else finum

-- A number that is too large is read as the largest one.
unfoldable pub read_magnitude : Bytes → ℕ
unfolding read_digits
read_magnitude n = let finum = read_digits 0 n in if ltb finum (2 ^ 64) then finum else 2 ^ 64 - 1

-- `unset` is what `finum` held: it stays where there is nothing to read.
unfoldable pub n2i : ℕ → Bytes → ℕ
unfolding read_magnitude
n2i unset [] = unset
n2i unset (c ∷ n) =
    let rest = n2i unset n in
    if is_space c
    then rest
    else if c == 43
    then read_magnitude n
    else if c == 45
    then (if ltb (read_digits 0 n) (2 ^ 64)
        then (2 ^ 64 - read_digits 0 n) % 2 ^ 64
        else 2 ^ 64 - 1)
    else read_magnitude (c ∷ n)
