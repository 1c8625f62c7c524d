-- ===== src/Manager/Contents.antt =====
-- The bytes of a file against those that `write_file` of inode_manager.cc stored in its blocks.
use cse_yet_another_file_sys.Prelude.{
  ℕ, zero, suc, ◌-◌, ◌*◌, ◌≤◌, ◌≡◌, ◌≢◌, refl, ap, ap₂, ◌∙◌, some, List, [], ◌∷◌, ◌++◌, arith, inl,
  inr, length, get_elem?, take, drop, All, update, le-or-lt, append-nil, append_assoc,
  length-append, length-take, length-drop, take-append, take_all, All-drop, take-append-drop,
  update_self,
}
use cse_yet_another_file_sys.Bytes.{Bytes, IsByte}
use cse_yet_another_file_sys.Disk.{block_size}
use cse_yet_another_file_sys.Inode.{IsBlock}
use cse_yet_another_file_sys.Manager.{resize}
use cse_yet_another_file_sys.Manager.Loops.{gather}
use cse_yet_another_file_sys.Manager.Writing.{store_all, resize-IsBlock}

abbrev pub IsFresh : ℕ → List ℕ → Type 0
IsFresh c ids = (l : ℕ) → get_elem? ids l ≢ some c

abbrev pub IsDistinct : List ℕ → Type 0
IsDistinct ids = (k l b : ℕ) → get_elem? ids k ≡ some b → get_elem? ids l ≡ some b → k ≡ l

-- A block that is none of the file's keeps its bytes.
pub store_all_other :
    (f : ℕ → Bytes) (ids : List ℕ) (rest : Bytes) (c : ℕ)
    → IsFresh c ids
    → store_all f ids rest c ≡ f c
unfolding store_all
store_all_other f [] rest c h = refl
store_all_other f (b ∷ ids) rest c h =
    store_all_other (update f b (resize block_size rest)) ids (drop block_size rest) c
      (λ l. h (suc l))
    ∙ ground (arith, h 0)

pub store_all-IsBlock :
    (f : ℕ → Bytes) (ids : List ℕ) (rest : Bytes)
    → ((b : ℕ) → IsBlock (f b))
    → All IsByte rest
    → (b : ℕ) → IsBlock (store_all f ids rest b)
unfolding store_all
store_all-IsBlock f [] rest h r = h
store_all-IsBlock f (b ∷ ids) rest h r =
    store_all-IsBlock (update f b (resize block_size rest)) ids (drop block_size rest)
      (λ c. ground (arith, h c, resize-IsBlock rest r)) (All-drop IsByte block_size rest r)

pub gather_cong :
    (f g : ℕ → Bytes) (ids : List ℕ)
    → ((k c : ℕ) → get_elem? ids k ≡ some c → f c ≡ g c)
    → gather f ids ≡ gather g ids
unfolding gather
gather_cong f g [] h = refl
gather_cong f g (b ∷ ids) h = ap₂ ◌++◌ (h 0 b refl) (gather_cong f g ids (λ k. h (suc k)))

pub length-gather :
    (f : ℕ → Bytes) (ids : List ℕ)
    → ((b : ℕ) → IsBlock (f b))
    → length (gather f ids) ≡ block_size * length ids
unfolding gather
length-gather f [] h = refl
length-gather f (b ∷ ids) h =
    omega (arith, length-append (f b) (gather f ids), (h b).0, length-gather f ids h)

-- A prefix reaches into the second part.
take-append_long :
    (n : ℕ) (xs ys : Bytes) → length xs ≤ n → take n (xs ++ ys) ≡ xs ++ take (n - length xs) ys
take-append_long n [] ys h = let e : n - 0 ≡ n = omega arith in rw e
take-append_long zero (x ∷ xs) ys h = absurd (omega arith)
take-append_long (suc n) (x ∷ xs) ys h =
    let e : suc n - suc (length xs) ≡ n - length xs = omega arith in
    rw e (ap (◌∷◌ x) (take-append_long n xs ys (omega arith)))

-- One block of the buffer, and behind it what continues the buffer.
take_block :
    (rest tail : Bytes)
    → take (length rest - block_size) tail ≡ drop block_size rest
    → take (length rest) (resize block_size rest ++ tail) ≡ rest
take_block rest tail h = elim (le-or-lt block_size (length rest)) [
  | inl long ↦
      let size : length (take block_size rest) ≡ block_size =
        omega (arith, length-take block_size rest) in
      let full : block_size - length rest ≡ 0 = omega arith in
      rw (full, append-nil)
        (take-append_long (length rest) (take block_size rest) tail (omega arith)
          ∙ rw (size, h) (take-append-drop block_size rest))
  | inr short ↦
      rw (take_all block_size rest (omega arith), append_assoc)
        (take-append (length rest) rest _ refl)
]

-- The bytes that were stored in the blocks are those of the buffer, and zeros behind them.
pub gather-store_all :
    (f : ℕ → Bytes) (ids : List ℕ) (rest : Bytes)
    → IsDistinct ids
    → length rest ≤ block_size * length ids
    → take (length rest) (gather (store_all f ids rest) ids) ≡ rest
unfolding gather store_all
gather-store_all f [] [] d h = refl
gather-store_all f [] (x ∷ rest) d h = absurd (omega arith)
gather-store_all f (b ∷ ids) rest d h =
    let f' = update f b (resize block_size rest) in
    let fresh : IsFresh b ids = λ l e. absurd (omega (arith, d 0 (suc l) b refl e)) in
    let less : length (drop block_size rest) ≡ length rest - block_size =
      length-drop block_size rest in
    let tail =
      gather-store_all f' ids (drop block_size rest)
        (λ k l c p q. omega (arith, d (suc k) (suc l) c p q)) (omega arith) in
    rw
      (
        store_all_other f' ids (drop block_size rest) b fresh,
        update_self f b (resize block_size rest),
      )
      (take_block rest _ (rw (← less) tail))
