-- ===== src/Disk/Alloc.antt =====
-- The loop of `alloc_block` (inode_manager.cc) finds the first free block, and ends the process
-- only when no block is free.
use cse_yet_another_file_sys.Prelude.{
  ℕ, zero, suc, ◌+◌, ◌≤◌, ◌<◌, ◌≡◌, refl, arith, Bool-cases, inl, inr, done, exited, ◌==◌,
  if◌then◌else◌, update, ◌-◌, ◌⊎◌, le-or-lt,
}
use cse_yet_another_file_sys.Disk.{BlockManager, find_free, alloc_block, start_at, block_num}

-- The free ids among the `n` from `i` on.
pub free_count : ℕ → ℕ → (ℕ → ℕ) → ℕ
free_count zero i used = 0
free_count (suc n) i used = (if used i == 0 then 1 else 0) + free_count n (i + 1) used

pub free_count-update_below :
    (n i b v : ℕ) (used : ℕ → ℕ) → b < i → free_count n i (update used b v) ≡ free_count n i used
unfolding free_count
free_count-update_below zero i b v used h = refl
free_count-update_below (suc n) i b v used h =
    ground (arith, free_count-update_below n (i + 1) b v used)

-- What a successful search gives: a free id of the range, which is now taken.
pub record Finds (n i : ℕ) (s : BlockManager) : Type 0 where
  pub id : ℕ
  pub result : find_free n i s ≡ done (id, record s { using_blocks = update s.using_blocks id 1 })
  pub was_free : s.using_blocks id ≡ 0
  pub above : i ≤ id
  pub below : id < i + n
  pub one_less : free_count n i (update s.using_blocks id 1) + 1 ≡ free_count n i s.using_blocks

pub find_free-Finds : (n i : ℕ) (s : BlockManager) → 0 < free_count n i s.using_blocks → Finds n i s
unfolding find_free free_count
find_free-Finds zero i s h = absurd (omega arith)
find_free-Finds (suc n) i s h = elim (Bool-cases (s.using_blocks i == 0)) [
  | inl free ↦ record {
    id = i;
    result = rw free;
    was_free = ground arith;
    above = omega arith;
    below = omega arith;
    one_less = ground (arith, free_count-update_below n (i + 1) i 1 s.using_blocks);
  }
  | inr taken ↦
      let r = find_free-Finds n (i + 1) s (ground arith) in
      record {
        id = r.id;
        result = rw taken r.result;
        was_free = r.was_free;
        above = omega (arith, r.above);
        below = omega (arith, r.below);
        one_less = ground (arith, r.one_less, r.above);
      }
]

-- With no free id in the range, the search ends the process.
pub find_free-full :
    (n i : ℕ) (s : BlockManager) → free_count n i s.using_blocks ≡ 0 → find_free n i s ≡ exited
unfolding find_free free_count
find_free-full zero i s h = refl
find_free-full (suc n) i s h = ground (arith, find_free-full n (i + 1) s)

-- A free id at the start of a range that is not empty.
pub free_count_pos : (n i : ℕ) (used : ℕ → ℕ) → 0 < n → used i ≡ 0 → 0 < free_count n i used
unfolding free_count
free_count_pos zero i used pos h = absurd (omega arith)
free_count_pos (suc n) i used pos h = ground arith

-- `alloc_block` on any state: with a block of the data area free it returns such a block, which is marked
-- from then on and nothing else changes; with none free it ends the process.
pub alloc_block_lem :
    (s : BlockManager)
    → ((id : ℕ) × (alloc_block s
          ≡ done (id, record s { using_blocks = update s.using_blocks id 1 }))
        × (s.using_blocks id ≡ 0)
        × (start_at ≤ id)
        × (id < block_num))
      ⊎ ((free_count (block_num - start_at) start_at s.using_blocks ≡ 0) × (alloc_block s ≡ exited))
unfolding alloc_block
alloc_block_lem s = elim (le-or-lt (free_count (block_num - start_at) start_at s.using_blocks) 0) [
  | inl none ↦
      let full : free_count (block_num - start_at) start_at s.using_blocks ≡ 0 = omega arith in
      inr (full, find_free-full (block_num - start_at) start_at s full)
  | inr some ↦
      let r = find_free-Finds (block_num - start_at) start_at s some in
      inl (r.id, r.result, r.was_free, r.above, omega (arith, r.below))
]
