-- ===== src/Manager/Allocating.antt =====
-- The loop of `write_file` in inode_manager.cc that allocates blocks: with enough blocks free it
-- ends, the new ids stand behind the old ones, and they belong to no other file.
use cse_yet_another_file_sys.Prelude.{
  ℕ, zero, suc, ◌+◌, ◌-◌, ◌≤◌, ◌<◌, ◌≡◌, refl, ap, ◌∙◌, false, List, [], ◌∷◌, ◌++◌, arith, done,
  length, take, set, All, All-set, length-set, take-set_end, update, append-nil, append_assoc,
  lt→ltb,
}
use cse_yet_another_file_sys.Bytes.{IsWord}
use cse_yet_another_file_sys.Disk.{BlockManager, block_num, start_at}
use cse_yet_another_file_sys.Disk.Alloc.{free_count, Finds, find_free-Finds}
use cse_yet_another_file_sys.Inode.{Inode, ndirect}
use cse_yet_another_file_sys.Manager.{alloc_block_in_inode}
use cse_yet_another_file_sys.Manager.Calls.{alloc_blocks}
use cse_yet_another_file_sys.Manager.Owners.{Owns, Owns-alloc}

-- How many data blocks are free.
abbrev pub free_blocks_left : (ℕ → ℕ) → ℕ
free_blocks_left used = free_count (block_num - start_at) start_at used

-- What the loop gives for a file `i` that has the blocks `xs` in the family `own`.
pub record Allocates (s : BlockManager) (ino : Inode) (start n : ℕ) (own : ℕ → List ℕ) (i : ℕ)
    (xs : List ℕ) : Type 0 where
  pub ids : List ℕ
  pub blocks' : List ℕ
  pub used' : ℕ → ℕ
  pub count : length ids ≡ n
  pub result :
      alloc_blocks ino n start s
      ≡ done (record ino { blocks = blocks' }, record s { using_blocks = used' })
  pub owns : Owns used' (update own i (xs ++ ids))
  pub same_length : length blocks' ≡ length ino.blocks
  pub ids_fit : All IsWord blocks'
  pub front : take (start + n) blocks' ≡ take start ino.blocks ++ ids

alloc_block_lem :
    {s : BlockManager} (ino : Inode) (start : ℕ)
    → start < ndirect
    → (r : Finds (block_num - start_at) start_at s)
    → alloc_block_in_inode ino start [] false s
      ≡ done (
        record ino { blocks = set ino.blocks start r.id },
        record s { using_blocks = update s.using_blocks r.id 1 },
      )
unfolding alloc_block_in_inode
alloc_block_lem ino start h r = rw (r.result, lt→ltb start ndirect h)

-- One more id at index `start`, and `ids` behind it.
front_suc :
    (start n b : ℕ) (blocks blocks' ids : List ℕ)
    → start < length blocks
    → take (start + 1 + n) blocks' ≡ take (start + 1) (set blocks start b) ++ ids
    → take (start + suc n) blocks' ≡ take start blocks ++ b ∷ ids
front_suc start n b blocks blocks' ids h e =
    let sum : start + suc n ≡ start + 1 + n = omega arith in
    let one : start + 1 ≡ suc start = omega arith in
    let long : take (start + 1) (set blocks start b) ≡ take start blocks ++ b ∷ [] =
      rw one (take-set_end start blocks b h) in
    rw sum (e ∙ rw (long, append_assoc))

pub alloc_blocks-Allocates :
    {s : BlockManager} (ino : Inode) (start n : ℕ) (own : ℕ → List ℕ) (i : ℕ) (xs : List ℕ)
    → Owns s.using_blocks (update own i xs)
    → start + n ≤ ndirect
    → ndirect < length ino.blocks
    → All IsWord ino.blocks
    → n ≤ free_blocks_left s.using_blocks
    → Allocates s ino start n own i xs
unfolding alloc_blocks
alloc_blocks-Allocates {s} ino start zero own i xs o fits long words room = record {
  ids = [];
  blocks' = ino.blocks;
  used' = s.using_blocks;
  count = refl;
  result = refl;
  owns = rw append-nil o;
  same_length = refl;
  ids_fit = words;
  front = let e : start + 0 ≡ start = omega arith in rw (e, append-nil);
}
alloc_blocks-Allocates {s} ino start (suc n) own i xs o fits long words room =
    let r = find_free-Finds (block_num - start_at) start_at s (omega arith) in
    let ino' = record ino { blocks = set ino.blocks start r.id } in
    let s' = record s { using_blocks = update s.using_blocks r.id 1 } in
    let next =
      alloc_blocks-Allocates {s = s'} ino' (start + 1) n own i (xs ++ r.id ∷ [])
        (Owns-alloc own i xs o r.id r.was_free r.above (omega (arith, r.below))) (omega arith)
        (omega (arith, length-set ino.blocks start r.id))
        (All-set IsWord ino.blocks start r.id (omega (arith, r.below)) words)
        (omega (arith, r.one_less)) in
    record {
      ids = r.id ∷ next.ids;
      blocks' = next.blocks';
      used' = next.used';
      count = ap suc next.count;
      result = rw (alloc_block_lem ino start (omega arith) r) next.result;
      owns = rw append_assoc at next.owns;
      same_length = next.same_length ∙ length-set ino.blocks start r.id;
      ids_fit = next.ids_fit;
      front = front_suc start n r.id ino.blocks next.blocks' next.ids (omega arith) next.front;
    }
