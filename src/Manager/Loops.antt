-- ===== src/Manager/Loops.antt =====
-- The loops of inode_manager.cc over the direct blocks of one inode: each does to its list of
-- blocks what a plain recursion on that list does.
use cse_yet_another_file_sys.Prelude.{
  ℕ, suc, ◌+◌, ◌≤◌, ◌<◌, ◌≡◌, refl, some, List, [], ◌∷◌, ◌++◌, arith, done, length, get_elem?,
  update,
}
use cse_yet_another_file_sys.Bytes.{Bytes}
use cse_yet_another_file_sys.Disk.{block_num, BlockManager}
use cse_yet_another_file_sys.Inode.{Inode, ndirect}
use cse_yet_another_file_sys.Manager.Calls.{read_blocks, free_blocks}
use cse_yet_another_file_sys.Manager.Access.{IsFormatted, read_direct, free_direct}
use cse_yet_another_file_sys.Manager.Owners.{free_all}

-- The blocks `ids` are those of the inode from index `start` on, all direct and on the disk.
pub record StandAt (ino : Inode) (start : ℕ) (ids : List ℕ) : Type 0 where
  pub direct : start + length ids ≤ ndirect
  pub held :
      (k b : ℕ)
      → get_elem? ids k ≡ some b
      → (get_elem? ino.blocks (start + k) ≡ some b) × (b < block_num)

module _ {ino : Inode} {start b : ℕ} {ids : List ℕ} (h : StandAt ino start (b ∷ ids)) where
  pub head_held : (get_elem? ino.blocks start ≡ some b) × (b < block_num)
  head_held =
      let (p, q) = h.held 0 b refl in let e : start + 0 ≡ start = omega arith in (rw e at p, q)

  pub head_direct : start < ndirect
  head_direct = omega (arith, h.direct)

  pub StandAt-tail : StandAt ino (start + 1) ids
  StandAt-tail = record {
    direct = omega (arith, h.direct);
    held = λ k c e.
        let (p, q) = h.held (suc k) c e in
        let eq : start + suc k ≡ start + 1 + k = omega arith in (rw eq at p, q);
  }

-- The contents of the blocks, one after the other.
unfoldable pub gather : (ℕ → Bytes) → List ℕ → Bytes
gather f [] = []
gather f (b ∷ ids) = f b ++ gather f ids

pub read_blocks_lem :
    {s : BlockManager} (f : IsFormatted s) (ino : Inode) (start : ℕ) (ids : List ℕ)
    → StandAt ino start ids
    → read_blocks ino (length ids) start s ≡ done (gather s.d.blocks ids, s)
unfolding read_blocks gather
read_blocks_lem f ino start [] h = refl
read_blocks_lem f ino start (b ∷ ids) h =
    let (e, q) = head_held h in
    rw (
      read_direct f ino start b (head_direct h) e q,
      read_blocks_lem f ino (start + 1) ids (StandAt-tail h),
    )

pub free_blocks_lem :
    {s : BlockManager} (f : IsFormatted s) (ino : Inode) (start : ℕ) (ids : List ℕ)
    → StandAt ino start ids
    → free_blocks ino (length ids) start s
      ≡ done (tt, record s { using_blocks = free_all ids s.using_blocks })
unfolding free_blocks free_all
free_blocks_lem f ino start [] h = refl
free_blocks_lem {s} f ino start (b ∷ ids) h =
    let (e, q) = head_held h in
    rw (free_direct f ino start b (head_direct h) e) (
      free_blocks_lem {s = record s { using_blocks = update s.using_blocks b 0 }}
        (record { nblocks = f.nblocks; shape = f.shape }) ino (start + 1) ids (StandAt-tail h))
