-- ===== src/Manager/Sound.antt =====
-- The state that inode_manager.cc keeps: which blocks each file owns, what its bytes are, and the
-- invariant that its calls preserve while files have only direct blocks.
use cse_yet_another_file_sys.Prelude.{
  ℕ, ◌+◌, ◌-◌, ◌*◌, ◌≤◌, ◌<◌, ◌≡◌, ◌≢◌, ◌∙◌, ◌&&◌, List, [], arith, leb, ◌==◌, if◌then◌else◌,
  length, take, le→leb, ne→==, length-take, get_elem?-take,
}
use cse_yet_another_file_sys.Bytes.{Bytes}
use cse_yet_another_file_sys.Disk.{BlockManager, block_size, inode_num}
use cse_yet_another_file_sys.Inode.{Inode, ndirect}
use cse_yet_another_file_sys.Manager.{round_up}
use cse_yet_another_file_sys.Manager.Access.{IsFormatted, inode_at, IsInum, inode_at-IsInode}
use cse_yet_another_file_sys.Manager.Owners.{Owns}
use cse_yet_another_file_sys.Manager.Loops.{StandAt, gather}
use cse_yet_another_file_sys.Manager.Contents.{IsDistinct}

-- The blocks that an inode in use refers to.
abbrev pub owned : Inode → List ℕ
owned ino = if ino.type == 0 then [] else take (round_up ino.size block_size) ino.blocks

abbrev pub own_of : BlockManager → ℕ → List ℕ
own_of s i = if leb 1 i && leb i inode_num then owned (inode_at s i) else []

abbrev pub content : BlockManager → ℕ → Bytes
content s i = take (inode_at s i).size (gather s.d.blocks (owned (inode_at s i)))

abbrev pub max_direct : ℕ
max_direct = ndirect * block_size

pub record IsSound (s : BlockManager) : Type 0 where
  pub formatted : IsFormatted s
  pub small : (i : ℕ) → IsInum i → (inode_at s i).type ≢ 0 → (inode_at s i).size ≤ max_direct
  pub owns : Owns s.using_blocks (own_of s)

pub own_of_inum : (s : BlockManager) (i : ℕ) → IsInum i → own_of s i ≡ owned (inode_at s i)
own_of_inum s i (lo, hi) = rw (le→leb 1 i lo, le→leb i inode_num hi)

pub round_up-le : (size : ℕ) → size ≤ max_direct → round_up size block_size ≤ ndirect
round_up-le size h = ground arith

-- The blocks of a file just hold it.
pub round_up_bounds :
    (size : ℕ)
    → size ≢ 0
    → (block_size * (round_up size block_size - 1) < size)
      × (size ≤ block_size * round_up size block_size)
      × (0 < round_up size block_size)
round_up_bounds size h = ground arith

module _ {s : BlockManager} (sound : IsSound s) (i : ℕ) (inum : IsInum i) where
  abbrev ino : Inode
  ino = inode_at s i

  pub blocks_of_live : ino.type ≢ 0 → own_of s i ≡ take (round_up ino.size block_size) ino.blocks
  blocks_of_live live = own_of_inum s i inum ∙ rw (ne→== ino.type 0 live)

  pub length-own_of : ino.type ≢ 0 → length (own_of s i) ≡ round_up ino.size block_size
  length-own_of live = rw (blocks_of_live live) (
      omega (
        arith,
        length-take (round_up ino.size block_size) ino.blocks,
        (inode_at-IsInode sound.formatted i).count,
        round_up-le ino.size (sound.small i inum live),
      ))

  pub own_of-StandAt : ino.type ≢ 0 → StandAt ino 0 (own_of s i)
  own_of-StandAt live = record {
    direct = omega (arith, length-own_of live, round_up-le ino.size (sound.small i inum live));
    held = λ k b e.
        let here : 0 + k ≡ k = omega arith in
        let (p, q, r) = sound.owns.valid i k b e in
        (rw here (get_elem?-take _ _ k (rw (blocks_of_live live) at e)).0, q);
  }

  pub own_of-IsDistinct : IsDistinct (own_of s i)
  own_of-IsDistinct k l b p q = (sound.owns.single i i k l b p q).1
