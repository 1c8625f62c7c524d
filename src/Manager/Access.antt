-- ===== src/Manager/Access.antt =====
-- On a formatted disk the private helpers of inode_manager.cc read and write what they name: the
-- inode in its block, a direct data block, the marks of the block manager.
use cse_yet_another_file_sys.Prelude.{
  ℕ, ◌+◌, ◌≤◌, ◌<◌, ◌≡◌, ap, ◌∙◌, none, some, arith, done, update, length, get_elem?, take_all,
  lt→ltb, le→leb,
}
use cse_yet_another_file_sys.Bytes.{Bytes}
use cse_yet_another_file_sys.Disk.{
  block_size, block_num, inode_num, iblock, BlockManager, read_block, write_block,
}
use cse_yet_another_file_sys.Inode.{Inode, IsInode, IsBlock, ndirect, store_inode, load_inode}
use cse_yet_another_file_sys.Inode.Layout.{
  load_inode-store_inode, store_inode-IsBlock, load_inode-IsInode,
}
use cse_yet_another_file_sys.Manager.{
  get_inode, put_inode, get_blockid_in_inode, read_block_in_inode, write_block_in_inode,
  free_block_in_inode, element,
}

-- The disk has the sizes that the constructor gives it, and every block is one of 512 bytes.
pub record IsFormatted (s : BlockManager) : Type 0 where
  pub nblocks : s.sb.nblocks ≡ block_num
  pub shape : (b : ℕ) → IsBlock (s.d.blocks b)

-- Inode i stands in block i + 11.
abbrev pub inode_at : BlockManager → ℕ → Inode
inode_at s i = load_inode (s.d.blocks (i + 11))

-- The state with other contents of one block.
abbrev pub with_block : BlockManager → ℕ → Bytes → BlockManager
with_block s b bytes = record s { d = record { blocks = update s.d.blocks b bytes } }

abbrev pub with_inode : BlockManager → ℕ → Inode → BlockManager
with_inode s i ino = with_block s (i + 11) (store_inode ino (s.d.blocks (i + 11)))

abbrev pub IsInum : ℕ → Type 0
IsInum i = (1 ≤ i) × (i ≤ inode_num)

module _ {s : BlockManager} (f : IsFormatted s) where
  pub with_block-IsFormatted :
      (b : ℕ) (bytes : Bytes) → IsBlock bytes → IsFormatted (with_block s b bytes)
  with_block-IsFormatted b bytes h = record {
    nblocks = f.nblocks;
    shape = λ c. ground (arith, f.shape c);
  }

  pub with_inode-IsFormatted :
      (i : ℕ) (ino : Inode) → IsInode ino → IsFormatted (with_inode s i ino)
  with_inode-IsFormatted i ino h =
      with_block-IsFormatted (i + 11) _ (store_inode-IsBlock ino _ h (f.shape (i + 11)))

  pub inode_at-IsInode : (i : ℕ) → IsInode (inode_at s i)
  inode_at-IsInode i = load_inode-IsInode _ (f.shape (i + 11))

  pub inode_at-with_inode_self :
      (i : ℕ) (ino : Inode) → IsInode ino → inode_at (with_inode s i ino) i ≡ ino
  inode_at-with_inode_self i ino h =
      ground (arith, load_inode-store_inode ino (s.d.blocks (i + 11)) h)

  pub get_inode_lem : (i : ℕ) → IsInum i → get_inode i s ≡ done (inode_at s i, s)
  unfolding get_inode
  get_inode_lem i (lo, hi) = ground (arith, f.nblocks)

  iblock_lem : (i : ℕ) → iblock i s.sb.nblocks ≡ i + 11
  iblock_lem i = omega (arith, f.nblocks)

  -- Writing a whole block.
  pub write_block_lem :
      (b : ℕ) (bytes : Bytes)
      → b < block_num
      → length bytes ≡ block_size
      → write_block b bytes s ≡ done (tt, with_block s b bytes)
  unfolding write_block
  write_block_lem b bytes h n = rw (
    lt→ltb b block_num h,
    le→leb block_size (length bytes) (omega arith),
    take_all block_size bytes (omega arith),
    write_block,
  )

  pub read_block_lem : (b : ℕ) → b < block_num → read_block b none s ≡ done (some (s.d.blocks b), s)
  unfolding read_block
  read_block_lem b h = rw (lt→ltb b block_num h)

  pub put_inode_lem :
      (i : ℕ) (ino : Inode)
      → IsInum i
      → IsInode ino
      → put_inode i ino s ≡ done (tt, with_inode s i ino)
  unfolding put_inode
  put_inode_lem i ino (lo, hi) h =
      rw (lt→ltb (iblock i s.sb.nblocks) block_num (omega (arith, f.nblocks))) (
        write_block_lem (iblock i s.sb.nblocks) _ (omega (arith, f.nblocks))
          (store_inode-IsBlock ino _ h (f.shape _)).0)
      ∙ ap (λ b. done (tt, with_block s b (store_inode ino (s.d.blocks b)))) (iblock_lem i)

  -- A direct block is found in the inode itself.
  module _ (ino : Inode) (k b : ℕ) (direct : k < ndirect)
      (held : get_elem? ino.blocks k ≡ some b) where
    get_blockid_lem : get_blockid_in_inode ino k s ≡ done (b, s)
    unfolding get_blockid_in_inode
    get_blockid_lem = rw (lt→ltb k ndirect direct, held, element)

    pub read_direct : b < block_num → read_block_in_inode ino k s ≡ done (s.d.blocks b, s)
    unfolding read_block_in_inode
    read_direct h = rw (get_blockid_lem, lt→ltb b block_num h)

    pub write_direct :
        (bytes : Bytes)
        → b < block_num
        → length bytes ≡ block_size
        → write_block_in_inode ino k bytes s ≡ done (tt, with_block s b bytes)
    unfolding write_block_in_inode
    write_direct bytes h n = rw get_blockid_lem (write_block_lem b bytes h n)

    pub free_direct :
        free_block_in_inode ino k s
        ≡ done (tt, record s { using_blocks = update s.using_blocks b 0 })
    unfolding free_block_in_inode
    free_direct = rw get_blockid_lem
