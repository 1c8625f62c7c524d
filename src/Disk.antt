-- ===== src/Disk.antt =====
-- inode_manager.h and the disk and block layers of inode_manager.cc: `disk` and `block_manager`.
-- No caller passes a null buffer, so the tests on NULL are not modelled.
pub mod Alloc
use cse_yet_another_file_sys.Prelude.{
  ℕ, zero, suc, ◌+◌, ◌-◌, ◌*◌, ◌/◌, Option, none, some, Exec, Outcome, done, exited, fault, ltb,
  leb, ◌==◌, if◌then◌else◌, update, length, take, replicate,
}
use cse_yet_another_file_sys.Bytes.{Bytes}

abbrev pub block_size : ℕ
block_size = 512

abbrev pub disk_size : ℕ
disk_size = 1024 * 1024 * 16

abbrev pub block_num : ℕ
block_num = disk_size / block_size

abbrev pub inode_num : ℕ
inode_num = 1024

-- Inodes per block, and bits of the bitmap per block.
abbrev pub ipb : ℕ
ipb = 1

abbrev pub bpb : ℕ
bpb = block_size * 8

-- The block that holds inode i: IBLOCK(i, nblocks).
abbrev pub iblock : ℕ → ℕ → ℕ
iblock i nblocks = nblocks / bpb + i / ipb + 3

-- A local buffer: `none` while its memory is indeterminate.
abbrev pub Buffer : Type 0
Buffer = Option Bytes

pub record Disk : Type 0 where
  pub blocks : ℕ → Bytes

abbrev pub disk_init : Disk
disk_init = record { blocks = λ id. replicate block_size 0 }

unfoldable pub disk_read : ℕ → Buffer → Disk → Buffer
disk_read id buf d = if ltb id block_num then some (d.blocks id) else buf

-- `memcpy` reads block_size bytes of `buf`: a shorter one is read past its end.
unfoldable pub disk_write : ℕ → Bytes → Exec Disk Unit
disk_write id buf d =
    if ltb id block_num
    then (if leb block_size (length buf)
        then done (tt, record { blocks = update d.blocks id (take block_size buf) })
        else fault)
    else done (tt, d)

pub record Superblock : Type 0 where
  pub size : ℕ
  pub nblocks : ℕ
  pub ninodes : ℕ

pub record BlockManager : Type 0 where
  pub d : Disk
  pub using_blocks : ℕ → ℕ
  pub sb : Superblock

-- The constructor: a zeroed disk, nothing in use, the sizes in the superblock.
abbrev pub block_manager_init : BlockManager
block_manager_init = record {
  d = disk_init;
  using_blocks = λ id. 0;
  sb = record { size = block_size * block_num; nblocks = block_num; ninodes = inode_num };
}

abbrev pub start_at : ℕ
start_at = iblock inode_num block_num + 1

-- The loop of `alloc_block` from block `i`, with the rounds that are left; after the last `exit(0)`.
pub find_free : ℕ → ℕ → Exec BlockManager ℕ
find_free zero i s = exited
find_free (suc n) i s =
    let rest = find_free n (i + 1) s in
    if s.using_blocks i == 0
    then done (i, record s { using_blocks = update s.using_blocks i 1 })
    else rest

unfoldable pub alloc_block : Exec BlockManager ℕ
alloc_block = find_free (block_num - start_at) start_at

unfoldable pub free_block : ℕ → Exec BlockManager Unit
free_block id s = done (tt, record s { using_blocks = update s.using_blocks id 0 })

unfoldable pub read_block : ℕ → Buffer → Exec BlockManager Buffer
unfolding disk_read
read_block id buf s = done (disk_read id buf s.d, s)

unfoldable pub write_block : ℕ → Bytes → Exec BlockManager Unit
unfolding disk_write
write_block id buf s = elim (disk_write id buf s.d) [
  | done (u, d) ↦ done (tt, record s { d = d })
  | exited ↦ exited
  | fault ↦ fault
]
