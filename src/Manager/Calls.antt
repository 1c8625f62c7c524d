-- ===== src/Manager/Calls.antt =====
-- The public methods of class inode_manager in inode_manager.cc, and its constructor.
use cse_yet_another_file_sys.Prelude.{
  ℕ, zero, suc, ◌+◌, ◌-◌, ◌*◌, ◌/◌, ◌%◌, ◌^◌, false, Option, none, some, [], ◌++◌, pure, exit,
  ◌>>=◌, ◌>>◌, ltb, ◌==◌, if◌then◌else◌,
}
use cse_yet_another_file_sys.Bytes.{Bytes}
use cse_yet_another_file_sys.Disk.{block_size, inode_num, Buffer}
use cse_yet_another_file_sys.Inode.{Inode, maxfile}
use cse_yet_another_file_sys.Manager.{
  Call, Clock, time, round_up, slice, resize, read_block_in_inode, write_block_in_inode,
  alloc_block_in_inode, free_block_in_inode, get_inode, put_inode,
}

-- `enum types` and `struct attr` of extent_protocol.h.
abbrev pub t_dir : ℕ
t_dir = 1

abbrev pub t_file : ℕ
t_file = 2

abbrev pub t_slink : ℕ
t_slink = 3

pub record Attr : Type 0 where
  pub type : ℕ
  pub atime : ℕ
  pub mtime : ℕ
  pub ctime : ℕ
  pub size : ℕ

-- The constructor writes the root directory's inode; the fields that it does not set are what the
-- memory of the local variable `root` holds.
unfoldable pub inode_manager_init : Inode → Clock → Call Unit
inode_manager_init root now =
    put_inode 1 (record root { type = t_dir; size = 0; atime = time now 0 })

-- The loop of `alloc_inode` from `i`, with the rounds that are left.
unfoldable pub find_inode : ℕ → ℕ → Call (Option (ℕ × Inode))
find_inode zero i = pure none
find_inode (suc n) i =
    let rest = find_inode n (i + 1) in
    do ino ← get_inode i; if ino.type == 0 then pure (some (i, ino)) else rest

unfoldable pub alloc_inode : ℕ → Clock → Call ℕ
alloc_inode type now = do
  found ← find_inode (inode_num - 1) 2
  elim found [
    | none ↦ exit
    | some (inum, ino) ↦ do
      put_inode inum (record ino { type = type % 2 ^ 16; size = 0; atime = time now 0 })
      pure inum
  ]

unfoldable pub free_inode : ℕ → Call Unit
free_inode inum = do ino ← get_inode inum; put_inode inum (record ino { type = 0 })

-- The loop of `read_file`: the blocks from `i` on, one after the other.
unfoldable pub read_blocks : Inode → ℕ → ℕ → Call Bytes
read_blocks ino zero i = pure []
read_blocks ino (suc n) i = do
  content ← read_block_in_inode ino i
  rest ← read_blocks ino n (i + 1)
  pure (content ++ rest)

-- The result is `*buf_out`, which an empty file leaves as it was, and `*size`.
unfoldable pub read_file : ℕ → Clock → Call (Buffer × ℕ)
read_file inum now = do
  ino ← get_inode inum
  if ino.size == 0
      then pure (none, ino.size)
      else if ltb (maxfile * block_size) ino.size
      then exit
      else do
        content ← read_blocks ino (round_up ino.size block_size) 0
        put_inode inum (record ino { atime = time now 0 })
        pure (some content, ino.size)

-- The three loops of `write_file` over `start`, with the rounds that are left.
unfoldable pub free_blocks : Inode → ℕ → ℕ → Call Unit
free_blocks ino zero start = pure tt
free_blocks ino (suc n) start = do free_block_in_inode ino start; free_blocks ino n (start + 1)

unfoldable pub alloc_blocks : Inode → ℕ → ℕ → Call Inode
alloc_blocks ino zero start = pure ino
alloc_blocks ino (suc n) start = do
  ino' ← alloc_block_in_inode ino start [] false
  alloc_blocks ino' n (start + 1)

unfoldable pub write_blocks : Inode → Bytes → ℕ → ℕ → Call Unit
write_blocks ino buf zero start = pure tt
write_blocks ino buf (suc n) start = do
  content ← slice buf (block_size * start) block_size
  write_block_in_inode ino start content
  write_blocks ino buf n (start + 1)

-- The last block is filled up with zero bytes.
unfoldable pub write_tail : Inode → Bytes → ℕ → ℕ → Call Unit
write_tail ino buf size blk_num_new = do
  let padding_bytes = blk_num_new * block_size - size
  let tail_bytes = block_size - padding_bytes
  content ← slice buf (block_size * (blk_num_new - 1)) tail_bytes
  write_block_in_inode ino (blk_num_new - 1) (resize block_size content)

-- Freeing or allocating, so that the inode has `blk_num_new` blocks.
unfoldable pub adjust_blocks : Inode → ℕ → ℕ → Call Inode
adjust_blocks ino blk_num_ori blk_num_new =
    if ltb blk_num_new blk_num_ori
    then (do free_blocks ino (blk_num_ori - blk_num_new) blk_num_new; pure ino)
    else if ltb blk_num_ori blk_num_new
    then alloc_blocks ino (blk_num_new - blk_num_ori) blk_num_ori
    else pure ino

-- `buf` holds the `size` bytes.
unfoldable pub write_file : ℕ → Bytes → ℕ → Clock → Call Unit
write_file inum buf size now = do
  ori ← get_inode inum
  let blk_num_new = round_up size block_size
  adjusted ← adjust_blocks ori (round_up ori.size block_size) blk_num_new
  let ino = record adjusted { size = size }
  if blk_num_new == 0
      then pure tt
      else do write_blocks ino buf (blk_num_new - 1) 0; write_tail ino buf size blk_num_new
  put_inode inum (record ino { atime = time now 0; mtime = time now 1; ctime = time now 2 })

-- The cast of a short to uint32_t extends its sign.
abbrev pub sign_extend : ℕ → ℕ
sign_extend t = if ltb t (2 ^ 15) then t else t + 2 ^ 32 - 2 ^ 16

unfoldable pub getattr : ℕ → Call Attr
getattr inum = do
  ino ← get_inode inum
  pure (record {
    type = sign_extend ino.type;
    atime = ino.atime;
    mtime = ino.mtime;
    ctime = ino.ctime;
    size = ino.size;
  })

unfoldable pub remove_file : ℕ → Call Unit
remove_file inum = do
  ino ← get_inode inum
  let block_num = if ino.size == 0 then 0 else (ino.size - 1) / block_size + 1
  free_blocks ino block_num 0
  free_inode inum
