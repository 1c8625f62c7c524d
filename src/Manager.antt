-- ===== src/Manager.antt =====
-- class inode_manager of inode_manager.h and inode_manager.cc. Its only field is the block manager,
-- so its methods are processes over that. `time(NULL)` is read several times in a call: the k-th
-- reading of the call is `now k`, cut to the 32 bits of the fields that it is stored in.
pub mod Calls
pub mod Access
pub mod Owners
pub mod Loops
pub mod Writing
pub mod Allocating
pub mod Contents
pub mod Sound
pub mod Frame
pub mod Adjusting
pub mod Files
pub mod Replacing
pub mod Reading
pub mod Removing
pub mod Creating
pub mod Initial
pub mod Indirect
mod Tests
use cse_yet_another_file_sys.Prelude.{
  ℕ, zero, suc, ◌+◌, ◌-◌, ◌*◌, ◌/◌, ◌%◌, ◌^◌, Bool, true, false, ◌||◌, Option, none, some, List, [],
  ◌∷◌, ◌++◌, Exec, Outcome, done, exited, fault, pure, exit, crash, ◌>>=◌, ◌>>◌, continue, ltb, leb,
  ◌==◌, if◌then◌else◌, length, get_elem?, set, take, drop, replicate,
}
use cse_yet_another_file_sys.Bytes.{Bytes, words, unwords}
use cse_yet_another_file_sys.Disk.{
  block_size, inode_num, iblock, Buffer, BlockManager, block_manager_init, alloc_block, free_block,
  read_block, write_block,
}
use cse_yet_another_file_sys.Inode.{Inode, ndirect, maxfile, store_inode, load_inode}

abbrev pub Call : Type 0 → Type 0
Call A = Exec BlockManager A

abbrev pub Clock : Type 0
Clock = ℕ → ℕ

abbrev pub time : Clock → ℕ → ℕ
time now k = now k % 2 ^ 32

-- ROUND_UP_DEVISION(a, b)
abbrev pub round_up : ℕ → ℕ → ℕ
round_up a b = a / b + (if a % b == 0 then 0 else 1)

-- Reading a local buffer whose memory is indeterminate is undefined.
abbrev pub initialised : Buffer → Call Bytes
initialised none = crash
initialised (some bytes) = pure bytes

abbrev pub element : List ℕ → ℕ → Call ℕ
element ids k = elim (get_elem? ids k) [ none ↦ crash | some id ↦ pure id ]

-- The `n` bytes at `buf + off`.
abbrev pub slice : Bytes → ℕ → ℕ → Call Bytes
slice buf off n = if leb (off + n) (length buf) then pure (take n (drop off buf)) else crash

-- `std::string::resize`, which fills up with zero bytes.
abbrev pub resize : ℕ → Bytes → Bytes
resize n bytes = take n bytes ++ replicate (n - length bytes) 0

abbrev pub nblocks_of : Call ℕ
nblocks_of s = done (s.sb.nblocks, s)

unfoldable pub get_blockid_in_inode : Inode → ℕ → Call ℕ
unfolding read_block
get_blockid_in_inode ino index = if ltb index ndirect then element ino.blocks index else do
  inblock_id ← element ino.blocks ndirect
  buf ← read_block inblock_id none
  inblock ← initialised buf
  element (words inblock) (index - ndirect)

unfoldable pub read_block_in_inode : Inode → ℕ → Call Bytes
unfolding read_block get_blockid_in_inode
read_block_in_inode ino index = do
  bl_id ← get_blockid_in_inode ino index
  content ← read_block bl_id none
  initialised content

unfoldable pub write_block_in_inode : Inode → ℕ → Bytes → Call Unit
unfolding write_block get_blockid_in_inode
write_block_in_inode ino index buf = do
  bl_id ← get_blockid_in_inode ino index
  write_block bl_id buf

-- `((blockid_t *) inblock)[k] = id` on the indirect block.
unfoldable pub set_word : Bytes → ℕ → ℕ → Call Bytes
set_word inblock k id =
    if ltb k (length (words inblock)) then pure (unwords (set (words inblock) k id)) else crash

-- Returns the inode, whose `blocks` it changes in place.
unfoldable pub alloc_block_in_inode : Inode → ℕ → Bytes → Bool → Call Inode
unfolding alloc_block read_block write_block set_word
alloc_block_in_inode ino index buf write_through = do
  blk_id ← alloc_block
  (if write_through then write_block blk_id buf else pure tt)
  if ltb index ndirect then pure (record ino { blocks = set ino.blocks index blk_id }) else do
    inblock_id ← element ino.blocks ndirect
    inbuf ← read_block inblock_id none
    inblock ← initialised inbuf
    changed ← set_word inblock (index - ndirect) blk_id
    write_block inblock_id changed
    pure ino

unfoldable pub free_block_in_inode : Inode → ℕ → Call Unit
unfolding free_block get_blockid_in_inode
free_block_in_inode ino index = do id ← get_blockid_in_inode ino index; free_block id

unfoldable pub get_inode : ℕ → Call Inode
unfolding read_block
get_inode inum = if leb inum 0 || ltb inode_num inum then exit else do
  nblocks ← nblocks_of
  buf ← read_block (iblock inum nblocks) none
  bytes ← initialised buf
  pure (load_inode bytes)

-- Where the block id is out of range, nothing is read and nothing is written.
unfoldable pub put_inode : ℕ → Inode → Call Unit
unfolding read_block write_block
put_inode inum ino = do
  nblocks ← nblocks_of
  buf ← read_block (iblock inum nblocks) none
  elim buf [
    | none ↦ pure tt
    | some bytes ↦ write_block (iblock inum nblocks) (store_inode ino bytes)
  ]
