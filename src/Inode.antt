-- ===== src/Inode.antt =====
-- `struct inode` of inode_manager.h, and its bytes in a block of the disk.
pub mod Layout
use cse_yet_another_file_sys.Prelude.{
  ℕ, ◌+◌, ◌*◌, ◌/◌, ◌%◌, ◌^◌, ◌<◌, ◌≡◌, List, [], ◌∷◌, ◌++◌, length, take, drop, replicate, All,
}
use cse_yet_another_file_sys.Bytes.{Bytes, IsByte, IsWord, words, unwords}
use cse_yet_another_file_sys.Disk.{block_size}

abbrev pub ndirect : ℕ
ndirect = 100

abbrev pub nindirect : ℕ
nindirect = block_size / 4

abbrev pub maxfile : ℕ
maxfile = ndirect + nindirect

-- `type` is the bit pattern of a short; 0 marks an inode that is not in use.
pub record Inode : Type 0 where
  pub type : ℕ
  pub size : ℕ
  pub atime : ℕ
  pub mtime : ℕ
  pub ctime : ℕ
  pub blocks : List ℕ

-- The struct as words: `type` with its two bytes of padding (taken to be zero), the four numbers,
-- and the NDIRECT + 1 block ids.
abbrev pub inode_words : Inode → List ℕ
inode_words ino = ino.type ∷ ino.size ∷ ino.atime ∷ ino.mtime ∷ ino.ctime ∷ ino.blocks

abbrev pub inode_bytes : ℕ
inode_bytes = 4 * (ndirect + 6)

-- `*ino_disk = *ino`: the struct at the front of the block, the rest of the block as it was.
unfoldable pub store_inode : Inode → Bytes → Bytes
store_inode ino buf = unwords (inode_words ino) ++ drop inode_bytes buf

-- The last case does not arise: a block has 128 words.
unfoldable pub from_words : List ℕ → Inode
from_words (t ∷ s ∷ a ∷ m ∷ c ∷ rest) = record {
  type = t % 2 ^ 16;
  size = s;
  atime = a;
  mtime = m;
  ctime = c;
  blocks = take (ndirect + 1) rest;
}
from_words _ = record {
  type = 0;
  size = 0;
  atime = 0;
  mtime = 0;
  ctime = 0;
  blocks = replicate (ndirect + 1) 0;
}

-- `*ino = *ino_disk`
unfoldable pub load_inode : Bytes → Inode
load_inode buf = from_words (words buf)

abbrev pub IsBlock : Bytes → Type 0
IsBlock b = (length b ≡ block_size) × All IsByte b

-- The values that the struct's fields can hold.
pub record IsInode (ino : Inode) : Type 0 where
  pub type_fits : ino.type < 2 ^ 16
  pub size_fits : IsWord ino.size
  pub atime_fits : IsWord ino.atime
  pub mtime_fits : IsWord ino.mtime
  pub ctime_fits : IsWord ino.ctime
  pub count : length ino.blocks ≡ ndirect + 1
  pub ids_fit : All IsWord ino.blocks
