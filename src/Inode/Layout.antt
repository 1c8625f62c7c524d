-- ===== src/Inode/Layout.antt =====
-- An inode written into a block is read back from it.
use cse_yet_another_file_sys.Prelude.{
  ℕ, ◌+◌, ◌%◌, ◌^◌, ◌≡◌, ap, ◌∙◌, List, [], ◌∷◌, ◌++◌, arith, length, drop, All, length-append,
  length-drop, length-take, take-append, All-append, All-drop, All-take,
}
use cse_yet_another_file_sys.Bytes.{
  Bytes, IsByte, IsWord, words, unwords, words-unwords, words-IsWord, unwords-IsByte,
  length-unwords, length-words,
}
use cse_yet_another_file_sys.Inode.{
  Inode, IsInode, IsBlock, inode_words, inode_bytes, ndirect, store_inode, load_inode, from_words,
}

load_words :
    (ino : Inode) (rest : List ℕ) → IsInode ino → from_words (inode_words ino ++ rest) ≡ ino
unfolding from_words
load_words ino rest h = cc (take-append (ndirect + 1) ino.blocks rest h.count, short)
  where
    short : ino.type % 2 ^ 16 ≡ ino.type
    short = omega (arith, h.type_fits)

inode_words-IsWord : (ino : Inode) → IsInode ino → All IsWord (inode_words ino)
inode_words-IsWord ino h = (
  omega (arith, h.type_fits),
  (h.size_fits, (h.atime_fits, (h.mtime_fits, (h.ctime_fits, h.ids_fit)))),
)

-- Reading the struct from a block after writing it there gives it back.
pub load_inode-store_inode :
    (ino : Inode) (buf : Bytes) → IsInode ino → load_inode (store_inode ino buf) ≡ ino
unfolding store_inode load_inode
load_inode-store_inode ino buf h =
    ap from_words
      (words-unwords (inode_words ino) (drop inode_bytes buf) (inode_words-IsWord ino h))
    ∙ load_words ino (words (drop inode_bytes buf)) h

-- The block is still a block.
pub store_inode-IsBlock :
    (ino : Inode) (buf : Bytes) → IsInode ino → IsBlock buf → IsBlock (store_inode ino buf)
unfolding store_inode
store_inode-IsBlock ino buf h (n, b) = (
  omega (
    arith,
    length-append (unwords (inode_words ino)) (drop inode_bytes buf),
    length-unwords (inode_words ino),
    length-drop inode_bytes buf,
    h.count,
  ),
  All-append IsByte _ _ (unwords-IsByte (inode_words ino)) (All-drop IsByte inode_bytes buf b),
)

from_words-IsInode : (ws : List ℕ) → length ws ≡ 128 → All IsWord ws → IsInode (from_words ws)
unfolding from_words
from_words-IsInode (t ∷ s ∷ a ∷ m ∷ c ∷ rest) n (_, (hs, (ha, (hm, (hc, hr))))) = record {
  type_fits = omega arith;
  size_fits = hs;
  atime_fits = ha;
  mtime_fits = hm;
  ctime_fits = hc;
  count = omega (arith, length-take (ndirect + 1) rest);
  ids_fit = All-take IsWord (ndirect + 1) rest hr;
}
from_words-IsInode [] n h = absurd (omega arith)
from_words-IsInode (t ∷ []) n h = absurd (omega arith)
from_words-IsInode (t ∷ s ∷ []) n h = absurd (omega arith)
from_words-IsInode (t ∷ s ∷ a ∷ []) n h = absurd (omega arith)
from_words-IsInode (t ∷ s ∷ a ∷ m ∷ []) n h = absurd (omega arith)

-- What a block holds at its front is an inode that fits the struct.
pub load_inode-IsInode : (buf : Bytes) → IsBlock buf → IsInode (load_inode buf)
unfolding load_inode
load_inode-IsInode buf (n, b) =
    from_words-IsInode (words buf) (length-words 128 buf n) (words-IsWord buf b)
