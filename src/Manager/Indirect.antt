-- ===== src/Manager/Indirect.antt =====
-- The indirect block of inode_manager.cc: no code allocates one, so `blocks[NDIRECT]` keeps the value
-- that the formatted disk gives it, 0, in every inode, and all large files write into block 0.
use cse_yet_another_file_sys.Prelude.{
  ℕ, ◌-◌, ◌≤◌, ◌<◌, ◌≡◌, ap, sym, ◌∙◌, false, some, [], List, arith, done, All, append-nil, lt→ltb,
  le→ltb, length, get_elem?, set, length-set, pure, bind_done, All-set, update_self,
  get_elem?-set_self, update,
}
use cse_yet_another_file_sys.Bytes.{
  IsWord, words, unwords, words-unwords, length-words, length-unwords, words-IsWord,
}
use cse_yet_another_file_sys.Disk.{BlockManager, block_num, start_at, write_block}
use cse_yet_another_file_sys.Disk.Alloc.{Finds, find_free-Finds}
use cse_yet_another_file_sys.Inode.{Inode, ndirect, maxfile}
use cse_yet_another_file_sys.Manager.{alloc_block_in_inode, get_blockid_in_inode, element}
use cse_yet_another_file_sys.Manager.Access.{IsFormatted, write_block_lem}
use cse_yet_another_file_sys.Manager.Allocating.{free_blocks_left}

-- Words written over a whole block are read back.
words_back : (ws : List ℕ) → All IsWord ws → words (unwords ws) ≡ ws
unfolding words
words_back ws h = ap words (sym (append-nil (unwords ws))) ∙ words-unwords ws [] h ∙ append-nil ws

module _ {s : BlockManager} (f : IsFormatted s) (x y : Inode) (c k : ℕ) (large : ndirect ≤ k)
    (fits : k < maxfile) (same_x : get_elem? x.blocks ndirect ≡ some c)
    (same_y : get_elem? y.blocks ndirect ≡ some c) (ok : c < block_num)
    (r : Finds (block_num - start_at) start_at s) where
  abbrev changed : List ℕ
  changed = set (words (s.d.blocks c)) (k - ndirect) r.id

  abbrev after : BlockManager
  after = record s {
    using_blocks = update s.using_blocks r.id 1;
    d = record { blocks = update s.d.blocks c (unwords changed) };
  }

  abbrev marked : BlockManager
  marked = record s { using_blocks = update s.using_blocks r.id 1 }

  marked-IsFormatted : IsFormatted marked
  marked-IsFormatted = record { nblocks = f.nblocks; shape = f.shape }

  changed-IsWord : All IsWord changed
  changed-IsWord =
      All-set IsWord (words (s.d.blocks c)) (k - ndirect) r.id (omega (arith, r.below))
        (words-IsWord (s.d.blocks c) (f.shape c).1)

  room : k - ndirect < length (words (s.d.blocks c))
  room = omega (arith, length-words 128 (s.d.blocks c) (f.shape c).0)

  full : length (unwords changed) ≡ 512
  full = omega (
    arith,
    length-unwords changed,
    length-set (words (s.d.blocks c)) (k - ndirect) r.id,
    length-words 128 (s.d.blocks c) (f.shape c).0,
  )

  allocated : alloc_block_in_inode x k [] false s ≡ done (x, after)
  unfolding alloc_block_in_inode
  allocated =
      rw
        (
          r.result,
          le→ltb k ndirect large,
          same_x,
          element,
          lt→ltb c block_num ok,
          lt→ltb (k - ndirect) (length (words (s.d.blocks c))) room,
        )
        (bind_done (write_block c (unwords changed)) (λ _. pure x) {s = marked}
          (write_block_lem marked-IsFormatted c (unwords changed) ok full))

  read_back :
      (ino : Inode)
      → get_elem? ino.blocks ndirect ≡ some c
      → get_blockid_in_inode ino k after ≡ done (r.id, after)
  unfolding get_blockid_in_inode
  read_back ino same = rw (
    le→ltb k ndirect large,
    same,
    element,
    lt→ltb c block_num ok,
    update_self s.d.blocks c (unwords changed),
    words_back changed changed-IsWord,
    get_elem?-set_self (words (s.d.blocks c)) (k - ndirect) r.id room,
  )

-- Two inodes whose `blocks[NDIRECT]` hold the same block id share their indirect blocks: the block that is
-- allocated for an index from NDIRECT on in the one is a free one, the inode itself does not change (so
-- its `blocks[NDIRECT]` does not), and the block is then the other's at that index too.
pub indirect_shared :
    {s : BlockManager} (x y : Inode) (c k : ℕ)
    → IsFormatted s
    → 0 < free_blocks_left s.using_blocks
    → ndirect ≤ k
    → k < maxfile
    → get_elem? x.blocks ndirect ≡ some c
    → get_elem? y.blocks ndirect ≡ some c
    → c < block_num
    → (b : ℕ) × (t : BlockManager) × (alloc_block_in_inode x k [] false s ≡ done (x, t))
      × (get_blockid_in_inode y k t ≡ done (b, t))
      × (s.using_blocks b ≡ 0)
      × (t.using_blocks b ≡ 1)
indirect_shared {s} x y c k f left large fits same_x same_y ok =
    let r = find_free-Finds (block_num - start_at) start_at s left in
    (
      r.id,
      after f x y c k large fits same_x same_y ok r,
      allocated f x y c k large fits same_x same_y ok r,
      read_back f x y c k large fits same_x same_y ok r y same_y,
      r.was_free,
      update_self s.using_blocks r.id 1,
    )
