-- ===== src/Manager/Files.antt =====
-- `write_file` of inode_manager.cc, whole: with room on the disk it returns, the file then holds
-- the buffer, every other file is as it was, and the invariant is kept.
use cse_yet_another_file_sys.Prelude.{
  ℕ, ◌+◌, ◌-◌, ◌*◌, ◌≤◌, ◌<◌, ◌≡◌, ◌≢◌, refl, ap, sym, ◌∙◌, subst, List, [], ◌∷◌, some, arith, done,
  inl, inr, length, get_elem?, take, All, update, update_self, update_ne, ◌==◌, Bool-cases,
  get_elem?-take, ne→==, ==_iff, bind_done, pure, if◌then◌else◌,
}
use cse_yet_another_file_sys.Bytes.{Bytes, IsByte}
use cse_yet_another_file_sys.Disk.{BlockManager, block_size, block_num, start_at}
use cse_yet_another_file_sys.Inode.{Inode, IsInode, load_inode}
use cse_yet_another_file_sys.Manager.{Clock, time, round_up, put_inode}
use cse_yet_another_file_sys.Manager.Frame.{SameInodes, own_of-update, content_cong}
use cse_yet_another_file_sys.Manager.Calls.{write_file}
use cse_yet_another_file_sys.Manager.Access.{
  IsFormatted, IsInum, inode_at, with_inode, with_inode-IsFormatted, inode_at-with_inode_self,
  inode_at-IsInode, get_inode_lem, put_inode_lem,
}
use cse_yet_another_file_sys.Manager.Owners.{Owns}
use cse_yet_another_file_sys.Manager.Loops.{StandAt, gather}
use cse_yet_another_file_sys.Manager.Writing.{store_all, write_from, write_from_lem}
use cse_yet_another_file_sys.Manager.Allocating.{free_blocks_left}
use cse_yet_another_file_sys.Manager.Contents.{
  IsFresh, IsDistinct, store_all_other, store_all-IsBlock, gather_cong, gather-store_all,
}
use cse_yet_another_file_sys.Manager.Sound.{
  IsSound, owned, own_of, content, max_direct, round_up-le, round_up_bounds,
}
use cse_yet_another_file_sys.Manager.Adjusting.{Adjusts, adjust_blocks-Adjusts}

-- What a call of `write_file` on file `i` comes to.
pub record Writes (s : BlockManager) (i : ℕ) (buf : Bytes) (now : Clock) : Type 0 where
  pub after : BlockManager
  pub result : write_file i buf (length buf) now s ≡ done (tt, after)
  pub sound : IsSound after
  pub stored : content after i ≡ buf
  pub size : (inode_at after i).size ≡ length buf
  pub type : (inode_at after i).type ≡ (inode_at s i).type
  pub stamped :
      ((inode_at after i).atime ≡ time now 0)
      × ((inode_at after i).mtime ≡ time now 1)
      × ((inode_at after i).ctime ≡ time now 2)
  pub others :
      (j : ℕ)
      → IsInum j
      → j ≢ i
      → (inode_at after j ≡ inode_at s j) × (content after j ≡ content s j)

module _ {s : BlockManager} (sound : IsSound s) (i : ℕ) (inum : IsInum i)
    (live : (inode_at s i).type ≢ 0) (buf : Bytes) (bytes : All IsByte buf)
    (small : length buf ≤ max_direct) (now : Clock)
    (a : Adjusts s i (round_up (length buf) block_size)) where
  abbrev new : ℕ
  new = round_up (length buf) block_size

  -- The inode that is written back, and the disk under it.
  abbrev ino : Inode
  ino = record (inode_at s i) {
    blocks = a.blocks';
    size = length buf;
    atime = time now 0;
    mtime = time now 1;
    ctime = time now 2;
  }

  abbrev stored : BlockManager
  stored = record s {
    using_blocks = a.used';
    d = record { blocks = store_all s.d.blocks a.ids buf };
  }

  abbrev after : BlockManager
  after = with_inode stored i ino

  ino-IsInode : IsInode ino
  ino-IsInode =
      let fits = inode_at-IsInode sound.formatted i in
      record {
        type_fits = fits.type_fits;
        size_fits = omega arith;
        atime_fits = omega arith;
        mtime_fits = omega arith;
        ctime_fits = omega arith;
        count = a.length';
        ids_fit = a.ids_fit;
      }

  stored-IsFormatted : IsFormatted stored
  stored-IsFormatted = record {
    nblocks = sound.formatted.nblocks;
    shape = store_all-IsBlock s.d.blocks a.ids buf sound.formatted.shape bytes;
  }

  after-IsFormatted : IsFormatted after
  after-IsFormatted = with_inode-IsFormatted stored-IsFormatted i ino ino-IsInode

  -- The blocks of file `i`, as the family has them.
  at_self : update (own_of s) i a.ids i ≡ a.ids
  at_self = update_self (own_of s) i a.ids

  ids_in_data : (k b : ℕ) → get_elem? a.ids k ≡ some b → (start_at ≤ b) × (b < block_num)
  ids_in_data k b e = let (p, q, r) = a.owns.valid i k b (rw at_self e) in (p, q)

  ids-IsDistinct : IsDistinct a.ids
  ids-IsDistinct k l b p q = (a.owns.single i i k l b (rw at_self p) (rw at_self q)).1

  ids-StandAt : (ino' : Inode) → ino'.blocks ≡ a.blocks' → StandAt ino' 0 a.ids
  ids-StandAt ino' same = record {
    direct = omega (arith, a.count, round_up-le (length buf) small);
    held = λ k b e.
        let here : 0 + k ≡ k = omega arith in
        (rw (here, same) (get_elem?-take new a.blocks' k (rw a.front e)).0, (ids_in_data k b e).1);
  }

  -- The writing itself, on the inode as it is after the blocks were adjusted.
  writing :
      (ino' : Inode) (ids : List ℕ)
      → length ids ≡ new
      → StandAt ino' 0 ids
      → (if new == 0 then pure tt else write_from ino' buf (new - 1) 0 new)
          (record s { using_blocks = a.used' })
        ≡ done (
          tt,
          record s { using_blocks = a.used'; d = record { blocks = store_all s.d.blocks ids buf } },
        )
  unfolding store_all
  writing ino' [] count stand = let none : new ≡ 0 = omega arith in rw ((==_iff new 0).1 none)
  writing ino' (b ∷ ids) count stand =
      let some_left : length buf ≢ 0 =
        λ z. let gone : new ≡ 0 = ap (λ k. round_up k block_size) z in absurd (omega arith) in
      let (lo, hi, pos) = round_up_bounds (length buf) some_left in
      let rounds : new - 1 ≡ length ids = omega arith in
      rw (ne→== new 0 (omega arith), rounds)
        (write_from_lem {s = record s { using_blocks = a.used' }}
          (record { nblocks = sound.formatted.nblocks; shape = sound.formatted.shape }) ino' buf 0
          new b ids stand (omega arith) lo hi bytes)

  write_file_result : write_file i buf (length buf) now s ≡ done (tt, after)
  unfolding write_file write_from
  write_file_result =
      let adjusted : Inode = record (inode_at s i) { blocks = a.blocks'; size = length buf } in
      let s1 : BlockManager = record s { using_blocks = a.used' } in
      rw (get_inode_lem sound.formatted i inum, a.result)
        (bind_done (if new == 0 then pure tt else write_from adjusted buf (new - 1) 0 new)
            (λ _. put_inode i ino) {s = s1}
            (writing adjusted a.ids a.count (ids-StandAt adjusted refl))
          ∙ put_inode_lem stored-IsFormatted i ino inum ino-IsInode)

  -- What the disk holds afterwards.
  inode_self : inode_at after i ≡ ino
  inode_self = inode_at-with_inode_self stored-IsFormatted i ino ino-IsInode

  inode_other : SameInodes s after i
  inode_other j (lo, hi) ne = ap load_inode (
      update_ne stored.d.blocks (i + 11) (j + 11) _ (λ e. ne (omega arith))
      ∙ store_all_other s.d.blocks a.ids buf (j + 11)
          (λ l e. absurd (omega (arith, (ids_in_data l (j + 11) e).0))))

  owned_self : owned (inode_at after i) ≡ a.ids
  owned_self = ap owned inode_self ∙ rw (ne→== (inode_at s i).type 0 live) a.front

  own_of_after : own_of after ≡ update (own_of s) i a.ids
  own_of_after = own_of-update s after i inum inode_other ∙ ap (update (own_of s) i) owned_self

  -- A block of the data area is not touched by the inode's write.
  data_after : (b : ℕ) → start_at ≤ b → after.d.blocks b ≡ store_all s.d.blocks a.ids buf b
  data_after b h = update_ne stored.d.blocks (i + 11) b _ (λ e. absurd (omega (arith, inum.1)))

  content_self : content after i ≡ buf
  content_self =
      ap (λ (ino' : Inode). take ino'.size (gather after.d.blocks (owned (inode_at after i))))
        inode_self
      ∙ ap (λ (ids : List ℕ). take (length buf) (gather after.d.blocks ids)) owned_self
      ∙ ap (take (length buf)) (
          gather_cong after.d.blocks (store_all s.d.blocks a.ids buf) a.ids
            (λ k b e. data_after b (ids_in_data k b e).0))
      ∙ gather-store_all s.d.blocks a.ids buf ids-IsDistinct (omega (arith, a.count, fits))
    where
      fits : length buf ≤ block_size * new
      fits = ground arith

  -- A block of another file is none of this one's.
  apart : (j k b : ℕ) → j ≢ i → get_elem? (own_of s j) k ≡ some b → IsFresh b a.ids
  apart j k b ne e l p = ne (
      sym
        (a.owns.single i j l k b (rw at_self p) (
          ap (λ (xs : List ℕ). get_elem? xs k) (update_ne (own_of s) i j a.ids (λ q. ne (sym q)))
          ∙ e)).0)

  content_other : (j : ℕ) → IsInum j → j ≢ i → content after j ≡ content s j
  content_other j jnum ne = content_cong s after j jnum (inode_other j jnum ne) (λ k b e.
      data_after b (sound.owns.valid j k b e).0
      ∙ store_all_other s.d.blocks a.ids buf b (apart j k b ne e))

  after_small :
      (j : ℕ) → IsInum j → (inode_at after j).type ≢ 0 → (inode_at after j).size ≤ max_direct
  after_small j jnum alive = elim (Bool-cases (i == j)) [
    | inl e ↦
        let here : i ≡ j = (==_iff i j).0 e in
        rw (← here) (subst (λ (x : Inode). x.size ≤ max_direct) (sym inode_self) small)
    | inr e ↦
        let same = inode_other j jnum (ground arith) in
        subst (λ (x : Inode). x.size ≤ max_direct) (sym same)
          (sound.small j jnum (subst (λ (x : Inode). x.type ≢ 0) same alive))
  ]

  adjusted-Writes : Writes s i buf now
  adjusted-Writes = record {
    after = after;
    result = write_file_result;
    sound = record {
      formatted = after-IsFormatted;
      small = after_small;
      owns = subst (Owns a.used') (sym own_of_after) a.owns;
    };
    stored = content_self;
    size = ap (λ (x : Inode). x.size) inode_self;
    type = ap (λ (x : Inode). x.type) inode_self;
    stamped = (
      ap (λ (x : Inode). x.atime) inode_self,
      ap (λ (x : Inode). x.mtime) inode_self,
      ap (λ (x : Inode). x.ctime) inode_self,
    );
    others = λ j jnum ne. (inode_other j jnum ne, content_other j jnum ne);
  }

-- On a sound disk, writing at most NDIRECT blocks of bytes to an inode in use, with enough free
-- blocks for the growth, returns; the file then holds exactly the buffer, its size, type and times
-- are as they should be, every other file keeps its inode and its bytes, and the disk is sound.
pub write_file-Writes :
    {s : BlockManager} (i : ℕ) (buf : Bytes) (now : Clock)
    → IsSound s
    → IsInum i
    → (inode_at s i).type ≢ 0
    → All IsByte buf
    → length buf ≤ max_direct
    → round_up (length buf) block_size - round_up (inode_at s i).size block_size
      ≤ free_blocks_left s.using_blocks
    → Writes s i buf now
write_file-Writes i buf now sound inum live bytes small room =
    adjusted-Writes sound i inum live buf bytes small now
      (adjust_blocks-Adjusts sound i inum live _ (round_up-le (length buf) small) room)
