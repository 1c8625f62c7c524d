-- ===== src/Manager/Creating.antt =====
-- `alloc_inode` and the constructor of inode_manager.cc: a new inode is one that was free, its file
-- is empty, and no other file is touched.
use cse_yet_another_file_sys.Prelude.{
  update_same, ℕ, zero, suc, ◌+◌, ◌-◌, ◌%◌, ◌^◌, ◌≤◌, ◌<◌, ◌≡◌, ◌≢◌, refl, ap, sym, ◌∙◌, subst,
  none, some, [], arith, done, exited, take, get_elem?, update, ne→==, ==_iff, ◌==◌, Bool-cases,
  inl, inr,
}
use cse_yet_another_file_sys.Disk.{BlockManager, start_at, inode_num}
use cse_yet_another_file_sys.Inode.{Inode, IsInode}
use cse_yet_another_file_sys.Manager.{Clock, time}
use cse_yet_another_file_sys.Manager.Calls.{alloc_inode, find_inode}
use cse_yet_another_file_sys.Manager.Access.{
  IsFormatted, IsInum, inode_at, with_inode, inode_at-IsInode, get_inode_lem, put_inode_lem,
}
use cse_yet_another_file_sys.Manager.Owners.{Owns}
use cse_yet_another_file_sys.Manager.Loops.{gather}
use cse_yet_another_file_sys.Manager.Sound.{IsSound, owned, own_of, own_of_inum, content}
use cse_yet_another_file_sys.Manager.Replacing.{
  replaced_self, replaced_other, content_replaced, replaced-IsSound,
}

-- A free inode at `j` makes the search end at the first free one.
pub record FindsInode (s : BlockManager) (n i j : ℕ) : Type 0 where
  pub inum : ℕ
  pub result : find_inode n i s ≡ done (some (inum, inode_at s inum), s)
  pub was_free : (inode_at s inum).type ≡ 0
  pub above : i ≤ inum
  pub first : inum ≤ j

pub find_inode-FindsInode :
    {s : BlockManager} (f : IsFormatted s) (n i j : ℕ)
    → 1 ≤ i
    → i + n ≤ inode_num + 1
    → i ≤ j
    → j < i + n
    → (inode_at s j).type ≡ 0
    → FindsInode s n i j
unfolding find_inode
find_inode-FindsInode f zero i j pos fits lo hi free = absurd (omega arith)
find_inode-FindsInode {s} f (suc n) i j pos fits lo hi free =
    elim (Bool-cases ((inode_at s i).type == 0)) [
      | inl hit ↦ record {
        inum = i;
        result = rw (get_inode_lem f i (pos, omega arith), hit);
        was_free = (==_iff _ 0).0 hit;
        above = omega arith;
        first = lo;
      }
      | inr miss ↦
          let later : i ≢ j = λ e. absurd (grind (arith, ap (λ k. (inode_at s k).type) e)) in
          let r =
            find_inode-FindsInode f n (i + 1) j (omega arith) (omega arith) (omega arith)
              (omega arith) free in
          record {
            inum = r.inum;
            result = rw (get_inode_lem f i (pos, omega arith), miss) r.result;
            was_free = r.was_free;
            above = omega (arith, r.above);
            first = r.first;
          }
    ]

-- With every inode of the range in use the search finds none.
pub find_inode-none :
    {s : BlockManager} (f : IsFormatted s) (n i : ℕ)
    → 1 ≤ i
    → i + n ≤ inode_num + 1
    → ((j : ℕ) → i ≤ j → j < i + n → (inode_at s j).type ≢ 0)
    → find_inode n i s ≡ done (none, s)
unfolding find_inode
find_inode-none f zero i pos fits all = refl
find_inode-none {s} f (suc n) i pos fits all =
    rw
      (
        get_inode_lem f i (pos, omega arith),
        ne→== (inode_at s i).type 0 (all i (omega arith) (omega arith)),
      )
      (find_inode-none f n (i + 1) (omega arith) (omega arith)
        (λ j lo hi. all j (omega arith) (omega arith)))

-- What a call of `alloc_inode` comes to.
pub record Creates (s : BlockManager) (type : ℕ) (now : Clock) : Type 0 where
  pub inum : ℕ
  pub after : BlockManager
  pub result : alloc_inode type now s ≡ done (inum, after)
  pub range : (2 ≤ inum) × (inum ≤ inode_num)
  pub was_free : (inode_at s inum).type ≡ 0
  pub typed : (inode_at after inum).type ≡ type % 2 ^ 16
  pub empty : content after inum ≡ []
  pub sound : IsSound after
  pub others :
      (j : ℕ)
      → IsInum j
      → j ≢ inum
      → (inode_at after j ≡ inode_at s j) × (content after j ≡ content s j)

module _ {s : BlockManager} (sound : IsSound s) (type : ℕ) (now : Clock) (used : type % 2 ^ 16 ≢ 0)
    (j : ℕ) (r : FindsInode s (inode_num - 1) 2 j) (j_range : j ≤ inode_num) where
  abbrev i : ℕ
  i = r.inum

  inum : IsInum i
  inum = (omega (arith, r.above), omega (arith, r.first))

  abbrev ino : Inode
  ino = record (inode_at s i) { type = type % 2 ^ 16; size = 0; atime = time now 0 }

  ino-IsInode : IsInode ino
  ino-IsInode =
      let fits = inode_at-IsInode sound.formatted i in
      record {
        type_fits = omega arith;
        size_fits = omega arith;
        atime_fits = omega arith;
        mtime_fits = fits.mtime_fits;
        ctime_fits = fits.ctime_fits;
        count = fits.count;
        ids_fit = fits.ids_fit;
      }

  alloc_result : alloc_inode type now s ≡ done (i, with_inode s i ino)
  unfolding alloc_inode
  alloc_result = rw (r.result, put_inode_lem sound.formatted i ino inum ino-IsInode)

  owned_empty : owned ino ≡ []
  owned_empty = rw (ne→== (type % 2 ^ 16) 0 used)

  owned_before : own_of s i ≡ []
  owned_before = own_of_inum s i inum ∙ rw ((==_iff (inode_at s i).type 0).1 r.was_free)

  same_owner : Owns s.using_blocks (update (own_of s) i (owned ino))
  same_owner =
      subst (Owns s.using_blocks)
        (sym (ap (update (own_of s) i) (owned_empty ∙ sym owned_before) ∙ update_same (own_of s) i))
        sound.owns

  in_data : (k b j : ℕ) → get_elem? (own_of s j) k ≡ some b → start_at ≤ b
  in_data k b j e = (sound.owns.valid j k b e).0

  found-Creates : Creates s type now
  found-Creates = record {
    inum = i;
    after = with_inode s i ino;
    result = alloc_result;
    range = (r.above, inum.1);
    was_free = r.was_free;
    typed = ap (λ (x : Inode). x.type) (replaced_self s sound.formatted i inum ino ino-IsInode);
    empty =
        ap (λ (x : Inode). take x.size (gather (with_inode s i ino).d.blocks (owned x)))
          (replaced_self s sound.formatted i inum ino ino-IsInode);
    sound =
        replaced-IsSound s sound.formatted i inum ino ino-IsInode sound.small (λ _. omega arith)
          same_owner;
    others = λ j jnum ne. (
      replaced_other s sound.formatted i inum ino ino-IsInode j jnum ne,
      content_replaced s sound.formatted i inum ino ino-IsInode in_data j jnum ne,
    );
  }

-- On a sound disk with a free inode from 2 on, `alloc_inode` returns an inode of that range that was
-- free; it now has the type (cut to a short), its file is empty, every other file keeps its inode
-- and its bytes, and the disk is sound.
pub alloc_inode-Creates :
    {s : BlockManager} (type : ℕ) (now : Clock) (j : ℕ)
    → IsSound s
    → type % 2 ^ 16 ≢ 0
    → 2 ≤ j
    → j ≤ inode_num
    → (inode_at s j).type ≡ 0
    → Creates s type now
alloc_inode-Creates {s} type now j sound used lo hi free =
    found-Creates sound type now used j
      (find_inode-FindsInode sound.formatted (inode_num - 1) 2 j (omega arith) (omega arith) lo
        (omega arith) free)
      hi

-- With no inode free, `alloc_inode` ends the process.
pub alloc_inode-full :
    {s : BlockManager} (type : ℕ) (now : Clock)
    → IsFormatted s
    → ((j : ℕ) → 2 ≤ j → j ≤ inode_num → (inode_at s j).type ≢ 0)
    → alloc_inode type now s ≡ exited
unfolding alloc_inode
alloc_inode-full {s} type now f all = rw (
    find_inode-none f (inode_num - 1) 2 (omega arith) (omega arith)
      (λ j lo hi. all j lo (omega arith)))
