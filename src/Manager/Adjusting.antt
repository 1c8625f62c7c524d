-- ===== src/Manager/Adjusting.antt =====
-- How `write_file` of inode_manager.cc brings the inode to its new number of blocks, by freeing,
-- by allocating or not at all.
use cse_yet_another_file_sys.Prelude.{
  update_same, ℕ, ◌+◌, ◌-◌, ◌≤◌, ◌<◌, ◌≡◌, ◌≢◌, ap, sym, ◌∙◌, List, ◌++◌, arith, done, inl, inr,
  lt→ltb, le→ltb, length, take, drop, All, update, le-or-lt, length-drop, length-take, take-take,
  get_elem?-drop, length-append,
}
use cse_yet_another_file_sys.Bytes.{IsWord}
use cse_yet_another_file_sys.Disk.{BlockManager, block_size}
use cse_yet_another_file_sys.Inode.{Inode, ndirect}
use cse_yet_another_file_sys.Manager.{round_up}
use cse_yet_another_file_sys.Manager.Calls.{adjust_blocks}
use cse_yet_another_file_sys.Manager.Access.{IsInum, inode_at, inode_at-IsInode}
use cse_yet_another_file_sys.Manager.Owners.{Owns, Owns-free, free_all}
use cse_yet_another_file_sys.Manager.Loops.{StandAt, free_blocks_lem}
use cse_yet_another_file_sys.Manager.Allocating.{free_blocks_left, alloc_blocks-Allocates}
use cse_yet_another_file_sys.Manager.Sound.{
  IsSound, own_of, blocks_of_live, length-own_of, own_of-StandAt,
}

-- File `i` now has `new` blocks, which are the first of the inode, and every block has one owner.
pub record Adjusts (s : BlockManager) (i new : ℕ) : Type 0 where
  pub ids : List ℕ
  pub blocks' : List ℕ
  pub used' : ℕ → ℕ
  pub result :
      adjust_blocks (inode_at s i) (round_up (inode_at s i).size block_size) new s
      ≡ done (record (inode_at s i) { blocks = blocks' }, record s { using_blocks = used' })
  pub owns : Owns used' (update (own_of s) i ids)
  pub front : take new blocks' ≡ ids
  pub count : length ids ≡ new
  pub length' : length blocks' ≡ ndirect + 1
  pub ids_fit : All IsWord blocks'

module _ {s : BlockManager} (sound : IsSound s) (i : ℕ) (inum : IsInum i)
    (live : (inode_at s i).type ≢ 0) where
  abbrev ino : Inode
  ino = inode_at s i

  abbrev ori : ℕ
  ori = round_up ino.size block_size

  abbrev own : List ℕ
  own = own_of s i

  same_owner : Owns s.using_blocks (update (own_of s) i own)
  same_owner = rw (update_same (own_of s) i) sound.owns

  freed-StandAt : (new : ℕ) → new ≤ ori → StandAt ino new (drop new own)
  freed-StandAt new h =
      let stand = own_of-StandAt sound i inum live in
      record {
        direct = omega (arith, stand.direct, length-drop new own, length-own_of sound i inum live);
        held = λ k b e.
            let z : 0 + (new + k) ≡ new + k = omega arith in
            rw z at (stand.held (new + k) b (sym (get_elem?-drop new own k) ∙ e));
      }

  shrinks : (new : ℕ) → new < ori → Adjusts s i new
  unfolding adjust_blocks
  shrinks new h =
      let count : length (drop new own) ≡ ori - new =
        omega (arith, length-drop new own, length-own_of sound i inum live) in
      let fits = inode_at-IsInode sound.formatted i in
      record {
        ids = take new own;
        blocks' = ino.blocks;
        used' = free_all (drop new own) s.using_blocks;
        result = rw (
          lt→ltb new ori h,
          ← count,
          free_blocks_lem sound.formatted ino new (drop new own) (freed-StandAt new (omega arith)),
        );
        owns = Owns-free (own_of s) i own same_owner new;
        front =
            rw (blocks_of_live sound i inum live)
              (sym (take-take new ori ino.blocks (omega arith)));
        count = omega (arith, length-take new own, length-own_of sound i inum live);
        length' = fits.count;
        ids_fit = fits.ids_fit;
      }

  stays : (new : ℕ) → new ≡ ori → Adjusts s i new
  unfolding adjust_blocks
  stays new h =
      let fits = inode_at-IsInode sound.formatted i in
      record {
        ids = own;
        blocks' = ino.blocks;
        used' = s.using_blocks;
        result = rw (le→ltb new ori (omega arith), le→ltb ori new (omega arith));
        owns = same_owner;
        front = rw h (sym (blocks_of_live sound i inum live));
        count = omega (arith, length-own_of sound i inum live);
        length' = fits.count;
        ids_fit = fits.ids_fit;
      }

  grows :
      (new : ℕ)
      → ori < new
      → new ≤ ndirect
      → new - ori ≤ free_blocks_left s.using_blocks
      → Adjusts s i new
  unfolding adjust_blocks
  grows new h small room =
      let fits = inode_at-IsInode sound.formatted i in
      let a =
        alloc_blocks-Allocates {s = s} ino ori (new - ori) (own_of s) i own same_owner (omega arith)
          (omega (arith, fits.count)) fits.ids_fit room in
      let sum : ori + (new - ori) ≡ new = omega arith in
      record {
        ids = own ++ a.ids;
        blocks' = a.blocks';
        used' = a.used';
        result = rw (le→ltb new ori (omega arith), lt→ltb ori new h) a.result;
        owns = a.owns;
        front =
            ap (λ k. take k a.blocks') (sym sum) ∙ rw (blocks_of_live sound i inum live) a.front;
        count = omega (arith, length-append own a.ids, a.count, length-own_of sound i inum live);
        length' = a.same_length ∙ fits.count;
        ids_fit = a.ids_fit;
      }

  -- With room on the disk a file can be given any number of direct blocks.
  pub adjust_blocks-Adjusts :
      (new : ℕ) → new ≤ ndirect → new - ori ≤ free_blocks_left s.using_blocks → Adjusts s i new
  adjust_blocks-Adjusts new small room = elim (le-or-lt new ori) [
    | inl le ↦ elim (le-or-lt ori new) [
      | inl ge ↦ stays new (omega arith)
      | inr lt ↦ shrinks new lt
    ]
    | inr gt ↦ grows new gt small room
  ]
