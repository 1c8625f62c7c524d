-- ===== src/Manager/Removing.antt =====
-- `remove_file` of inode_manager.cc: the inode and the blocks of the file are free again, and no
-- other file is touched.
use cse_yet_another_file_sys.Prelude.{
  update_same, ℕ, ◌+◌, ◌-◌, ◌/◌, ◌≤◌, ◌≡◌, ◌≢◌, refl, ap, sym, subst, some, [], arith, done,
  get_elem?, update, ◌==◌, if◌then◌else◌,
}
use cse_yet_another_file_sys.Disk.{BlockManager, block_size, start_at}
use cse_yet_another_file_sys.Inode.{Inode, IsInode}
use cse_yet_another_file_sys.Manager.{round_up}
use cse_yet_another_file_sys.Manager.Calls.{remove_file, free_inode, free_blocks}
use cse_yet_another_file_sys.Manager.Access.{
  IsFormatted, IsInum, inode_at, with_inode, inode_at-IsInode, get_inode_lem, put_inode_lem,
}
use cse_yet_another_file_sys.Manager.Owners.{Owns, Owns-free, free_all, free_all_in}
use cse_yet_another_file_sys.Manager.Loops.{free_blocks_lem}
use cse_yet_another_file_sys.Manager.Sound.{IsSound, own_of, content, length-own_of, own_of-StandAt}
use cse_yet_another_file_sys.Manager.Replacing.{
  replaced_self, replaced_other, content_replaced, replaced-IsSound,
}

-- What a call of `remove_file` on file `i` comes to.
pub record Removes (s : BlockManager) (i : ℕ) : Type 0 where
  pub after : BlockManager
  pub result : remove_file i s ≡ done (tt, after)
  pub sound : IsSound after
  pub inode_free : (inode_at after i).type ≡ 0
  pub blocks_free : (k b : ℕ) → get_elem? (own_of s i) k ≡ some b → after.using_blocks b ≡ 0
  pub others :
      (j : ℕ)
      → IsInum j
      → j ≢ i
      → (inode_at after j ≡ inode_at s j) × (content after j ≡ content s j)

-- The count of blocks that `remove_file` works out is the one of `write_file`.
count_lem :
    (size : ℕ) → (if size == 0 then 0 else (size - 1) / block_size + 1) ≡ round_up size block_size
count_lem size = ground arith

module _ {s : BlockManager} (sound : IsSound s) (i : ℕ) (inum : IsInum i)
    (live : (inode_at s i).type ≢ 0) where
  abbrev ino : Inode
  ino = record (inode_at s i) { type = 0 }

  abbrev freed : BlockManager
  freed = record s { using_blocks = free_all (own_of s i) s.using_blocks }

  freed-IsFormatted : IsFormatted freed
  freed-IsFormatted = record { nblocks = sound.formatted.nblocks; shape = sound.formatted.shape }

  ino-IsInode : IsInode ino
  ino-IsInode =
      let fits = inode_at-IsInode sound.formatted i in
      record {
        type_fits = omega arith;
        size_fits = fits.size_fits;
        atime_fits = fits.atime_fits;
        mtime_fits = fits.mtime_fits;
        ctime_fits = fits.ctime_fits;
        count = fits.count;
        ids_fit = fits.ids_fit;
      }

  freeing :
      free_blocks (inode_at s i) (round_up (inode_at s i).size block_size) 0 s ≡ done (tt, freed)
  freeing =
      subst (λ n. free_blocks (inode_at s i) n 0 s ≡ done (tt, freed))
        (length-own_of sound i inum live)
        (free_blocks_lem sound.formatted (inode_at s i) 0 (own_of s i)
          (own_of-StandAt sound i inum live))

  remove_result : remove_file i s ≡ done (tt, with_inode freed i ino)
  unfolding remove_file free_inode
  remove_result =
      rw
        (
          get_inode_lem sound.formatted i inum,
          count_lem (inode_at s i).size,
          freeing,
          get_inode_lem freed-IsFormatted i inum,
        )
        (put_inode_lem freed-IsFormatted i ino inum ino-IsInode)

  in_data : (k b j : ℕ) → get_elem? (own_of s j) k ≡ some b → start_at ≤ b
  in_data k b j e = (sound.owns.valid j k b e).0

  remaining : Owns freed.using_blocks (update (own_of freed) i [])
  remaining =
      Owns-free (own_of s) i (own_of s i)
        (subst (Owns s.using_blocks) (sym (update_same (own_of s) i)) sound.owns) 0

  -- On a sound disk, removing an inode in use returns; its inode and all its blocks are free again,
  -- every other file keeps its inode and its bytes, and the disk is sound.
  pub remove_file-Removes : Removes s i
  remove_file-Removes = record {
    after = with_inode freed i ino;
    result = remove_result;
    sound =
        replaced-IsSound freed freed-IsFormatted i inum ino ino-IsInode sound.small
          (λ h. absurd (h refl)) remaining;
    inode_free =
        ap (λ (x : Inode). x.type) (replaced_self freed freed-IsFormatted i inum ino ino-IsInode);
    blocks_free = λ k b e. free_all_in (own_of s i) s.using_blocks k b e;
    others = λ j jnum ne. (
      replaced_other freed freed-IsFormatted i inum ino ino-IsInode j jnum ne,
      content_replaced freed freed-IsFormatted i inum ino ino-IsInode in_data j jnum ne,
    );
  }
