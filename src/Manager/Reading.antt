-- ===== src/Manager/Reading.antt =====
-- `read_file` and `getattr` of inode_manager.cc on a sound disk: the bytes of the file, its
-- attributes, and nothing changed but the time of the access.
use cse_yet_another_file_sys.Prelude.{
  update_same, ℕ, ◌*◌, ◌≤◌, ◌≡◌, ◌≢◌, refl, ap, sym, ◌∙◌, subst, none, some, arith, done, get_elem?,
  update, inl, inr, Bool-cases, ne→==, ==_iff, le→ltb, ◌==◌,
}
use cse_yet_another_file_sys.Disk.{BlockManager, block_size, start_at}
use cse_yet_another_file_sys.Inode.{Inode, IsInode, maxfile}
use cse_yet_another_file_sys.Manager.{Clock, time, round_up}
use cse_yet_another_file_sys.Manager.Calls.{Attr, read_file, getattr, sign_extend, read_blocks}
use cse_yet_another_file_sys.Manager.Access.{
  IsInum, inode_at, with_inode, inode_at-IsInode, get_inode_lem, put_inode_lem,
}
use cse_yet_another_file_sys.Manager.Owners.{Owns}
use cse_yet_another_file_sys.Manager.Loops.{gather, read_blocks_lem}
use cse_yet_another_file_sys.Manager.Frame.{SameInodes}
use cse_yet_another_file_sys.Manager.Sound.{
  IsSound, owned, own_of, own_of_inum, content, length-own_of, own_of-StandAt,
}
use cse_yet_another_file_sys.Manager.Replacing.{
  replaced_self, replaced_other, content_replaced, content_replaced_self, replaced-IsSound,
}

-- The attributes that an inode is read as.
abbrev pub attr_of : Inode → Attr
attr_of ino = record {
  type = sign_extend ino.type;
  atime = ino.atime;
  mtime = ino.mtime;
  ctime = ino.ctime;
  size = ino.size;
}

module _ {s : BlockManager} (sound : IsSound s) (i : ℕ) (inum : IsInum i) where
  abbrev ino : Inode
  ino = inode_at s i

  -- An empty file: the buffer is left alone, and so is the disk.
  pub read_empty : (now : Clock) → ino.size ≡ 0 → read_file i now s ≡ done ((none, ino.size), s)
  unfolding read_file
  read_empty now z = rw (get_inode_lem sound.formatted i inum, (==_iff ino.size 0).1 z)

  -- The state after an access: the inode has a new access time.
  abbrev pub accessed : Clock → BlockManager
  accessed now = with_inode s i (record ino { atime = time now 0 })

  accessed-IsInode : (now : Clock) → IsInode (record ino { atime = time now 0 })
  accessed-IsInode now =
      let fits = inode_at-IsInode sound.formatted i in
      record {
        type_fits = fits.type_fits;
        size_fits = fits.size_fits;
        atime_fits = omega arith;
        mtime_fits = fits.mtime_fits;
        ctime_fits = fits.ctime_fits;
        count = fits.count;
        ids_fit = fits.ids_fit;
      }

  read_all :
      ino.type ≢ 0
      → read_blocks ino (round_up ino.size block_size) 0 s
        ≡ done (gather s.d.blocks (own_of s i), s)
  read_all live =
      subst (λ n. read_blocks ino n 0 s ≡ done (gather s.d.blocks (own_of s i), s))
        (length-own_of sound i inum live)
        (read_blocks_lem sound.formatted ino 0 (own_of s i) (own_of-StandAt sound i inum live))

  pub read_full :
      (now : Clock)
      → ino.type ≢ 0
      → ino.size ≢ 0
      → read_file i now s ≡ done ((some (gather s.d.blocks (own_of s i)), ino.size), accessed now)
  unfolding read_file
  read_full now live full = rw (
    get_inode_lem sound.formatted i inum,
    ne→== ino.size 0 full,
    le→ltb (maxfile * block_size) ino.size (omega (arith, sound.small i inum live)),
    read_all live,
    put_inode_lem sound.formatted i _ inum (accessed-IsInode now),
  )

  same_owner :
      (now : Clock)
      → Owns s.using_blocks (update (own_of s) i (owned (record ino { atime = time now 0 })))
  same_owner now =
      subst (Owns s.using_blocks)
        (sym (ap (update (own_of s) i) (sym (own_of_inum s i inum)) ∙ update_same (own_of s) i))
        sound.owns

  pub accessed-IsSound : (now : Clock) → IsSound (accessed now)
  accessed-IsSound now =
      replaced-IsSound s sound.formatted i inum _ (accessed-IsInode now) sound.small
        (sound.small i inum) (same_owner now)

  -- Every file keeps its bytes.
  pub content-accessed : (now : Clock) (j : ℕ) → IsInum j → content (accessed now) j ≡ content s j
  content-accessed now j jnum = elim (Bool-cases (i == j)) [
    | inl e ↦
        let here : i ≡ j = (==_iff i j).0 e in
        subst (λ k. content (accessed now) k ≡ content s k) here
          (content_replaced_self s sound.formatted i inum _ (accessed-IsInode now) in_data refl
            refl)
    | inr e ↦
        content_replaced s sound.formatted i inum _ (accessed-IsInode now) in_data j jnum
          (ground arith)
  ]
    where
      in_data : (k b j : ℕ) → get_elem? (own_of s j) k ≡ some b → start_at ≤ b
      in_data k b j e = (sound.owns.valid j k b e).0

  pub getattr_lem : getattr i s ≡ done (attr_of ino, s)
  unfolding getattr
  getattr_lem = rw (get_inode_lem sound.formatted i inum)

  -- The inode keeps its type and its size.
  pub accessed_inode : (now : Clock) → inode_at (accessed now) i ≡ record ino { atime = time now 0 }
  accessed_inode now = replaced_self s sound.formatted i inum _ (accessed-IsInode now)

  pub accessed_other : (now : Clock) → SameInodes s (accessed now) i
  accessed_other now = replaced_other s sound.formatted i inum _ (accessed-IsInode now)
