-- ===== src/Server/Refines.antt =====
-- extent_server.cc against the abstract file store: on a sound disk each method returns, and does
-- to the view what the store's operation does.
use cse_yet_another_file_sys.Prelude.{
  ℕ, ◌-◌, ◌%◌, ◌^◌, ◌≤◌, ◌≡◌, ◌≢◌, ap, ap₂, sym, ◌∙◌, subst, ◌&&◌, none, some, [], arith, done, inl,
  inr, leb, ne→==, ==_iff, Bool-cases, update, length, All,
}
use cse_yet_another_file_sys.Bytes.{Bytes, IsByte}
use cse_yet_another_file_sys.Disk.{BlockManager, inode_num, block_size}
use cse_yet_another_file_sys.Manager.{Clock, round_up}
use cse_yet_another_file_sys.Manager.Access.{IsInum, inode_at}
use cse_yet_another_file_sys.Manager.Sound.{IsSound, content, max_direct}
use cse_yet_another_file_sys.Manager.Allocating.{free_blocks_left}
use cse_yet_another_file_sys.Manager.Frame.{inum_of_test}
use cse_yet_another_file_sys.Manager.Files.{write_file-Writes}
use cse_yet_another_file_sys.Manager.Removing.{remove_file-Removes}
use cse_yet_another_file_sys.Manager.Creating.{alloc_inode-Creates}
use cse_yet_another_file_sys.Server.{ok, mask, create, put, remove}
use cse_yet_another_file_sys.Server.View.{
  File, file_of, view, view_inum, view-update, length-content, view-none,
}

-- What it means that the view has a file.
pub record InUse (s : BlockManager) (i : ℕ) (f : File) : Type 0 where
  pub inum : IsInum i
  pub live : (inode_at s i).type ≢ 0
  pub type : (inode_at s i).type ≡ f.type
  pub bytes : content s i ≡ f.bytes

file_of-some :
    (type : ℕ) (bytes : Bytes) (f : File)
    → file_of type bytes ≡ some f
    → (type ≢ 0) × (type ≡ f.type) × (bytes ≡ f.bytes)
file_of-some type bytes f h = (ground arith, ground arith, ground arith)

pub view-InUse : (s : BlockManager) (i : ℕ) (f : File) → view s i ≡ some f → InUse s i f
view-InUse s i f h = elim (Bool-cases (leb 1 i && leb i inode_num)) [
  | inl y ↦
      let inum = inum_of_test i y in
      let (live, type, bytes) = file_of-some _ _ f (sym (view_inum s i inum) ∙ h) in
      record { inum = inum; live = live; type = type; bytes = bytes }
  | inr n ↦ absurd (ground (arith, view-none s i n))
]

-- What is in use has this view.
file_of-live :
    (type : ℕ) (bytes : Bytes)
    → type ≢ 0
    → file_of type bytes ≡ some (record { type = type; bytes = bytes })
file_of-live type bytes h = rw (ne→== type 0 h)

-- On a sound disk, a `put` of at most NDIRECT blocks of bytes on a file of the view, with free blocks for the
-- growth, returns OK and gives the file those bytes; nothing else in the view changes, and the disk is
-- sound.
pub put-refines :
    {s : BlockManager} (id : ℕ) (buf : Bytes) (now : Clock) (f : File)
    → IsSound s
    → view s (mask id) ≡ some f
    → All IsByte buf
    → length buf ≤ max_direct
    → round_up (length buf) block_size - round_up (length f.bytes) block_size
      ≤ free_blocks_left s.using_blocks
    → (t : BlockManager) × (put id buf now s ≡ done (ok, t))
      × IsSound t
      × (view t ≡ update (view s) (mask id) (some (record f { bytes = buf })))
unfolding put
put-refines {s} id buf now f sound h bytes small room =
    let u = view-InUse s (mask id) f h in
    let size : (inode_at s (mask id)).size ≡ length f.bytes =
      sym (length-content (mask id) sound u.inum u.live) ∙ ap length u.bytes in
    let w = write_file-Writes (mask id) buf now sound u.inum u.live bytes small (
      subst
        (λ k.
          round_up (length buf) block_size - round_up k block_size
          ≤ free_blocks_left s.using_blocks)
        (sym size) room) in
    let live : (inode_at w.after (mask id)).type ≢ 0 = λ z. u.live (sym w.type ∙ z) in
    (
      w.after,
      rw w.result,
      w.sound,
      view-update s w.after (mask id) u.inum w.others
          ∙ ap (update (view s) (mask id)) (
              file_of-live _ _ live
              ∙ ap₂ (λ (t : ℕ) (b : Bytes). some (record { type = t; bytes = b })) (w.type ∙ u.type)
                  w.stored),
    )

-- On a sound disk, with an inode number from 2 on unused in the view, a `create` of a type whose low 16 bits are
-- not zero returns OK and a number from 2 on that is unused in the view, under which the view now has an
-- empty file of that type, cut to 16 bits; nothing else in the view changes, and the disk is sound.
pub create-refines :
    {s : BlockManager} (type : ℕ) (now : Clock) (j : ℕ)
    → IsSound s
    → type % 2 ^ 16 ≢ 0
    → 2 ≤ j
    → j ≤ inode_num
    → view s j ≡ none
    → (id : ℕ) × (t : BlockManager) × (create type now s ≡ done ((ok, id), t))
      × (2 ≤ id)
      × (id ≤ inode_num)
      × (view s id ≡ none)
      × IsSound t
      × (view t ≡ update (view s) id (some (record { type = type % 2 ^ 16; bytes = [] })))
unfolding create
create-refines {s} type now j sound used lo hi free =
    let unused : (inode_at s j).type ≡ 0 = ground (arith, view_inum s j (omega arith, hi)) in
    let c = alloc_inode-Creates type now j sound used lo hi unused in
    let inum : IsInum c.inum = (omega (arith, c.range.0), c.range.1) in
    let live : (inode_at c.after c.inum).type ≢ 0 = λ z. used (sym c.typed ∙ z) in
    (
      c.inum,
      c.after,
      rw c.result,
      c.range.0,
      c.range.1,
      view_inum s c.inum inum ∙ rw ((==_iff (inode_at s c.inum).type 0).1 c.was_free),
      c.sound,
      view-update s c.after c.inum inum c.others
          ∙ ap (update (view s) c.inum) (
              file_of-live _ _ live
              ∙ ap₂ (λ (t : ℕ) (b : Bytes). some (record { type = t; bytes = b })) c.typed c.empty),
    )

-- On a sound disk, a `remove` of a file of the view returns OK and takes it out of the view; nothing else in the
-- view changes, and the disk is sound.
pub remove-refines :
    {s : BlockManager} (id : ℕ) (f : File)
    → IsSound s
    → view s (mask id) ≡ some f
    → (t : BlockManager) × (remove id s ≡ done (ok, t))
      × IsSound t
      × (view t ≡ update (view s) (mask id) none)
unfolding remove
remove-refines {s} id f sound h =
    let u = view-InUse s (mask id) f h in
    let r = remove_file-Removes sound (mask id) u.inum u.live in
    (
      r.after,
      rw r.result,
      r.sound,
      view-update s r.after (mask id) u.inum r.others
          ∙ ap (update (view s) (mask id))
              (rw ((==_iff (inode_at r.after (mask id)).type 0).1 r.inode_free)),
    )
