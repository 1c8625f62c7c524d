-- ===== src/Server/Reads.antt =====
-- The reading methods of extent_server.cc: they send the bytes and the attributes of the file and
-- change nothing in the view.
use cse_yet_another_file_sys.Prelude.{
  ℕ, ◌+◌, ◌-◌, ◌≤◌, ◌≡◌, ◌≢◌, refl, ap, sym, ◌∙◌, subst, Option, some, List, arith, done, inl, inr,
  ◌==◌, ne→==, ==_iff, Bool-cases, update_self, length, take, All, le→leb, pure, ◌>>=◌, bind_assoc,
  bind_done,
}
use cse_yet_another_file_sys.Bytes.{Bytes, IsByte}
use cse_yet_another_file_sys.Disk.{BlockManager, block_size}
use cse_yet_another_file_sys.Inode.{Inode}
use cse_yet_another_file_sys.Manager.{Call, Clock, round_up}
use cse_yet_another_file_sys.Manager.Calls.{Attr, sign_extend, read_file, getattr}
use cse_yet_another_file_sys.Manager.Access.{IsInum, inode_at}
use cse_yet_another_file_sys.Manager.Loops.{gather}
use cse_yet_another_file_sys.Manager.Contents.{length-gather}
use cse_yet_another_file_sys.Manager.Sound.{
  IsSound, own_of, own_of_inum, owned, content, max_direct, length-own_of,
}
use cse_yet_another_file_sys.Manager.Allocating.{free_blocks_left}
use cse_yet_another_file_sys.Manager.Reading.{
  attr_of, read_empty, read_full, accessed, accessed-IsSound, content-accessed, getattr_lem,
  accessed_inode, accessed_other,
}
use cse_yet_another_file_sys.Server.{Status, ok, FullFile, mask, put, get, get_attr, copy_out}
use cse_yet_another_file_sys.Server.View.{File, view, view_same, length-content, round_up_enough}
use cse_yet_another_file_sys.Server.Refines.{view-InUse, put-refines}

-- `read_file` with the copying out of its result.
unfoldable pub read_out : ℕ → Clock → Call Bytes
read_out id now = do read ← read_file id now; copy_out read

-- What reading comes to: the bytes, and a state that differs in an access time at most.
pub record Sends (s : BlockManager) (i : ℕ) (now : Clock) : Type 0 where
  pub after : BlockManager
  pub result : read_out i now s ≡ done (content s i, after)
  pub sound : IsSound after
  pub same : view after ≡ view s
  pub type : (inode_at after i).type ≡ (inode_at s i).type
  pub size : (inode_at after i).size ≡ (inode_at s i).size

module _ {s : BlockManager} (sound : IsSound s) (i : ℕ) (inum : IsInum i)
    (live : (inode_at s i).type ≢ 0) (now : Clock) where
  Sends-empty : (inode_at s i).size ≡ 0 → Sends s i now
  unfolding read_out copy_out
  Sends-empty z = record {
    after = s;
    result =
        rw (read_empty sound i inum now z, (==_iff (inode_at s i).size 0).1 z)
          (ap (λ (n : ℕ). done (take n (gather s.d.blocks (owned (inode_at s i))), s)) (sym z));
    sound = sound;
    same = refl;
    type = refl;
    size = refl;
  }

  -- The blocks hold at least the size.
  enough : (inode_at s i).size ≤ length (gather s.d.blocks (own_of s i))
  enough = omega (
    arith,
    length-gather s.d.blocks (own_of s i) sound.formatted.shape,
    length-own_of sound i inum live,
    round_up_enough (inode_at s i).size,
  )

  same_type :
      (j : ℕ) → IsInum j → (inode_at (accessed sound i inum now) j).type ≡ (inode_at s j).type
  same_type j jnum = elim (Bool-cases (i == j)) [
    | inl e ↦
        let here : i ≡ j = (==_iff i j).0 e in
        subst (λ k. (inode_at (accessed sound i inum now) k).type ≡ (inode_at s k).type) here
          (ap (λ (x : Inode). x.type) (accessed_inode sound i inum now))
    | inr e ↦ ap (λ (x : Inode). x.type) (accessed_other sound i inum now j jnum (ground arith))
  ]

  Sends-full : (inode_at s i).size ≢ 0 → Sends s i now
  unfolding read_out copy_out
  Sends-full z = record {
    after = accessed sound i inum now;
    result =
        rw
          (
            read_full sound i inum now live z,
            ne→== (inode_at s i).size 0 z,
            le→leb (0 + (inode_at s i).size) (length (gather s.d.blocks (own_of s i)))
                (omega (arith, enough)),
          )
          (ap
            (λ (ids : List ℕ).
              done (take (inode_at s i).size (gather s.d.blocks ids), accessed sound i inum now))
            (own_of_inum s i inum));
    sound = accessed-IsSound sound i inum now;
    same = view_same s (accessed sound i inum now) same_type (content-accessed sound i inum now);
    type = ap (λ (x : Inode). x.type) (accessed_inode sound i inum now);
    size = ap (λ (x : Inode). x.size) (accessed_inode sound i inum now);
  }

  pub read_out-Sends : Sends s i now
  read_out-Sends = elim (Bool-cases ((inode_at s i).size == 0)) [
    | inl z ↦ Sends-empty ((==_iff _ 0).0 z)
    | inr z ↦ Sends-full (ground arith)
  ]

-- What a `get` of a file of the view sends: the attributes are those of the inode after it.
pub get-sends :
    {s : BlockManager} (id : ℕ) (now : Clock) (f : File)
    → IsSound s
    → view s (mask id) ≡ some f
    → (t : BlockManager) × (get id now s
        ≡ done ((ok, record { attr = attr_of (inode_at t (mask id)); buf = f.bytes }), t))
      × IsSound t
      × (view t ≡ view s)
      × ((inode_at t (mask id)).size ≡ length f.bytes)
      × (sign_extend (inode_at t (mask id)).type ≡ sign_extend f.type)
unfolding get read_out
get-sends {s} id now f sound h =
    let u = view-InUse s (mask id) f h in
    let r = read_out-Sends sound (mask id) u.inum u.live now in
    let size : (inode_at s (mask id)).size ≡ length f.bytes =
      sym (length-content (mask id) sound u.inum u.live) ∙ ap length u.bytes in
    (
      r.after,
      sym (bind_assoc (read_file (mask id) now) copy_out reply s)
          ∙ bind_done (read_out (mask id) now) reply r.result
          ∙ rw (getattr_lem r.sound (mask id) u.inum) (
              ap
                (λ (b : Bytes).
                  done (
                    (ok, record { attr = attr_of (inode_at r.after (mask id)); buf = b }),
                    r.after,
                  ))
                u.bytes),
      r.sound,
      r.same,
      r.size ∙ size,
      ap sign_extend (r.type ∙ u.type),
    )
  where
    reply : Bytes → Call (Status × FullFile)
    reply buf = do attr ← getattr (mask id); pure (ok, record { attr = attr; buf = buf })

-- On a sound disk, a `get` of a file of the view returns OK with its bytes, and with attributes that tell its
-- size and its type (sign-extended); the view stays as it is, and the disk is sound.
pub get-refines :
    {s : BlockManager} (id : ℕ) (now : Clock) (f : File)
    → IsSound s
    → view s (mask id) ≡ some f
    → (t : BlockManager) × (a : Attr) × (get id now s
        ≡ done ((ok, record { attr = a; buf = f.bytes }), t))
      × IsSound t
      × (view t ≡ view s)
      × (a.size ≡ length f.bytes)
      × (a.type ≡ sign_extend f.type)
get-refines {s} id now f sound h =
    let (t, sent, sound', same, size, type) = get-sends id now f sound h in
    (t, attr_of (inode_at t (mask id)), sent, sound', same, size, type)

-- On a sound disk, `getattr` of a file of the view returns OK with the file's bytes too, and with attributes that
-- tell its size and its type (sign-extended); the view stays as it is, and the disk is sound.
pub get_attr-refines :
    {s : BlockManager} (id : ℕ) (now : Clock) (f : File)
    → IsSound s
    → view s (mask id) ≡ some f
    → (t : BlockManager) × (a : Attr) × (get_attr id now s
        ≡ done ((ok, record { attr = a; buf = f.bytes }), t))
      × IsSound t
      × (view t ≡ view s)
      × (a.size ≡ length f.bytes)
      × (a.type ≡ sign_extend f.type)
unfolding get_attr read_out
get_attr-refines {s} id now f sound h =
    let u = view-InUse s (mask id) f h in
    let r = read_out-Sends sound (mask id) u.inum u.live now in
    let size : (inode_at s (mask id)).size ≡ length f.bytes =
      sym (length-content (mask id) sound u.inum u.live) ∙ ap length u.bytes in
    (
      r.after,
      attr_of (inode_at s (mask id)),
      rw (getattr_lem sound (mask id) u.inum) (
          sym (
            bind_assoc (read_file (mask id) now) copy_out (reply (attr_of (inode_at s (mask id))))
              s)
          ∙ bind_done (read_out (mask id) now) (reply (attr_of (inode_at s (mask id)))) r.result
          ∙ ap
              (λ (b : Bytes).
                done ((ok, record { attr = attr_of (inode_at s (mask id)); buf = b }), r.after))
              u.bytes),
      r.sound,
      r.same,
      size,
      ap sign_extend u.type,
    )
  where
    reply : Attr → Bytes → Call (Status × FullFile)
    reply attr buf = pure (ok, record { attr = attr; buf = buf })

-- What a `put` stored is what the next `get` sends, with its length as the size: on a sound disk, for
-- a file of the view, at most NDIRECT blocks of bytes, and room for the growth.
pub get-put :
    {s : BlockManager} (id : ℕ) (buf : Bytes) (now later : Clock) (f : File)
    → IsSound s
    → view s (mask id) ≡ some f
    → All IsByte buf
    → length buf ≤ max_direct
    → round_up (length buf) block_size - round_up (length f.bytes) block_size
      ≤ free_blocks_left s.using_blocks
    → (t : BlockManager) × (a : Attr) × ((put id buf now >>= λ _. get id later) s
        ≡ done ((ok, record { attr = a; buf = buf }), t))
      × (a.size ≡ length buf)
get-put {s} id buf now later f sound h bytes small room =
    let (t, stored, sound', changed) = put-refines id buf now f sound h bytes small room in
    let (u, a, sent, _, _, size, _) =
      get-refines id later (record f { bytes = buf }) sound'
        (ap (λ (v : ℕ → Option File). v (mask id)) changed ∙ update_self (view s) (mask id) _) in
    (u, a, bind_done (put id buf now) (λ _. get id later) stored ∙ sent, size)
