-- ===== src/Stubs/Remote.antt =====
-- Calls of extent_client.cc through rpc/rpc.h to the handlers of extent_smain.cc: the extent server from far away.
use cse_yet_another_file_sys.Prelude.{
  ℕ, ◌-◌, ◌^◌, ◌<◌, ◌≤◌, ◌≡◌, refl, ap, ◌∙◌, Bool, true, Option, some, All, [], done, Exec, pure,
  arith, bind_done, length, update_self,
}
use cse_yet_another_file_sys.Bytes.{Bytes, IsByte}
use cse_yet_another_file_sys.Disk.{BlockManager, block_size}
use cse_yet_another_file_sys.Inode.{Inode, IsInode}
use cse_yet_another_file_sys.Manager.{Clock, round_up}
use cse_yet_another_file_sys.Manager.Calls.{Attr}
use cse_yet_another_file_sys.Manager.Access.{inode_at, inode_at-IsInode}
use cse_yet_another_file_sys.Manager.Reading.{attr_of}
use cse_yet_another_file_sys.Manager.Sound.{IsSound, max_direct}
use cse_yet_another_file_sys.Manager.Allocating.{free_blocks_left}
use cse_yet_another_file_sys.Server.{Status, FullFile, mask, put, get}
use cse_yet_another_file_sys.Server.View.{File, view}
use cse_yet_another_file_sys.Server.Refines.{put-refines}
use cse_yet_another_file_sys.Server.Reads.{get-sends}
use cse_yet_another_file_sys.Marshall.{Unmarshall, reading, Wire}
use cse_yet_another_file_sys.Marshall.Trips.{IsAttr, get_full_file-put_full_file}
use cse_yet_another_file_sys.Stubs.{Handler, call, is_negative}
use cse_yet_another_file_sys.Stubs.Carried.{carried, call-done}
use cse_yet_another_file_sys.Stubs.Extents.{
  rpc_put, rpc_get, extent_procs, int_codec, file_codec, id_params, put_params, get_method,
  put_method, status_int,
}

attr_of-IsAttr : (ino : Inode) → IsInode ino → IsAttr (attr_of ino)
attr_of-IsAttr ino h = record {
  type_fits = ground (arith, h.type_fits);
  atime_fits = h.atime_fits;
  mtime_fits = h.mtime_fits;
  ctime_fits = h.ctime_fits;
  size_fits = h.size_fits;
}

module _ (w : Wire) (unset : ℕ) (okdone : Unmarshall → Bool)
    (call1 : Clock → ℕ → Bytes → Exec BlockManager (ℕ × Unmarshall)) where
  -- The library brings each request to the handler that is registered for it, once, and the reply back.
  abbrev pub Carries : Type 0
  Carries =
      (now : Clock) (proc : ℕ) (h : Handler BlockManager)
      → extent_procs w unset now okdone proc ≡ some h
      → (req : Bytes) (s : BlockManager) → call1 now proc req s ≡ carried h req s

  -- `cl->call(extent_protocol::put, eid, buf, r)` and `cl->call(extent_protocol::get, eid, file)`.
  abbrev pub remote_put : Clock → ℕ → Bytes → ℕ → Exec BlockManager (ℕ × ℕ)
  remote_put now eid buf r =
      call okdone (int_codec w unset) (call1 now) (put_params w unset) rpc_put (eid, (buf, tt)) r

  abbrev pub remote_get : Clock → ℕ → FullFile → Exec BlockManager (ℕ × FullFile)
  remote_get now eid file =
      call okdone (file_codec w unset) (call1 now) (id_params w unset) rpc_get (eid, tt) file

  module _ (complete : okdone (reading []) ≡ true) (carries : Carries) where
    remote_put_lem :
        (now : Clock) (eid : ℕ) (buf : Bytes) (r : ℕ) (s t : BlockManager)
        → eid < 2 ^ 64
        → length buf < 2 ^ 31
        → All IsByte buf
        → unset < 2 ^ 32
        → put eid buf now s ≡ done (Status.ok, t)
        → remote_put now eid buf r s ≡ done ((0, unset), t)
    unfolding extent_procs is_negative
    remote_put_lem now eid buf r s t id_fits small bytes any stored =
        call-done okdone complete (int_codec w unset) (put_params w unset) (put_method w unset now)
          (call1 now) rpc_put (carries now rpc_put _ refl) (eid, (buf, tt))
          (
            (λ old rest. w.ulonglong_law eid rest id_fits),
            ((λ old rest. w.string_law buf rest small bytes), tt),
          )
          r (0, unset) (bind_done (put eid buf now) (λ b. pure (status_int b, unset)) stored)
          (λ old rest. w.int_law unset rest any) refl

    remote_get_lem :
        (now : Clock) (eid : ℕ) (old file : FullFile) (s t : BlockManager)
        → eid < 2 ^ 64
        → IsAttr file.attr
        → length file.buf < 2 ^ 31
        → All IsByte file.buf
        → get eid now s ≡ done ((Status.ok, file), t)
        → remote_get now eid old s ≡ done ((0, file), t)
    unfolding extent_procs is_negative
    remote_get_lem now eid old file s t id_fits attrs small bytes sent =
        call-done okdone complete (file_codec w unset) (id_params w unset) (get_method w unset now)
          (call1 now) rpc_get (carries now rpc_get _ refl) (eid, tt)
          ((λ old rest. w.ulonglong_law eid rest id_fits), tt) old (0, file)
          (bind_done (get eid now) (λ b. pure (status_int b.0, b.1)) sent)
          (λ old rest. get_full_file-put_full_file w file rest attrs small bytes) refl

    -- A client that puts a file on the extent server and then gets it, both through the RPC stubs, has the bytes that
    -- it put, with their length as the size, and both calls return OK: on a sound disk, for a file of the view and at
    -- most NDIRECT blocks of bytes, with room for the growth.
    pub remote_get-remote_put :
        {s : BlockManager} (eid : ℕ) (buf : Bytes) (now later : Clock) (f : File) (r : ℕ)
        (old : FullFile)
        → IsSound s
        → view s (mask eid) ≡ some f
        → eid < 2 ^ 64
        → unset < 2 ^ 32
        → All IsByte buf
        → length buf ≤ max_direct
        → round_up (length buf) block_size - round_up (length f.bytes) block_size
          ≤ free_blocks_left s.using_blocks
        → (t : BlockManager) × (u : BlockManager) × (a : Attr) × (remote_put now eid buf r s
            ≡ done ((0, unset), t))
          × (remote_get later eid old t ≡ done ((0, record { attr = a; buf = buf }), u))
          × (a.size ≡ length buf)
    remote_get-remote_put {s} eid buf now later f r old sound h id_fits any bytes small room =
        let (t, stored, sound', changed) = put-refines eid buf now f sound h bytes small room in
        let (u, sent, sound'', _, size, _) =
          get-sends eid later (record f { bytes = buf }) sound'
            (ap (λ (v : ℕ → Option File). v (mask eid)) changed
              ∙ update_self (view s) (mask eid) _) in
        let short : length buf < 2 ^ 31 = omega (arith, small) in
        let attrs =
          attr_of-IsAttr (inode_at u (mask eid)) (inode_at-IsInode sound''.formatted (mask eid)) in
        (
          t,
          u,
          attr_of (inode_at u (mask eid)),
          remote_put_lem now eid buf r s t id_fits short bytes any stored,
          remote_get_lem later eid old
              (record { attr = attr_of (inode_at u (mask eid)); buf = buf }) t u id_fits attrs short
              bytes sent,
          size,
        )
