-- ===== src/Fuse/Locks.antt =====
-- In a session of fuse.cc no lock is taken before the last one is given back, but for symbolic links whose
-- names exist.
use cse_yet_another_file_sys.Prelude.{
  ℕ, List, [], ◌∷◌, ◌≡◌, ◌≢◌, ◌⊎◌, inl, inr, arith, Option, none, some, done, pure, ◌>>=◌,
  bind_split, subst, ap, sym, done_injective, if◌then◌else◌,
}
use cse_yet_another_file_sys.Bytes.{Bytes}
use cse_yet_another_file_sys.YfsClient.{Extents, Yfs, YfsStatus}
use cse_yet_another_file_sys.YfsClient.Pairing.{symlink-events}
use cse_yet_another_file_sys.YfsClient.Changes.{symlink}
use cse_yet_another_file_sys.Manager.Calls.{t_file, t_dir}
use cse_yet_another_file_sys.Fuse.{Reply, FuseLib, eexist, enoent, yfs_ok, getattr}
use cse_yet_another_file_sys.Fuse.Handlers.{
  entry_of, add_error, lookup_reply, fuseserver_open, fuseserver_statfs, fuseserver_getattr,
  fuseserver_setattr, fuseserver_read, fuseserver_write, fuseserver_createhelper, fuseserver_create,
  fuseserver_mknod, fuseserver_mkdir, fuseserver_lookup, fuseserver_readdir, fuseserver_unlink,
  fuseserver_readlink, fuseserver_symlink,
}
use cse_yet_another_file_sys.Fuse.Sessions.{
  Request, getattr_of, statfs_of, readdir_of, lookup_of, create_in, mknod_in, open_of, read_of,
  write_to, setattr_of, unlink_from, mkdir_in, readlink_of, symlink_in, serve, serve_all,
}
use cse_yet_another_file_sys.Fuse.Keeping.{
  IsPaired, IsPaired-released, Keeps, Keeps-pure, Keeps-bind, lookup-Keeps, keeps,
}

abbrev pub IsSymlink : Request → Type 0
IsSymlink (symlink_in stack old link parent name) = Unit
IsSymlink _ = ⊥

-- No symbolic link was refused because its name existed.
abbrev pub NoClash : List Request → List Reply → Type 0
NoClash [] replies = Unit
NoClash (r ∷ rs) [] = Unit
NoClash (r ∷ rs) (reply ∷ replies) =
    (IsSymlink r → reply ≢ Reply.reply_err eexist) × NoClash rs replies

module _ {S : Type 0} (ext : Extents S) where
  createhelper-Keeps :
      (stack : Bytes) (old parent : ℕ) (name : Bytes) (type : ℕ)
      → Keeps (fuseserver_createhelper ext stack old parent name type)
  unfolding fuseserver_createhelper
  createhelper-Keeps stack old parent name type = search keeps depth 10

  lookup_reply-Keeps : (found : Option ℕ) → Keeps (lookup_reply ext found)
  unfolding lookup_reply
  lookup_reply-Keeps none = Keeps-pure _
  lookup_reply-Keeps (some ino) = search keeps depth 10

  symlink_end-Keeps :
      (ret : YfsStatus) (id : ℕ)
      → Keeps (
          if yfs_ok ret
          then (do
            (ret', st) ← getattr ext id
            pure (
                if yfs_ok ret' then Reply.reply_entry (entry_of id st) else Reply.reply_err enoent))
          else pure (add_error ret))
  symlink_end-Keeps ret id = search keeps depth 10

  serve-Keeps : (lib : FuseLib) (r : Request) → IsSymlink r ⊎ Keeps (serve ext lib r)
  unfolding serve fuseserver_getattr fuseserver_statfs fuseserver_readdir fuseserver_lookup
      fuseserver_create fuseserver_mknod fuseserver_open fuseserver_read fuseserver_write
      fuseserver_setattr fuseserver_unlink fuseserver_mkdir fuseserver_readlink fuseserver_symlink
  serve-Keeps lib (getattr_of ino) = inr (search keeps depth 10)
  serve-Keeps lib statfs_of = inr (search keeps depth 10)
  serve-Keeps lib (readdir_of ino size off) = inr (search keeps depth 10)
  serve-Keeps lib (lookup_of parent name) =
      inr (Keeps-bind _ _ (lookup-Keeps ext parent name) (λ a. lookup_reply-Keeps a.1))
  serve-Keeps lib (create_in stack old parent name) =
      inr (Keeps-bind _ _ (createhelper-Keeps stack old parent name t_file) (λ a. Keeps-pure _))
  serve-Keeps lib (mknod_in stack old parent name) =
      inr (Keeps-bind _ _ (createhelper-Keeps stack old parent name t_file) (λ a. Keeps-pure _))
  serve-Keeps lib open_of = inr (search keeps depth 10)
  serve-Keeps lib (read_of ino size off) = inr (search keeps depth 10)
  serve-Keeps lib (write_to ino bytes size off) = inr (search keeps depth 10)
  serve-Keeps lib (setattr_of ino st_size to_set) = inr (search keeps depth 10)
  serve-Keeps lib (unlink_from stack parent name) = inr (search keeps depth 10)
  serve-Keeps lib (mkdir_in stack old parent name) =
      inr (Keeps-bind _ _ (createhelper-Keeps stack old parent name t_dir) (λ a. Keeps-pure _))
  serve-Keeps lib (readlink_of ino) = inr (search keeps depth 10)
  serve-Keeps lib (symlink_in stack old link parent name) = inl tt

  -- A symbolic link that is answered EEXIST keeps the lock of its directory.
  symlink_reply :
      (y z : Yfs S) (stack : Bytes) (old : ℕ) (link : Bytes) (parent : ℕ) (name : Bytes)
      (reply : Reply)
      → fuseserver_symlink ext stack old link parent name y ≡ done (reply, z)
      → IsPaired y.events
      → IsPaired z.events ⊎ (reply ≡ Reply.reply_err eexist)
  unfolding fuseserver_symlink
  symlink_reply y z stack old link parent name reply e h =
      let ((ret, id), s, got, rest) = bind_split (symlink ext stack parent name link old y) _ e in
      elim (symlink-events ext y s stack parent name link old (ret, id) got) [
        | inl pair ↦ inl (
            (symlink_end-Keeps ret id).at s z reply rest
              (IsPaired-released parent y.events s.events h pair))
        | inr (exists, kept) ↦
            let rest2 = rw exists at rest in
            inr (ap (λ (p : Reply × Yfs S). p.0) (sym (done_injective rest2)))
      ]

module _ {S : Type 0} (ext : Extents S) (lib : FuseLib) where
  serve-IsPaired :
      (r : Request) (y z : Yfs S) (reply : Reply)
      → serve ext lib r y ≡ done (reply, z)
      → IsPaired y.events
      → IsPaired z.events ⊎ (IsSymlink r × (reply ≡ Reply.reply_err eexist))
  unfolding serve
  serve-IsPaired (symlink_in stack old link parent name) y z reply e h =
      elim (symlink_reply ext y z stack old link parent name reply e h) [
        | inl paired ↦ inl paired
        | inr refused ↦ inr (tt, refused)
      ]
  serve-IsPaired r y z reply e h = elim (serve-Keeps ext lib r) [
    | inl is_symlink ↦ absurd is_symlink
    | inr keeps_paired ↦ inl (keeps_paired.at y z reply e h)
  ]

  -- A session that ends, whatever the extent client answers, and in which no request for a symbolic link is
  -- answered EEXIST: if each lock had been given back before the next was taken, and the last one too, then it is
  -- so afterwards.
  pub serve_all-IsPaired :
      (rs : List Request) (y z : Yfs S) (replies : List Reply)
      → serve_all ext lib rs y ≡ done (replies, z)
      → NoClash rs replies
      → IsPaired y.events
      → IsPaired z.events
  unfolding serve_all
  serve_all-IsPaired [] y z replies e ok h = ground (arith, e, h)
  serve_all-IsPaired (r ∷ rs) y z replies e ok h =
      let (reply, s, got, e1) = bind_split (serve ext lib r y) _ e in
      let (rest, t, got2, e2) = bind_split (serve_all ext lib rs s) _ e1 in
      let split = done_injective e2 in
      let ok' : NoClash (r ∷ rs) (reply ∷ rest) =
        subst (NoClash (r ∷ rs)) (ap (λ (p : List Reply × Yfs S). p.0) (sym split)) ok in
      let here : IsPaired s.events = elim (serve-IsPaired r y s reply got h) [
        | inl paired ↦ paired
        | inr (is_symlink, refused) ↦ absurd (ok'.0 is_symlink refused)
      ] in
      subst (λ (q : Yfs S). IsPaired q.events) (ap (λ (p : List Reply × Yfs S). p.1) split)
        (serve_all-IsPaired rs s t rest got2 ok'.1 here)
