-- ===== src/Fuse/Handlers.antt =====
-- The `fuseserver_` handlers of fuse.cc. `stack` is what the memory of a local entry of a directory held,
-- and `old` what an uninitialised number did.
use cse_yet_another_file_sys.Prelude.{
  Option, ℕ, none, some, [], Exec, pure, ◌>>=◌, if◌then◌else◌, ◌==◌,
}
use cse_yet_another_file_sys.Bytes.{Bytes}
use cse_yet_another_file_sys.Manager.Calls.{t_dir, t_file}
use cse_yet_another_file_sys.YfsClient.{YfsStatus, Extents, Yfs, isdir, setattr, readdir, lookup}
use cse_yet_another_file_sys.YfsClient.Changes.{
  read, write, readlink, create, mkdir, symlink, unlink,
}
use cse_yet_another_file_sys.Fuse.{
  Stat, Entry, Reply, FuseLib, enoent, eexist, enotdir, enosys, enotempty, c_str, dirbuf_add_all,
  reply_buf_limited, yfs_ok, getattr,
}

-- An entry with its timeouts and its generation.
abbrev pub entry_of : ℕ → Stat → Entry
entry_of ino attr = record {
  ino = ino;
  attr = attr;
  attr_timeout = 0;
  entry_timeout = 0;
  generation = 0;
}

-- The error that the handlers that add a name answer.
abbrev pub add_error : YfsStatus → Reply
add_error YfsStatus.exist = Reply.reply_err eexist
add_error _ = Reply.reply_err enoent

abbrev pub unlink_error : YfsStatus → Reply
unlink_error YfsStatus.noent = Reply.reply_err enoent
unlink_error _ = Reply.reply_err enotempty

-- What `fuseserver_createhelper` returns: where the status is OK, `e` is set.
pub data Helped : Type 0 where
  made : Entry → Helped
  failed : YfsStatus → Helped

abbrev pub helped : YfsStatus → Entry → Helped
helped YfsStatus.ok e = made e
helped ret e = failed ret

-- `send` is the call that replies with the entry.
abbrev pub add_reply : (Entry → Reply) → Helped → Reply
add_reply send (made e) = send e
add_reply send (failed ret) = add_error ret

unfoldable pub fuseserver_open : {S : Type 0} → Exec (Yfs S) Reply
fuseserver_open = pure Reply.reply_open

unfoldable pub fuseserver_statfs : {S : Type 0} → Exec (Yfs S) Reply
fuseserver_statfs = pure (Reply.reply_statfs 255 512)

module _ {S : Type 0} (ext : Extents S) where
  unfoldable pub fuseserver_getattr : ℕ → Exec (Yfs S) Reply
  unfolding getattr
  fuseserver_getattr ino = do
    (ret, st) ← getattr ext ino
    pure (if yfs_ok ret then Reply.reply_attr st else Reply.reply_err enoent)

  -- The results of `setattr` and `getattr` are not looked at.
  unfoldable pub fuseserver_setattr : FuseLib → ℕ → ℕ → ℕ → Exec (Yfs S) Reply
  unfolding setattr getattr
  fuseserver_setattr lib ino st_size to_set =
      if lib.sets_size to_set
      then (do
        ret ← setattr ext ino st_size
        (ret', st) ← getattr ext ino
        pure (Reply.reply_attr st))
      else pure (Reply.reply_err enosys)

  unfoldable pub fuseserver_read : ℕ → ℕ → ℕ → Exec (Yfs S) Reply
  unfolding read
  fuseserver_read ino size off = do
    (r, bytes) ← read ext ino size off
    pure (if yfs_ok r then Reply.reply_buf bytes else Reply.reply_err enoent)

  -- `size` is passed as the reference `bytes_written` too, so the reply tells what `write` sets there.
  unfoldable pub fuseserver_write : ℕ → Bytes → ℕ → ℕ → Exec (Yfs S) Reply
  unfolding write
  fuseserver_write ino bytes size off = do
    (r, bytes_written) ← write ext ino size off bytes
    pure (if yfs_ok r then Reply.reply_write bytes_written else Reply.reply_err enoent)

  unfoldable pub fuseserver_createhelper : Bytes → ℕ → ℕ → Bytes → ℕ → Exec (Yfs S) Helped
  unfolding create mkdir getattr
  fuseserver_createhelper stack old parent name type = do
    (ret, inum) ←
        if type == t_file then create ext stack parent name old else mkdir ext stack parent name old
    if yfs_ok ret
        then (do (ret', st) ← getattr ext inum; pure (helped ret' (entry_of inum st)))
        else pure (failed ret)

  unfoldable pub fuseserver_create : Bytes → ℕ → ℕ → Bytes → Exec (Yfs S) Reply
  unfolding fuseserver_createhelper
  fuseserver_create stack old parent name = do
    ret ← fuseserver_createhelper stack old parent name t_file
    pure (add_reply Reply.reply_create ret)

  unfoldable pub fuseserver_mknod : Bytes → ℕ → ℕ → Bytes → Exec (Yfs S) Reply
  unfolding fuseserver_createhelper
  fuseserver_mknod stack old parent name = do
    ret ← fuseserver_createhelper stack old parent name t_file
    pure (add_reply Reply.reply_entry ret)

  unfoldable pub fuseserver_mkdir : Bytes → ℕ → ℕ → Bytes → Exec (Yfs S) Reply
  unfolding fuseserver_createhelper
  fuseserver_mkdir stack old parent name = do
    ret ← fuseserver_createhelper stack old parent name t_dir
    pure (add_reply Reply.reply_entry ret)

  -- The status of `getattr` is not looked at.
  unfoldable pub lookup_reply : Option ℕ → Exec (Yfs S) Reply
  unfolding getattr
  lookup_reply none = pure (Reply.reply_err enoent)
  lookup_reply (some ino) = do
    (ret, st) ← getattr ext ino
    pure (Reply.reply_entry (entry_of ino st))

  -- Nor is that of `lookup`.
  unfoldable pub fuseserver_lookup : ℕ → Bytes → Exec (Yfs S) Reply
  unfolding lookup lookup_reply
  fuseserver_lookup parent name = do (ret, found) ← lookup ext parent name; lookup_reply found

  unfoldable pub fuseserver_readdir : FuseLib → ℕ → ℕ → ℕ → Exec (Yfs S) Reply
  unfolding isdir readdir dirbuf_add_all reply_buf_limited
  fuseserver_readdir lib ino size off = do
    dir ← isdir ext ino
    if dir
        then (do
          (ret, entries) ← readdir ext ino
          let b = dirbuf_add_all lib (record { p = []; size = 0 }) entries
          pure (reply_buf_limited b.p b.size off size))
        else pure (Reply.reply_err enotdir)

  unfoldable pub fuseserver_unlink : (ℕ → Bytes) → ℕ → Bytes → Exec (Yfs S) Reply
  unfolding unlink
  fuseserver_unlink stack parent name = do
    r ← unlink ext stack parent name
    pure (if yfs_ok r then Reply.reply_err 0 else unlink_error r)

  unfoldable pub fuseserver_readlink : ℕ → Exec (Yfs S) Reply
  unfolding readlink c_str
  fuseserver_readlink ino = do
    (ret, bytes) ← readlink ext ino
    pure (if yfs_ok ret then Reply.reply_readlink (c_str bytes) else Reply.reply_err enoent)

  unfoldable pub fuseserver_symlink : Bytes → ℕ → Bytes → ℕ → Bytes → Exec (Yfs S) Reply
  unfolding symlink getattr
  fuseserver_symlink stack old link parent name = do
    (ret, id) ← symlink ext stack parent name link old
    if yfs_ok ret
        then (do
          (ret', st) ← getattr ext id
          pure (if yfs_ok ret' then Reply.reply_entry (entry_of id st) else Reply.reply_err enoent))
        else pure (add_error ret)
