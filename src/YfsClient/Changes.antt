-- ===== src/YfsClient/Changes.antt =====
-- The methods of yfs_client.cc that read and write files and that change directories.
use cse_yet_another_file_sys.Prelude.{
  ℕ, ◌+◌, ◌-◌, ◌%◌, ◌^◌, none, some, [], ◌++◌, Exec, pure, exit, ◌>>=◌, ◌>>◌, leb, if◌then◌else◌,
  length,
}
use cse_yet_another_file_sys.Bytes.{Bytes}
use cse_yet_another_file_sys.Manager.{resize}
use cse_yet_another_file_sys.Manager.Calls.{t_dir, t_file, t_slink}
use cse_yet_another_file_sys.YfsClient.Format.{write_entry, write_entries}
use cse_yet_another_file_sys.YfsClient.{
  YfsStatus, of_status, is_ok, Extents, Yfs, call, acquire, release, assign, substr, replace,
  find_entry, erase_entry, readdir_no_seria, lookup_no_seria,
}

module _ {S : Type 0} (ext : Extents S) where
  -- The constructor, after the clients are made.
  unfoldable pub yfs_client_init : Exec (Yfs S) Unit
  yfs_client_init = do acquire 1; ret ← call (ext.put 1 []); release 1

  unfoldable pub read : ℕ → ℕ → ℕ → Exec (Yfs S) (YfsStatus × Bytes)
  read ino size off = do
    acquire ino
    (ret, content) ← call (ext.get ino)
    release ino
    if leb (length content) (off % 2 ^ 32)
        then pure (YfsStatus.ok, [])
        else (do bytes ← substr content off size; pure (YfsStatus.ok, bytes))

  -- The result is the status and `bytes_written`.
  unfoldable pub write : ℕ → ℕ → ℕ → Bytes → Exec (Yfs S) (YfsStatus × ℕ)
  write ino size off bytes = do
    acquire ino
    (ret, content) ← call (ext.get ino)
    buf ← assign bytes size
    if leb (off % 2 ^ 32) (length content)
        then (do
          content' ← replace content off size buf
          ret' ← call (ext.put ino content')
          release ino
          pure (YfsStatus.ok, size))
        else (do
          content' ← replace (resize (size + off) content) off size buf
          ret' ← call (ext.put ino content')
          release ino
          pure (YfsStatus.ok, size + off - length content))

  unfoldable pub readlink : ℕ → Exec (Yfs S) (YfsStatus × Bytes)
  readlink ino = do
    acquire ino
    (ret, buf) ← call (ext.get ino)
    release ino
    pure (of_status ret, buf)

  -- The end of `create` and `mkdir`: the new entry is appended to the bytes of the parent.
  unfoldable pub add_entry : Bytes → ℕ → Bytes → ℕ → Bytes → Exec (Yfs S) (YfsStatus × ℕ)
  unfolding write_entry
  add_entry stack parent buf ino name = do
    entry ← write_entry stack ino name
    ret ← call (ext.put parent (buf ++ entry))
    release parent
    pure (YfsStatus.ok, ino)

  -- `old` is what `ino_out` held. The file is created before the parent is read.
  unfoldable pub create : Bytes → ℕ → Bytes → ℕ → Exec (Yfs S) (YfsStatus × ℕ)
  unfolding lookup_no_seria add_entry
  create stack parent name old = do
    acquire parent
    found ← lookup_no_seria ext parent name
    elim found [
      | some ino ↦ do release parent; pure (YfsStatus.exist, ino)
      | none ↦ do
        (ret, ino) ← call (ext.create t_file old)
        (ret', buf) ← call (ext.get parent)
        if is_ok ret' then add_entry stack parent buf ino name else (do release parent; exit)
    ]

  -- The parent is read before the directory is created.
  unfoldable pub mkdir : Bytes → ℕ → Bytes → ℕ → Exec (Yfs S) (YfsStatus × ℕ)
  unfolding lookup_no_seria add_entry
  mkdir stack parent name old = do
    acquire parent
    found ← lookup_no_seria ext parent name
    elim found [
      | some ino ↦ do release parent; pure (YfsStatus.exist, ino)
      | none ↦ do
        (ret', buf) ← call (ext.get parent)
        if is_ok ret'
            then (do (ret, ino) ← call (ext.create t_dir old); add_entry stack parent buf ino name)
            else (do release parent; exit)
    ]

  -- Where the name is found, the parent's lock is kept. `ino_out` is not set then.
  unfoldable pub symlink : Bytes → ℕ → Bytes → Bytes → ℕ → Exec (Yfs S) (YfsStatus × ℕ)
  unfolding lookup_no_seria write_entry
  symlink stack parent name link old = do
    acquire parent
    (ret, parent_content) ← call (ext.get parent)
    found ← lookup_no_seria ext parent name
    elim found [
      | some id ↦ pure (YfsStatus.exist, old)
      | none ↦ do
        (ret1, ino) ← call (ext.create t_slink old)
        ret2 ← call (ext.put ino link)
        entry ← write_entry stack ino name
        ret3 ← call (ext.put parent (parent_content ++ entry))
        release parent
        pure (of_status ret2, ino)
    ]

  unfoldable pub rmdir : (ℕ → Bytes) → ℕ → Bytes → Exec (Yfs S) YfsStatus
  unfolding readdir_no_seria write_entries
  rmdir stack parent name = do
    acquire parent
    dir_entries ← readdir_no_seria ext parent
    elim (find_entry name dir_entries) [
      | none ↦ do release parent; pure YfsStatus.noent
      | some inum ↦ do
        ret ← call (ext.remove inum)
        buf ← write_entries stack 0 (erase_entry name dir_entries)
        ret' ← call (ext.put parent buf)
        release parent
        pure YfsStatus.ok
    ]

  unfoldable pub unlink : (ℕ → Bytes) → ℕ → Bytes → Exec (Yfs S) YfsStatus
  unfolding rmdir
  unlink stack parent name = rmdir stack parent name
