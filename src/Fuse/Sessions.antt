-- ===== src/Fuse/Sessions.antt =====
-- The table of handlers that fuse.cc registers, and the session: one request after the other.
use cse_yet_another_file_sys.Prelude.{ℕ, List, [], ◌∷◌, Exec, pure, ◌>>=◌}
use cse_yet_another_file_sys.Bytes.{Bytes}
use cse_yet_another_file_sys.YfsClient.{Extents, Yfs}
use cse_yet_another_file_sys.Fuse.{Reply, FuseLib}
use cse_yet_another_file_sys.Fuse.Handlers.{
  fuseserver_open, fuseserver_statfs, fuseserver_getattr, fuseserver_setattr, fuseserver_read,
  fuseserver_write, fuseserver_create, fuseserver_mknod, fuseserver_mkdir, fuseserver_lookup,
  fuseserver_readdir, fuseserver_unlink, fuseserver_readlink, fuseserver_symlink,
}

-- A request of the kernel: the operation and its arguments, with what the memory of the handler's locals held.
pub data Request : Type 0 where
  getattr_of : ℕ → Request
  statfs_of : Request
  readdir_of : ℕ → ℕ → ℕ → Request
  lookup_of : ℕ → Bytes → Request
  create_in : Bytes → ℕ → ℕ → Bytes → Request
  mknod_in : Bytes → ℕ → ℕ → Bytes → Request
  open_of : Request
  read_of : ℕ → ℕ → ℕ → Request
  write_to : ℕ → Bytes → ℕ → ℕ → Request
  setattr_of : ℕ → ℕ → ℕ → Request
  unlink_from : (ℕ → Bytes) → ℕ → Bytes → Request
  mkdir_in : Bytes → ℕ → ℕ → Bytes → Request
  readlink_of : ℕ → Request
  symlink_in : Bytes → ℕ → Bytes → ℕ → Bytes → Request

module _ {S : Type 0} (ext : Extents S) (lib : FuseLib) where
  -- `fuseserver_oper`.
  unfoldable pub serve : Request → Exec (Yfs S) Reply
  unfolding fuseserver_getattr fuseserver_statfs fuseserver_readdir fuseserver_lookup
      fuseserver_create fuseserver_mknod fuseserver_open fuseserver_read fuseserver_write
      fuseserver_setattr fuseserver_unlink fuseserver_mkdir fuseserver_readlink fuseserver_symlink
  serve (getattr_of ino) = fuseserver_getattr ext ino
  serve statfs_of = fuseserver_statfs
  serve (readdir_of ino size off) = fuseserver_readdir ext lib ino size off
  serve (lookup_of parent name) = fuseserver_lookup ext parent name
  serve (create_in stack old parent name) = fuseserver_create ext stack old parent name
  serve (mknod_in stack old parent name) = fuseserver_mknod ext stack old parent name
  serve open_of = fuseserver_open
  serve (read_of ino size off) = fuseserver_read ext ino size off
  serve (write_to ino bytes size off) = fuseserver_write ext ino bytes size off
  serve (setattr_of ino st_size to_set) = fuseserver_setattr ext lib ino st_size to_set
  serve (unlink_from stack parent name) = fuseserver_unlink ext stack parent name
  serve (mkdir_in stack old parent name) = fuseserver_mkdir ext stack old parent name
  serve (readlink_of ino) = fuseserver_readlink ext ino
  serve (symlink_in stack old link parent name) = fuseserver_symlink ext stack old link parent name

  -- `fuse_session_loop` serves one request after the other.
  unfoldable pub serve_all : List Request → Exec (Yfs S) (List Reply)
  unfolding serve
  serve_all [] = pure []
  serve_all (r ∷ rs) = do reply ← serve r; replies ← serve_all rs; pure (reply ∷ replies)
