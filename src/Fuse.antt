-- ===== src/Fuse.antt =====
-- The handlers of fuse.cc: each calls the file system client and sends one reply, which is its result here.
-- What libfuse defines is a record: the bit of `to_set` for the size, and the bytes of a directory entry.
pub mod Handlers
pub mod Sessions
pub mod Keeping
pub mod Locks
pub mod Attributes
pub mod Entries
pub mod Reading
pub mod Writing
mod Tests
use cse_yet_another_file_sys.Prelude.{
  ℕ, zero, suc, ◌+◌, ◌-◌, Bool, List, [], ◌∷◌, ◌++◌, Exec, pure, ◌>>=◌, ltb, ◌==◌, if◌then◌else◌,
  true, false, length, take, drop, min, ◌≡◌,
}
use cse_yet_another_file_sys.Bytes.{Bytes}
use cse_yet_another_file_sys.Manager.Calls.{Attr}
use cse_yet_another_file_sys.YfsClient.{YfsStatus, Extents, Yfs, isfile, isdir, getfile, getdir}
use cse_yet_another_file_sys.YfsClient.Format.{Dirent}

-- The fields of `struct stat` that the file sets; the others are zero.
pub record Stat : Type 0 where
  pub st_ino : ℕ
  pub st_mode : ℕ
  pub st_nlink : ℕ
  pub st_atime : ℕ
  pub st_mtime : ℕ
  pub st_ctime : ℕ
  pub st_size : ℕ

-- `struct fuse_entry_param`. The timeouts are zero.
pub record Entry : Type 0 where
  pub ino : ℕ
  pub attr : Stat
  pub attr_timeout : ℕ
  pub entry_timeout : ℕ
  pub generation : ℕ

-- The calls of the `fuse_reply` family, without the request.
pub data Reply : Type 0 where
  reply_err : ℕ → Reply
  reply_attr : Stat → Reply
  reply_buf : Bytes → Reply
  reply_write : ℕ → Reply
  reply_create : Entry → Reply
  reply_entry : Entry → Reply
  reply_open : Reply
  reply_statfs : ℕ → ℕ → Reply
  reply_readlink : Bytes → Reply

-- The constants of errno.h and sys/stat.h.
abbrev pub enoent : ℕ
enoent = 2

abbrev pub eexist : ℕ
eexist = 17

abbrev pub enotdir : ℕ
enotdir = 20

abbrev pub enosys : ℕ
enosys = 38

abbrev pub enotempty : ℕ
enotempty = 39

abbrev pub s_ifreg : ℕ
s_ifreg = 0x8000

abbrev pub s_ifdir : ℕ
s_ifdir = 0x4000

abbrev pub s_iflnk : ℕ
s_iflnk = 0xA000

-- 0666 and 0777. The bits are apart from those of the formats, so `|` adds them.
abbrev pub rw_all : ℕ
rw_all = 0x1B6

abbrev pub rwx_all : ℕ
rwx_all = 0x1FF

-- `fuse_dirent_size`, and the bytes that `fuse_add_dirent` writes for a name, a number and an offset.
pub record FuseLib : Type 0 where
  pub sets_size : ℕ → Bool
  pub dirent_size : ℕ → ℕ
  pub dirent_bytes : Bytes → ℕ → ℕ → Bytes
  pub length_law :
      (name : Bytes) (ino off : ℕ) → length (dirent_bytes name ino off) ≡ dirent_size (length name)

-- The bytes before the first zero byte, which is where a `const char *` ends.
unfoldable pub c_str : Bytes → Bytes
c_str [] = []
c_str (b ∷ bs) = let rest = c_str bs in if b == 0 then [] else b ∷ rest

pub record DirBuf : Type 0 where
  pub p : Bytes
  pub size : ℕ

unfoldable pub dirbuf_add : FuseLib → DirBuf → Bytes → ℕ → DirBuf
dirbuf_add lib b name ino =
    let size = b.size + lib.dirent_size (length name) in
    record { p = b.p ++ lib.dirent_bytes name ino size; size = size }

-- The loop of `fuseserver_readdir`.
unfoldable pub dirbuf_add_all : FuseLib → DirBuf → List Dirent → DirBuf
unfolding dirbuf_add c_str
dirbuf_add_all lib b [] = b
dirbuf_add_all lib b (e ∷ es) = dirbuf_add_all lib (dirbuf_add lib b (c_str e.name) e.inum) es

-- The bytes from `off` on, `maxsize` at most; nothing past the end. `off` is its value as a `size_t`.
unfoldable pub reply_buf_limited : Bytes → ℕ → ℕ → ℕ → Reply
reply_buf_limited p bufsize off maxsize =
    if ltb off bufsize
    then Reply.reply_buf (take (min (bufsize - off) maxsize) (drop off p))
    else Reply.reply_buf []

abbrev pub blank_stat : ℕ → Stat
blank_stat inum = record {
  st_ino = inum;
  st_mode = 0;
  st_nlink = 0;
  st_atime = 0;
  st_mtime = 0;
  st_ctime = 0;
  st_size = 0;
}

abbrev pub file_stat : ℕ → Attr → Stat
file_stat inum info = record (blank_stat inum) {
  st_mode = s_ifreg + rw_all;
  st_nlink = 1;
  st_atime = info.atime;
  st_mtime = info.mtime;
  st_ctime = info.ctime;
  st_size = info.size;
}

-- `dir` and `dir'` are the answers of the two calls of `isdir`.
abbrev pub dir_stat : ℕ → Attr → Bool → Bool → Stat
dir_stat inum info dir dir' = record (blank_stat inum) {
  st_mode = (if dir then s_ifdir else s_iflnk) + rwx_all;
  st_nlink = if dir' then 2 else 1;
  st_atime = info.atime;
  st_mtime = info.mtime;
  st_ctime = info.ctime;
}

abbrev pub yfs_ok : YfsStatus → Bool
yfs_ok YfsStatus.ok = true
yfs_ok _ = false

module _ {S : Type 0} (ext : Extents S) where
  -- `isfile` is called for the log too.
  unfoldable pub getattr : ℕ → Exec (Yfs S) (YfsStatus × Stat)
  unfolding isfile isdir getfile getdir
  getattr inum = do
    logged ← isfile ext inum
    file ← isfile ext inum
    if file
        then (do
          (ret, info) ← getfile ext inum
          pure (if yfs_ok ret then (YfsStatus.ok, file_stat inum info) else (ret, blank_stat inum)))
        else (do
          (ret, info) ← getdir ext inum
          if yfs_ok ret
              then (do
                dir ← isdir ext inum
                dir' ← isdir ext inum
                pure (YfsStatus.ok, dir_stat inum info dir dir'))
              else pure (ret, blank_stat inum))
