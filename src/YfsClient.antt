-- ===== src/YfsClient.antt =====
-- class yfs_client of yfs_client.h and yfs_client.cc: directories and files over the extent client and the
-- lock client. Both are parameters: the extent client as a record of its methods, the lock client by
-- the events of its lock and unlock calls, in order. A memory that is not set is a parameter too.
pub mod Names
pub mod Numbers
pub mod Format
pub mod Changes
pub mod Printing
pub mod Files
pub mod Session
pub mod Cached
pub mod Dirs
pub mod Listing
pub mod Erasing
pub mod Ranges
pub mod Contents
pub mod Adding
pub mod Refusing
pub mod Locking
pub mod Events
pub mod Pairing
pub mod Sample
pub mod Start
mod Tests
use cse_yet_another_file_sys.Prelude.{
  ℕ, zero, suc, ◌+◌, ◌-◌, ◌*◌, ◌/◌, ◌%◌, ◌^◌, Bool, true, false, Option, none, some, List, [], ◌∷◌,
  ◌++◌, Exec, Outcome, done, exited, fault, pure, exit, crash, ◌>>=◌, ◌>>◌, ltb, leb, ◌==◌,
  if◌then◌else◌, length, take, drop, replicate,
}
use cse_yet_another_file_sys.Bytes.{Bytes}
use cse_yet_another_file_sys.Ids.{same_id}
use cse_yet_another_file_sys.Manager.{slice, resize}
use cse_yet_another_file_sys.Manager.Calls.{Attr, t_dir, t_file, t_slink}
use cse_yet_another_file_sys.Server.{Status}
use cse_yet_another_file_sys.YfsClient.Format.{
  Dirent, entry_size, read_entries, write_entry, write_entries,
}

-- `enum xxstatus` of the class; a status of the extent protocol has the same number.
pub data YfsStatus : Type 0 where
  ok rpcerr noent ioerr exist : YfsStatus

abbrev pub of_status : Status → YfsStatus
of_status Status.ok = YfsStatus.ok
of_status Status.rpcerr = YfsStatus.rpcerr
of_status Status.noent = YfsStatus.noent
of_status Status.ioerr = YfsStatus.ioerr

abbrev pub is_ok : Status → Bool
is_ok Status.ok = true
is_ok _ = false

-- The methods of the extent client. `create` takes what its reference argument held.
pub record Extents (S : Type 0) : Type 0 where
  pub create : ℕ → ℕ → Exec S (Status × ℕ)
  pub get : ℕ → Exec S (Status × Bytes)
  pub getattr : ℕ → Exec S (Status × Attr)
  pub put : ℕ → Bytes → Exec S Status
  pub remove : ℕ → Exec S Status

pub data LockEvent : Type 0 where
  acquired released : ℕ → LockEvent

-- The last event comes first.
pub record Yfs (S : Type 0) : Type 0 where
  pub extents : S
  pub events : List LockEvent

abbrev pub call : {S A : Type 0} → Exec S A → Exec (Yfs S) A
call m y = elim (m y.extents) [
  | done (a, s) ↦ done (a, record y { extents = s })
  | exited ↦ exited
  | fault ↦ fault
]

abbrev pub acquire : {S : Type 0} → ℕ → Exec (Yfs S) Unit
acquire i y = done (tt, record y { events = acquired i ∷ y.events })

abbrev pub release : {S : Type 0} → ℕ → Exec (Yfs S) Unit
release i y = done (tt, record y { events = released i ∷ y.events })

-- `std::string::substr` and `replace` throw where the position is past the end.
abbrev pub substr : {S : Type 0} → Bytes → ℕ → ℕ → Exec S Bytes
substr content off size =
    if leb off (length content) then pure (take size (drop off content)) else crash

abbrev pub replace : {S : Type 0} → Bytes → ℕ → ℕ → Bytes → Exec S Bytes
replace content off size buf =
    if leb off (length content)
    then pure (take off content ++ buf ++ drop (off + size) content)
    else crash

-- `std::string::assign(data, size)`.
abbrev pub assign : {S : Type 0} → Bytes → ℕ → Exec S Bytes
assign bytes size = if leb size (length bytes) then pure (take size bytes) else crash

-- The first entry with the name.
unfoldable pub find_entry : Bytes → List Dirent → Option ℕ
find_entry name [] = none
find_entry name (e ∷ es) =
    let rest = find_entry name es in
    elim (same_id e.name name) [ true ↦ some e.inum | false ↦ rest ]

-- The entries without the first one with the name.
unfoldable pub erase_entry : Bytes → List Dirent → List Dirent
erase_entry name [] = []
erase_entry name (e ∷ es) =
    let rest = erase_entry name es in elim (same_id e.name name) [ true ↦ es | false ↦ e ∷ rest ]

module _ {S : Type 0} (ext : Extents S) where
  -- `getattr` under the lock, as `isfile`, `isdir` and `issymlink` call it.
  unfoldable pub has_type : ℕ → ℕ → Exec (Yfs S) Bool
  has_type type inum = do
    acquire inum
    (ret, a) ← call (ext.getattr inum)
    release inum
    pure (if is_ok ret then a.type == type else false)

  unfoldable pub isfile : ℕ → Exec (Yfs S) Bool
  unfolding has_type
  isfile inum = has_type t_file inum

  unfoldable pub issymlink : ℕ → Exec (Yfs S) Bool
  unfolding has_type
  issymlink inum = has_type t_slink inum

  unfoldable pub isdir : ℕ → Exec (Yfs S) Bool
  unfolding has_type
  isdir inum = has_type t_dir inum

  -- The fields of `fileinfo` are those of the attributes that are copied.
  unfoldable pub getfile : ℕ → Exec (Yfs S) (YfsStatus × Attr)
  getfile inum = do
    acquire inum
    (ret, a) ← call (ext.getattr inum)
    release inum
    pure (if is_ok ret then YfsStatus.ok else YfsStatus.ioerr, a)

  unfoldable pub getdir : ℕ → Exec (Yfs S) (YfsStatus × Attr)
  getdir inum = do
    acquire inum
    (ret, a) ← call (ext.getattr inum)
    release inum
    pure (if is_ok ret then YfsStatus.ok else YfsStatus.ioerr, a)

  unfoldable pub setattr : ℕ → ℕ → Exec (Yfs S) YfsStatus
  setattr ino size = do
    acquire ino
    (ret, buf) ← call (ext.get ino)
    if is_ok ret
        then (do ret' ← call (ext.put ino (resize size buf)); release ino; pure (of_status ret'))
        else (do release ino; pure (of_status ret))

  unfoldable pub readdir_no_seria : ℕ → Exec (Yfs S) (List Dirent)
  unfolding read_entries
  readdir_no_seria dir = do
    (ret, buf) ← call (ext.get dir)
    if is_ok ret
        then (do
          (ret', attr) ← call (ext.getattr dir)
          if attr.type == t_dir then read_entries (length buf % 2 ^ 32 / entry_size) buf else exit)
        else exit

  unfoldable pub readdir : ℕ → Exec (Yfs S) (YfsStatus × List Dirent)
  unfolding readdir_no_seria
  readdir dir = do acquire dir; list ← readdir_no_seria dir; release dir; pure (YfsStatus.ok, list)

  -- `some` of the number where the name is found.
  unfoldable pub lookup_no_seria : ℕ → Bytes → Exec (Yfs S) (Option ℕ)
  unfolding readdir_no_seria
  lookup_no_seria parent name = do entries ← readdir_no_seria parent; pure (find_entry name entries)

  unfoldable pub lookup : ℕ → Bytes → Exec (Yfs S) (YfsStatus × Option ℕ)
  unfolding lookup_no_seria
  lookup parent name = do
    acquire parent
    found ← lookup_no_seria parent name
    release parent
    pure (YfsStatus.ok, found)
