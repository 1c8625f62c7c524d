-- ===== src/ExtentClient.antt =====
-- class extent_client of extent_client.h and extent_client.cc: a cache of the extent server's files.
-- The calls of the RPC library are a parameter, a record of one function per call, which gives the
-- status and the reply from what the reply argument held before; so is what fresh memory holds.
pub mod Backing
pub mod Known
pub mod Filed
pub mod Backed
pub mod Typed
pub mod Tidy
pub mod Changing
pub mod Keeping
pub mod Served
mod Examples
pub mod Interface
pub mod Seen
pub mod Steps
pub mod Syncing
pub mod Loss
mod Tests
use cse_yet_another_file_sys.Prelude.{
  ℕ, ◌%◌, ◌^◌, Bool, true, false, Option, none, some, [], Exec, pure, done, ◌>>=◌, update, length,
  if◌then◌else◌,
}
use cse_yet_another_file_sys.Bytes.{Bytes}
use cse_yet_another_file_sys.Manager.{Clock, time}
use cse_yet_another_file_sys.Manager.Calls.{Attr}
use cse_yet_another_file_sys.Server.{Status, FullFile}
use cse_yet_another_file_sys.ExtentClient.Interface.{Rpc}

pub record CachedFile : Type 0 where
  pub type : ℕ
  pub buf : Bytes
  pub attr : Attr
  pub buf_valid : Bool
  pub attr_valid : Bool
  pub dirty : Bool

-- A key without a file is one whose pointer is NULL.
pub record ExtentClient (R : Type 0) : Type 0 where
  pub cache : ℕ → Option CachedFile
  pub server : R

-- `new cached_file()`: the constructor sets the flags, the string is empty, the rest is what the memory held.
abbrev pub new_file : CachedFile → CachedFile
new_file memory = record memory { buf = []; buf_valid = false; attr_valid = false; dirty = false }

abbrev pub file_at : {R : Type 0} → CachedFile → ExtentClient R → ℕ → CachedFile
file_at memory c eid = elim (c.cache eid) [ none ↦ new_file memory | some file ↦ file ]

abbrev pub store : {R : Type 0} → ℕ → CachedFile → R → ExtentClient R → ExtentClient R
store eid file server c = record { cache = update c.cache eid (some file); server = server }

-- What a miss stores: the reply, with both parts valid. The flag `dirty` stays.
abbrev pub fetched : CachedFile → FullFile → CachedFile
fetched file reply = record file {
  buf = reply.buf;
  buf_valid = true;
  attr = reply.attr;
  attr_valid = true;
}

-- The local `full_file` of a miss: an empty string, and attributes that are not set.
abbrev pub local_file : CachedFile → FullFile
local_file memory = record { attr = memory.attr; buf = [] }

abbrev pub buf_hit : Option CachedFile → Option CachedFile
buf_hit none = none
buf_hit (some file) = if file.buf_valid then some file else none

abbrev pub attr_hit : Option CachedFile → Option CachedFile
attr_hit none = none
attr_hit (some file) = if file.attr_valid then some file else none

module _ {R : Type 0} (rpc : Rpc R) (memory : CachedFile) where
  -- `id` is what the reference argument held.
  unfoldable pub create : ℕ → ℕ → Clock → Exec (ExtentClient R) (Status × ℕ)
  create type id now c =
      let file : CachedFile = record memory {
        type = type;
        buf = [];
        attr = record memory.attr {
          type = type;
          atime = time now 0;
          ctime = time now 1;
          mtime = time now 2;
        };
        buf_valid = true;
        attr_valid = true;
        dirty = false;
      } in
      let ((ret, eid), server) = rpc.create type id c.server in
      done ((ret, eid), store eid file server c)

  unfoldable pub get : ℕ → Exec (ExtentClient R) (Status × Bytes)
  get eid c = elim (buf_hit (c.cache eid)) [
    | some file ↦ done ((Status.ok, file.buf), c)
    | none ↦
        let ((ret, reply), server) = rpc.get eid (local_file memory) c.server in
        done ((ret, reply.buf), store eid (fetched (file_at memory c eid) reply) server c)
  ]

  unfoldable pub getattr : ℕ → Exec (ExtentClient R) (Status × Attr)
  getattr eid c = elim (attr_hit (c.cache eid)) [
    | some file ↦ done ((Status.ok, file.attr), c)
    | none ↦
        let ((ret, reply), server) = rpc.getattr eid (local_file memory) c.server in
        done ((ret, reply.attr), store eid (fetched (file_at memory c eid) reply) server c)
  ]

module _ {R : Type 0} (memory : CachedFile) where
  unfoldable pub put : ℕ → Bytes → Clock → Exec (ExtentClient R) Status
  put eid buf now c =
      let file = file_at memory c eid in
      let written : CachedFile = record file {
        dirty = true;
        buf_valid = true;
        buf = buf;
        attr = record file.attr {
          atime = time now 0;
          ctime = time now 1;
          mtime = time now 2;
          size = length buf % 2 ^ 32;
        };
      } in
      done (Status.ok, store eid written c.server c)

module _ {R : Type 0} (rpc : Rpc R) where
  unfoldable pub remove : ℕ → Exec (ExtentClient R) Status
  remove eid c =
      let (ret, server) = rpc.remove eid c.server in
      done (ret, record { cache = update c.cache eid none; server = server })

  unfoldable pub sync : ℕ → Exec (ExtentClient R) Status
  sync eid c = elim (c.cache eid) [
    | none ↦ done (Status.ok, c)
    | some file ↦
        let (ret, server) = rpc.put eid file.buf c.server in
        if file.dirty
        then done (
          ret,
          store eid (record file { buf_valid = false; attr_valid = false; dirty = false }) server c,
        )
        else done (
          Status.ok,
          store eid (record file { buf_valid = false; attr_valid = false }) c.server c,
        )
  ]
