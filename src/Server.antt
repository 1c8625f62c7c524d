-- ===== src/Server.antt =====
-- class extent_server of extent_server.h and extent_server.cc, over the inode manager; the wire
-- types of extent_protocol.h that its replies are made of.
pub mod View
pub mod Refines
pub mod Reads
pub mod Start
pub mod Sample
mod Tests
use cse_yet_another_file_sys.Prelude.{
  ℕ, ◌%◌, ◌^◌, [], none, some, crash, pure, ◌>>=◌, ◌>>◌, ◌==◌, if◌then◌else◌, length,
}
use cse_yet_another_file_sys.Bytes.{Bytes}
use cse_yet_another_file_sys.Disk.{Buffer}
use cse_yet_another_file_sys.Manager.{Call, Clock, slice, initialised}
use cse_yet_another_file_sys.Manager.Calls.{
  Attr, alloc_inode, write_file, read_file, getattr, remove_file,
}

-- `enum xxstatus` of extent_protocol.h.
pub data Status : Type 0 where
  ok rpcerr noent ioerr : Status

pub record FullFile : Type 0 where
  pub attr : Attr
  pub buf : Bytes

-- `id &= 0x7fffffff`
abbrev pub mask : ℕ → ℕ
mask id = id % 2 ^ 31

-- The reply to a `get`: an empty file leaves `cbuf` NULL, and `size` bytes are copied otherwise.
unfoldable pub copy_out : Buffer × ℕ → Call Bytes
copy_out (cbuf, size) =
    if size == 0 then pure [] else do bytes ← initialised cbuf; slice bytes 0 size

-- Each method returns OK, with what it leaves in its reference argument.
unfoldable pub create : ℕ → Clock → Call (Status × ℕ)
create type now = do id ← alloc_inode type now; pure (ok, id)

-- A string that is sent has fewer than 2 ^ 31 bytes, so its size is not cut by the `int` that holds it.
unfoldable pub put : ℕ → Bytes → Clock → Call Status
put id buf now = do write_file (mask id) buf (length buf) now; pure ok

unfoldable pub get : ℕ → Clock → Call (Status × FullFile)
get id now = do
  read ← read_file (mask id) now
  buf ← copy_out read
  attr ← getattr (mask id)
  pure (ok, record { attr = attr; buf = buf })

-- `getattr` of the class: it sends the whole file too, read after its attributes.
unfoldable pub get_attr : ℕ → Clock → Call (Status × FullFile)
get_attr id now = do
  attr ← getattr (mask id)
  read ← read_file (mask id) now
  buf ← copy_out read
  pure (ok, record { attr = attr; buf = buf })

unfoldable pub remove : ℕ → Call Status
remove id = do remove_file (mask id); pure ok
