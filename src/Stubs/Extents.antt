-- ===== src/Stubs/Extents.antt =====
-- extent_smain.cc: the handlers that the extent server registers, with the types of its methods in extent_server.h and
-- the numbers of extent_protocol.h.
use cse_yet_another_file_sys.Prelude.{
  ℕ, Bool, Option, none, some, [], Exec, pure, ◌>>=◌, ◌==◌, if◌then◌else◌,
}
use cse_yet_another_file_sys.Bytes.{Bytes}
use cse_yet_another_file_sys.Disk.{BlockManager}
use cse_yet_another_file_sys.Manager.{Clock}
use cse_yet_another_file_sys.Server.{Status, FullFile, create, put, get, get_attr, remove}
use cse_yet_another_file_sys.Marshall.{Unmarshall, Wire, put_full_file, get_full_file}
use cse_yet_another_file_sys.Stubs.{Codec, Params, Args, Handler, fn}

abbrev pub rpc_put : ℕ
rpc_put = 0x6001

abbrev pub rpc_get : ℕ
rpc_get = 0x6002

abbrev pub rpc_getattr : ℕ
rpc_getattr = 0x6003

abbrev pub rpc_remove : ℕ
rpc_remove = 0x6004

abbrev pub rpc_create : ℕ
rpc_create = 0x6005

abbrev pub status_int : Status → ℕ
status_int Status.ok = 0
status_int Status.rpcerr = 1
status_int Status.noent = 2
status_int Status.ioerr = 3

-- A variable that is not initialised has the value `unset`.
module _ (w : Wire) (unset : ℕ) where
  abbrev pub int_codec : Codec ℕ
  int_codec = record { initial = unset; put = w.int_bytes; get = λ old u. w.get_int u }

  abbrev pub uint_codec : Codec ℕ
  uint_codec = record { initial = unset; put = w.uint_bytes; get = λ old u. w.get_uint u }

  abbrev pub id_codec : Codec ℕ
  id_codec = record { initial = unset; put = w.ulonglong_bytes; get = λ old u. w.get_ulonglong u }

  abbrev pub string_codec : Codec Bytes
  string_codec = record { initial = []; put = w.string_bytes; get = λ old u. w.get_string u }

  abbrev pub file_codec : Codec FullFile
  file_codec = record {
    initial = record {
      attr = record { type = unset; atime = unset; mtime = unset; ctime = unset; size = unset };
      buf = [];
    };
    put = put_full_file w;
    get = λ old u. get_full_file w u;
  }

  abbrev pub id_params : Params
  id_params = Params.param ℕ id_codec Params.no_more

  abbrev pub put_params : Params
  put_params = Params.param ℕ id_codec (Params.param Bytes string_codec Params.no_more)

  abbrev pub create_params : Params
  create_params = Params.param ℕ uint_codec Params.no_more

  module _ (now : Clock) where
    abbrev pub get_method : Args id_params → FullFile → Exec BlockManager (ℕ × FullFile)
    get_method (id, xs) file = do b ← get id now; pure (status_int b.0, b.1)

    abbrev pub getattr_method : Args id_params → FullFile → Exec BlockManager (ℕ × FullFile)
    getattr_method (id, xs) file = do b ← get_attr id now; pure (status_int b.0, b.1)

    abbrev pub put_method : Args put_params → ℕ → Exec BlockManager (ℕ × ℕ)
    put_method (id, (buf, xs)) r = do b ← put id buf now; pure (status_int b, r)

    abbrev pub remove_method : Args id_params → ℕ → Exec BlockManager (ℕ × ℕ)
    remove_method (id, xs) r = do b ← remove id; pure (status_int b, r)

    abbrev pub create_method : Args create_params → ℕ → Exec BlockManager (ℕ × ℕ)
    create_method (type, xs) id = do b ← create type now; pure (status_int b.0, b.1)

    -- The handler that is registered for a number.
    unfoldable pub extent_procs : (Unmarshall → Bool) → ℕ → Option (Handler BlockManager)
    extent_procs okdone proc =
        if proc == rpc_get
        then some (fn okdone file_codec id_params get_method)
        else if proc == rpc_getattr
        then some (fn okdone file_codec id_params getattr_method)
        else if proc == rpc_put
        then some (fn okdone int_codec put_params put_method)
        else if proc == rpc_remove
        then some (fn okdone int_codec id_params remove_method)
        else if proc == rpc_create
        then some (fn okdone id_codec create_params create_method)
        else none
