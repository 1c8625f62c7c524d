-- ===== src/LockClient.antt =====
-- class lock_client of lock_client.h and lock_client.cc: the stubs of the plain lock server, and the types of the
-- methods that they call.
use cse_yet_another_file_sys.Prelude.{ℕ, Bool, ◌==◌, Exec, pure, exit, ◌>>=◌, if◌then◌else◌}
use cse_yet_another_file_sys.Bytes.{Bytes}
use cse_yet_another_file_sys.Marshall.{Unmarshall, Wire}
use cse_yet_another_file_sys.Stubs.{Codec, Params, call}

abbrev pub rpc_acquire : ℕ
rpc_acquire = 0x7001

abbrev pub rpc_release : ℕ
rpc_release = 0x7002

abbrev pub rpc_stat : ℕ
rpc_stat = 0x7003

-- `int r;` has the value `unset`.
module _ (w : Wire) (unset : ℕ) where
  abbrev pub int_codec : Codec ℕ
  int_codec = record { initial = unset; put = w.int_bytes; get = λ old u. w.get_int u }

  abbrev pub lockid_codec : Codec ℕ
  lockid_codec = record {
    initial = unset;
    put = w.ulonglong_bytes;
    get = λ old u. w.get_ulonglong u;
  }

  -- The methods of the server take the client as an int.
  abbrev pub method_params : Params
  method_params = Params.param ℕ int_codec (Params.param ℕ lockid_codec Params.no_more)

  -- The client sends `cl->id()`, an unsigned int.
  abbrev pub nonce_codec : Codec ℕ
  nonce_codec = record { initial = unset; put = w.uint_bytes; get = λ old u. w.get_uint u }

  abbrev pub call_params : Params
  call_params = Params.param ℕ nonce_codec (Params.param ℕ lockid_codec Params.no_more)

  module _ (okdone : Unmarshall → Bool) {S : Type 0}
      (call1 : ℕ → Bytes → Exec S (ℕ × Unmarshall)) where
    -- `VERIFY(ret == lock_protocol::OK); return r;`
    unfoldable pub verified : ℕ × ℕ → Exec S ℕ
    verified p = if p.0 == 0 then pure p.1 else exit

    unfoldable pub request : ℕ → ℕ → ℕ → Exec S ℕ
    unfolding verified
    request proc id lid =
        call okdone int_codec call1 call_params proc (id, (lid, tt)) unset >>= verified

    unfoldable pub stat : ℕ → ℕ → Exec S ℕ
    unfolding request
    stat id lid = request rpc_stat id lid

    unfoldable pub acquire : ℕ → ℕ → Exec S ℕ
    unfolding request
    acquire id lid = request rpc_acquire id lid

    unfoldable pub release : ℕ → ℕ → Exec S ℕ
    unfolding request
    release id lid = request rpc_release id lid
