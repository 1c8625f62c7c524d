-- ===== src/Stubs.antt =====
-- The templates of rpc/rpc.h: the stubs `rpcc::call`, for any number of arguments, and the handlers that `rpcs::reg`
-- makes of methods. What brings a request to its handler and the reply back, `call1`, and `unmarshall::okdone` stand
-- in the RPC library: they are parameters. An int is its 32 bits.
pub mod Carried
pub mod Extents
pub mod Remote
mod Tests
use cse_yet_another_file_sys.Prelude.{
  ℕ, ◌-◌, ◌^◌, Bool, List, [], ◌++◌, Exec, pure, exit, ◌>>=◌, if◌then◌else◌, leb,
}
use cse_yet_another_file_sys.Bytes.{Bytes}
use cse_yet_another_file_sys.Marshall.{Unmarshall}

-- The operators of a type that is sent, and the value that a variable of it starts with. A value is read into a
-- variable, which may have one already.
pub record Codec (A : Type 0) : Type 0 where
  pub initial : A
  pub put : A → Bytes
  pub get : A → Unmarshall → A × Unmarshall

-- The types of the arguments of a procedure.
pub data Params : Type 1 where
  no_more : Params
  param : (A : Type 0) → Codec A → Params → Params

abbrev pub Args : Params → Type 0
Args Params.no_more = Unit
Args (Params.param A c ps) = A × Args ps

abbrev pub unmarshal_args_failure : ℕ
unmarshal_args_failure = 2 ^ 32 - 2

unfoldable pub is_negative : ℕ → Bool
is_negative n = leb (2 ^ 31) n

-- `m << a1; m << a2; ...`
unfoldable pub put_args : (ps : Params) → Args ps → Bytes → Bytes
put_args Params.no_more xs m = m
put_args (Params.param A c ps) (a, xs) m = put_args ps xs (m ++ c.put a)

-- `args >> a1; args >> a2; ...`
unfoldable pub get_args : (ps : Params) → Unmarshall → Args ps × Unmarshall
get_args Params.no_more u = (tt, u)
get_args (Params.param A c ps) u =
    let (a, v) = c.get c.initial u in let (xs, w) = get_args ps v in ((a, xs), w)

-- `handler::fn`: the request is read from the one, and the reply written behind what the other has.
abbrev pub Handler : Type 0 → Type 0
Handler S = Unmarshall → Bytes → Exec S (ℕ × Bytes)

module _ (okdone : Unmarshall → Bool) {S R : Type 0} (c : Codec R) where
  unfoldable pub fn : (ps : Params) → (Args ps → R → Exec S (ℕ × R)) → Handler S
  unfolding get_args
  fn ps meth args ret =
      let (xs, u) = get_args ps args in
      if okdone u
      then (do b ← meth xs c.initial; pure (b.0, ret ++ c.put b.1))
      else pure (unmarshal_args_failure, ret)

  -- A reply of a wrong type ends the process, as `VERIFY(0)` does.
  unfoldable pub read_reply : ℕ → R → Unmarshall → Exec S (ℕ × R)
  unfolding is_negative
  read_reply intret r u =
      if is_negative intret
      then pure (intret, r)
      else let (r', v) = c.get r u in if okdone v then pure (intret, r') else exit

  module _ (call1 : ℕ → Bytes → Exec S (ℕ × Unmarshall)) where
    unfoldable pub call_m : ℕ → Bytes → R → Exec S (ℕ × R)
    unfolding read_reply
    call_m proc req r = do reply ← call1 proc req; read_reply reply.0 r reply.1

    unfoldable pub call : (ps : Params) → ℕ → Args ps → R → Exec S (ℕ × R)
    unfolding call_m put_args
    call ps proc xs r = call_m proc (put_args ps xs []) r
