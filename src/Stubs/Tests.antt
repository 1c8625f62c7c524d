-- ===== src/Stubs/Tests.antt =====
-- The theorems on rpc/rpc.h at a library that brings each request to the extent server at once.
use cse_yet_another_file_sys.Prelude.{
  ℕ, ◌+◌, ◌≡◌, refl, ap, sym, done_injective, none, some, [], done, fault, Exec, pure, ◌>>=◌,
  if◌then◌else◌, arith,
}
use cse_yet_another_file_sys.Bytes.{Bytes}
use cse_yet_another_file_sys.Disk.{BlockManager}
use cse_yet_another_file_sys.Manager.{Clock}
use cse_yet_another_file_sys.Manager.Calls.{Attr}
use cse_yet_another_file_sys.Server.Sample.{
  zeros, zeros-IsInode, clock, fresh, fresh-IsSound, root, hi, fresh_room,
}
use cse_yet_another_file_sys.Server.Start.{view-root}
use cse_yet_another_file_sys.Marshall.{Unmarshall}
use cse_yet_another_file_sys.Marshall.Sample.{okdone, wire, read_number_lem}
use cse_yet_another_file_sys.Stubs.{Params, Args, fn, call, is_negative}
use cse_yet_another_file_sys.Stubs.Carried.{carried, call-meth}
use cse_yet_another_file_sys.Stubs.Extents.{extent_procs, int_codec}
use cse_yet_another_file_sys.Stubs.Remote.{remote_put, remote_get, remote_get-remote_put}

abbrev at_once : Clock → ℕ → Bytes → Exec BlockManager (ℕ × Unmarshall)
at_once now proc req s = elim (extent_procs wire 7 now okdone proc) [
  | none ↦ fault
  | some h ↦ carried h req s
]

remote_get-remote_put_example :
    (t : BlockManager) × (u : BlockManager) × (a : Attr) × (remote_put wire 7 okdone at_once clock 1
        hi 0 fresh
      ≡ done ((0, 7), t))
    × (remote_get wire 7 okdone at_once clock 1
          (record {
            attr = record { type = 0; atime = 0; mtime = 0; ctime = 0; size = 0 };
            buf = [];
          })
          t
        ≡ done ((0, record { attr = a; buf = hi }), u))
    × (a.size ≡ 2)
remote_get-remote_put_example =
    remote_get-remote_put wire 7 okdone at_once refl (λ now proc h e req s. rw (e, at_once) refl) 1
      hi clock clock root 0
      (record { attr = record { type = 0; atime = 0; mtime = 0; ctime = 0; size = 0 }; buf = [] })
      fresh-IsSound (view-root zeros clock zeros-IsInode) (omega arith) (omega arith) (omega arith)
      (omega arith) fresh_room

-- A method that counts its calls, and gives its two arguments' sum.
abbrev two_numbers : Params
two_numbers = Params.param ℕ (int_codec wire 7) (Params.param ℕ (int_codec wire 7) Params.no_more)

abbrev add : Args two_numbers → ℕ → Exec ℕ (ℕ × ℕ)
add (a, (b, xs)) r calls = done ((0, a + b), calls + 1)

abbrev to_add : ℕ → Bytes → Exec ℕ (ℕ × Unmarshall)
to_add proc req = carried (fn okdone (int_codec wire 7) two_numbers add) req

call-meth_example :
    call okdone (int_codec wire 7) to_add two_numbers 9 (2, (3, tt)) 0 4
    ≡ (add (2, (3, tt)) 7 >>= λ b. pure (b.0, if is_negative b.0 then 0 else b.1)) 4
call-meth_example =
    call-meth okdone refl (int_codec wire 7) two_numbers add to_add 9 (λ req s. refl) (2, (3, tt))
      (
        (λ old rest. read_number_lem 4 2 rest (omega arith)),
        ((λ old rest. read_number_lem 4 3 rest (omega arith)), tt),
      )
      0 4
      (λ b t e old rest.
        let sum : b.1 ≡ 5 = ap (λ p. p.0.1) (done_injective (sym e)) in
        read_number_lem 4 b.1 rest (omega (arith, sum)))
