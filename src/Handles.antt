-- ===== src/Handles.antt =====
-- class handle and class handle_mgr of handle.h and handle.cc: reference-counted connections, one for a name. The
-- objects are in a heap by address, and one that was deleted is not there any more. A `rpcc` is a number; the
-- result of a bind, none where it fails, is an argument.
pub mod Users
pub mod Counted
pub mod Editing
pub mod Keeping
pub mod Safety
pub mod Tests
use cse_yet_another_file_sys.Prelude.{
  ℕ, ◌+◌, ◌-◌, ◌%◌, ◌^◌, Bool, true, false, ◌&&◌, ◌==◌, Option, none, some, Exec, done, fault,
  update, if◌then◌else◌,
}
use cse_yet_another_file_sys.Bytes.{Bytes}
use cse_yet_another_file_sys.Ids.{same_id}

-- `struct hinfo`. `refcnt` is an int; it is only counted and compared with 0.
pub record Hinfo : Type 0 where
  pub cl : Option ℕ
  pub refcnt : ℕ
  pub del : Bool
  pub m : Bytes

-- `hmap` and the objects that it points to. The next object is made at `fresh`.
pub record HandleMgr : Type 0 where
  pub hmap : Bytes → Option ℕ
  pub heap : ℕ → Option Hinfo
  pub fresh : ℕ

abbrev pub set_key : (Bytes → Option ℕ) → Bytes → Option ℕ → Bytes → Option ℕ
set_key f m v k = if same_id m k then v else f k

abbrev pub handle_mgr_init : HandleMgr
handle_mgr_init = record { hmap = λ m. none; heap = λ p. none; fresh = 1 }

unfoldable pub increment : ℕ → ℕ
increment n = (n + 1) % 2 ^ 32

unfoldable pub decrement : ℕ → ℕ
decrement n = (n + 2 ^ 32 - 1) % 2 ^ 32

-- The pointer is NULL where the name is about to be deleted.
unfoldable pub get_handle : Bytes → Exec HandleMgr (Option ℕ)
unfolding increment
get_handle m s = elim (s.hmap m) [
  | none ↦ done (
    some s.fresh,
    record {
      hmap = set_key s.hmap m (some s.fresh);
      heap = update s.heap s.fresh (some (record { cl = none; refcnt = 1; del = false; m = m }));
      fresh = s.fresh + 1;
    },
  )
  | some p ↦ elim (s.heap p) [
    | none ↦ fault
    | some h ↦
        if h.del
        then done (none, s)
        else done (
          some p,
          record s { heap = update s.heap p (some (record h { refcnt = increment h.refcnt })) },
        )
  ]
]

unfoldable pub delete_handle_wo : Bytes → Exec HandleMgr Unit
delete_handle_wo m s = elim (s.hmap m) [
  | none ↦ done (tt, s)
  | some p ↦ elim (s.heap p) [
    | none ↦ fault
    | some h ↦
        if h.refcnt == 0
        then done (tt, record s { hmap = set_key s.hmap m none; heap = update s.heap p none })
        else done (tt, record s { heap = update s.heap p (some (record h { del = true })) })
  ]
]

unfoldable pub delete_handle : Bytes → Exec HandleMgr Unit
unfolding delete_handle_wo
delete_handle m = delete_handle_wo m

unfoldable pub done_handle : ℕ → Exec HandleMgr Unit
unfolding decrement delete_handle_wo
done_handle p s = elim (s.heap p) [
  | none ↦ fault
  | some h ↦
      let n = decrement h.refcnt in
      let t = record s { heap = update s.heap p (some (record h { refcnt = n })) } in
      if (n == 0) && h.del then delete_handle_wo h.m t else done (tt, t)
]

-- `handle` has the pointer that `get_handle` gave; its destructor gives it back.
unfoldable pub destroy : Option ℕ → Exec HandleMgr Unit
unfolding done_handle
destroy none s = done (tt, s)
destroy (some p) s = done_handle p s

-- `bound` is what a new connection to the name comes to.
unfoldable pub safebind : Option ℕ → Option ℕ → Exec HandleMgr (Option ℕ)
safebind bound none s = done (none, s)
safebind bound (some p) s = elim (s.heap p) [
  | none ↦ fault
  | some h ↦ if h.del then done (none, s) else elim h.cl [
    | some cl ↦ done (some cl, s)
    | none ↦ elim bound [
      | none ↦ done (none, record s { heap = update s.heap p (some (record h { del = true })) })
      | some cl ↦
          done (some cl, record s { heap = update s.heap p (some (record h { cl = some cl })) })
    ]
  ]
]
