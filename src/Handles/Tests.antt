-- ===== src/Handles/Tests.antt =====
-- Runs of handle.cc, and the uses of its theorems at them.
use cse_yet_another_file_sys.Prelude.{
  ℕ, ◌≡◌, refl, true, false, Option, none, some, [], ◌∷◌, done, arith, update,
}
use cse_yet_another_file_sys.Bytes.{Bytes}
use cse_yet_another_file_sys.Ids.{same_id}
use cse_yet_another_file_sys.Handles.{
  Hinfo, HandleMgr, set_key, handle_mgr_init, get_handle, done_handle, delete_handle, safebind,
  destroy,
}
use cse_yet_another_file_sys.Handles.Users.{Step, Reach}
use cse_yet_another_file_sys.Handles.Keeping.{Returns}
use cse_yet_another_file_sys.Handles.Safety.{no_use_after_free, last_handle_frees}

-- A name, with an object of it that is not bound.
abbrev name : Bytes
name = 97 ∷ []

abbrev object : ℕ → HandleMgr → Option Hinfo → HandleMgr
object p s o = record s { heap = update s.heap p o }

abbrev one_handle : HandleMgr
one_handle = record {
  hmap = set_key handle_mgr_init.hmap name (some 1);
  heap =
      update handle_mgr_init.heap 1
        (some (record { cl = none; refcnt = 1; del = false; m = name }));
  fresh = 2;
}

abbrev two_handles : HandleMgr
two_handles = object 1 one_handle (some (record { cl = none; refcnt = 2; del = false; m = name }))

-- The bind fails, and the object is marked as deleted.
abbrev failed : HandleMgr
failed = object 1 two_handles (some (record { cl = none; refcnt = 2; del = true; m = name }))

abbrev leaving : HandleMgr
leaving = object 1 failed (some (record { cl = none; refcnt = 1; del = true; m = name }))

-- Now nobody gets the connection.
refused : get_handle name failed ≡ done (none, failed)
unfolding get_handle same_id
refused = refl

unbound : safebind (some 5) (some 1) failed ≡ done (none, failed)
unfolding safebind
unbound = refl

null_destroyed : destroy none failed ≡ done (tt, failed)
unfolding destroy
null_destroyed = refl

Reach-failed : Reach (record { mgr = failed; alive = 1 ∷ 1 ∷ [] })
unfolding get_handle safebind same_id
Reach-failed =
    Reach.next
      (Reach.next (Reach.next Reach.begin (Step.makes name (omega arith) refl))
        (Step.makes name (omega arith) refl))
      (Step.binds 1 none (omega arith) refl)

Reach-leaving : Reach (record { mgr = leaving; alive = 1 ∷ [] })
unfolding done_handle
Reach-leaving = Reach.next Reach-failed (Step.destroys 1 (omega arith) refl)

no_use_after_free_example :
    Returns (done_handle 1 failed)
    × Returns (safebind (some 5) (some 1) failed)
    × Returns (get_handle name failed)
    × Returns (delete_handle name failed)
no_use_after_free_example =
    no_use_after_free {s = record { mgr = failed; alive = 1 ∷ 1 ∷ [] }} 1 name (some 5) Reach-failed
      (omega arith) (omega arith)

last_handle_frees_example :
    (t : HandleMgr) × (done_handle 1 leaving ≡ done (tt, t))
    × (t.heap 1 ≡ none)
    × (t.hmap name ≡ none)
last_handle_frees_example =
    last_handle_frees {s = record { mgr = leaving; alive = 1 ∷ [] }} 1
      (record { cl = none; refcnt = 1; del = true; m = name }) Reach-leaving refl refl refl
