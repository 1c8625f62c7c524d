-- ===== src/Handles/Users.antt =====
-- The program's handles of handle.cc over time: they are made, used and destroyed in any order, and connections are
-- deleted by name.
use cse_yet_another_file_sys.Prelude.{
  ℕ, ◌+◌, ◌<◌, ◌^◌, ◌≡◌, ◌==◌, Option, none, some, List, [], ◌∷◌, done, if◌then◌else◌, length,
}
use cse_yet_another_file_sys.Bytes.{Bytes}
use cse_yet_another_file_sys.Handles.{
  HandleMgr, handle_mgr_init, get_handle, done_handle, delete_handle, safebind,
}

abbrev pub count : ℕ → List ℕ → ℕ
count p [] = 0
count p (q ∷ qs) = (if q == p then 1 else 0) + count p qs

-- A list without one occurrence.
abbrev pub remove_one : ℕ → List ℕ → List ℕ
remove_one p [] = []
remove_one p (q ∷ qs) = let rest = remove_one p qs in if q == p then qs else q ∷ rest

abbrev pub joined : Option ℕ → List ℕ → List ℕ
joined none ps = ps
joined (some p) ps = p ∷ ps

-- The manager, with the pointers of the handles that are alive and not NULL.
pub record Users : Type 0 where
  pub mgr : HandleMgr
  pub alive : List ℕ

-- There are fewer than 2 ^ 32 handles at a time.
pub data Step (s : Users) : Users → Type 0 where
  makes :
      (m : Bytes) {p : Option ℕ} {t : HandleMgr}
      → length s.alive + 1 < 2 ^ 32
      → get_handle m s.mgr ≡ done (p, t)
      → Step s (record { mgr = t; alive = joined p s.alive })
  destroys :
      (p : ℕ) {t : HandleMgr}
      → 0 < count p s.alive
      → done_handle p s.mgr ≡ done (tt, t)
      → Step s (record { mgr = t; alive = remove_one p s.alive })
  binds :
      (p : ℕ) (bound : Option ℕ) {cl : Option ℕ} {t : HandleMgr}
      → 0 < count p s.alive
      → safebind bound (some p) s.mgr ≡ done (cl, t)
      → Step s (record { mgr = t; alive = s.alive })
  deletes :
      (m : Bytes) {t : HandleMgr}
      → delete_handle m s.mgr ≡ done (tt, t)
      → Step s (record { mgr = t; alive = s.alive })

abbrev pub start : Users
start = record { mgr = handle_mgr_init; alive = [] }

pub data Reach : Users → Type 0 where
  begin : Reach start
  next : {s t : Users} → Reach s → Step s t → Reach t
