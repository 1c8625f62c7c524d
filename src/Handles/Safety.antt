-- ===== src/Handles/Safety.antt =====
-- The safety of handle.cc: the handles that are alive have objects that are there.
use cse_yet_another_file_sys.Prelude.{
  ℕ, ◌+◌, ◌<◌, ◌^◌, ◌≡◌, refl, ◌∙◌, true, Option, none, some, done, arith, length, update,
  update_self,
}
use cse_yet_another_file_sys.Bytes.{Bytes}
use cse_yet_another_file_sys.Ids.Laws.{same_id_refl}
use cse_yet_another_file_sys.Handles.{
  Hinfo, HandleMgr, set_key, get_handle, done_handle, delete_handle, delete_handle_wo, safebind,
  decrement,
}
use cse_yet_another_file_sys.Handles.Users.{
  count, remove_one, joined, Users, Step, makes, destroys, binds, deletes, Reach, begin, next,
}
use cse_yet_another_file_sys.Handles.Counted.{IsCounted, Counts-at}
use cse_yet_another_file_sys.Handles.Keeping.{
  Returns, Keeps-Returns, Keeps-IsCounted, delete_handle_wo-Keeps, get_handle-Keeps,
  done_handle-Keeps, safebind-Keeps,
}

Step-IsCounted : {s t : Users} → Step s t → IsCounted s.mgr s.alive → IsCounted t.mgr t.alive
unfolding delete_handle
Step-IsCounted {s} (makes m few e) c =
    Keeps-IsCounted (λ p. joined p s.alive) (get_handle m s.mgr)
      (get_handle-Keeps s.mgr s.alive c m few) e
Step-IsCounted {s} (destroys p used e) c =
    Keeps-IsCounted (λ u. remove_one p s.alive) (done_handle p s.mgr)
      (done_handle-Keeps s.mgr s.alive c p used) e
Step-IsCounted {s} (binds p bound used e) c =
    Keeps-IsCounted (λ cl. s.alive) (safebind bound (some p) s.mgr)
      (safebind-Keeps s.mgr s.alive c p used bound) e
Step-IsCounted {s} (deletes m e) c =
    Keeps-IsCounted (λ u. s.alive) (delete_handle_wo m s.mgr)
      (delete_handle_wo-Keeps s.mgr s.alive c m) e

Reach-IsCounted : {s : Users} → Reach s → IsCounted s.mgr s.alive
Reach-IsCounted begin = record { counts = λ p. refl; named = λ m. tt; few = omega arith }
Reach-IsCounted (next r step) = Step-IsCounted step (Reach-IsCounted r)

-- Whatever handles were made, used, destroyed and deleted before, in any order, no call uses an object that was
-- deleted: a handle that is alive is destroyed or bound and the call returns, and a handle is made for any name, or
-- any name deleted, and the call returns. There are fewer than 2 ^ 32 handles at a time.
pub no_use_after_free :
    {s : Users} (p : ℕ) (m : Bytes) (bound : Option ℕ)
    → Reach s
    → 0 < count p s.alive
    → length s.alive + 1 < 2 ^ 32
    → Returns (done_handle p s.mgr)
      × Returns (safebind bound (some p) s.mgr)
      × Returns (get_handle m s.mgr)
      × Returns (delete_handle m s.mgr)
unfolding delete_handle
no_use_after_free {s} p m bound r used few =
    let c = Reach-IsCounted r in
    (
      Keeps-Returns (λ u. remove_one p s.alive) (done_handle p s.mgr)
          (done_handle-Keeps s.mgr s.alive c p used),
      Keeps-Returns (λ cl. s.alive) (safebind bound (some p) s.mgr)
          (safebind-Keeps s.mgr s.alive c p used bound),
      Keeps-Returns (λ q. joined q s.alive) (get_handle m s.mgr)
          (get_handle-Keeps s.mgr s.alive c m few),
      Keeps-Returns (λ u. s.alive) (delete_handle_wo m s.mgr)
          (delete_handle_wo-Keeps s.mgr s.alive c m),
    )

-- Where the object of an address is marked as deleted and has one handle, the destruction of that handle deletes the
-- object and its name.
pub last_handle_frees :
    {s : Users} (p : ℕ) (h : Hinfo)
    → Reach s
    → s.mgr.heap p ≡ some h
    → h.del ≡ true
    → count p s.alive ≡ 1
    → (t : HandleMgr) × (done_handle p s.mgr ≡ done (tt, t))
      × (t.heap p ≡ none)
      × (t.hmap h.m ≡ none)
unfolding done_handle delete_handle_wo decrement
last_handle_frees {s} p h r there dead last =
    let (leads, counted, below) = Counts-at s.mgr s.alive p (some h) (Reach-IsCounted r) there in
    let gone : decrement h.refcnt ≡ 0 = rw (counted, last) refl in
    let u : HandleMgr = record (s.mgr) {
      heap = update s.mgr.heap p (some (record h { refcnt = decrement h.refcnt }));
    } in
    let here : u.heap p ≡ some (record h { refcnt = decrement h.refcnt }) =
      update_self s.mgr.heap p (some (record h { refcnt = decrement h.refcnt })) in
    let first : done_handle p s.mgr ≡ delete_handle_wo h.m u =
      rw (there, done_handle, gone, dead) refl in
    let second : delete_handle_wo h.m u
        ≡ done (tt, record u { hmap = set_key u.hmap h.m none; heap = update u.heap p none }) =
      rw (leads, delete_handle_wo, here, gone) refl in
    (
      record u { hmap = set_key u.hmap h.m none; heap = update u.heap p none },
      first ∙ second,
      update_self u.heap p none,
      rw (same_id_refl h.m) refl,
    )
