-- ===== src/Handles/Keeping.antt =====
-- Every call of handle.cc returns, where the objects count the handles that are alive, and they count them after it.
use cse_yet_another_file_sys.Prelude.{
  ℕ, ◌+◌, ◌<◌, ◌≤◌, ◌^◌, ◌≡◌, inl, inr, refl, sym, ◌∙◌, subst, ◌&&◌, ◌==◌, ==_iff, Bool-cases, true,
  false, Option, some, Option-cases, List, ◌∷◌, Outcome, done, exited, fault, arith, length, update,
}
use cse_yet_another_file_sys.Bytes.{Bytes}
use cse_yet_another_file_sys.Handles.{
  HandleMgr, get_handle, done_handle, delete_handle_wo, safebind, increment, decrement,
}
use cse_yet_another_file_sys.Handles.Users.{count, remove_one, joined}
use cse_yet_another_file_sys.Handles.Counted.{
  IsCounted, count-le, count-remove_one, length-remove_one, Counts-at, Named-at, there_of,
}
use cse_yet_another_file_sys.Handles.Editing.{edited, dropped, made}

-- A call returns, and the objects then count the handles that its result leaves alive.
abbrev pub Keeps : {A : Type 0} → (A → List ℕ) → Outcome (A × HandleMgr) → Type 0
Keeps after (done (a, t)) = IsCounted t (after a)
Keeps after exited = ⊥
Keeps after fault = ⊥

module _ (s : HandleMgr) (alive : List ℕ) (c : IsCounted s alive) where
  pub delete_handle_wo-Keeps : (m : Bytes) → Keeps (λ u. alive) (delete_handle_wo m s)
  unfolding delete_handle_wo
  delete_handle_wo-Keeps m = elim (Option-cases (s.hmap m)) [
    | inl e ↦ rw (e, delete_handle_wo, Keeps) c
    | inr (p, e) ↦
        let (h, there, name) = Named-at s alive m (some p) c e in
        let (leads, counted, below) = Counts-at s alive p (some h) c there in
        elim (Bool-cases (h.refcnt == 0)) [
          | inl y ↦
              rw (e, delete_handle_wo, Keeps, there, y)
                (dropped s alive c m p h e there name (sym counted ∙ (==_iff h.refcnt 0).0 y))
          | inr n ↦
              rw (e, delete_handle_wo, Keeps, there, n)
                (edited s alive c alive c.few p h there (λ j ne. refl) (record h { del = true })
                  refl counted)
        ]
  ]

module _ (s : HandleMgr) (alive : List ℕ) (c : IsCounted s alive) where
  pub get_handle-Keeps :
      (m : Bytes) → length alive + 1 < 2 ^ 32 → Keeps (λ p. joined p alive) (get_handle m s)
  unfolding get_handle increment
  get_handle-Keeps m few = elim (Option-cases (s.hmap m)) [
    | inl e ↦ rw (e, get_handle, Keeps) (made s alive c m e few)
    | inr (p, e) ↦
        let (h, there, name) = Named-at s alive m (some p) c e in
        let (leads, counted, below) = Counts-at s alive p (some h) c there in
        elim (Bool-cases h.del) [
          | inl y ↦ rw (e, get_handle, Keeps, there, y) c
          | inr n ↦
              let bound : count p alive ≤ length alive = count-le p alive in
              rw (e, get_handle, Keeps, there, n)
                (edited s alive c (p ∷ alive) (ground arith) p h there (λ j ne. ground arith)
                  (record h { refcnt = increment h.refcnt; del = false }) refl
                  (ground (arith, counted, bound)))
        ]
  ]

  module _ (p : ℕ) (used : 0 < count p alive) where
    pub done_handle-Keeps : Keeps (λ u. remove_one p alive) (done_handle p s)
    unfolding done_handle decrement
    done_handle-Keeps =
        let (h, there) = there_of s alive p c used in
        let (leads, counted, below) = Counts-at s alive p (some h) c there in
        let bound : count p alive ≤ length alive = count-le p alive in
        let fewer : length (remove_one p alive) ≤ length alive = length-remove_one p alive in
        let less : decrement h.refcnt ≡ count p (remove_one p alive) =
          ground (arith, count-remove_one p p alive, (==_iff p p).1 refl, counted, bound) in
        let t : HandleMgr = record s {
          heap = update s.heap p (some (record h { refcnt = decrement h.refcnt }));
        } in
        let ct : IsCounted t (remove_one p alive) =
          edited s alive c (remove_one p alive) (omega arith) p h there
            (λ j ne. ground (arith, count-remove_one p j alive))
            (record h { refcnt = decrement h.refcnt }) refl less in
        elim (Bool-cases ((decrement h.refcnt == 0) && h.del)) [
          | inl y ↦
              rw (there, done_handle, Keeps, y)
                (delete_handle_wo-Keeps t (remove_one p alive) ct h.m)
          | inr n ↦ rw (there, done_handle, Keeps, n) ct
        ]

    pub safebind-Keeps : (bound : Option ℕ) → Keeps (λ cl. alive) (safebind bound (some p) s)
    unfolding safebind
    safebind-Keeps bound =
        let (h, there) = there_of s alive p c used in
        let (leads, counted, below) = Counts-at s alive p (some h) c there in
        elim (Bool-cases h.del) [
          | inl y ↦ rw (there, safebind, Keeps, y) c
          | inr n ↦
              rw (there, safebind, Keeps, n)
                (elim (Option-cases h.cl) [
                  | inr (cl, k) ↦ rw k c
                  | inl k ↦ elim (Option-cases bound) [
                    | inl b ↦
                        rw (k, b)
                          (edited s alive c alive c.few p h there (λ j ne. refl)
                            (record h { del = true }) refl counted)
                    | inr (cl, b) ↦
                        rw (k, b)
                          (edited s alive c alive c.few p h there (λ j ne. refl)
                            (record h { cl = some cl }) refl counted)
                  ]
                ])
        ]

-- A call returns.
abbrev pub Returns : {A S : Type 0} → Outcome (A × S) → Type 0
Returns {A} {S} o = (a : A) × (t : S) × (o ≡ done (a, t))

pub Keeps-Returns :
    {A : Type 0} (after : A → List ℕ) (o : Outcome (A × HandleMgr)) → Keeps after o → Returns o
Keeps-Returns after (done (a, t)) k = (a, t, refl)
Keeps-Returns after exited k = elim k [ ]
Keeps-Returns after fault k = elim k [ ]

pub Keeps-IsCounted :
    {A : Type 0} (after : A → List ℕ) (o : Outcome (A × HandleMgr)) {a : A} {t : HandleMgr}
    → Keeps after o
    → o ≡ done (a, t)
    → IsCounted t (after a)
Keeps-IsCounted after o k e = subst (Keeps after) e k
