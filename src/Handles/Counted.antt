-- ===== src/Handles/Counted.antt =====
-- What holds of the manager of handle.cc and the handles that are alive: each object counts its handles.
use cse_yet_another_file_sys.Prelude.{
  ℕ, ◌-◌, ◌<◌, ◌≤◌, ◌^◌, ◌≡◌, inl, inr, subst, ◌==◌, Option, none, some, Option-cases, List, [],
  ◌∷◌, arith, if◌then◌else◌, length,
}
use cse_yet_another_file_sys.Bytes.{Bytes}
use cse_yet_another_file_sys.Handles.{Hinfo, HandleMgr}
use cse_yet_another_file_sys.Handles.Users.{count, remove_one}

-- One address: an object that is there has a name that leads to it and counts its handles; where none is there, no
-- handle has the address.
abbrev pub Counts : HandleMgr → List ℕ → ℕ → Option Hinfo → Type 0
Counts s alive p none = count p alive ≡ 0
Counts s alive p (some h) = (s.hmap h.m ≡ some p) × (h.refcnt ≡ count p alive) × (p < s.fresh)

-- A name leads to an object of that name.
abbrev pub Named : HandleMgr → Bytes → Option ℕ → Type 0
Named s m none = Unit
Named s m (some p) = (h : Hinfo) × (s.heap p ≡ some h) × (h.m ≡ m)

pub record IsCounted (s : HandleMgr) (alive : List ℕ) : Type 0 where
  pub counts : (p : ℕ) → Counts s alive p (s.heap p)
  pub named : (m : Bytes) → Named s m (s.hmap m)
  pub few : length alive < 2 ^ 32

pub count-le : (p : ℕ) (ps : List ℕ) → count p ps ≤ length ps
count-le p [] = omega arith
count-le p (q ∷ qs) = ground (arith, count-le p qs)

pub count-remove_one :
    (p j : ℕ) (ps : List ℕ) → count j (remove_one p ps) ≡ count j ps - (if p == j then 1 else 0)
count-remove_one p j [] = ground arith
count-remove_one p j (q ∷ qs) = ground (arith, count-remove_one p j qs)

pub length-remove_one : (p : ℕ) (ps : List ℕ) → length (remove_one p ps) ≤ length ps
length-remove_one p [] = omega arith
length-remove_one p (q ∷ qs) = ground (arith, length-remove_one p qs)

pub Counts-at :
    (s : HandleMgr) (alive : List ℕ) (p : ℕ) (o : Option Hinfo)
    → IsCounted s alive
    → s.heap p ≡ o
    → Counts s alive p o
Counts-at s alive p o h e = subst (Counts s alive p) e (h.counts p)

pub Named-at :
    (s : HandleMgr) (alive : List ℕ) (m : Bytes) (o : Option ℕ)
    → IsCounted s alive
    → s.hmap m ≡ o
    → Named s m o
Named-at s alive m o h e = subst (Named s m) e (h.named m)

-- The address of a handle that is alive has an object.
pub there_of :
    (s : HandleMgr) (alive : List ℕ) (p : ℕ)
    → IsCounted s alive
    → 0 < count p alive
    → (h : Hinfo) × (s.heap p ≡ some h)
there_of s alive p c used = elim (Option-cases (s.heap p)) [
  | inl e ↦ absurd (omega (arith, Counts-at s alive p none c e))
  | inr (h, e) ↦ (h, e)
]
