-- ===== src/Fuse/Keeping.antt =====
-- A call of yfs_client.cc from fuse.cc takes one lock and gives it back.
use cse_yet_another_file_sys.Prelude.{
  ℕ, Bool, true, false, List, [], ◌∷◌, ◌≡◌, arith, refl, Exec, done, pure, ◌>>=◌, bind_split,
  if◌then◌else◌,
}
use cse_yet_another_file_sys.Bytes.{Bytes}
use cse_yet_another_file_sys.YfsClient.{
  Extents, Yfs, LockEvent, acquired, released, isfile, isdir, getfile, setattr, readdir, lookup,
}
use cse_yet_another_file_sys.YfsClient.Events.{
  isfile-events, isdir-events, getfile-events, setattr-events, read-events, write-events,
  readlink-events,
}
use cse_yet_another_file_sys.YfsClient.Pairing.{
  readdir-events, lookup-events, create-events, mkdir-events, unlink-events,
}
use cse_yet_another_file_sys.YfsClient.Changes.{read, write, readlink, create, mkdir, unlink}
use cse_yet_another_file_sys.Fuse.{getattr}

-- Every lock but those still to come was given back before the next was taken.
abbrev pub IsPaired : List LockEvent → Type 0
IsPaired [] = Unit
IsPaired (acquired i ∷ events) = ⊥
IsPaired (released i ∷ []) = ⊥
IsPaired (released i ∷ released j ∷ events) = ⊥
IsPaired (released i ∷ acquired j ∷ events) = (i ≡ j) × IsPaired events

pub IsPaired-released :
    (i : ℕ) (before after : List LockEvent)
    → IsPaired before
    → after ≡ released i ∷ acquired i ∷ before
    → IsPaired after
IsPaired-released i before after h e = rw e (refl, h)

-- A call that keeps the events paired, if it returns.
pub record Keeps {S A : Type 0} (m : Exec (Yfs S) A) : Type 0 where
  pub at : (y z : Yfs S) (a : A) → m y ≡ done (a, z) → IsPaired y.events → IsPaired z.events

module _ {S A : Type 0} where
  pub Keeps-pure : (a : A) → Keeps {S = S} (pure a)
  Keeps-pure a = record { at = λ y z b e h. ground (arith, e, h) }

  pub Keeps-if : (b : Bool) (m n : Exec (Yfs S) A) → Keeps m → Keeps n → Keeps (if b then m else n)
  Keeps-if true m n km kn = km
  Keeps-if false m n km kn = kn

  -- A method that takes one lock and gives it back.
  pub Keeps-pair :
      (i : ℕ) (m : Exec (Yfs S) A)
      → ((y z : Yfs S) (a : A) → m y ≡ done (a, z) → z.events ≡ released i ∷ acquired i ∷ y.events)
      → Keeps m
  Keeps-pair i m pair = record {
    at = λ y z a e h. IsPaired-released i y.events z.events h (pair y z a e);
  }

pub Keeps-bind :
    {S A B : Type 0} (m : Exec (Yfs S) A) (f : A → Exec (Yfs S) B)
    → Keeps m
    → ((a : A) → Keeps (f a))
    → Keeps (m >>= f)
Keeps-bind m f km kf = record {
  at = λ y z b e h.
      let (a, s, got, rest) = bind_split (m y) f e in (kf a).at s z b rest (km.at y s a got h);
}

module _ {S : Type 0} (ext : Extents S) where
  pub isfile-Keeps : (i : ℕ) → Keeps (isfile ext i)
  isfile-Keeps i = Keeps-pair i (isfile ext i) (λ y z a e. isfile-events ext y z i a e)

  pub isdir-Keeps : (i : ℕ) → Keeps (isdir ext i)
  isdir-Keeps i = Keeps-pair i (isdir ext i) (λ y z a e. isdir-events ext y z i a e)

  pub getfile-Keeps : (i : ℕ) → Keeps (getfile ext i)
  getfile-Keeps i = Keeps-pair i (getfile ext i) (λ y z a e. getfile-events ext y z i a e)

  pub getattr-Keeps : (i : ℕ) → Keeps (getattr ext i)
  unfolding getattr
  getattr-Keeps i =
      search (Keeps-pure, Keeps-if, Keeps-bind, isfile-Keeps, isdir-Keeps, getfile-Keeps) depth 14

  pub setattr-Keeps : (i size : ℕ) → Keeps (setattr ext i size)
  setattr-Keeps i size =
      Keeps-pair i (setattr ext i size) (λ y z a e. setattr-events ext y z i size a e)

  pub read-Keeps : (i size off : ℕ) → Keeps (read ext i size off)
  read-Keeps i size off =
      Keeps-pair i (read ext i size off) (λ y z a e. read-events ext y z i size off a e)

  pub write-Keeps : (i size off : ℕ) (bytes : Bytes) → Keeps (write ext i size off bytes)
  write-Keeps i size off bytes =
      Keeps-pair i (write ext i size off bytes)
        (λ y z a e. write-events ext y z i size off bytes a e)

  pub readlink-Keeps : (i : ℕ) → Keeps (readlink ext i)
  readlink-Keeps i = Keeps-pair i (readlink ext i) (λ y z a e. readlink-events ext y z i a e)

  pub readdir-Keeps : (i : ℕ) → Keeps (readdir ext i)
  readdir-Keeps i = Keeps-pair i (readdir ext i) (λ y z a e. readdir-events ext y z i a e)

  pub lookup-Keeps : (i : ℕ) (name : Bytes) → Keeps (lookup ext i name)
  lookup-Keeps i name =
      Keeps-pair i (lookup ext i name) (λ y z a e. lookup-events ext y z i name a e)

  pub create-Keeps :
      (stack : Bytes) (i : ℕ) (name : Bytes) (old : ℕ) → Keeps (create ext stack i name old)
  create-Keeps stack i name old =
      Keeps-pair i (create ext stack i name old)
        (λ y z a e. create-events ext y z stack i name old a e)

  pub mkdir-Keeps :
      (stack : Bytes) (i : ℕ) (name : Bytes) (old : ℕ) → Keeps (mkdir ext stack i name old)
  mkdir-Keeps stack i name old =
      Keeps-pair i (mkdir ext stack i name old)
        (λ y z a e. mkdir-events ext y z stack i name old a e)

  pub unlink-Keeps : (stack : ℕ → Bytes) (i : ℕ) (name : Bytes) → Keeps (unlink ext stack i name)
  unlink-Keeps stack i name =
      Keeps-pair i (unlink ext stack i name) (λ y z a e. unlink-events ext y z stack i name a e)

pub ruleset keeps = (
  Keeps-pure, Keeps-if, Keeps-bind, isdir-Keeps, getattr-Keeps, setattr-Keeps, read-Keeps,
  write-Keeps, readlink-Keeps, readdir-Keeps, lookup-Keeps, create-Keeps, mkdir-Keeps, unlink-Keeps,
)
