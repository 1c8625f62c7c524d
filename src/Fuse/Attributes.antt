-- ===== src/Fuse/Attributes.antt =====
-- The attributes that fuse.cc answers for a file of the store.
use cse_yet_another_file_sys.Prelude.{
  ℕ, ◌==◌, ◌≡◌, refl, ap, ◌∙◌, Bool, true, false, Option, some, done, ◌+◌, ◌∷◌, if◌then◌else◌,
  arith,
}
use cse_yet_another_file_sys.Manager.Calls.{Attr, t_dir, t_file}
use cse_yet_another_file_sys.Server.{Status}
use cse_yet_another_file_sys.Server.View.{File}
use cse_yet_another_file_sys.YfsClient.{
  YfsStatus, Extents, Yfs, acquired, released, call, has_type, isfile, isdir, getfile, getdir,
}
use cse_yet_another_file_sys.YfsClient.Files.{IsFileStore}
use cse_yet_another_file_sys.Fuse.{Stat, Reply, file_stat, dir_stat, getattr}
use cse_yet_another_file_sys.Fuse.Handlers.{fuseserver_getattr}

-- The attributes of a file of the type.
abbrev pub stat_of : ℕ → ℕ → Attr → Stat
stat_of i type a =
    if type == t_file then file_stat i a else dir_stat i a (type == t_dir) (type == t_dir)

-- The format and the permissions of a type of the extent protocol.
abbrev pub mode_of : ℕ → ℕ
mode_of type =
    if type == t_file
    then 0x8000 + 0x1B6
    else if type == t_dir
    then 0x4000 + 0x1FF
    else 0xA000 + 0x1FF

stat_ino : (i type : ℕ) (a : Attr) → (stat_of i type a).st_ino ≡ i
stat_ino i type a = ground arith

pub stat_mode : (i type : ℕ) (a : Attr) → (stat_of i type a).st_mode ≡ mode_of type
stat_mode i type a = ground arith

stat_nlink :
    (i type : ℕ) (a : Attr) → (stat_of i type a).st_nlink ≡ (if type == t_dir then 2 else 1)
stat_nlink i type a = ground arith

-- The state after a method that asked for the attributes.
abbrev asked : {S : Type 0} → ℕ → S → Yfs S → Yfs S
asked i t y = record { extents = t; events = released i ∷ acquired i ∷ y.events }

has_type_run :
    {S : Type 0} (ext : Extents S) (y : Yfs S) (type i : ℕ) (a : Attr) (t : S) (b : Bool)
    → ext.getattr i y.extents ≡ done ((Status.ok, a), t)
    → (a.type == type) ≡ b
    → has_type ext type i y ≡ done (b, asked i t y)
unfolding has_type
has_type_run ext y type i a t b got e = rw (call, got, e) refl

getfile_run :
    {S : Type 0} (ext : Extents S) (y : Yfs S) (i : ℕ) (a : Attr) (t : S)
    → ext.getattr i y.extents ≡ done ((Status.ok, a), t)
    → getfile ext i y ≡ done ((YfsStatus.ok, a), asked i t y)
unfolding getfile
getfile_run ext y i a t got = rw (call, got) refl

getdir_run :
    {S : Type 0} (ext : Extents S) (y : Yfs S) (i : ℕ) (a : Attr) (t : S)
    → ext.getattr i y.extents ≡ done ((Status.ok, a), t)
    → getdir ext i y ≡ done ((YfsStatus.ok, a), asked i t y)
unfolding getdir
getdir_run ext y i a t got = rw (call, got) refl

-- The whole call, from what its parts do.
getattr_run :
    {S : Type 0} (ext : Extents S) (i : ℕ) (y y1 y2 y3 y4 y5 : Yfs S) (a : Attr) (b d : Bool)
    → isfile ext i y ≡ done (b, y1)
    → isfile ext i y1 ≡ done (b, y2)
    → getfile ext i y2 ≡ done ((YfsStatus.ok, a), y3)
    → getdir ext i y2 ≡ done ((YfsStatus.ok, a), y3)
    → isdir ext i y3 ≡ done (d, y4)
    → isdir ext i y4 ≡ done (d, y5)
    → getattr ext i y
      ≡ done ((YfsStatus.ok, if b then file_stat i a else dir_stat i a d d), if b then y3 else y5)
unfolding getattr
getattr_run ext i y y1 y2 y3 y4 y5 a true d e1 e2 e3 e4 e5 e6 = rw (e1, e2, e3) refl
getattr_run ext i y y1 y2 y3 y4 y5 a false d e1 e2 e3 e4 e5 e6 = rw (e1, e2, e4, e5, e6) refl

module _ {S : Type 0} {ext : Extents S} (st : IsFileStore ext) where
  pub has_type-file :
      (y : Yfs S) (type i : ℕ) (f : File)
      → st.IsValid y.extents
      → st.file y.extents i ≡ some f
      → (z : Yfs S) × (has_type ext type i y ≡ done (f.type == type, z))
        × (st.file z.extents ≡ st.file y.extents)
        × st.IsValid z.extents
  has_type-file y type i f valid there =
      let (t, a, got, typed, same, valid1, _, _) = st.getattr_law y.extents i f valid there in
      (asked i t y, has_type_run ext y type i a t _ got (ap (λ k. k == type) typed), same, valid1)

  -- `getattr` of a file of the store answers OK with the mode of its type, and changes no file.
  pub getattr-file :
      (y : Yfs S) (i : ℕ) (f : File)
      → st.IsValid y.extents
      → st.file y.extents i ≡ some f
      → (z : Yfs S) × (a : Attr) × (getattr ext i y ≡ done ((YfsStatus.ok, stat_of i f.type a), z))
        × (st.file z.extents ≡ st.file y.extents)
        × st.IsValid z.extents
  unfolding isfile isdir
  getattr-file y i f valid there =
      let (y1, e1, same1, valid1) = has_type-file y t_file i f valid there in
      let there1 = ap (λ (m : ℕ → Option File). m i) same1 ∙ there in
      let (y2, e2, same2, valid2) = has_type-file y1 t_file i f valid1 there1 in
      let there2 = ap (λ (m : ℕ → Option File). m i) same2 ∙ there1 in
      let (t, a, got, typed, same, valid3, _, _) = st.getattr_law y2.extents i f valid2 there2 in
      let y3 = asked i t y2 in
      let same3 = same ∙ same2 ∙ same1 in
      let there3 = ap (λ (m : ℕ → Option File). m i) same ∙ there2 in
      let (y4, e4, same4, valid4) = has_type-file y3 t_dir i f valid3 there3 in
      let there4 = ap (λ (m : ℕ → Option File). m i) same4 ∙ there3 in
      let (y5, e5, same5, valid5) = has_type-file y4 t_dir i f valid4 there4 in
      (
        (if f.type == t_file then y3 else y5),
        a,
        getattr_run ext i y y1 y2 y3 y4 y5 a (f.type == t_file) (f.type == t_dir) e1 e2
            (getfile_run ext y2 i a t got) (getdir_run ext y2 i a t got) e4 e5,
        if_same (f.type == t_file) y3 y5 same3 (same5 ∙ same4 ∙ same3),
        if_valid (f.type == t_file) y3 y5 valid3 valid5,
      )
    where
      if_same :
          (b : Bool) (u v : Yfs S)
          → st.file u.extents ≡ st.file y.extents
          → st.file v.extents ≡ st.file y.extents
          → st.file (if b then u else v).extents ≡ st.file y.extents
      if_same true u v p q = p
      if_same false u v p q = q

      if_valid :
          (b : Bool) (u v : Yfs S)
          → st.IsValid u.extents
          → st.IsValid v.extents
          → st.IsValid (if b then u else v).extents
      if_valid true u v p q = p
      if_valid false u v p q = q

  -- A request for the attributes of a file of the store is answered with its number, the mode of its type
  -- (regular, directory or link, with the permissions 0666, 0777, 0777), and 2 links for a directory, 1
  -- otherwise; no file changes.
  pub fuseserver_getattr-file :
      (y : Yfs S) (i : ℕ) (f : File)
      → st.IsValid y.extents
      → st.file y.extents i ≡ some f
      → (z : Yfs S) × (s : Stat) × (fuseserver_getattr ext i y ≡ done (Reply.reply_attr s, z))
        × (s.st_ino ≡ i)
        × (s.st_mode ≡ mode_of f.type)
        × (s.st_nlink ≡ (if f.type == t_dir then 2 else 1))
        × (st.file z.extents ≡ st.file y.extents)
        × st.IsValid z.extents
  unfolding fuseserver_getattr
  fuseserver_getattr-file y i f valid there =
      let (z, a, e, same, valid') = getattr-file y i f valid there in
      (
        z,
        stat_of i f.type a,
        rw e refl,
        stat_ino i f.type a,
        stat_mode i f.type a,
        stat_nlink i f.type a,
        same,
        valid',
      )
