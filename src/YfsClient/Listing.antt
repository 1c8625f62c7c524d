-- ===== src/YfsClient/Listing.antt =====
-- Reading a directory with yfs_client.cc.
use cse_yet_another_file_sys.Prelude.{
  true, ℕ, ◌*◌, ◌^◌, ◌<◌, ◌≡◌, refl, ap, ◌∙◌, Option, some, List, ◌∷◌, Exec, done, length, ==_iff,
}
use cse_yet_another_file_sys.Bytes.{Bytes}
use cse_yet_another_file_sys.Manager.Calls.{Attr, t_dir}
use cse_yet_another_file_sys.Server.{Status}
use cse_yet_another_file_sys.Server.View.{File}
use cse_yet_another_file_sys.YfsClient.{
  YfsStatus, Extents, Yfs, acquired, released, call, readdir_no_seria, readdir, lookup,
  lookup_no_seria, find_entry,
}
use cse_yet_another_file_sys.YfsClient.Format.{Dirent, entry_size}
use cse_yet_another_file_sys.YfsClient.Dirs.{Represents, read_entries_lem, entry_count}
use cse_yet_another_file_sys.YfsClient.Files.{IsFileStore}

-- File `dir` of the store is a directory with the entries.
pub record HasDir {S : Type 0} {ext : Extents S} (st : IsFileStore ext) (s : S) (dir : ℕ)
    (es : List Dirent) : Type 0 where
  pub valid : st.IsValid s
  pub bytes : Bytes
  pub there : st.file s dir ≡ some (record { type = t_dir; bytes = bytes })
  pub entries : Represents bytes es
  pub small : entry_size * length es < 2 ^ 32

-- A directory is still one where the files are the same.
pub HasDir-same :
    {S : Type 0} {ext : Extents S} {st : IsFileStore ext} {s t : S} {dir : ℕ} {es : List Dirent}
    → st.IsValid t
    → st.file t ≡ st.file s
    → HasDir st s dir es
    → HasDir st t dir es
HasDir-same {dir} valid same d = record {
  valid = valid;
  bytes = d.bytes;
  there = ap (λ (m : ℕ → Option File). m dir) same ∙ d.there;
  entries = d.entries;
  small = d.small;
}

-- A call to the extent client leaves the events.
pub call_done :
    {S A : Type 0} (m : Exec S A) (y : Yfs S) {a : A} {t : S}
    → m y.extents ≡ done (a, t)
    → call m y ≡ done (a, record y { extents = t })
call_done m y e = rw (e, call) refl

listed_run :
    {S : Type 0} (ext : Extents S) (y : Yfs S) (dir : ℕ) (bytes : Bytes) (es : List Dirent)
    (a : Attr) (t1 t2 : S)
    → Represents bytes es
    → entry_size * length es < 2 ^ 32
    → ext.get dir y.extents ≡ done ((Status.ok, bytes), t1)
    → ext.getattr dir t1 ≡ done ((Status.ok, a), t2)
    → a.type ≡ t_dir
    → readdir_no_seria ext dir y ≡ done (es, record y { extents = t2 })
unfolding readdir_no_seria
listed_run ext y dir bytes es a t1 t2 r small got got2 typed =
    rw (call, got, call, got2, (==_iff a.type t_dir).1 typed, entry_count r small)
      (read_entries_lem r (record y { extents = t2 }))

module _ {S : Type 0} {ext : Extents S} (st : IsFileStore ext) where
  -- `readdir_no_seria` gives the entries.
  pub listed :
      (y : Yfs S) (dir : ℕ) (es : List Dirent)
      → HasDir st y.extents dir es
      → (t : S) × (readdir_no_seria ext dir y ≡ done (es, record y { extents = t }))
        × (st.file t ≡ st.file y.extents)
        × st.IsValid t
        × (st.ready t dir ≡ true)
        × (st.has_room t ≡ st.has_room y.extents)
  unfolding readdir_no_seria
  listed y dir es d =
      let (t1, got, same1, valid1, _, room1) = st.get_law y.extents dir _ d.valid d.there in
      let there1 = ap (λ (m : ℕ → Option File). m dir) same1 ∙ d.there in
      let (t2, a, got2, typed, same2, valid2, ready, room2) =
        st.getattr_law t1 dir _ valid1 there1 in
      (
        t2,
        listed_run ext y dir d.bytes es a t1 t2 d.entries d.small got got2 typed,
        same2 ∙ same1,
        valid2,
        ready,
        room2 ∙ room1,
      )

  -- `lookup` in a directory of fewer than 2 ^ 32 bytes answers OK with the number of the first entry that has
  -- the name, if any; no file changes, and the lock of the directory is taken and given back.
  pub lookup-file :
      (y : Yfs S) (dir : ℕ) (name : Bytes) (es : List Dirent)
      → HasDir st y.extents dir es
      → (t : S) × (lookup ext dir name y
          ≡ done (
            (YfsStatus.ok, find_entry name es),
            record { extents = t; events = released dir ∷ acquired dir ∷ y.events },
          ))
        × (st.file t ≡ st.file y.extents)
        × st.IsValid t
  unfolding lookup lookup_no_seria
  lookup-file y dir name es d =
      let locked : Yfs S = record y { events = acquired dir ∷ y.events } in
      let (t, got, same, valid, _, _) = listed locked dir es d in (t, rw got refl, same, valid)

  -- `readdir` of such a directory answers OK with its entries in their order; no file changes, and the lock of
  -- the directory is taken and given back.
  pub readdir-file :
      (y : Yfs S) (dir : ℕ) (es : List Dirent)
      → HasDir st y.extents dir es
      → (t : S) × (readdir ext dir y
          ≡ done (
            (YfsStatus.ok, es),
            record { extents = t; events = released dir ∷ acquired dir ∷ y.events },
          ))
        × (st.file t ≡ st.file y.extents)
        × st.IsValid t
  unfolding readdir
  readdir-file y dir es d =
      let locked : Yfs S = record y { events = acquired dir ∷ y.events } in
      let (t, got, same, valid, _, _) = listed locked dir es d in (t, rw got refl, same, valid)
