-- ===== src/YfsClient/Erasing.antt =====
-- Removing a file or a directory with yfs_client.cc: the parent loses the first entry with the name.
use cse_yet_another_file_sys.Prelude.{
  continue, All, Bool-cases, inl, inr, ℕ, ◌≡◌, ◌≢◌, refl, ap, ◌∙◌, subst, Option, none, some, List,
  [], ◌∷◌, ◌++◌, Exec, done, length, length-append, arith, update, update_self, update_ne,
}
use cse_yet_another_file_sys.Bytes.{Bytes}
use cse_yet_another_file_sys.Ids.{same_id}
use cse_yet_another_file_sys.Ids.Laws.{same_id_iff}
use cse_yet_another_file_sys.Manager.Calls.{t_dir}
use cse_yet_another_file_sys.Server.{Status}
use cse_yet_another_file_sys.Server.View.{File}
use cse_yet_another_file_sys.YfsClient.{
  YfsStatus, Extents, Yfs, acquired, released, call, readdir_no_seria, find_entry, erase_entry,
}
use cse_yet_another_file_sys.YfsClient.Changes.{rmdir, unlink}
use cse_yet_another_file_sys.YfsClient.Format.{Dirent, entry_size, write_entries}
use cse_yet_another_file_sys.YfsClient.Printing.{IsDirent}
use cse_yet_another_file_sys.YfsClient.Dirs.{Represents-IsDirent, write_entries_lem}
use cse_yet_another_file_sys.YfsClient.Files.{IsFileStore}
use cse_yet_another_file_sys.YfsClient.Listing.{HasDir, listed}

erase_entry-All :
    (name : Bytes) (es : List Dirent) → All IsDirent es → All IsDirent (erase_entry name es)
unfolding erase_entry
erase_entry-All name [] h = tt
erase_entry-All name (e ∷ es) h = elim (Bool-cases (same_id e.name name)) [
  | inl y ↦ rw (y, All) h.1
  | inr n ↦ rw (n, All) (h.0, erase_entry-All name es h.1)
]

-- The name is not that of any entry before.
abbrev pub IsAbsent : Bytes → List Dirent → Type 0
IsAbsent name es = All (λ (e : Dirent). e.name ≢ name) es

-- The first entry with the name is found and left out.
erase_entry_lem :
    (before rest : List Dirent) (e : Dirent)
    → IsAbsent e.name before
    → (find_entry e.name (before ++ (e ∷ rest)) ≡ some e.inum)
      × (erase_entry e.name (before ++ (e ∷ rest)) ≡ before ++ rest)
unfolding find_entry erase_entry
erase_entry_lem [] rest e h =
    let same = (same_id_iff e.name e.name).1 refl in
    (rw (same, find_entry) refl, rw (same, erase_entry) refl)
erase_entry_lem (d ∷ before) rest e h = elim (Bool-cases (same_id d.name e.name)) [
  | inl y ↦ absurd (h.0 ((same_id_iff d.name e.name).0 y))
  | inr n ↦
      let (found, left) = erase_entry_lem before rest e h.1 in
      (rw (n, find_entry) found, rw (n, erase_entry) (ap (λ (es : List Dirent). d ∷ es) left))
]

-- What `rmdir` comes to when it finds entry `i`, with the entries that are left.
pub record Erases {S : Type 0} {ext : Extents S} (st : IsFileStore ext) (y : Yfs S) (parent i : ℕ)
    (left : List Dirent) (run : Exec (Yfs S) YfsStatus) : Type 0 where
  pub after : S
  pub bytes : Bytes
  pub result :
      run y
      ≡ done (
        YfsStatus.ok,
        record { extents = after; events = released parent ∷ acquired parent ∷ y.events },
      )
  pub changed :
      st.file after
      ≡ update
          (update (st.file y.extents) i none)
          parent
          (some (record { type = t_dir; bytes = bytes }))
  pub listing : HasDir st after parent left

rmdir_run :
    {S : Type 0} (ext : Extents S) (y : Yfs S) (stack : ℕ → Bytes) (parent : ℕ) (name : Bytes)
    (i : ℕ) (es left : List Dirent) (buf : Bytes) (t1 t2 t3 : S)
    → readdir_no_seria ext parent (record y { events = acquired parent ∷ y.events })
      ≡ done (es, record { extents = t1; events = acquired parent ∷ y.events })
    → find_entry name es ≡ some i
    → erase_entry name es ≡ left
    → ext.remove i t1 ≡ done (Status.ok, t2)
    → ((z : Yfs S) → write_entries stack 0 left z ≡ done (buf, z))
    → ext.put parent buf t2 ≡ done (Status.ok, t3)
    → rmdir ext stack parent name y
      ≡ done (
        YfsStatus.ok,
        record { extents = t3; events = released parent ∷ acquired parent ∷ y.events },
      )
unfolding rmdir
rmdir_run ext y stack parent name i es left buf t1 t2 t3 listing found erased removed written put =
    rw
      (
        listing,
        continue,
        found,
        call,
        removed,
        erased,
        written (record { extents = t2; events = acquired parent ∷ y.events }),
        call,
        put,
      )
      refl

module _ {S : Type 0} {ext : Extents S} (st : IsFileStore ext) where
  -- `unlink` (which is `rmdir`) of a name that the directory has, in a directory of fewer than 2 ^ 32 bytes, where
  -- the first entry with the name is another file of the store: it answers OK; that file is gone, whatever its
  -- type, also a directory; the directory has the entries before and behind that entry, in their order,
  -- no other file changes, and the lock of the directory is taken and given back.
  pub rmdir-Erases :
      (y : Yfs S) (stack : ℕ → Bytes) (parent : ℕ) (before rest : List Dirent) (e : Dirent)
      (f : File)
      → HasDir st y.extents parent (before ++ (e ∷ rest))
      → ((k : ℕ) → length (stack k) ≡ entry_size)
      → IsAbsent e.name before
      → st.file y.extents e.inum ≡ some f
      → e.inum ≢ parent
      → Erases st y parent e.inum (before ++ rest) (unlink ext stack parent e.name)
  unfolding unlink
  rmdir-Erases y stack parent before rest e f d whole first file ne =
      let events = acquired parent ∷ y.events in
      let i = e.inum in
      let es = before ++ (e ∷ rest) in
      let (found, erased) = erase_entry_lem before rest e first in
      let (t1, list, same1, valid1, ready1, _) =
        listed st (record y { events = events }) parent es d in
      let (t2, removed, gone, valid2, ready2) =
        st.remove_law t1 i f valid1 (ap (λ (m : ℕ → Option File). m i) same1 ∙ file) in
      let (buf, written, r) =
        write_entries_lem {S = Yfs S} stack 0 (before ++ rest) whole (
          subst (All IsDirent) erased
            (erase_entry-All e.name es (Represents-IsDirent d.entries))) in
      let gone0 = gone ∙ ap (λ (m : ℕ → Option File). update m i none) same1 in
      let there2 : st.file t2 parent ≡ some (record { type = t_dir; bytes = d.bytes }) =
        ap (λ (m : ℕ → Option File). m parent) gone0
        ∙ update_ne (st.file y.extents) i parent none ne
        ∙ d.there in
      let (t3, put, stored, valid3) =
        st.put_law t2 parent buf (record { type = t_dir; bytes = d.bytes }) valid2 there2
          (ready2 parent ne ∙ ready1) in
      record {
        after = t3;
        bytes = buf;
        result =
            rmdir_run ext y stack parent e.name i es (before ++ rest) buf t1 t2 t3 list found erased
              removed written put;
        changed =
            stored
            ∙ ap
                (λ (m : ℕ → Option File).
                  update m parent (some (record { type = t_dir; bytes = buf })))
                gone0;
        listing = record {
          valid = valid3;
          bytes = buf;
          there = ap (λ (m : ℕ → Option File). m parent) stored ∙ update_self (st.file t2) parent _;
          entries = r;
          small =
              omega (arith, d.small, length-append before rest, length-append before (e ∷ rest));
        };
      }
