-- ===== src/YfsClient/Adding.antt =====
-- Adding a file or a directory with yfs_client.cc: the parent gets one more entry.
use cse_yet_another_file_sys.Prelude.{
  Bool, true, ℕ, ◌+◌, ◌*◌, ◌^◌, ◌<◌, ◌≤◌, ◌≡◌, ◌≢◌, refl, ap, sym, ◌∙◌, Option, none, some, List,
  [], ◌∷◌, ◌++◌, Exec, done, length, length-append, arith, update, update_self, update_ne,
}
use cse_yet_another_file_sys.Bytes.{Bytes}
use cse_yet_another_file_sys.Manager.Calls.{t_dir, t_file}
use cse_yet_another_file_sys.Server.{Status}
use cse_yet_another_file_sys.Server.View.{File}
use cse_yet_another_file_sys.YfsClient.{
  YfsStatus, Extents, Yfs, acquired, released, call, readdir_no_seria, lookup_no_seria, find_entry,
}
use cse_yet_another_file_sys.YfsClient.Changes.{create, mkdir, add_entry}
use cse_yet_another_file_sys.YfsClient.Format.{Dirent, entry_size, max_filename_length, write_entry}
use cse_yet_another_file_sys.YfsClient.Printing.{IsDirent, entry_bytes, write_entry_lem}
use cse_yet_another_file_sys.YfsClient.Dirs.{Represents-append}
use cse_yet_another_file_sys.YfsClient.Files.{IsFileStore}
use cse_yet_another_file_sys.YfsClient.Listing.{HasDir, listed}

abbrev pub new_entry : Bytes → ℕ → Dirent
new_entry name i = record { name = name; inum = i }

abbrev pub empty_file : ℕ → File
empty_file type = record { type = type; bytes = [] }

-- What `create` or `mkdir` comes to, with the result of the call as `run`.
pub record Adds {S : Type 0} {ext : Extents S} (st : IsFileStore ext) (y : Yfs S) (parent : ℕ)
    (name : Bytes) (es : List Dirent) (type : ℕ) (run : Exec (Yfs S) (YfsStatus × ℕ)) : Type 0 where
  pub inum : ℕ
  pub after : S
  pub bytes : Bytes
  pub result :
      run y
      ≡ done (
        (YfsStatus.ok, inum),
        record { extents = after; events = released parent ∷ acquired parent ∷ y.events },
      )
  pub unused : st.file y.extents inum ≡ none
  pub changed :
      st.file after
      ≡ update
          (update (st.file y.extents) inum (some (empty_file type)))
          parent
          (some (record { type = t_dir; bytes = bytes }))
  pub listing : HasDir st after parent (es ++ (new_entry name inum ∷ []))

create_run :
    {S : Type 0} (ext : Extents S) (y : Yfs S) (stack : Bytes) (parent : ℕ) (name : Bytes)
    (old i : ℕ) (es : List Dirent) (bytes entry : Bytes) (t1 t2 t3 t4 : S)
    → readdir_no_seria ext parent (record y { events = acquired parent ∷ y.events })
      ≡ done (es, record { extents = t1; events = acquired parent ∷ y.events })
    → find_entry name es ≡ none
    → ext.create t_file old t1 ≡ done ((Status.ok, i), t2)
    → ext.get parent t2 ≡ done ((Status.ok, bytes), t3)
    → ((z : Yfs S) → write_entry stack i name z ≡ done (entry, z))
    → ext.put parent (bytes ++ entry) t3 ≡ done (Status.ok, t4)
    → create ext stack parent name old y
      ≡ done (
        (YfsStatus.ok, i),
        record { extents = t4; events = released parent ∷ acquired parent ∷ y.events },
      )
unfolding create lookup_no_seria add_entry
create_run ext y stack parent name old i es bytes entry t1 t2 t3 t4 listing absent made got written
      put =
    rw
      (
        listing,
        absent,
        call,
        made,
        call,
        got,
        written (record { extents = t3; events = acquired parent ∷ y.events }),
        call,
        put,
      )
      refl

mkdir_run :
    {S : Type 0} (ext : Extents S) (y : Yfs S) (stack : Bytes) (parent : ℕ) (name : Bytes)
    (old i : ℕ) (es : List Dirent) (bytes entry : Bytes) (t1 t2 t3 t4 : S)
    → readdir_no_seria ext parent (record y { events = acquired parent ∷ y.events })
      ≡ done (es, record { extents = t1; events = acquired parent ∷ y.events })
    → find_entry name es ≡ none
    → ext.get parent t1 ≡ done ((Status.ok, bytes), t2)
    → ext.create t_dir old t2 ≡ done ((Status.ok, i), t3)
    → ((z : Yfs S) → write_entry stack i name z ≡ done (entry, z))
    → ext.put parent (bytes ++ entry) t3 ≡ done (Status.ok, t4)
    → mkdir ext stack parent name old y
      ≡ done (
        (YfsStatus.ok, i),
        record { extents = t4; events = released parent ∷ acquired parent ∷ y.events },
      )
unfolding mkdir lookup_no_seria add_entry
mkdir_run ext y stack parent name old i es bytes entry t1 t2 t3 t4 listing absent got made written
      put =
    rw
      (
        listing,
        absent,
        call,
        got,
        call,
        made,
        written (record { extents = t3; events = acquired parent ∷ y.events }),
        call,
        put,
      )
      refl

module _ {S : Type 0} {ext : Extents S} (st : IsFileStore ext) (y : Yfs S) (stack : Bytes)
    (whole : length stack ≡ entry_size) (parent : ℕ) (name : Bytes) (es : List Dirent)
    (d : HasDir st y.extents parent es) (short : length name ≤ max_filename_length)
    (small : entry_size * (length es + 1) < 2 ^ 32) where
  abbrev dir_file : Bytes → File
  dir_file bytes = record { type = t_dir; bytes = bytes }

  fits : (i : ℕ) → i < 2 ^ 64 → IsDirent (new_entry name i)
  fits i h = record { inum_fits = h; name_fits = short }

  abbrev entry : (i : ℕ) → i < 2 ^ 64 → Bytes
  entry i h = entry_bytes stack whole (new_entry name i) (fits i h)

  -- The parent is not the new file.
  apart : (i : ℕ) → st.file y.extents i ≡ none → i ≢ parent
  apart i unused e = absurd (ground (arith, d.there, ap (st.file y.extents) e, unused))

  there_still :
      (t : S) (i type : ℕ)
      → st.file y.extents i ≡ none
      → st.file t ≡ update (st.file y.extents) i (some (empty_file type))
      → st.file t parent ≡ some (dir_file d.bytes)
  there_still t i type unused e =
      ap (λ (m : ℕ → Option File). m parent) e
      ∙ update_ne (st.file y.extents) i parent _ (apart i unused)
      ∙ d.there

  -- The state after all calls, from what the calls did.
  adds :
      (type i : ℕ) (h : i < 2 ^ 64) (t3 t4 : S) (run : Exec (Yfs S) (YfsStatus × ℕ))
      → st.file y.extents i ≡ none
      → st.file t3 ≡ update (st.file y.extents) i (some (empty_file type))
      → st.file t4 ≡ update (st.file t3) parent (some (dir_file (d.bytes ++ entry i h)))
      → st.IsValid t4
      → run y
        ≡ done (
          (YfsStatus.ok, i),
          record { extents = t4; events = released parent ∷ acquired parent ∷ y.events },
        )
      → Adds st y parent name es type run
  adds type i h t3 t4 run unused made stored valid result = record {
    inum = i;
    after = t4;
    bytes = d.bytes ++ entry i h;
    result = result;
    unused = unused;
    changed =
        stored
        ∙ ap (λ (m : ℕ → Option File). update m parent (some (dir_file (d.bytes ++ entry i h))))
            made;
    listing = record {
      valid = valid;
      bytes = d.bytes ++ entry i h;
      there = ap (λ (m : ℕ → Option File). m parent) stored ∙ update_self (st.file t3) parent _;
      entries = Represents-append stack whole (new_entry name i) (fits i h) d.entries;
      small = omega (arith, length-append es (new_entry name i ∷ []));
    };
  }

  module _ (old : ℕ) (absent : find_entry name es ≡ none) where
    -- `create` of a name of at most 64 bytes that the directory does not have, in a directory that stays under
    -- 2 ^ 32 bytes, when the store has room for a file of type T_FILE: it answers OK with a
    -- number that no file had. There is now an empty file of type T_FILE, the directory has one more entry at
    -- its end, with the name and the number, no other file changes, and the lock of the directory is
    -- taken and given back.
    pub create-Adds :
        st.has_room y.extents t_file ≡ true
        → Adds st y parent name es t_file (create ext stack parent name old)
    create-Adds room =
        let locked : Yfs S = record y { events = acquired parent ∷ y.events } in
        let (t1, list, same1, valid1, ready1, kept1) = listed st locked parent es d in
        let room1 : st.has_room t1 t_file ≡ true = ap (λ (m : ℕ → Bool). m t_file) kept1 ∙ room in
        let (i, t2, made, h, unused1, new, valid2, ready2) =
          st.create_law t1 t_file old valid1 room1 in
        let unused : st.file y.extents i ≡ none =
          sym (ap (λ (m : ℕ → Option File). m i) same1) ∙ unused1 in
        let new0 =
          new ∙ ap (λ (m : ℕ → Option File). update m i (some (empty_file t_file))) same1 in
        let (t3, got, same3, valid3, ready3, room3) =
          st.get_law t2 parent (dir_file d.bytes) valid2 (there_still t2 i t_file unused new0) in
        let there3 = there_still t3 i t_file unused (same3 ∙ new0) in
        let (t4, put, stored, valid4) =
          st.put_law t3 parent (d.bytes ++ entry i h) (dir_file d.bytes) valid3 there3 ready3 in
        adds t_file i h t3 t4 (create ext stack parent name old) unused (same3 ∙ new0) stored valid4
          (create_run ext y stack parent name old i es d.bytes (entry i h) t1 t2 t3 t4 list absent
            made got (write_entry_lem stack whole (new_entry name i) (fits i h)) put)

    -- `mkdir` under the same conditions, with room for a file of type T_DIR, does the same with an empty file of that type.
    pub mkdir-Adds :
        st.has_room y.extents t_dir ≡ true
        → Adds st y parent name es t_dir (mkdir ext stack parent name old)
    mkdir-Adds room =
        let locked : Yfs S = record y { events = acquired parent ∷ y.events } in
        let (t1, list, same1, valid1, ready1, kept1) = listed st locked parent es d in
        let there1 = ap (λ (m : ℕ → Option File). m parent) same1 ∙ d.there in
        let (t2, got, same2, valid2, ready2, kept2) =
          st.get_law t1 parent (dir_file d.bytes) valid1 there1 in
        let same = same2 ∙ same1 in
        let room2 : st.has_room t2 t_dir ≡ true =
          ap (λ (m : ℕ → Bool). m t_dir) (kept2 ∙ kept1) ∙ room in
        let (i, t3, made, h, unused2, new, valid3, ready3) =
          st.create_law t2 t_dir old valid2 room2 in
        let unused : st.file y.extents i ≡ none =
          sym (ap (λ (m : ℕ → Option File). m i) same) ∙ unused2 in
        let new0 = new ∙ ap (λ (m : ℕ → Option File). update m i (some (empty_file t_dir))) same in
        let there3 = there_still t3 i t_dir unused new0 in
        let (t4, put, stored, valid4) =
          st.put_law t3 parent (d.bytes ++ entry i h) (dir_file d.bytes) valid3 there3
            (ready3 parent (apart i unused) ∙ ready2) in
        adds t_dir i h t3 t4 (mkdir ext stack parent name old) unused new0 stored valid4 (
          mkdir_run ext y stack parent name old i es d.bytes (entry i h) t1 t2 t3 t4 list absent got
            made (write_entry_lem stack whole (new_entry name i) (fits i h)) put)
