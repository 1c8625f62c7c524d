-- ===== src/Fuse/Entries.antt =====
-- Adding and finding names through the handlers of fuse.cc.
use cse_yet_another_file_sys.Prelude.{
  ℕ, ◌+◌, ◌*◌, ◌^◌, ◌<◌, ◌≤◌, ◌≡◌, refl, ap, ◌∙◌, true, Option, none, some, Exec, done, List, [],
  ◌∷◌, ◌++◌, length, arith, update, update_self, update_ne, continue, inl, inr, Bool-cases,
}
use cse_yet_another_file_sys.Bytes.{Bytes}
use cse_yet_another_file_sys.Ids.{same_id}
use cse_yet_another_file_sys.Ids.Laws.{same_id_iff}
use cse_yet_another_file_sys.Manager.Calls.{Attr, t_dir, t_file}
use cse_yet_another_file_sys.Server.View.{File}
use cse_yet_another_file_sys.YfsClient.{YfsStatus, Extents, Yfs, acquired, released, find_entry}
use cse_yet_another_file_sys.YfsClient.Format.{Dirent, entry_size, max_filename_length}
use cse_yet_another_file_sys.YfsClient.Files.{IsFileStore}
use cse_yet_another_file_sys.YfsClient.Listing.{HasDir, HasDir-same, lookup-file}
use cse_yet_another_file_sys.YfsClient.Adding.{Adds, new_entry, empty_file, create-Adds, mkdir-Adds}
use cse_yet_another_file_sys.YfsClient.Refusing.{create-find_entry, mkdir-find_entry}
use cse_yet_another_file_sys.Fuse.{Stat, Entry, Reply, eexist, getattr}
use cse_yet_another_file_sys.Fuse.Handlers.{
  entry_of, fuseserver_createhelper, fuseserver_create, fuseserver_mknod, fuseserver_mkdir,
  fuseserver_lookup, lookup_reply,
}
use cse_yet_another_file_sys.Fuse.Attributes.{stat_of, mode_of, stat_mode, getattr-file}

-- A name that was absent is found as the entry at the end.
find_entry-append :
    (name : Bytes) (es : List Dirent) (i : ℕ)
    → find_entry name es ≡ none
    → find_entry name (es ++ (new_entry name i ∷ [])) ≡ some i
unfolding find_entry
find_entry-append name [] i h = rw ((same_id_iff name name).1 refl, find_entry)
find_entry-append name (e ∷ es) i h = elim (Bool-cases (same_id e.name name)) [
  | inl y ↦ let h' = rw (y, find_entry) at h in ground (arith, h')
  | inr n ↦ let h' = rw (n, find_entry) at h in rw (n, find_entry) (find_entry-append name es i h')
]

module _ {S : Type 0} {ext : Extents S} (st : IsFileStore ext) (y : Yfs S) (parent : ℕ)
    (name : Bytes) (es : List Dirent) (type : ℕ) (d : HasDir st y.extents parent es)
    (absent : find_entry name es ≡ none) where
  -- The new file, in the state after the call that adds it.
  there_after :
      {run : Exec (Yfs S) (YfsStatus × ℕ)} (a : Adds st y parent name es type run)
      → st.file a.after a.inum ≡ some (empty_file type)
  there_after a =
      ap (λ (m : ℕ → Option File). m a.inum) a.changed
      ∙ update_ne (update (st.file y.extents) a.inum (some (empty_file type))) parent a.inum _
          (λ e. ground (arith, d.there, ap (st.file y.extents) e, a.unused))
      ∙ update_self (st.file y.extents) a.inum _

  -- A lookup in a state with the files that the call left.
  finds :
      {run : Exec (Yfs S) (YfsStatus × ℕ)} (a : Adds st y parent name es type run) (z : Yfs S)
      → st.IsValid z.extents
      → st.file z.extents ≡ st.file a.after
      → (z' : Yfs S) × (attr : Attr) × (fuseserver_lookup ext parent name z
          ≡ done (Reply.reply_entry (entry_of a.inum (stat_of a.inum type attr)), z'))
        × (st.file z'.extents ≡ st.file z.extents)
  unfolding fuseserver_lookup lookup_reply
  finds a z valid same =
      let (t, found, kept, valid1) =
        lookup-file st z parent name (es ++ (new_entry name a.inum ∷ []))
          (HasDir-same valid same a.listing) in
      let z1 : Yfs S = record {
        extents = t;
        events = released parent ∷ acquired parent ∷ z.events;
      } in
      let there1 = ap (λ (m : ℕ → Option File). m a.inum) (kept ∙ same) ∙ there_after a in
      let (z2, attr, asked, kept2, _) = getattr-file st z1 a.inum (empty_file type) valid1 there1 in
      (
        z2,
        attr,
        rw (found, continue, find_entry-append name es a.inum absent, asked) refl,
        kept2 ∙ kept,
      )

  -- What a handler that adds the name comes to, and a lookup after it.
  pub record Enters (handler : Exec (Yfs S) Reply) (send : Entry → Reply) : Type 0 where
    pub entry : Entry
    pub after : Yfs S
    pub replied : handler y ≡ done (send entry, after)
    pub unused : st.file y.extents entry.ino ≡ none
    pub new : st.file after.extents entry.ino ≡ some (empty_file type)
    pub mode : entry.attr.st_mode ≡ mode_of type
    pub attr : Stat
    pub later : Yfs S
    pub found :
        fuseserver_lookup ext parent name after
        ≡ done (Reply.reply_entry (entry_of entry.ino attr), later)
    pub found_mode : attr.st_mode ≡ mode_of type
    pub kept : st.file later.extents ≡ st.file after.extents

  enters :
      (handler : Exec (Yfs S) Reply) (send : Entry → Reply) {run : Exec (Yfs S) (YfsStatus × ℕ)}
      (a : Adds st y parent name es type run)
      → ((z : Yfs S) (attr : Stat)
          → getattr ext a.inum
              (record { extents = a.after; events = released parent ∷ acquired parent ∷ y.events })
            ≡ done ((YfsStatus.ok, attr), z)
          → handler y ≡ done (send (entry_of a.inum attr), z))
      → Enters handler send
  enters handler send a replies =
      let z0 : Yfs S = record {
        extents = a.after;
        events = released parent ∷ acquired parent ∷ y.events;
      } in
      let (z, attr, asked, same, valid) =
        getattr-file st z0 a.inum (empty_file type) a.listing.valid (there_after a) in
      let (z', attr', found, kept) = finds a z valid same in
      record {
        entry = entry_of a.inum (stat_of a.inum type attr);
        after = z;
        replied = replies z (stat_of a.inum type attr) asked;
        unused = a.unused;
        new = ap (λ (m : ℕ → Option File). m a.inum) same ∙ there_after a;
        mode = stat_mode a.inum type attr;
        attr = stat_of a.inum type attr';
        later = z';
        found = found;
        found_mode = stat_mode a.inum type attr';
        kept = kept;
      }

module _ {S : Type 0} {ext : Extents S} (st : IsFileStore ext) (y : Yfs S) (stack : Bytes)
    (whole : length stack ≡ entry_size) (parent : ℕ) (name : Bytes) (es : List Dirent)
    (d : HasDir st y.extents parent es) (short : length name ≤ max_filename_length)
    (small : entry_size * (length es + 1) < 2 ^ 32) (old : ℕ)
    (absent : find_entry name es ≡ none) where
  -- A request to create a file of a name of at most 64 bytes that the directory does not have, in a directory that stays
  -- under 2 ^ 32 bytes, when the store has room for a file of type T_FILE, is answered with an entry: a number that no file
  -- had, the mode of a regular file, and there is now an empty file of that number. A lookup of the name after it
  -- finds that number with the same mode, and changes no file.
  pub fuseserver_create-Enters :
      st.has_room y.extents t_file ≡ true
      → Enters st y parent name es t_file d absent
          (fuseserver_create ext stack old parent name)
          Reply.reply_create
  unfolding fuseserver_create fuseserver_createhelper
  fuseserver_create-Enters room =
      let a = create-Adds st y stack whole parent name es d short small old absent room in
      enters st y parent name es t_file d absent (fuseserver_create ext stack old parent name)
        Reply.reply_create a (λ z attr asked. rw (a.result, continue, asked) refl)

  -- A request to make a directory of a name of at most 64 bytes that its parent does not have, in a parent that stays under
  -- 2 ^ 32 bytes, when the store has room for a file of type T_DIR, is answered with an entry: a number that no file
  -- had, the mode of a directory, and there is now an empty file of type T_DIR of that number. A lookup of the name after
  -- it finds that number with the same mode, and changes no file.
  pub fuseserver_mkdir-Enters :
      st.has_room y.extents t_dir ≡ true
      → Enters st y parent name es t_dir d absent
          (fuseserver_mkdir ext stack old parent name)
          Reply.reply_entry
  unfolding fuseserver_mkdir fuseserver_createhelper
  fuseserver_mkdir-Enters room =
      let a = mkdir-Adds st y stack whole parent name es d short small old absent room in
      enters st y parent name es t_dir d absent (fuseserver_mkdir ext stack old parent name)
        Reply.reply_entry a (λ z attr asked. rw (a.result, continue, asked) refl)

module _ {S : Type 0} {ext : Extents S} (st : IsFileStore ext) (y : Yfs S) (stack : Bytes)
    (parent : ℕ) (name : Bytes) (old i : ℕ) (es : List Dirent) (d : HasDir st y.extents parent es)
    (found : find_entry name es ≡ some i) where
  abbrev Refused : (Exec (Yfs S) Reply) → Type 0
  Refused handler =
      (z : Yfs S) × (handler y ≡ done (Reply.reply_err eexist, z))
      × (st.file z.extents ≡ st.file y.extents)

  -- A request to create or make a name that the directory has is answered with EEXIST, by each of the three
  -- handlers, and no file changes.
  pub fuseserver-find_entry :
      Refused (fuseserver_create ext stack old parent name)
      × Refused (fuseserver_mknod ext stack old parent name)
      × Refused (fuseserver_mkdir ext stack old parent name)
  unfolding fuseserver_create fuseserver_mknod fuseserver_mkdir fuseserver_createhelper
  fuseserver-find_entry =
      let (t, e, same) = create-find_entry st y stack parent name old i es d found in
      let (t', e', same') = mkdir-find_entry st y stack parent name old i es d found in
      let z : Yfs S = record {
        extents = t;
        events = released parent ∷ acquired parent ∷ y.events;
      } in
      let z' : Yfs S = record {
        extents = t';
        events = released parent ∷ acquired parent ∷ y.events;
      } in
      ((z, rw e refl, same), (z, rw e refl, same), (z', rw e' refl, same'))
