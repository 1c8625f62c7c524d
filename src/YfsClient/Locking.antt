-- ===== src/YfsClient/Locking.antt =====
-- Where yfs_client.cc keeps a lock: `symlink` with a name that the directory has.
use cse_yet_another_file_sys.Prelude.{ℕ, ◌≡◌, refl, ◌∙◌, some, List, ◌∷◌, done}
use cse_yet_another_file_sys.Bytes.{Bytes}
use cse_yet_another_file_sys.Manager.Calls.{t_dir}
use cse_yet_another_file_sys.Server.{Status}
use cse_yet_another_file_sys.YfsClient.{
  YfsStatus, Extents, Yfs, acquired, call, find_entry, readdir_no_seria, lookup_no_seria,
}
use cse_yet_another_file_sys.YfsClient.Changes.{symlink}
use cse_yet_another_file_sys.YfsClient.Format.{Dirent}
use cse_yet_another_file_sys.YfsClient.Files.{IsFileStore}
use cse_yet_another_file_sys.YfsClient.Listing.{HasDir, HasDir-same, listed}

exist_run :
    {S : Type 0} (ext : Extents S) (y : Yfs S) (stack : Bytes) (parent : ℕ) (name link : Bytes)
    (old i : ℕ) (es : List Dirent) (bytes : Bytes) (t1 t2 : S)
    → ext.get parent y.extents ≡ done ((Status.ok, bytes), t1)
    → readdir_no_seria ext parent (record { extents = t1; events = acquired parent ∷ y.events })
      ≡ done (es, record { extents = t2; events = acquired parent ∷ y.events })
    → find_entry name es ≡ some i
    → symlink ext stack parent name link old y
      ≡ done ((YfsStatus.exist, old), record { extents = t2; events = acquired parent ∷ y.events })
unfolding symlink lookup_no_seria
exist_run ext y stack parent name link old i es bytes t1 t2 got listing found =
    rw (call, got, listing, found) refl

-- `symlink` with a name that the directory has answers EXIST and changes no file, but its last event is that it
-- took the lock of the directory: it does not give it back.
pub symlink-find_entry :
    {S : Type 0} {ext : Extents S} (st : IsFileStore ext) (y : Yfs S) (stack : Bytes) (parent : ℕ)
    (name link : Bytes) (old i : ℕ) (es : List Dirent)
    → HasDir st y.extents parent es
    → find_entry name es ≡ some i
    → (t : S) × (symlink ext stack parent name link old y
        ≡ done
            ((YfsStatus.exist, old), record { extents = t; events = acquired parent ∷ y.events }))
      × (st.file t ≡ st.file y.extents)
symlink-find_entry st y stack parent name link old i es d found =
    let (t1, got, same1, valid1, _, _) =
      st.get_law y.extents parent (record { type = t_dir; bytes = d.bytes }) d.valid d.there in
    let d1 : HasDir st t1 parent es = HasDir-same valid1 same1 d in
    let (t2, listing, same2, _, _, _) =
      listed st (record { extents = t1; events = acquired parent ∷ y.events }) parent es d1 in
    (
      t2,
      exist_run _ y stack parent name link old i es d.bytes t1 t2 got listing found,
      same2 ∙ same1,
    )
