-- ===== src/YfsClient/Refusing.antt =====
-- Adding a name that the directory has with yfs_client.cc.
use cse_yet_another_file_sys.Prelude.{ℕ, ◌≡◌, refl, some, List, ◌∷◌, done, continue}
use cse_yet_another_file_sys.Bytes.{Bytes}
use cse_yet_another_file_sys.YfsClient.{
  YfsStatus, Extents, Yfs, acquired, released, find_entry, lookup_no_seria,
}
use cse_yet_another_file_sys.YfsClient.Changes.{create, mkdir}
use cse_yet_another_file_sys.YfsClient.Format.{Dirent}
use cse_yet_another_file_sys.YfsClient.Files.{IsFileStore}
use cse_yet_another_file_sys.YfsClient.Listing.{HasDir, listed}

module _ {S : Type 0} {ext : Extents S} (st : IsFileStore ext) (y : Yfs S) (stack : Bytes)
    (parent : ℕ) (name : Bytes) (old i : ℕ) (es : List Dirent) (d : HasDir st y.extents parent es)
    (found : find_entry name es ≡ some i) where
  -- The entry is answered; no file changes, and the lock is given back.
  pub create-find_entry :
      (t : S) × (create ext stack parent name old y
        ≡ done (
          (YfsStatus.exist, i),
          record { extents = t; events = released parent ∷ acquired parent ∷ y.events },
        ))
      × (st.file t ≡ st.file y.extents)
  unfolding create lookup_no_seria
  create-find_entry =
      let locked : Yfs S = record y { events = acquired parent ∷ y.events } in
      let (t, got, same, _, _, _) = listed st locked parent es d in
      (t, rw (got, continue, found) refl, same)

  pub mkdir-find_entry :
      (t : S) × (mkdir ext stack parent name old y
        ≡ done (
          (YfsStatus.exist, i),
          record { extents = t; events = released parent ∷ acquired parent ∷ y.events },
        ))
      × (st.file t ≡ st.file y.extents)
  unfolding mkdir lookup_no_seria
  mkdir-find_entry =
      let locked : Yfs S = record y { events = acquired parent ∷ y.events } in
      let (t, got, same, _, _, _) = listed st locked parent es d in
      (t, rw (got, continue, found) refl, same)
