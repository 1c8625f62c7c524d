-- ===== src/YfsClient/Events.antt =====
-- The events of the lock client of single steps of yfs_client.cc, and of the methods that call nothing
-- else of the class: each takes one lock and gives it back.
use cse_yet_another_file_sys.Prelude.{
  pure, ◌>>=◌, ◌>>◌, ◌+◌, Exec, ap, leb, length, take, drop, ◌%◌, ◌^◌, bind_split, checked_same, ℕ,
  zero, suc, Bool, List, [], ◌∷◌, ◌≡◌, arith, done,
}
use cse_yet_another_file_sys.Bytes.{Bytes}
use cse_yet_another_file_sys.Manager.Calls.{Attr}
use cse_yet_another_file_sys.YfsClient.Format.{
  max_filename_length, entry_size, bytes_number, Dirent, write_entry, write_entries, read_entry,
  read_entries,
}
use cse_yet_another_file_sys.YfsClient.{
  release, Extents, Yfs, YfsStatus, acquired, released, call, has_type, isfile, isdir, getfile,
  getdir, setattr,
}
use cse_yet_another_file_sys.YfsClient.Changes.{read, write, readlink}

module _ {S : Type 0} where
  read_entry-same :
      (buf : Bytes) (s t : Yfs S) (e : Dirent)
      → read_entry buf s ≡ done (e, t)
      → t.events ≡ s.events
  unfolding read_entry
  read_entry-same buf s t e h =
      ap (λ (q : Yfs S). q.events)
        (checked_same (leb (bytes_number (take 2 (drop 72 buf))) max_filename_length) _ s t h)

  pub read_entries-same :
      (n : ℕ) (buf : Bytes) (s t : Yfs S) (es : List Dirent)
      → read_entries n buf s ≡ done (es, t)
      → t.events ≡ s.events
  unfolding read_entries
  read_entries-same zero buf s t es h = ground arith
  read_entries-same (suc n) buf s t es h =
      let (e, s1, got, h1) = bind_split (read_entry (take entry_size buf) s) _ h in
      let (rest, s2, got2, h2) = bind_split (read_entries n (drop entry_size buf) s1) _ h1 in
      ground (
        arith,
        read_entry-same (take entry_size buf) s s1 e got,
        read_entries-same n (drop entry_size buf) s1 s2 rest got2,
      )

  pub write_entry-same :
      (stack : Bytes) (i : ℕ) (name : Bytes) (s t : Yfs S) (b : Bytes)
      → write_entry stack i name s ≡ done (b, t)
      → t.events ≡ s.events
  unfolding write_entry
  write_entry-same stack i name s t b h =
      ap (λ (q : Yfs S). q.events)
        (checked_same (leb (length name % 2 ^ 16) max_filename_length) _ s t h)

  pub write_entries-same :
      (stack : ℕ → Bytes) (k : ℕ) (es : List Dirent) (s t : Yfs S) (b : Bytes)
      → write_entries stack k es s ≡ done (b, t)
      → t.events ≡ s.events
  unfolding write_entries
  write_entries-same stack k [] s t b h = ground arith
  write_entries-same stack k (e ∷ es) s t b h =
      let (entry, s1, got, h1) = bind_split (write_entry (stack k) e.inum e.name s) _ h in
      let (rest, s2, got2, h2) = bind_split (write_entries stack (k + 1) es s1) _ h1 in
      ground (
        arith,
        write_entry-same (stack k) e.inum e.name s s1 entry got,
        write_entries-same stack (k + 1) es s1 s2 rest got2,
      )

  pub call-events :
      {A : Type 0} (m : Exec S A) (y : Yfs S) (a : A) (z : Yfs S)
      → call m y ≡ done (a, z)
      → z.events ≡ y.events
  call-events m y a z h = ground arith

  -- The last call of a method, and the lock that is given back after it.
  pub release-events :
      {A B : Type 0} (m : Exec S A) (i : ℕ) (g : A → B) (y : Yfs S) (b : B) (z : Yfs S)
      → (do a ← call m; release i; pure (g a)) y ≡ done (b, z)
      → z.events ≡ released i ∷ y.events
  release-events m i g y b z h = ground arith

-- The methods, in a section whose states are given at each use.
module _ {S : Type 0} (ext : Extents S) (y : Yfs S) (z : Yfs S) where
  has_type-events :
      (type i : ℕ) (b : Bool)
      → has_type ext type i y ≡ done (b, z)
      → z.events ≡ released i ∷ acquired i ∷ y.events
  unfolding has_type
  has_type-events type i b h = ground arith

  pub isfile-events :
      (i : ℕ) (b : Bool)
      → isfile ext i y ≡ done (b, z)
      → z.events ≡ released i ∷ acquired i ∷ y.events
  unfolding isfile
  isfile-events i b h = ground arith

  pub isdir-events :
      (i : ℕ) (b : Bool)
      → isdir ext i y ≡ done (b, z)
      → z.events ≡ released i ∷ acquired i ∷ y.events
  unfolding isdir
  isdir-events i b h = ground arith

  pub getfile-events :
      (i : ℕ) (r : YfsStatus × Attr)
      → getfile ext i y ≡ done (r, z)
      → z.events ≡ released i ∷ acquired i ∷ y.events
  unfolding getfile
  getfile-events i r h = ground arith

  pub getdir-events :
      (i : ℕ) (r : YfsStatus × Attr)
      → getdir ext i y ≡ done (r, z)
      → z.events ≡ released i ∷ acquired i ∷ y.events
  unfolding getdir
  getdir-events i r h = ground arith

  pub setattr-events :
      (i size : ℕ) (r : YfsStatus)
      → setattr ext i size y ≡ done (r, z)
      → z.events ≡ released i ∷ acquired i ∷ y.events
  unfolding setattr
  setattr-events i size r h = ground arith

  pub read-events :
      (i size off : ℕ) (r : YfsStatus × Bytes)
      → read ext i size off y ≡ done (r, z)
      → z.events ≡ released i ∷ acquired i ∷ y.events
  unfolding read
  read-events i size off r h = ground arith

  pub write-events :
      (i size off : ℕ) (bytes : Bytes) (r : YfsStatus × ℕ)
      → write ext i size off bytes y ≡ done (r, z)
      → z.events ≡ released i ∷ acquired i ∷ y.events
  unfolding write
  write-events i size off bytes r h = ground arith

  pub readlink-events :
      (i : ℕ) (r : YfsStatus × Bytes)
      → readlink ext i y ≡ done (r, z)
      → z.events ≡ released i ∷ acquired i ∷ y.events
  unfolding readlink
  readlink-events i r h = ground arith
