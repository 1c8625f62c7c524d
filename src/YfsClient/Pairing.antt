-- ===== src/YfsClient/Pairing.antt =====
-- The locks that the methods of yfs_client.cc that work on a directory take and give back: one each, but for
-- `symlink` with a name that exists.
use cse_yet_another_file_sys.Prelude.{
  Option-cases, ◌++◌, if_done, ◌==◌, ◌∙◌, ap, bind_split, ℕ, Option, List, ◌∷◌, ◌≡◌, ◌⊎◌, inl, inr,
  arith, done, refl,
}
use cse_yet_another_file_sys.Bytes.{Bytes}
use cse_yet_another_file_sys.Manager.Calls.{t_dir, t_file, t_slink}
use cse_yet_another_file_sys.YfsClient.Format.{Dirent, write_entry, write_entries}
use cse_yet_another_file_sys.YfsClient.{
  of_status, is_ok, find_entry, erase_entry, Extents, Yfs, YfsStatus, acquired, released, call,
  readdir_no_seria, readdir, lookup_no_seria, lookup,
}
use cse_yet_another_file_sys.YfsClient.Changes.{add_entry, create, mkdir, symlink, rmdir, unlink}
use cse_yet_another_file_sys.YfsClient.Events.{
  read_entries-same, write_entry-same, write_entries-same, call-events, release-events,
}

-- The state under the lock.
abbrev locked : {S : Type 0} → ℕ → Yfs S → Yfs S
locked i y = record y { events = acquired i ∷ y.events }

module _ {S : Type 0} (ext : Extents S) where
  readdir_no_seria-events :
      (y z : Yfs S) (i : ℕ) (es : List Dirent)
      → readdir_no_seria ext i y ≡ done (es, z)
      → z.events ≡ y.events
  unfolding readdir_no_seria
  readdir_no_seria-events y z i es h =
      let (p, s1, got, h1) = bind_split (call (ext.get i) y) _ h in
      let (q, s2, got2, h2) =
        bind_split (call (ext.getattr i) s1) _ (if_done (is_ok p.0) _ _ s1 refl h1) in
      read_entries-same _ p.1 s2 z es (if_done (q.1.type == t_dir) _ _ s2 refl h2)
      ∙ call-events (ext.getattr i) s1 q s2 got2
      ∙ call-events (ext.get i) y p s1 got

  pub readdir-events :
      (y z : Yfs S) (i : ℕ) (r : YfsStatus × List Dirent)
      → readdir ext i y ≡ done (r, z)
      → z.events ≡ released i ∷ acquired i ∷ y.events
  unfolding readdir
  readdir-events y z i r h =
      let (es, s1, got, h1) = bind_split (readdir_no_seria ext i (locked i y)) _ h in
      ground (arith, readdir_no_seria-events (locked i y) s1 i es got)

  lookup_no_seria-events :
      (y z : Yfs S) (i : ℕ) (name : Bytes) (r : Option ℕ)
      → lookup_no_seria ext i name y ≡ done (r, z)
      → z.events ≡ y.events
  unfolding lookup_no_seria
  lookup_no_seria-events y z i name r h =
      let (es, s1, got, h1) = bind_split (readdir_no_seria ext i y) _ h in
      ground (arith, readdir_no_seria-events y s1 i es got)

  pub lookup-events :
      (y z : Yfs S) (i : ℕ) (name : Bytes) (r : YfsStatus × Option ℕ)
      → lookup ext i name y ≡ done (r, z)
      → z.events ≡ released i ∷ acquired i ∷ y.events
  unfolding lookup
  lookup-events y z i name r h =
      let (found, s1, got, h1) = bind_split (lookup_no_seria ext i name (locked i y)) _ h in
      ground (arith, lookup_no_seria-events (locked i y) s1 i name found got)

  add_entry-events :
      (y z : Yfs S) (stack : Bytes) (parent : ℕ) (buf : Bytes) (ino : ℕ) (name : Bytes)
      (r : YfsStatus × ℕ)
      → add_entry ext stack parent buf ino name y ≡ done (r, z)
      → z.events ≡ released parent ∷ y.events
  unfolding add_entry
  add_entry-events y z stack parent buf ino name r h =
      let (entry, s1, got, h1) = bind_split (write_entry stack ino name y) _ h in
      ground (arith, write_entry-same stack ino name y s1 entry got)

  pub create-events :
      (y z : Yfs S) (stack : Bytes) (parent : ℕ) (name : Bytes) (old : ℕ) (r : YfsStatus × ℕ)
      → create ext stack parent name old y ≡ done (r, z)
      → z.events ≡ released parent ∷ acquired parent ∷ y.events
  unfolding create
  create-events y z stack parent name old r h =
      let (found, s1, got, h1) =
        bind_split (lookup_no_seria ext parent name (locked parent y)) _ h in
      let kept = lookup_no_seria-events (locked parent y) s1 parent name found got in
      elim (Option-cases found) [
        | inr (ino, e) ↦ let h2 = rw e at h1 in ground (arith, kept)
        | inl e ↦
            let h2 = rw e at h1 in
            let (p, s2, got2, h3) = bind_split (call (ext.create t_file old) s1) _ h2 in
            let (q, s3, got3, h4) = bind_split (call (ext.get parent) s2) _ h3 in
            let h5 = if_done (is_ok q.0) _ _ s3 refl h4 in
            add_entry-events s3 z stack parent q.1 p.1 name r h5
            ∙ ap (◌∷◌ (released parent)) (
                call-events (ext.get parent) s2 q s3 got3
                ∙ call-events (ext.create t_file old) s1 p s2 got2
                ∙ kept)
      ]

  pub mkdir-events :
      (y z : Yfs S) (stack : Bytes) (parent : ℕ) (name : Bytes) (old : ℕ) (r : YfsStatus × ℕ)
      → mkdir ext stack parent name old y ≡ done (r, z)
      → z.events ≡ released parent ∷ acquired parent ∷ y.events
  unfolding mkdir
  mkdir-events y z stack parent name old r h =
      let (found, s1, got, h1) =
        bind_split (lookup_no_seria ext parent name (locked parent y)) _ h in
      let kept = lookup_no_seria-events (locked parent y) s1 parent name found got in
      elim (Option-cases found) [
        | inr (ino, e) ↦ let h2 = rw e at h1 in ground (arith, kept)
        | inl e ↦
            let h2 = rw e at h1 in
            let (q, s2, got2, h3) = bind_split (call (ext.get parent) s1) _ h2 in
            let h4 = if_done (is_ok q.0) _ _ s2 refl h3 in
            let (p, s3, got3, h5) = bind_split (call (ext.create t_dir old) s2) _ h4 in
            add_entry-events s3 z stack parent q.1 p.1 name r h5
            ∙ ap (◌∷◌ (released parent)) (
                call-events (ext.create t_dir old) s2 p s3 got3
                ∙ call-events (ext.get parent) s1 q s2 got2
                ∙ kept)
      ]

  -- Where the name exists the lock is kept.
  pub symlink-events :
      (y z : Yfs S) (stack : Bytes) (parent : ℕ) (name link : Bytes) (old : ℕ) (r : YfsStatus × ℕ)
      → symlink ext stack parent name link old y ≡ done (r, z)
      → (z.events ≡ released parent ∷ acquired parent ∷ y.events)
        ⊎ ((r.0 ≡ YfsStatus.exist) × (z.events ≡ acquired parent ∷ y.events))
  unfolding symlink
  symlink-events y z stack parent name link old r h =
      let (c, s0, got0, h0) = bind_split (call (ext.get parent) (locked parent y)) _ h in
      let (found, s1, got, h1) = bind_split (lookup_no_seria ext parent name s0) _ h0 in
      let kept =
        lookup_no_seria-events s0 s1 parent name found got
        ∙ call-events (ext.get parent) (locked parent y) c s0 got0 in
      elim (Option-cases found) [
        | inr (ino, e) ↦ let h2 = rw e at h1 in inr (ground (arith, kept), ground (arith, kept))
        | inl e ↦
            let h2 = rw e at h1 in
            let (p, s2, got2, h3) = bind_split (call (ext.create t_slink old) s1) _ h2 in
            let (q, s3, got3, h4) = bind_split (call (ext.put p.1 link) s2) _ h3 in
            let (entry, s4, got4, h5) = bind_split (write_entry stack p.1 name s3) _ h4 in
            inl (
              release-events (ext.put parent (c.1 ++ entry)) parent (λ _. (of_status q, p.1)) s4 r z
                h5
              ∙ ap (◌∷◌ (released parent)) (
                  write_entry-same stack p.1 name s3 s4 entry got4
                  ∙ call-events (ext.put p.1 link) s2 q s3 got3
                  ∙ call-events (ext.create t_slink old) s1 p s2 got2
                  ∙ kept))
      ]

  pub unlink-events :
      (y z : Yfs S) (stack : ℕ → Bytes) (parent : ℕ) (name : Bytes) (r : YfsStatus)
      → unlink ext stack parent name y ≡ done (r, z)
      → z.events ≡ released parent ∷ acquired parent ∷ y.events
  unfolding unlink rmdir
  unlink-events y z stack parent name r h =
      let (es, s1, got, h1) = bind_split (readdir_no_seria ext parent (locked parent y)) _ h in
      let kept = readdir_no_seria-events (locked parent y) s1 parent es got in
      elim (Option-cases (find_entry name es)) [
        | inl e ↦ let h2 = rw e at h1 in ground (arith, kept)
        | inr (i, e) ↦
            let h2 = rw e at h1 in
            let (p, s2, got2, h3) = bind_split (call (ext.remove i) s1) _ h2 in
            let (buf, s3, got3, h4) =
              bind_split (write_entries stack 0 (erase_entry name es) s2) _ h3 in
            release-events (ext.put parent buf) parent (λ _. YfsStatus.ok) s3 r z h4
            ∙ ap (◌∷◌ (released parent)) (
                write_entries-same stack 0 (erase_entry name es) s2 s3 buf got3
                ∙ call-events (ext.remove i) s1 p s2 got2
                ∙ kept)
      ]
