-- ===== src/YfsClient/Contents.antt =====
-- Reading and writing the bytes of a file with yfs_client.cc.
use cse_yet_another_file_sys.Prelude.{
  inl, inr, le-or-lt, ℕ, ◌+◌, ◌-◌, ◌%◌, ◌^◌, ◌<◌, ◌≤◌, ◌≡◌, refl, ap, ◌∙◌, Option, some, [], ◌∷◌,
  done, length, take, drop, arith, update, update_self, lt→leb, le→leb, take_all,
}
use cse_yet_another_file_sys.Bytes.{Bytes}
use cse_yet_another_file_sys.Manager.{resize}
use cse_yet_another_file_sys.Server.{Status}
use cse_yet_another_file_sys.Server.View.{File}
use cse_yet_another_file_sys.YfsClient.{YfsStatus, Extents, Yfs, acquired, released, call, setattr}
use cse_yet_another_file_sys.YfsClient.Changes.{read, write}
use cse_yet_another_file_sys.YfsClient.Files.{IsFileStore}
use cse_yet_another_file_sys.YfsClient.Ranges.{
  overwritten, reported, drop_all, length-resize, take_nil, written_back, inside, beyond,
}

abbrev pub ends : {S : Type 0} → Yfs S → ℕ → S → Yfs S
ends y ino t = record { extents = t; events = released ino ∷ acquired ino ∷ y.events }

module _ {S : Type 0} (ext : Extents S) (y : Yfs S) (ino off : ℕ) (bytes content : Bytes)
    (t1 t2 : S) (small : off < 2 ^ 32)
    (got : ext.get ino y.extents ≡ done ((Status.ok, content), t1))
    (put : ext.put ino (overwritten content off bytes) t1 ≡ done (Status.ok, t2)) where
  whole_word : off % 2 ^ 32 ≡ off
  whole_word = omega (arith, small)

  write_inside :
      off ≤ length content
      → write ext ino (length bytes) off bytes y
        ≡ done ((YfsStatus.ok, length bytes), ends y ino t2)
  unfolding write
  write_inside h =
      rw
        (
          call,
          got,
          le→leb (length bytes) (length bytes) (omega arith),
          take_all (length bytes) bytes (omega arith),
          whole_word,
          le→leb off (length content) h,
          inside content off bytes h,
          call,
          put,
        )
        refl

  write_beyond :
      length content < off
      → write ext ino (length bytes) off bytes y
        ≡ done ((YfsStatus.ok, length bytes + off - length content), ends y ino t2)
  unfolding write
  write_beyond h =
      rw
        (
          call,
          got,
          le→leb (length bytes) (length bytes) (omega arith),
          take_all (length bytes) bytes (omega arith),
          whole_word,
          lt→leb off (length content) h,
          le→leb off (length (resize (length bytes + off) content))
              (length-resize (length bytes) off content),
          beyond content off bytes h,
          call,
          put,
        )
        refl

module _ {S : Type 0} {ext : Extents S} (st : IsFileStore ext) where
  -- `write` of all the bytes that it is given, at an offset of 32 bits, to a file of the store:
  -- it answers OK, and the file has the bytes at the offset, zero bytes in a hole before them, and what
  -- it had elsewhere; no other file changes, and the lock of the file is taken and given back. The
  -- count that it reports is that of the bytes, or with a hole that by which the file grew.
  pub write-file :
      (y : Yfs S) (ino off : ℕ) (bytes : Bytes) (f : File)
      → st.IsValid y.extents
      → st.file y.extents ino ≡ some f
      → off < 2 ^ 32
      → (t : S) × (write ext ino (length bytes) off bytes y
          ≡ done (
            (YfsStatus.ok, reported f.bytes off bytes),
            record { extents = t; events = released ino ∷ acquired ino ∷ y.events },
          ))
        × (st.file t
            ≡ update
                (st.file y.extents)
                ino
                (some (record f { bytes = overwritten f.bytes off bytes })))
        × st.IsValid t
  unfolding write
  write-file y ino off bytes f valid there small =
      let (t1, got, same, valid1, ready1, _) = st.get_law y.extents ino f valid there in
      let there1 = ap (λ (m : ℕ → Option File). m ino) same ∙ there in
      let (t2, put, stored, valid2) =
        st.put_law t1 ino (overwritten f.bytes off bytes) f valid1 there1 ready1 in
      let changed =
        stored
        ∙ ap
            (λ (m : ℕ → Option File).
              update m ino (some (record f { bytes = overwritten f.bytes off bytes })))
            same in
      elim (le-or-lt off (length f.bytes)) [
        | inl h ↦ (
          t2,
          write_inside ext y ino off bytes f.bytes t1 t2 small got put h
              ∙ rw (le→leb off (length f.bytes) h) refl,
          changed,
          valid2,
        )
        | inr h ↦ (
          t2,
          write_beyond ext y ino off bytes f.bytes t1 t2 small got put h
              ∙ rw (lt→leb off (length f.bytes) h) refl,
          changed,
          valid2,
        )
      ]

  -- `read` at an offset of 32 bits from a file of the store answers OK with the bytes that the file has there, at
  -- most as many as asked, none past its end; no file changes, and the lock of the file is taken and given back.
  pub read-file :
      (y : Yfs S) (ino size off : ℕ) (f : File)
      → st.IsValid y.extents
      → st.file y.extents ino ≡ some f
      → off < 2 ^ 32
      → (t : S) × (read ext ino size off y
          ≡ done ((YfsStatus.ok, take size (drop off f.bytes)), ends y ino t))
        × (st.file t ≡ st.file y.extents)
  unfolding read
  read-file y ino size off f valid there small =
      let (t, got, same, _, _, _) = st.get_law y.extents ino f valid there in
      let word : off % 2 ^ 32 ≡ off = omega (arith, small) in
      elim (le-or-lt (length f.bytes) off) [
        | inl h ↦
            let nothing : take size (drop off f.bytes) ≡ [] =
              ap (take size) (drop_all off f.bytes h) ∙ take_nil size in
            (t, rw (call, got, word, le→leb (length f.bytes) off h, nothing) refl, same)
        | inr h ↦ (
          t,
          rw
              (
                call,
                got,
                word,
                lt→leb (length f.bytes) off h,
                le→leb off (length f.bytes) (omega arith),
              )
              refl,
          same,
        )
      ]

  -- What was written is read back: after such a `write`, a `read` of as many bytes at the same offset answers OK
  -- with the bytes that were written.
  pub read-write :
      (y : Yfs S) (ino off : ℕ) (bytes : Bytes) (f : File)
      → st.IsValid y.extents
      → st.file y.extents ino ≡ some f
      → off < 2 ^ 32
      → (count : ℕ) × (z u : Yfs S) × (write ext ino (length bytes) off bytes y
          ≡ done ((YfsStatus.ok, count), z))
        × (read ext ino (length bytes) off z ≡ done ((YfsStatus.ok, bytes), u))
  read-write y ino off bytes f valid there small =
      let (t, written, changed, valid') = write-file y ino off bytes f valid there small in
      let z = ends y ino t in
      let there' =
        ap (λ (m : ℕ → Option File). m ino) changed ∙ update_self (st.file y.extents) ino _ in
      let (u, got, same) =
        read-file z ino (length bytes) off (record f { bytes = overwritten f.bytes off bytes })
          valid' there' small in
      (
        reported f.bytes off bytes,
        z,
        ends z ino u,
        written,
        got
            ∙ ap (λ (b : Bytes). done ((YfsStatus.ok, b), ends z ino u))
                (written_back f.bytes off bytes),
      )

  -- `setattr` to a size, on a file of the store, answers OK, and the file has its bytes cut
  -- to that size or filled up to it with zero bytes; no other file changes, and the lock of the file is
  -- taken and given back.
  pub setattr-file :
      (y : Yfs S) (ino size : ℕ) (f : File)
      → st.IsValid y.extents
      → st.file y.extents ino ≡ some f
      → (t : S) × (setattr ext ino size y ≡ done (YfsStatus.ok, ends y ino t))
        × (st.file t
            ≡ update (st.file y.extents) ino (some (record f { bytes = resize size f.bytes })))
  unfolding setattr
  setattr-file y ino size f valid there =
      let (t1, got, same, valid1, ready1, _) = st.get_law y.extents ino f valid there in
      let there1 = ap (λ (m : ℕ → Option File). m ino) same ∙ there in
      let (t2, put, stored, valid2) =
        st.put_law t1 ino (resize size f.bytes) f valid1 there1 ready1 in
      (
        t2,
        rw (call, got, call, put) refl,
        stored
            ∙ ap
                (λ (m : ℕ → Option File).
                  update m ino (some (record f { bytes = resize size f.bytes })))
                same,
      )
