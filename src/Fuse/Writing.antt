-- ===== src/Fuse/Writing.antt =====
-- Writing a file through the handlers of fuse.cc, and reading it.
use cse_yet_another_file_sys.Prelude.{
  ℕ, ◌^◌, ◌<◌, ◌≡◌, refl, ap, ◌∙◌, Option, some, done, length, update, update_self, continue,
}
use cse_yet_another_file_sys.Bytes.{Bytes}
use cse_yet_another_file_sys.Server.View.{File}
use cse_yet_another_file_sys.YfsClient.{Extents, Yfs}
use cse_yet_another_file_sys.YfsClient.Files.{IsFileStore}
use cse_yet_another_file_sys.YfsClient.Ranges.{overwritten, reported, written_back}
use cse_yet_another_file_sys.YfsClient.Contents.{ends, write-file, read-file}
use cse_yet_another_file_sys.Fuse.{Reply}
use cse_yet_another_file_sys.Fuse.Handlers.{fuseserver_write, fuseserver_read}

-- A request to write all the bytes that it has, at an offset of 32 bits, to a file of the store is answered with the
-- count of the bytes, or where the offset leaves a hole with that by which the file grew. A request to read as many bytes
-- at that offset is then answered with the bytes. The file has them at the offset, zero bytes in the hole, and what it
-- had elsewhere; no other file changes.
pub fuseserver_read-fuseserver_write :
    {S : Type 0} {ext : Extents S} (st : IsFileStore ext) (y : Yfs S) (ino off : ℕ) (bytes : Bytes)
    (f : File)
    → st.IsValid y.extents
    → st.file y.extents ino ≡ some f
    → off < 2 ^ 32
    → (z u : Yfs S) × (fuseserver_write ext ino bytes (length bytes) off y
        ≡ done (Reply.reply_write (reported f.bytes off bytes), z))
      × (fuseserver_read ext ino (length bytes) off z ≡ done (Reply.reply_buf bytes, u))
      × (st.file u.extents
          ≡ update
              (st.file y.extents)
              ino
              (some (record f { bytes = overwritten f.bytes off bytes })))
unfolding fuseserver_write fuseserver_read
fuseserver_read-fuseserver_write {ext} st y ino off bytes f valid there small =
    let (t, written, changed, valid1) = write-file st y ino off bytes f valid there small in
    let there1 =
      ap (λ (m : ℕ → Option File). m ino) changed ∙ update_self (st.file y.extents) ino _ in
    let (u, got, same) =
      read-file st (ends y ino t) ino (length bytes) off
        (record f { bytes = overwritten f.bytes off bytes }) valid1 there1 small in
    (
      ends y ino t,
      ends (ends y ino t) ino u,
      rw (written, continue) refl,
      rw (got, continue, written_back f.bytes off bytes) refl,
      same ∙ changed,
    )
