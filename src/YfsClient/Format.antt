-- ===== src/YfsClient/Format.antt =====
-- The format of a directory in yfs_client.cc: `struct diy_dirent`, 80 bytes each, one after the other.
use cse_yet_another_file_sys.Prelude.{
  ℕ, zero, suc, ◌+◌, ◌-◌, ◌*◌, ◌/◌, ◌%◌, ◌^◌, List, [], ◌∷◌, ◌++◌, Exec, pure, crash, ◌>>=◌, leb,
  if◌then◌else◌, length, take, drop,
}
use cse_yet_another_file_sys.Bytes.{Bytes}

pub record Dirent : Type 0 where
  pub name : Bytes
  pub inum : ℕ

-- A number in its `n` bytes, the lowest first.
unfoldable pub number_bytes : ℕ → ℕ → Bytes
number_bytes zero v = []
number_bytes (suc n) v = v % 256 ∷ number_bytes n (v / 256)

unfoldable pub bytes_number : Bytes → ℕ
bytes_number [] = 0
bytes_number (b ∷ bs) = b + 256 * bytes_number bs

abbrev pub max_filename_length : ℕ
max_filename_length = 64

-- `inum` stands at 0, `name` at 8, `name_length` at 72, and 6 bytes of padding follow.
abbrev pub entry_size : ℕ
entry_size = 80

-- A local `diy_dirent` whose memory held `stack`, after its fields were set and the name was copied over it.
-- `name_length` is a short; more than 64 bytes are copied past the end of the array.
unfoldable pub write_entry : {S : Type 0} → Bytes → ℕ → Bytes → Exec S Bytes
unfolding number_bytes
write_entry stack inum name =
    let n = length name % 2 ^ 16 in
    if leb n max_filename_length
    then pure (
        number_bytes 8 (inum % 2 ^ 64)
        ++ (take n name
            ++ (take (64 - n) (drop (8 + n) stack)
                ++ (number_bytes 2 n ++ take 6 (drop 74 stack)))))
    else crash

-- The bytes of an entry read back; a `name_length` above 64 reads past the end of the array.
unfoldable pub read_entry : {S : Type 0} → Bytes → Exec S Dirent
unfolding bytes_number
read_entry bytes =
    let n = bytes_number (take 2 (drop 72 bytes)) in
    if leb n max_filename_length
    then pure
        (record { name = take n (take 64 (drop 8 bytes)); inum = bytes_number (take 8 bytes) })
    else crash

-- The loop of `readdir_no_seria` over the rest of the buffer.
unfoldable pub read_entries : {S : Type 0} → ℕ → Bytes → Exec S (List Dirent)
unfolding read_entry
read_entries zero buf = pure []
read_entries (suc n) buf = do
  entry ← read_entry (take entry_size buf)
  rest ← read_entries n (drop entry_size buf)
  pure (entry ∷ rest)

-- The loop of `rmdir` that writes the entries that are left; `stack k` is the memory of the k-th local.
unfoldable pub write_entries : {S : Type 0} → (ℕ → Bytes) → ℕ → List Dirent → Exec S Bytes
unfolding write_entry
write_entries stack k [] = pure []
write_entries stack k (e ∷ es) = do
  entry ← write_entry (stack k) e.inum e.name
  rest ← write_entries stack (k + 1) es
  pure (entry ++ rest)
