-- ===== src/YfsClient/Printing.antt =====
-- Directory entries that yfs_client.cc wrote are read back, whatever the memory of the locals held.
use cse_yet_another_file_sys.Prelude.{
  ℕ, zero, suc, ◌+◌, ◌-◌, ◌*◌, ◌/◌, ◌%◌, ◌^◌, ◌≤◌, ◌<◌, ◌≡◌, refl, subst, ap, sym, ◌∙◌, ◌++◌, arith,
  done, le→leb, length, take, drop, length-append, length-take, length-drop, take-append,
  drop-append, take_all, append_assoc, take-take, drop-drop,
}
use cse_yet_another_file_sys.Bytes.{Bytes}
use cse_yet_another_file_sys.YfsClient.Format.{
  Dirent, number_bytes, bytes_number, entry_size, max_filename_length, write_entry, read_entry,
}
use Prim.Native.Nat.pow

pub length-number_bytes : (n v : ℕ) → length (number_bytes n v) ≡ n
unfolding number_bytes
length-number_bytes zero v = refl
length-number_bytes (suc n) v = ap suc (length-number_bytes n (v / 256))

-- A number that fits is read back.
pub bytes_number-number_bytes : (n v : ℕ) → v < 256 ^ n → bytes_number (number_bytes n v) ≡ v
unfolding number_bytes bytes_number
bytes_number-number_bytes zero v h = omega arith
bytes_number-number_bytes (suc n) v h =
    let less : v < 256 ^ n * 256 = subst (λ m. v < m) (pow.suc 256 n) h in
    omega (arith, bytes_number-number_bytes n (v / 256) (omega (arith, less)))

-- What can be stored: a number of 64 bits, a name of at most 64 bytes.
pub record IsDirent (e : Dirent) : Type 0 where
  pub inum_fits : e.inum < 2 ^ 64
  pub name_fits : length e.name ≤ max_filename_length

module _ (stack : Bytes) (whole : length stack ≡ entry_size) (e : Dirent) (h : IsDirent e) where
  abbrev n : ℕ
  n = length e.name

  -- The fields of the struct, one after the other.
  abbrev junk : Bytes
  junk = take (64 - n) (drop (8 + n) stack)

  abbrev padding : Bytes
  padding = take 6 (drop 74 stack)

  abbrev pub entry_bytes : Bytes
  entry_bytes = number_bytes 8 e.inum ++ (e.name ++ (junk ++ (number_bytes 2 n ++ padding)))

  length-junk : length junk ≡ 64 - n
  length-junk =
      omega
        (arith, length-take (64 - n) (drop (8 + n) stack), length-drop (8 + n) stack, h.name_fits)

  length-padding : length padding ≡ 6
  length-padding = omega (arith, length-take 6 (drop 74 stack), length-drop 74 stack)

  pub length-entry_bytes : length entry_bytes ≡ entry_size
  length-entry_bytes = omega (
    arith,
    length-append (number_bytes 8 e.inum) (e.name ++ (junk ++ (number_bytes 2 n ++ padding))),
    length-append e.name (junk ++ (number_bytes 2 n ++ padding)),
    length-append junk (number_bytes 2 n ++ padding),
    length-append (number_bytes 2 n) padding,
    length-number_bytes 8 e.inum,
    length-number_bytes 2 n,
    length-junk,
    length-padding,
    h.name_fits,
  )

  pub write_entry_lem :
      {S : Type 0} (s : S) → write_entry stack e.inum e.name s ≡ done (entry_bytes, s)
  unfolding write_entry
  write_entry_lem s =
      let small : n % 2 ^ 16 ≡ n = omega (arith, h.name_fits) in
      let fits : e.inum % 2 ^ 64 ≡ e.inum = omega (arith, h.inum_fits) in
      rw (small, fits, le→leb n 64 h.name_fits, take_all n e.name (omega arith)) refl

  after_number : drop 8 entry_bytes ≡ e.name ++ (junk ++ (number_bytes 2 n ++ padding))
  after_number =
      drop-append 8 (number_bytes 8 e.inum) (e.name ++ (junk ++ (number_bytes 2 n ++ padding)))
        (length-number_bytes 8 e.inum)

  after_name : drop 72 entry_bytes ≡ number_bytes 2 n ++ padding
  after_name =
      sym (drop-drop 64 8 entry_bytes)
      ∙ ap (drop 64) (after_number ∙ sym (append_assoc e.name junk (number_bytes 2 n ++ padding)))
      ∙ drop-append 64 (e.name ++ junk) (number_bytes 2 n ++ padding)
          (omega (arith, length-append e.name junk, length-junk, h.name_fits))

  read_name : take n (take 64 (drop 8 entry_bytes)) ≡ e.name
  read_name =
      take-take n 64 (drop 8 entry_bytes) h.name_fits
      ∙ ap (take n) after_number
      ∙ take-append n e.name (junk ++ (number_bytes 2 n ++ padding)) refl

  read_number : bytes_number (take 8 entry_bytes) ≡ e.inum
  read_number =
      ap bytes_number (
        take-append 8 (number_bytes 8 e.inum) (e.name ++ (junk ++ (number_bytes 2 n ++ padding)))
          (length-number_bytes 8 e.inum))
      ∙ bytes_number-number_bytes 8 e.inum h.inum_fits

  read_length : bytes_number (take 2 (drop 72 entry_bytes)) ≡ n
  read_length =
      ap bytes_number (
        ap (take 2) after_name ∙ take-append 2 (number_bytes 2 n) padding (length-number_bytes 2 n))
      ∙ bytes_number-number_bytes 2 n (omega (arith, h.name_fits))

  pub read_entry_lem : {S : Type 0} (s : S) → read_entry entry_bytes s ≡ done (e, s)
  unfolding read_entry
  read_entry_lem s = rw (read_length, le→leb n 64 h.name_fits, read_name, read_number) refl
