-- ===== src/YfsClient/Dirs.antt =====
-- The bytes of a directory in yfs_client.cc and the entries that they stand for.
use cse_yet_another_file_sys.Prelude.{
  ℕ, ◌+◌, ◌*◌, ◌/◌, ◌%◌, ◌^◌, ◌<◌, ◌≡◌, refl, ap, sym, ◌∙◌, subst, List, [], ◌∷◌, ◌++◌, All, arith,
  done, pure, ◌>>=◌, length, take, drop, length-append, take-append, drop-append, append_assoc,
  append-nil, bind_done,
}
use cse_yet_another_file_sys.Bytes.{Bytes}
use cse_yet_another_file_sys.YfsClient.Format.{
  Dirent, entry_size, write_entry, read_entry, read_entries, write_entries,
}
use cse_yet_another_file_sys.YfsClient.Printing.{
  IsDirent, entry_bytes, length-entry_bytes, write_entry_lem, read_entry_lem,
}

-- Entries one after the other, each over the memory of some local variable.
pub data Represents : Bytes → List Dirent → Type 0 where
  no_entry : Represents [] []
  one_entry :
      (stack : Bytes) (whole : length stack ≡ entry_size) (e : Dirent) (h : IsDirent e)
      {buf : Bytes} {es : List Dirent}
      → Represents buf es
      → Represents (entry_bytes stack whole e h ++ buf) (e ∷ es)

pub length-Represents :
    {buf : Bytes} {es : List Dirent} → Represents buf es → length buf ≡ entry_size * length es
length-Represents no_entry = refl
length-Represents (one_entry stack whole e h {buf} {es} r) = omega (
  arith,
  length-append (entry_bytes stack whole e h) buf,
  length-entry_bytes stack whole e h,
  length-Represents r,
)

pub read_entries_lem :
    {S : Type 0} {buf : Bytes} {es : List Dirent}
    → Represents buf es
    → (s : S) → read_entries (length es) buf s ≡ done (es, s)
unfolding read_entries
read_entries_lem no_entry s = refl
read_entries_lem {S} (one_entry stack whole e h {buf} {es} r) s =
    let bytes = entry_bytes stack whole e h in
    let size = length-entry_bytes stack whole e h in
    bind_done (read_entry (take entry_size (bytes ++ buf)))
      (λ entry.
        read_entries (length es) (drop entry_size (bytes ++ buf)) >>= λ rest. pure (entry ∷ rest))
      (ap (λ b. read_entry b s) (take-append entry_size bytes buf size)
        ∙ read_entry_lem stack whole e h s)
    ∙ bind_done (read_entries (length es) (drop entry_size (bytes ++ buf)))
        (λ rest. pure (e ∷ rest))
        (ap (λ b. read_entries (length es) b s) (drop-append entry_size bytes buf size)
          ∙ read_entries_lem r s)

pub Represents-append :
    {buf : Bytes} {es : List Dirent} (stack : Bytes) (whole : length stack ≡ entry_size)
    (e : Dirent) (h : IsDirent e)
    → Represents buf es
    → Represents (buf ++ entry_bytes stack whole e h) (es ++ (e ∷ []))
Represents-append stack whole e h no_entry =
    subst (λ b. Represents b (e ∷ [])) (append-nil (entry_bytes stack whole e h))
      (one_entry stack whole e h no_entry)
Represents-append stack whole e h (one_entry stack' whole' e' h' {buf} {es} r) =
    subst (λ b. Represents b (e' ∷ (es ++ (e ∷ []))))
      (sym (append_assoc (entry_bytes stack' whole' e' h') buf (entry_bytes stack whole e h)))
      (one_entry stack' whole' e' h' (Represents-append stack whole e h r))

-- Writing entries that fit gives bytes that stand for them.
pub write_entries_lem :
    {S : Type 0} (stack : ℕ → Bytes) (k : ℕ) (es : List Dirent)
    → ((i : ℕ) → length (stack i) ≡ entry_size)
    → All IsDirent es
    → (buf : Bytes) × ((s : S) → write_entries stack k es s ≡ done (buf, s)) × Represents buf es
unfolding write_entries
write_entries_lem stack k [] whole h = ([], λ s. refl, no_entry)
write_entries_lem {S} stack k (e ∷ es) whole h =
    let (buf, written, r) = write_entries_lem {S = S} stack (k + 1) es whole h.1 in
    (
      entry_bytes (stack k) (whole k) e h.0 ++ buf,
      λ s.
          bind_done (write_entry (stack k) e.inum e.name)
            (λ entry. write_entries stack (k + 1) es >>= λ rest. pure (entry ++ rest))
            (write_entry_lem (stack k) (whole k) e h.0 s)
          ∙ bind_done (write_entries stack (k + 1) es)
              (λ rest. pure (entry_bytes (stack k) (whole k) e h.0 ++ rest)) (written s),
      one_entry (stack k) (whole k) e h.0 r,
    )

-- The count that `readdir_no_seria` works out, where the size fits 32 bits.
pub entry_count :
    {buf : Bytes} {es : List Dirent}
    → Represents buf es
    → entry_size * length es < 2 ^ 32
    → length buf % 2 ^ 32 / entry_size ≡ length es
entry_count r h = omega (arith, length-Represents r)

-- What `rmdir` writes is read back by `readdir`, whatever the memory of the locals held: entries with numbers
-- of 64 bits and names of at most 64 bytes, whose bytes are fewer than 2 ^ 32 together, are all printed, and
-- reading the bytes gives the same entries in the same order.
pub read_entries-write_entries :
    {S : Type 0} (stack : ℕ → Bytes) (es : List Dirent) (s : S)
    → ((i : ℕ) → length (stack i) ≡ entry_size)
    → All IsDirent es
    → entry_size * length es < 2 ^ 32
    → (buf : Bytes) × (write_entries stack 0 es s ≡ done (buf, s))
      × (read_entries (length buf % 2 ^ 32 / entry_size) buf s ≡ done (es, s))
read_entries-write_entries {S} stack es s whole h small =
    let (buf, written, r) = write_entries_lem {S = S} stack 0 es whole h in
    (buf, written s, ap (λ n. read_entries n buf s) (entry_count r small) ∙ read_entries_lem r s)

pub Represents-IsDirent : {buf : Bytes} {es : List Dirent} → Represents buf es → All IsDirent es
Represents-IsDirent no_entry = tt
Represents-IsDirent (one_entry stack whole e h r) = (h, Represents-IsDirent r)
