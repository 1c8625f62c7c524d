-- ===== src/Fuse/Reading.antt =====
-- Reading a directory through `fuseserver_readdir` of fuse.cc.
use cse_yet_another_file_sys.Prelude.{
  ℕ, ◌+◌, ◌-◌, ◌≤◌, ◌≡◌, refl, ap, sym, ◌∙◌, done, List, [], ◌∷◌, ◌++◌, length, take, drop, arith,
  inl, inr, min, lt→ltb, le→ltb, le-or-lt, length-append, append_assoc, length-take, length-drop,
  take-append-drop, append-nil, take_all, continue,
}
use cse_yet_another_file_sys.Bytes.{Bytes}
use cse_yet_another_file_sys.Manager.Calls.{t_dir}
use cse_yet_another_file_sys.YfsClient.{Extents, Yfs, isdir, acquired, released}
use cse_yet_another_file_sys.YfsClient.Format.{Dirent}
use cse_yet_another_file_sys.YfsClient.Files.{IsFileStore}
use cse_yet_another_file_sys.YfsClient.Listing.{HasDir, HasDir-same, readdir-file}
use cse_yet_another_file_sys.YfsClient.Ranges.{drop_all, take_nil}
use cse_yet_another_file_sys.Fuse.{
  Reply, FuseLib, DirBuf, c_str, dirbuf_add, dirbuf_add_all, reply_buf_limited,
}
use cse_yet_another_file_sys.Fuse.Handlers.{fuseserver_readdir}
use cse_yet_another_file_sys.Fuse.Attributes.{has_type-file}

-- The whole directory as libfuse writes it: each entry has the position of the next one.
unfoldable pub listing : FuseLib → ℕ → List Dirent → Bytes
unfolding c_str
listing lib pos [] = []
listing lib pos (e ∷ es) =
    let next = pos + lib.dirent_size (length (c_str e.name)) in
    lib.dirent_bytes (c_str e.name) e.inum next ++ listing lib next es

-- What the loop over the entries leaves in the buffer.
dirbuf_add_all-listing :
    (lib : FuseLib) (b : DirBuf) (es : List Dirent)
    → b.size ≡ length b.p
    → ((dirbuf_add_all lib b es).p ≡ b.p ++ listing lib b.size es)
      × ((dirbuf_add_all lib b es).size ≡ length (dirbuf_add_all lib b es).p)
unfolding dirbuf_add_all listing dirbuf_add
dirbuf_add_all-listing lib b [] h = (sym (append-nil b.p), h)
dirbuf_add_all-listing lib b (e ∷ es) h =
    let next = b.size + lib.dirent_size (length (c_str e.name)) in
    let bytes = lib.dirent_bytes (c_str e.name) e.inum next in
    let (p, size) =
      dirbuf_add_all-listing lib (dirbuf_add lib b (c_str e.name) e.inum) es
        (omega (arith, length-append b.p bytes, lib.length_law (c_str e.name) e.inum next)) in
    (p ∙ append_assoc b.p bytes (listing lib next es), size)

take-min : (k n : ℕ) (xs : Bytes) → length xs ≤ k → take (min k n) xs ≡ take n xs
take-min k n xs h = elim (le-or-lt n k) [
  | inl le ↦ let e : min k n ≡ n = omega arith in rw e refl
  | inr lt ↦
      let e : min k n ≡ k = omega arith in
      rw e (take_all k xs h ∙ sym (take_all n xs (omega arith)))
]

take_rest : (n : ℕ) (xs : Bytes) → take n xs ++ drop (length (take n xs)) xs ≡ xs
take_rest n xs = elim (le-or-lt n (length xs)) [
  | inl le ↦
      let e : length (take n xs) ≡ n = omega (arith, length-take n xs) in
      ap (λ k. take n xs ++ drop k xs) e ∙ take-append-drop n xs
  | inr lt ↦
      let whole = take_all n xs (omega arith) in
      ap (λ (b : Bytes). b ++ drop (length b) xs) whole
      ∙ ap (◌++◌ xs) (drop_all (length xs) xs (omega arith))
      ∙ append-nil xs
]

-- A part of the buffer, on both branches.
reply_buf_limited_lem :
    (p : Bytes) (off maxsize : ℕ)
    → reply_buf_limited p (length p) off maxsize ≡ Reply.reply_buf (take maxsize (drop off p))
unfolding reply_buf_limited
reply_buf_limited_lem p off maxsize = elim (le-or-lt (length p) off) [
  | inl past ↦
      rw (le→ltb off (length p) past, drop_all off p past)
        (ap Reply.reply_buf (sym (take_nil maxsize)))
  | inr inside ↦ rw (lt→ltb off (length p) inside) (
      ap Reply.reply_buf
        (take-min (length p - off) maxsize (drop off p) (omega (arith, length-drop off p))))
]

module _ {S : Type 0} {ext : Extents S} (st : IsFileStore ext) (lib : FuseLib) (dir : ℕ) where
  -- A request for `size` bytes of a directory from an offset on is answered with those bytes of the whole
  -- listing (each entry with its name up to the first zero byte, its number and the offset of the next entry), or
  -- as many as there are; no file changes.
  pub fuseserver_readdir-file :
      (y : Yfs S) (es : List Dirent) (size off : ℕ)
      → HasDir st y.extents dir es
      → (z : Yfs S) × (fuseserver_readdir ext lib dir size off y
          ≡ done (Reply.reply_buf (take size (drop off (listing lib 0 es))), z))
        × (st.file z.extents ≡ st.file y.extents)
  unfolding fuseserver_readdir isdir
  fuseserver_readdir-file y es size off d =
      let (y1, typed, same1, valid1) = has_type-file st y t_dir dir _ d.valid d.there in
      let (t, listed, same2, _) = readdir-file st y1 dir es (HasDir-same valid1 same1 d) in
      let b : DirBuf = record { p = []; size = 0 } in
      let (p, len) = dirbuf_add_all-listing lib b es refl in
      let whole : reply_buf_limited (dirbuf_add_all lib b es).p (dirbuf_add_all lib b es).size off
            size
          ≡ Reply.reply_buf (take size (drop off (listing lib 0 es))) =
        rw len (
          reply_buf_limited_lem (dirbuf_add_all lib b es).p off size
          ∙ ap (λ (q : Bytes). Reply.reply_buf (take size (drop off q))) p) in
      (
        record { extents = t; events = released dir ∷ acquired dir ∷ y1.events },
        rw (typed, continue, listed, whole) refl,
        same2 ∙ same1,
      )
