-- ===== src/ExtentClient/Steps.antt =====
-- Each method of extent_client.cc against what its user sees: reading returns it, `put` changes it,
-- `sync` brings it to the server, and the cache stays coherent.
use cse_yet_another_file_sys.Prelude.{
  length, some_injective, ℕ, ◌%◌, ◌^◌, ◌≡◌, ◌≢◌, ◌⊎◌, refl, ap, sym, ◌∙◌, Bool, true, false, Option,
  none, some, arith, inl, inr, done, Bool-cases, Option-cases, update, update_same,
}
use cse_yet_another_file_sys.Bytes.{Bytes}
use cse_yet_another_file_sys.Manager.{Clock, time}
use cse_yet_another_file_sys.Manager.Calls.{Attr}
use cse_yet_another_file_sys.Server.{Status, FullFile}
use cse_yet_another_file_sys.ExtentClient.{
  CachedFile, ExtentClient, file_at, local_file, fetched, buf_hit, attr_hit, get, getattr, put,
  store,
}
use cse_yet_another_file_sys.ExtentClient.Interface.{Rpc, IsStore}
use cse_yet_another_file_sys.ExtentClient.Seen.{
  seen, seen_in, IsCoherent, IsCached, Fits, changed-IsCoherent, changed-seen,
}

-- A miss: the buffer of the entry is not valid.
pub buf_hit-none :
    (o : Option CachedFile) (there : Option Bytes) → buf_hit o ≡ none → seen_in o there ≡ there
buf_hit-none none there h = refl
buf_hit-none (some file) there h = ground arith

buf_hit-some :
    (o : Option CachedFile) (there : Option Bytes) (file : CachedFile)
    → buf_hit o ≡ some file
    → seen_in o there ≡ some file.buf
buf_hit-some none there file h = ground arith
buf_hit-some (some f) there file h = elim (Bool-cases f.buf_valid) [
  | inl y ↦
      let valid : buf_hit (some f) ≡ some f = rw (buf_hit, y) refl in
      let e : f ≡ file = some_injective (sym valid ∙ h) in rw (y, e) refl
  | inr n ↦ absurd (ground (arith, n))
]

abbrev pub is_dirty : Option CachedFile → Bool
is_dirty none = false
is_dirty (some file) = file.dirty

-- Without a write that waits, the user sees the server's file.
pub clean_there :
    (o : Option CachedFile) (there : Option Bytes)
    → Fits o there
    → is_dirty o ≡ false
    → seen_in o there ≡ there
clean_there none there h d = refl
clean_there (some file) there h d = elim (Bool-cases file.buf_valid) [
  | inl y ↦ rw y (sym (h.clean y d))
  | inr n ↦ rw n refl
]

-- What the user sees is a file of the server.
pub known_there :
    (o : Option CachedFile) (there : Option Bytes) (b : Bytes)
    → Fits o there
    → seen_in o there ≡ some b
    → (b' : Bytes) × (there ≡ some b')
known_there none there b h s = (b, s)
known_there (some file) there b h s = h.known

module _ {R : Type 0} {rpc : Rpc R} (st : IsStore rpc) (memory : CachedFile) where
  -- A file that was fetched is what the server has, unless a write was waiting.
  fetch_lem :
      (c : ExtentClient R) (eid : ℕ) (b : Bytes) (reply : FullFile) (server : R)
      → IsCoherent st c
      → seen st c eid ≡ some b
      → st.contents c.server eid ≡ some b
      → reply.buf ≡ b
      → st.contents server ≡ st.contents c.server
      → (seen st (store eid (fetched (file_at memory c eid) reply) server c) ≡ seen st c)
        × IsCoherent st (store eid (fetched (file_at memory c eid) reply) server c)
  fetch_lem c eid b reply server h s there same kept =
      let cached : IsCached (fetched (file_at memory c eid) reply) (st.contents server eid) =
        record {
          known = (b, ap (λ (m : ℕ → Option Bytes). m eid) kept ∙ there);
          clean = λ _ _. ap (λ (m : ℕ → Option Bytes). m eid) kept ∙ there ∙ ap some (sym same);
          kept = λ _. refl;
        } in
      let others : (j : ℕ) → eid ≢ j → st.contents server j ≡ st.contents c.server j =
        λ j _. ap (λ (m : ℕ → Option Bytes). m j) kept in
      (
        changed-seen st c eid (some (fetched (file_at memory c eid) reply)) server others
            ∙ ap (update (seen st c) eid) (ap some same ∙ sym s)
            ∙ update_same (seen st c) eid,
        changed-IsCoherent st c eid (some (fetched (file_at memory c eid) reply)) server others
            cached h,
      )

  -- `get` returns the bytes that its user sees, with OK; nothing that the user sees of any file changes, and
  -- the cache stays coherent.
  pub get-seen :
      (c : ExtentClient R) (eid : ℕ) (b : Bytes)
      → IsCoherent st c
      → seen st c eid ≡ some b
      → (t : ExtentClient R) × (get rpc memory eid c ≡ done ((Status.ok, b), t))
        × (seen st t ≡ seen st c)
        × IsCoherent st t
  unfolding get
  get-seen c eid b h s = elim (Option-cases (buf_hit (c.cache eid))) [
    | inl miss ↦
        let there : st.contents c.server eid ≡ some b =
          sym (buf_hit-none (c.cache eid) (st.contents c.server eid) miss) ∙ s in
        let reply = (rpc.get eid (local_file memory) c.server).0.1 in
        let server = (rpc.get eid (local_file memory) c.server).1 in
        let (ok, same, kept) = st.get_law eid (local_file memory) c.server b there in
        let (still, coherent) = fetch_lem c eid b reply server h s there same kept in
        (
          store eid (fetched (file_at memory c eid) reply) server c,
          rw (get, miss, ok, same) refl,
          still,
          coherent,
        )
    | inr (file, hit) ↦
        let same : file.buf ≡ b =
          some_injective
            (sym (buf_hit-some (c.cache eid) (st.contents c.server eid) file hit) ∙ s) in
        (c, rw (get, hit, same) refl, refl, h)
  ]

  -- `getattr` answers OK and changes nothing that its user sees, unless the buffer of the file is dirty while
  -- its attributes are not valid; the cache stays coherent.
  pub getattr-seen :
      (c : ExtentClient R) (eid : ℕ) (b : Bytes)
      → IsCoherent st c
      → seen st c eid ≡ some b
      → (is_dirty (c.cache eid) ≡ false) ⊎ (attr_hit (c.cache eid) ≢ none)
      → (a : Attr) × (t : ExtentClient R) × (getattr rpc memory eid c ≡ done ((Status.ok, a), t))
        × (seen st t ≡ seen st c)
        × IsCoherent st t
  unfolding getattr
  getattr-seen c eid b h s ready = elim (Option-cases (attr_hit (c.cache eid))) [
    | inl miss ↦
        let clean : is_dirty (c.cache eid) ≡ false = elim ready [
          | inl d ↦ d
          | inr n ↦ absurd (n miss)
        ] in
        let there : st.contents c.server eid ≡ some b =
          sym (clean_there (c.cache eid) (st.contents c.server eid) (h eid) clean) ∙ s in
        let reply = (rpc.getattr eid (local_file memory) c.server).0.1 in
        let server = (rpc.getattr eid (local_file memory) c.server).1 in
        let (ok, same, kept) = st.getattr_law eid (local_file memory) c.server b there in
        let (still, coherent) = fetch_lem c eid b reply server h s there same kept in
        (
          reply.attr,
          store eid (fetched (file_at memory c eid) reply) server c,
          rw (getattr, miss, ok) refl,
          still,
          coherent,
        )
    | inr (file, hit) ↦ (file.attr, c, rw (getattr, hit) refl, refl, h)
  ]

  -- `put` on a file that its user sees answers OK without a call to the server; the user then sees the new
  -- bytes there and every other file as before, and the cache stays coherent.
  pub put-seen :
      (c : ExtentClient R) (eid : ℕ) (buf b : Bytes) (now : Clock)
      → IsCoherent st c
      → seen st c eid ≡ some b
      → (t : ExtentClient R) × (put memory eid buf now c ≡ done (Status.ok, t))
        × (t.server ≡ c.server)
        × (seen st t ≡ update (seen st c) eid (some buf))
        × IsCoherent st t
  unfolding put
  put-seen c eid buf b now h s =
      let file = file_at memory c eid in
      let written : CachedFile = record file {
        dirty = true;
        buf_valid = true;
        buf = buf;
        attr = record file.attr {
          atime = time now 0;
          ctime = time now 1;
          mtime = time now 2;
          size = length buf % 2 ^ 32;
        };
      } in
      let cached : IsCached written (st.contents c.server eid) = record {
        known = known_there (c.cache eid) (st.contents c.server eid) b (h eid) s;
        clean = λ _ d. ground (arith, d);
        kept = λ _. refl;
      } in
      (
        store eid written c.server c,
        refl,
        refl,
        changed-seen st c eid (some written) c.server (λ _ _. refl),
        changed-IsCoherent st c eid (some written) c.server (λ _ _. refl) cached h,
      )
