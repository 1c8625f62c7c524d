-- ===== src/ExtentClient/Seen.antt =====
-- What a user of extent_client.cc sees of a file, through the cache: the buffer that is valid there, or
-- else what the server has. A cache is coherent when its clean buffers are the server's.
use cse_yet_another_file_sys.Prelude.{
  ℕ, ◌≡◌, ◌≢◌, sym, fun_ext, true, false, Option, none, some, arith, inl, inr, Bool-cases, ==_iff,
  ◌==◌, update, update_self, update_ne, if◌then◌else◌,
}
use cse_yet_another_file_sys.Bytes.{Bytes}
use cse_yet_another_file_sys.ExtentClient.{CachedFile, ExtentClient}
use cse_yet_another_file_sys.ExtentClient.Interface.{Rpc, IsStore}

abbrev pub seen_in : Option CachedFile → Option Bytes → Option Bytes
seen_in none there = there
seen_in (some file) there = if file.buf_valid then some file.buf else there

-- A cached file is one that the server has; a clean valid buffer is the server's; a dirty one is valid.
pub record IsCached (file : CachedFile) (there : Option Bytes) : Type 0 where
  pub known : (b : Bytes) × (there ≡ some b)
  pub clean : file.buf_valid ≡ true → file.dirty ≡ false → there ≡ some file.buf
  pub kept : file.dirty ≡ true → file.buf_valid ≡ true

abbrev pub Fits : Option CachedFile → Option Bytes → Type 0
Fits none there = Unit
Fits (some file) there = IsCached file there

module _ {R : Type 0} {rpc : Rpc R} (st : IsStore rpc) where
  abbrev pub seen : ExtentClient R → ℕ → Option Bytes
  seen c id = seen_in (c.cache id) (st.contents c.server id)

  abbrev pub IsCoherent : ExtentClient R → Type 0
  IsCoherent c = (id : ℕ) → Fits (c.cache id) (st.contents c.server id)

  -- A step changes one entry of the cache, and one file of the server at most.
  module _ (c : ExtentClient R) (eid : ℕ) (entry : Option CachedFile) (server : R)
      (others : (j : ℕ) → eid ≢ j → st.contents server j ≡ st.contents c.server j) where
    abbrev after : ExtentClient R
    after = record { cache = update c.cache eid entry; server = server }

    pub changed-IsCoherent : Fits entry (st.contents server eid) → IsCoherent c → IsCoherent after
    changed-IsCoherent fits h id = elim (Bool-cases (eid == id)) [
      | inl y ↦
          let here : eid ≡ id = (==_iff eid id).0 y in
          rw (← here, update_self c.cache eid entry) fits
      | inr n ↦ rw (update_ne c.cache eid id entry (ground arith), others id (ground arith)) (h id)
    ]

    pub changed-seen : seen after ≡ update (seen c) eid (seen_in entry (st.contents server eid))
    changed-seen = fun_ext λ id. elim (Bool-cases (eid == id)) [
      | inl y ↦
          let here : eid ≡ id = (==_iff eid id).0 y in
          rw (← here, update_self c.cache eid entry)
            (sym (update_self (seen c) eid (seen_in entry (st.contents server eid))))
      | inr n ↦
          rw (update_ne c.cache eid id entry (ground arith), others id (ground arith))
            (sym (update_ne (seen c) eid id _ (ground arith)))
    ]
