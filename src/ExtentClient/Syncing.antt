-- ===== src/ExtentClient/Syncing.antt =====
-- The methods of extent_client.cc that always call the server: `sync`, `remove` and `create`.
use cse_yet_another_file_sys.Prelude.{
  some_injective, ℕ, ◌≡◌, ◌≢◌, refl, ap, sym, ◌∙◌, true, false, Option, none, some, arith, inl, inr,
  [], done, Bool-cases, Option-cases, update, update_self, update_ne, update_same, subst,
}
use cse_yet_another_file_sys.Bytes.{Bytes}
use cse_yet_another_file_sys.Manager.{Clock, time}
use cse_yet_another_file_sys.Server.{Status}
use cse_yet_another_file_sys.ExtentClient.{
  CachedFile, ExtentClient, buf_hit, create, remove, sync, store,
}
use cse_yet_another_file_sys.ExtentClient.Interface.{Rpc, IsStore}
use cse_yet_another_file_sys.ExtentClient.Seen.{
  seen, seen_in, IsCoherent, IsCached, Fits, changed-IsCoherent, changed-seen,
}
use cse_yet_another_file_sys.ExtentClient.Steps.{clean_there, known_there}

dirty_buf :
    (file : CachedFile) (there : Option Bytes) (b : Bytes)
    → IsCached file there
    → file.dirty ≡ true
    → seen_in (some file) there ≡ some b
    → file.buf ≡ b
dirty_buf file there b h d s =
    let valid : seen_in (some file) there ≡ some file.buf = rw (seen_in, h.kept d) refl in
    some_injective (sym valid ∙ s)

-- A file that the server does not have is not cached, so the user does not see it.
unseen :
    (o : Option CachedFile) (there : Option Bytes)
    → Fits o there
    → there ≡ none
    → seen_in o there ≡ none
unseen none there h e = e
unseen (some file) there h e = ground (arith, h.known.1)

-- What a `sync` comes to: all that the user sees is at the server, and the next `get` asks there.
pub record Syncs {R : Type 0} {rpc : Rpc R} (st : IsStore rpc) (c : ExtentClient R) (eid : ℕ)
    (b : Bytes) : Type 0 where
  pub after : ExtentClient R
  pub result : sync rpc eid c ≡ done (Status.ok, after)
  pub stored : st.contents after.server eid ≡ some b
  pub asks : buf_hit (after.cache eid) ≡ none
  pub same : seen st after ≡ seen st c
  pub coherent : IsCoherent st after

module _ {R : Type 0} {rpc : Rpc R} (st : IsStore rpc) where
  module _ (c : ExtentClient R) (eid : ℕ) (b : Bytes) (h : IsCoherent st c)
      (s : seen st c eid ≡ some b) (file : CachedFile) (here : c.cache eid ≡ some file) where
    abbrev flushed : CachedFile
    flushed = record file { buf_valid = false; attr_valid = false; dirty = false }

    fits : IsCached file (st.contents c.server eid)
    fits = subst (λ (o : Option CachedFile). Fits o (st.contents c.server eid)) here (h eid)

    seen_here : seen_in (some file) (st.contents c.server eid) ≡ some b
    seen_here = sym (ap (λ (o : Option CachedFile). seen_in o (st.contents c.server eid)) here) ∙ s

    -- An entry that is not valid any more, over a server that has what the user sees.
    settled :
        (server : R)
        → st.contents server ≡ update (st.contents c.server) eid (some b)
        → sync rpc eid c ≡ done (Status.ok, store eid flushed server c)
        → Syncs st c eid b
    settled server changed result =
        let stored : st.contents server eid ≡ some b =
          ap (λ (m : ℕ → Option Bytes). m eid) changed
          ∙ update_self (st.contents c.server) eid (some b) in
        let others : (j : ℕ) → eid ≢ j → st.contents server j ≡ st.contents c.server j = λ j ne.
          ap (λ (m : ℕ → Option Bytes). m j) changed
          ∙ update_ne (st.contents c.server) eid j (some b) ne in
        let cached : IsCached flushed (st.contents server eid) = record {
          known = (b, stored);
          clean = λ v _. ground (arith, v);
          kept = λ d. ground (arith, d);
        } in
        record {
          after = store eid flushed server c;
          result = result;
          stored = stored;
          asks = rw (update_self c.cache eid (some flushed)) refl;
          same =
              changed-seen st c eid (some flushed) server others
              ∙ ap (update (seen st c) eid) (stored ∙ sym s)
              ∙ update_same (seen st c) eid;
          coherent = changed-IsCoherent st c eid (some flushed) server others cached h;
        }

    sync_dirty : file.dirty ≡ true → st.accepts c.server eid b ≡ true → Syncs st c eid b
    unfolding sync
    sync_dirty d room =
        let same : file.buf ≡ b = dirty_buf file (st.contents c.server eid) b fits d seen_here in
        let (there, known) = fits.known in
        let (ok, changed) = st.put_law eid b c.server there known room in
        settled (rpc.put eid b c.server).1 changed (rw (sync, here, d, same, ok) refl)

    sync_clean : file.dirty ≡ false → Syncs st c eid b
    unfolding sync
    sync_clean d =
        let there : st.contents c.server eid ≡ some b =
          sym (clean_there (some file) (st.contents c.server eid) fits d) ∙ seen_here in
        settled c.server
          (sym (
            ap (update (st.contents c.server) eid) (sym there)
            ∙ update_same (st.contents c.server) eid))
          (rw (sync, here, d) refl)

  -- `sync` of a file that the user sees, whose bytes the server accepts, answers OK; the server then has what
  -- the user sees, the next `get` asks the server, nothing that the user sees of any file changes, and
  -- the cache stays coherent.
  pub sync-Syncs :
      (c : ExtentClient R) (eid : ℕ) (b : Bytes)
      → IsCoherent st c
      → seen st c eid ≡ some b
      → st.accepts c.server eid b ≡ true
      → Syncs st c eid b
  unfolding sync
  sync-Syncs c eid b h s room = elim (Option-cases (c.cache eid)) [
    | inl absent ↦ record {
      after = c;
      result = rw (sync, absent) refl;
      stored =
          sym (ap (λ (o : Option CachedFile). seen_in o (st.contents c.server eid)) absent) ∙ s;
      asks = rw absent refl;
      same = refl;
      coherent = h;
    }
    | inr (file, here) ↦ elim (Bool-cases file.dirty) [
      | inl d ↦ sync_dirty c eid b h s file here d room
      | inr d ↦ sync_clean c eid b h s file here d
    ]
  ]

  -- `remove` of a file that the user sees answers OK and takes it away, at the server and in the cache;
  -- nothing else that the user sees changes, and the cache stays coherent.
  pub remove-seen :
      (c : ExtentClient R) (eid : ℕ) (b : Bytes)
      → IsCoherent st c
      → seen st c eid ≡ some b
      → (t : ExtentClient R) × (remove rpc eid c ≡ done (Status.ok, t))
        × (st.contents t.server eid ≡ none)
        × (seen st t ≡ update (seen st c) eid none)
        × IsCoherent st t
  unfolding remove
  remove-seen c eid b h s =
      let (there, known) = known_there (c.cache eid) (st.contents c.server eid) b (h eid) s in
      let (ok, changed) = st.remove_law eid c.server there known in
      let server = (rpc.remove eid c.server).1 in
      let gone : st.contents server eid ≡ none =
        ap (λ (m : ℕ → Option Bytes). m eid) changed
        ∙ update_self (st.contents c.server) eid none in
      let others : (j : ℕ) → eid ≢ j → st.contents server j ≡ st.contents c.server j = λ j ne.
        ap (λ (m : ℕ → Option Bytes). m j) changed
        ∙ update_ne (st.contents c.server) eid j none ne in
      (
        record { cache = update c.cache eid none; server = server },
        rw ok refl,
        gone,
        changed-seen st c eid none server others ∙ ap (update (seen st c) eid) gone,
        changed-IsCoherent st c eid none server others tt h,
      )

  -- `create`, when the server has room for its type, answers OK with a number under which the user saw no file and now sees
  -- an empty one; nothing else that the user sees changes, and the cache stays coherent.
  pub create-seen :
      (c : ExtentClient R) (memory : CachedFile) (type old : ℕ) (now : Clock)
      → IsCoherent st c
      → st.has_room c.server type ≡ true
      → (eid : ℕ) × (t : ExtentClient R) × (create rpc memory type old now c
          ≡ done ((Status.ok, eid), t))
        × (seen st c eid ≡ none)
        × (seen st t ≡ update (seen st c) eid (some []))
        × IsCoherent st t
  unfolding create
  create-seen c memory type old now h room =
      let (ok, unused, changed) = st.create_law type old c.server room in
      let eid = (rpc.create type old c.server).0.1 in
      let server = (rpc.create type old c.server).1 in
      let file : CachedFile = record memory {
        type = type;
        buf = [];
        attr = record memory.attr {
          type = type;
          atime = time now 0;
          ctime = time now 1;
          mtime = time now 2;
        };
        buf_valid = true;
        attr_valid = true;
        dirty = false;
      } in
      let there : st.contents server eid ≡ some [] =
        ap (λ (m : ℕ → Option Bytes). m eid) changed
        ∙ update_self (st.contents c.server) eid (some []) in
      let others : (j : ℕ) → eid ≢ j → st.contents server j ≡ st.contents c.server j = λ j ne.
        ap (λ (m : ℕ → Option Bytes). m j) changed
        ∙ update_ne (st.contents c.server) eid j (some []) ne in
      (
        eid,
        store eid file server c,
        rw ok refl,
        unseen (c.cache eid) (st.contents c.server eid) (h eid) unused,
        changed-seen st c eid (some file) server others,
        changed-IsCoherent st c eid (some file) server others
            (record { known = ([], there); clean = λ _ _. there; kept = λ _. refl }) h,
      )
