-- ===== src/ExtentClient/Tidy.antt =====
-- The attributes that the cache of extent_client.cc keeps: a valid buffer comes with valid attributes, and those
-- have the type that the file has. Of the methods only `put` can break this, on a file without attributes.
use cse_yet_another_file_sys.Prelude.{
  ℕ, ◌≡◌, ◌≢◌, ◌⊎◌, refl, ap, sym, ◌∙◌, subst, Bool, true, false, Option, none, some, arith, inl,
  inr, done, done_injective, Bool-cases, Option-cases, ==_iff, ◌==◌, update, update_self, update_ne,
  some_injective,
}
use cse_yet_another_file_sys.Bytes.{Bytes}
use cse_yet_another_file_sys.Manager.Calls.{Attr}
use cse_yet_another_file_sys.Server.{Status, FullFile}
use cse_yet_another_file_sys.ExtentClient.{
  CachedFile, ExtentClient, file_at, local_file, fetched, buf_hit, attr_hit, get, getattr, store,
}
use cse_yet_another_file_sys.ExtentClient.Interface.{Rpc, IsStore, IsTyped}
use cse_yet_another_file_sys.ExtentClient.Seen.{seen, IsCoherent, Fits}
use cse_yet_another_file_sys.ExtentClient.Steps.{buf_hit-none, known_there, is_dirty}

pub record IsTidy (file : CachedFile) (type : ℕ) : Type 0 where
  pub both : file.buf_valid ≡ true → file.attr_valid ≡ true
  pub right : file.attr_valid ≡ true → file.attr.type ≡ type

abbrev pub FitsType : Option CachedFile → ℕ → Type 0
FitsType none type = Unit
FitsType (some file) type = IsTidy file type

abbrev pub has_attr : Option CachedFile → Bool
has_attr none = false
has_attr (some file) = file.attr_valid

buf_hit-has_attr :
    (o : Option CachedFile) (type : ℕ) (file : CachedFile)
    → FitsType o type
    → buf_hit o ≡ some file
    → has_attr o ≡ true
buf_hit-has_attr none type file h hit = absurd (ground (arith, hit))
buf_hit-has_attr (some f) type file h hit = elim (Bool-cases f.buf_valid) [
  | inl y ↦ h.both y
  | inr n ↦ absurd (ground (arith, n, hit))
]

attr_hit-has_attr :
    (o : Option CachedFile) (type : ℕ) (file : CachedFile)
    → FitsType o type
    → attr_hit o ≡ some file
    → (has_attr o ≡ true) × (file.attr.type ≡ type)
attr_hit-has_attr none type file h hit = absurd (ground (arith, hit))
attr_hit-has_attr (some f) type file h hit = elim (Bool-cases f.attr_valid) [
  | inl y ↦
      let valid : attr_hit (some f) ≡ some f = rw (attr_hit, y) refl in
      let same : f ≡ file = some_injective (sym valid ∙ hit) in
      (y, ap (λ (g : CachedFile). g.attr.type) (sym same) ∙ h.right y)
  | inr n ↦ absurd (ground (arith, n, hit))
]

-- The attributes of a dirty file are valid.
pub attr_ready :
    (o : Option CachedFile) (there : Option Bytes) (type : ℕ)
    → Fits o there
    → FitsType o type
    → (is_dirty o ≡ false) ⊎ (attr_hit o ≢ none)
attr_ready none there type h k = inl refl
attr_ready (some file) there type h k = elim (Bool-cases file.dirty) [
  | inl y ↦ let valid = k.both (h.kept y) in inr (λ e. absurd (ground (arith, valid, e)))
  | inr n ↦ inl n
]

module _ {R : Type 0} {rpc : Rpc R} {st : IsStore rpc} (ty : IsTyped st) (memory : CachedFile) where
  abbrev pub AllTidy : ExtentClient R → Type 0
  AllTidy c = (id : ℕ) → FitsType (c.cache id) (ty.typed c.server id)

  pub changed-AllTidy :
      (c : ExtentClient R) (eid : ℕ) (entry : Option CachedFile) (server : R)
      → ((j : ℕ) → eid ≢ j → ty.typed server j ≡ ty.typed c.server j)
      → FitsType entry (ty.typed server eid)
      → AllTidy c
      → AllTidy (record { cache = update c.cache eid entry; server = server })
  changed-AllTidy c eid entry server others fits h id = elim (Bool-cases (eid == id)) [
    | inl y ↦
        let here : eid ≡ id = (==_iff eid id).0 y in rw (← here, update_self c.cache eid entry) fits
    | inr n ↦ rw (update_ne c.cache eid id entry (ground arith), others id (ground arith)) (h id)
  ]

  -- What reading a file leaves.
  pub record Loads (c : ExtentClient R) (eid : ℕ) (t : ExtentClient R) : Type 0 where
    pub tidy : AllTidy t
    pub ready : has_attr (t.cache eid) ≡ true
    pub types : ty.typed t.server ≡ ty.typed c.server
    pub room : st.has_room t.server ≡ st.has_room c.server

  -- A miss, from what the reply and the server are then.
  fetch-Loads :
      (c : ExtentClient R) (eid : ℕ) (reply : FullFile) (server : R)
      → AllTidy c
      → reply.attr.type ≡ ty.typed c.server eid
      → ty.typed server ≡ ty.typed c.server
      → st.has_room server ≡ st.has_room c.server
      → Loads c eid (store eid (fetched (file_at memory c eid) reply) server c)
  fetch-Loads c eid reply server h typed types room =
      let at = λ (j : ℕ). ap (λ (m : ℕ → ℕ). m j) types in
      record {
        tidy =
            changed-AllTidy c eid (some (fetched (file_at memory c eid) reply)) server (λ j _. at j)
              (record { both = λ _. refl; right = λ _. typed ∙ sym (at eid) }) h;
        ready = ap has_attr (update_self c.cache eid _);
        types = types;
        room = room;
      }

  pub get-Loads :
      (c : ExtentClient R) (eid : ℕ) (b : Bytes)
      → seen st c eid ≡ some b
      → AllTidy c
      → (r : Status × Bytes) (t : ExtentClient R) → get rpc memory eid c ≡ done (r, t)
      → Loads c eid t
  unfolding get
  get-Loads c eid b s h r t run = elim (Option-cases (buf_hit (c.cache eid))) [
    | inl miss ↦
        let there : st.contents c.server eid ≡ some b =
          sym (buf_hit-none (c.cache eid) (st.contents c.server eid) miss) ∙ s in
        let reply = (rpc.get eid (local_file memory) c.server).0.1 in
        let server = (rpc.get eid (local_file memory) c.server).1 in
        let (typed, types, room) = ty.get_typed eid (local_file memory) c.server b there in
        let ret = (rpc.get eid (local_file memory) c.server).0.0 in
        let after = store eid (fetched (file_at memory c eid) reply) server c in
        let runs : get rpc memory eid c ≡ done ((ret, reply.buf), after) = rw (get, miss) refl in
        let ends : after ≡ t = ap (λ p. p.1) (done_injective (sym runs ∙ run)) in
        subst (Loads c eid) ends (fetch-Loads c eid reply server h typed types room)
    | inr (file, hit) ↦
        let runs : get rpc memory eid c ≡ done ((Status.ok, file.buf), c) = rw (get, hit) refl in
        let ends : c ≡ t = ap (λ p. p.1) (done_injective (sym runs ∙ run)) in
        subst (Loads c eid) ends (record {
          tidy = h;
          ready = buf_hit-has_attr (c.cache eid) (ty.typed c.server eid) file (h eid) hit;
          types = refl;
          room = refl;
        })
  ]

  pub getattr-Loads :
      (c : ExtentClient R) (eid : ℕ) (b : Bytes)
      → IsCoherent st c
      → seen st c eid ≡ some b
      → AllTidy c
      → (r : Status × Attr) (t : ExtentClient R) → getattr rpc memory eid c ≡ done (r, t)
      → (r.1.type ≡ ty.typed c.server eid) × Loads c eid t
  unfolding getattr
  getattr-Loads c eid b coherent s h r t run = elim (Option-cases (attr_hit (c.cache eid))) [
    | inl miss ↦
        let (there, known) =
          known_there (c.cache eid) (st.contents c.server eid) b (coherent eid) s in
        let reply = (rpc.getattr eid (local_file memory) c.server).0.1 in
        let server = (rpc.getattr eid (local_file memory) c.server).1 in
        let (typed, types, room) = ty.getattr_typed eid (local_file memory) c.server there known in
        let ret = (rpc.getattr eid (local_file memory) c.server).0.0 in
        let after = store eid (fetched (file_at memory c eid) reply) server c in
        let runs : getattr rpc memory eid c ≡ done ((ret, reply.attr), after) =
          rw (getattr, miss) refl in
        let all = done_injective (sym runs ∙ run) in
        let ends : after ≡ t = ap (λ p. p.1) all in
        let told : reply.attr ≡ r.1 = ap (λ p. p.0.1) all in
        (
          ap (λ (a : Attr). a.type) (sym told) ∙ typed,
          subst (Loads c eid) ends (fetch-Loads c eid reply server h typed types room),
        )
    | inr (file, hit) ↦
        let (ready, typed) =
          attr_hit-has_attr (c.cache eid) (ty.typed c.server eid) file (h eid) hit in
        let runs : getattr rpc memory eid c ≡ done ((Status.ok, file.attr), c) =
          rw (getattr, hit) refl in
        let all = done_injective (sym runs ∙ run) in
        let ends : c ≡ t = ap (λ p. p.1) all in
        let told : file.attr ≡ r.1 = ap (λ p. p.0.1) all in
        (
          ap (λ (a : Attr). a.type) (sym told) ∙ typed,
          subst (Loads c eid) ends (record { tidy = h; ready = ready; types = refl; room = refl }),
        )
  ]
