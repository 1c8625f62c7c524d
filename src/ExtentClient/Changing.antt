-- ===== src/ExtentClient/Changing.antt =====
-- The methods of extent_client.cc that change a file keep the attributes of its cache well; `put` on a file with
-- attributes.
use cse_yet_another_file_sys.Prelude.{
  ℕ, ◌%◌, ◌^◌, ◌<◌, ◌≡◌, ◌≢◌, refl, ap, sym, ◌∙◌, subst, true, false, Option, none, some, arith, [],
  done, done_injective, update, update_self, update_ne, length,
}
use cse_yet_another_file_sys.Bytes.{Bytes}
use cse_yet_another_file_sys.Manager.{Clock, time}
use cse_yet_another_file_sys.Server.{Status}
use cse_yet_another_file_sys.ExtentClient.{
  CachedFile, ExtentClient, file_at, new_file, put, remove, create, store,
}
use cse_yet_another_file_sys.ExtentClient.Interface.{Rpc, IsStore, IsTyped}
use cse_yet_another_file_sys.ExtentClient.Tidy.{
  IsTidy, FitsType, AllTidy, has_attr, changed-AllTidy,
}

-- What `put` makes of the entry of the file.
abbrev rewritten : Bytes → Clock → CachedFile → CachedFile
rewritten buf now file = record file {
  dirty = true;
  buf_valid = true;
  buf = buf;
  attr = record file.attr {
    atime = time now 0;
    ctime = time now 1;
    mtime = time now 2;
    size = length buf % 2 ^ 32;
  };
}

rewritten-IsTidy :
    (memory : CachedFile) (o : Option CachedFile) (type : ℕ) (buf : Bytes) (now : Clock)
    → has_attr o ≡ true
    → FitsType o type
    → IsTidy (rewritten buf now (elim o [ none ↦ new_file memory | some file ↦ file ])) type
rewritten-IsTidy memory none type buf now ready h = absurd (ground (arith, ready))
rewritten-IsTidy memory (some file) type buf now ready h = record {
  both = λ _. ready;
  right = h.right;
}

module _ {R : Type 0} {rpc : Rpc R} {st : IsStore rpc} (ty : IsTyped st) (memory : CachedFile) where
  pub put-AllTidy :
      (c : ExtentClient R) (eid : ℕ) (buf : Bytes) (now : Clock)
      → has_attr (c.cache eid) ≡ true
      → AllTidy ty memory c
      → (r : Status) (t : ExtentClient R) → put memory eid buf now c ≡ done (r, t)
      → AllTidy ty memory t
  unfolding put
  put-AllTidy c eid buf now ready h r t run =
      let ends : store eid (rewritten buf now (file_at memory c eid)) c.server c ≡ t =
        ap (λ p. p.1) (done_injective run) in
      subst (AllTidy ty memory) ends (
        changed-AllTidy ty memory c eid (some (rewritten buf now (file_at memory c eid))) c.server
          (λ _ _. refl)
          (rewritten-IsTidy memory (c.cache eid) (ty.typed c.server eid) buf now ready (h eid)) h)

  pub remove-AllTidy :
      (c : ExtentClient R) (eid : ℕ) (b : Bytes)
      → st.contents c.server eid ≡ some b
      → AllTidy ty memory c
      → (r : Status) (t : ExtentClient R) → remove rpc eid c ≡ done (r, t)
      → AllTidy ty memory t
        × ((j : ℕ) → eid ≢ j → has_attr (t.cache j) ≡ has_attr (c.cache j))
        × ((j : ℕ) → eid ≢ j → ty.typed t.server j ≡ ty.typed c.server j)
  unfolding remove
  remove-AllTidy c eid b there h r t run =
      let server = (rpc.remove eid c.server).1 in
      let after : ExtentClient R = record { cache = update c.cache eid none; server = server } in
      let ends : after ≡ t = ap (λ p. p.1) (done_injective run) in
      let types = ty.remove_typed eid c.server b there in
      (
        subst (AllTidy ty memory) ends (changed-AllTidy ty memory c eid none server types tt h),
        λ j ne.
            ap (λ (u : ExtentClient R). has_attr (u.cache j)) (sym ends)
            ∙ ap has_attr (update_ne c.cache eid j none ne),
        λ j ne. ap (λ (u : ExtentClient R). ty.typed u.server j) (sym ends) ∙ types j ne,
      )

  pub create-AllTidy :
      (c : ExtentClient R) (type old : ℕ) (now : Clock)
      → st.has_room c.server type ≡ true
      → type < 2 ^ 15
      → AllTidy ty memory c
      → (r : Status × ℕ) (t : ExtentClient R) → create rpc memory type old now c ≡ done (r, t)
      → AllTidy ty memory t
        × ((j : ℕ) → r.1 ≢ j → has_attr (t.cache j) ≡ has_attr (c.cache j))
        × (ty.typed t.server ≡ update (ty.typed c.server) r.1 type)
        × (r.1 < 2 ^ 64)
  unfolding create
  create-AllTidy c type old now room fits h r t run =
      let eid = (rpc.create type old c.server).0.1 in
      let server = (rpc.create type old c.server).1 in
      let file : CachedFile = record memory {
        type = type;
        buf = [];
        attr = record memory.attr {
          type = type;
          atime = time now 0;
          ctime = time now 1;
          mtime = time now 2;
        };
        buf_valid = true;
        attr_valid = true;
        dirty = false;
      } in
      let all = done_injective run in
      let ends : store eid file server c ≡ t = ap (λ p. p.1) all in
      let number : eid ≡ r.1 = ap (λ p. p.0.1) all in
      let (small, types) = ty.create_typed type old c.server room fits in
      let at = λ (j : ℕ). ap (λ (m : ℕ → ℕ). m j) types in
      (
        subst (AllTidy ty memory) ends (
            changed-AllTidy ty memory c eid (some file) server
              (λ j ne. at j ∙ update_ne (ty.typed c.server) eid j type ne)
              (record {
                both = λ _. refl;
                right = λ _. sym (at eid ∙ update_self (ty.typed c.server) eid type);
              })
              h),
        λ j ne.
            ap (λ (u : ExtentClient R). has_attr (u.cache j)) (sym ends)
            ∙ ap has_attr (update_ne c.cache eid j (some file) (λ e. ne (sym number ∙ e))),
        ap (λ (u : ExtentClient R). ty.typed u.server) (sym ends)
            ∙ types
            ∙ ap (λ i. update (ty.typed c.server) i type) number,
        omega (arith, small, number),
      )
