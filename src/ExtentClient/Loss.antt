-- ===== src/ExtentClient/Loss.antt =====
-- Where extent_client.cc loses a write: `put` makes the buffer valid and not the attributes, and `getattr`
-- then fetches both and overwrites the buffer.
use cse_yet_another_file_sys.Prelude.{
  ℕ, ◌%◌, ◌^◌, ◌≡◌, refl, ap, ◌∙◌, true, false, none, some, done, update_self, length,
}
use cse_yet_another_file_sys.Bytes.{Bytes}
use cse_yet_another_file_sys.Manager.{Clock, time}
use cse_yet_another_file_sys.Manager.Calls.{Attr}
use cse_yet_another_file_sys.Server.{Status}
use cse_yet_another_file_sys.ExtentClient.{
  CachedFile, ExtentClient, local_file, fetched, file_at, get, getattr, put, store, attr_hit,
  buf_hit,
}
use cse_yet_another_file_sys.ExtentClient.Interface.{Rpc, IsStore}

module _ {R : Type 0} (rpc : Rpc R) (memory : CachedFile) where
  getattr_miss :
      (c : ExtentClient R) (eid : ℕ) (file : CachedFile)
      → c.cache eid ≡ some file
      → file.attr_valid ≡ false
      → getattr rpc memory eid c
        ≡ done (
          (
            (rpc.getattr eid (local_file memory) c.server).0.0,
            (rpc.getattr eid (local_file memory) c.server).0.1.attr,
          ),
          store eid
              (fetched file (rpc.getattr eid (local_file memory) c.server).0.1)
              (rpc.getattr eid (local_file memory) c.server).1
              c,
        )
  unfolding getattr
  getattr_miss c eid file here invalid =
      let at : file_at memory c eid ≡ file = rw (file_at, here) refl in
      let reply = (rpc.getattr eid (local_file memory) c.server).0 in
      let server = (rpc.getattr eid (local_file memory) c.server).1 in
      rw (getattr, here, attr_hit, invalid)
        (ap
          (λ (f : CachedFile).
            done ((reply.0, reply.1.attr), store eid (fetched f reply.1) server c))
          at)

  get_hit :
      (c : ExtentClient R) (eid : ℕ) (file : CachedFile)
      → c.cache eid ≡ some file
      → file.buf_valid ≡ true
      → get rpc memory eid c ≡ done ((Status.ok, file.buf), c)
  unfolding get
  get_hit c eid file here valid = rw (get, here, buf_hit, valid) refl

module _ {R : Type 0} {rpc : Rpc R} (st : IsStore rpc) (memory : CachedFile) where
  -- After a `put` on a file of the server that is not in the cache, and a `getattr`, all answered OK, `get`
  -- answers OK with the server's old bytes: the write is lost, whatever it was.
  pub getattr-put_loses :
      (c : ExtentClient R) (eid : ℕ) (buf b : Bytes) (now : Clock)
      → c.cache eid ≡ none
      → st.contents c.server eid ≡ some b
      → (t u : ExtentClient R) × (a : Attr) × (put memory eid buf now c ≡ done (Status.ok, t))
        × (getattr rpc memory eid t ≡ done ((Status.ok, a), u))
        × (get rpc memory eid u ≡ done ((Status.ok, b), u))
  unfolding put
  getattr-put_loses c eid buf b now absent there =
      let written : CachedFile = record (file_at memory c eid) {
        dirty = true;
        buf_valid = true;
        buf = buf;
        attr = record (file_at memory c eid).attr {
          atime = time now 0;
          ctime = time now 1;
          mtime = time now 2;
          size = length buf % 2 ^ 32;
        };
      } in
      let invalid : written.attr_valid ≡ false = rw (file_at, absent) refl in
      let t : ExtentClient R = store eid written c.server c in
      let in_cache : t.cache eid ≡ some written = update_self c.cache eid (some written) in
      let (ok, same, kept) = st.getattr_law eid (local_file memory) c.server b there in
      let reply = (rpc.getattr eid (local_file memory) c.server).0.1 in
      let server = (rpc.getattr eid (local_file memory) c.server).1 in
      let u : ExtentClient R = store eid (fetched written reply) server t in
      let read : u.cache eid ≡ some (fetched written reply) =
        update_self t.cache eid (some (fetched written reply)) in
      (
        t,
        u,
        reply.attr,
        refl,
        getattr_miss rpc memory t eid written in_cache invalid ∙ rw ok refl,
        get_hit rpc memory u eid (fetched written reply) read refl ∙ rw same refl,
      )
