-- ===== src/ExtentClient/Keeping.antt =====
-- The order of calls of yfs_client.cc, a `get` before a `put`, keeps the write in the cache of extent_client.cc.
use cse_yet_another_file_sys.Prelude.{ℕ, ◌≡◌, ap, ◌∙◌, Option, some, done, update, update_self}
use cse_yet_another_file_sys.Bytes.{Bytes}
use cse_yet_another_file_sys.Manager.{Clock}
use cse_yet_another_file_sys.Manager.Calls.{Attr}
use cse_yet_another_file_sys.Server.{Status}
use cse_yet_another_file_sys.ExtentClient.{CachedFile, ExtentClient, get, getattr, put}
use cse_yet_another_file_sys.ExtentClient.Interface.{Rpc, IsStore, IsTyped}
use cse_yet_another_file_sys.ExtentClient.Seen.{seen, IsCoherent}
use cse_yet_another_file_sys.ExtentClient.Steps.{get-seen, getattr-seen, put-seen}
use cse_yet_another_file_sys.ExtentClient.Tidy.{AllTidy, attr_ready, get-Loads, getattr-Loads}
use cse_yet_another_file_sys.ExtentClient.Changing.{put-AllTidy}

-- A client whose cache is coherent, and has valid attributes of the file's type wherever a buffer is valid, that reads a
-- file which its user sees and then writes it: a `getattr` after that answers OK with the type that the file has at
-- the server, and a second `get` OK with the bytes that were written. The user sees those bytes in the file, and every
-- other file as before.
pub getattr-put_keeps :
    {R : Type 0} {rpc : Rpc R} {st : IsStore rpc} (ty : IsTyped st) (memory : CachedFile)
    (c : ExtentClient R) (eid : ℕ) (buf b : Bytes) (now : Clock)
    → IsCoherent st c
    → AllTidy ty memory c
    → seen st c eid ≡ some b
    → (t u v w : ExtentClient R) × (a : Attr) × (get rpc memory eid c ≡ done ((Status.ok, b), t))
      × (put memory eid buf now t ≡ done (Status.ok, u))
      × (getattr rpc memory eid u ≡ done ((Status.ok, a), v))
      × (get rpc memory eid v ≡ done ((Status.ok, buf), w))
      × (a.type ≡ ty.typed c.server eid)
      × (seen st w ≡ update (seen st c) eid (some buf))
getattr-put_keeps {st} ty memory c eid buf b now coherent tidy sees =
    let at = λ (m : ℕ → Option Bytes). m eid in
    let (t, got, same1, coherent1) = get-seen st memory c eid b coherent sees in
    let loads = get-Loads ty memory c eid b sees tidy _ t got in
    let (u, written, server, changed, coherent2) =
      put-seen st memory t eid buf b now coherent1 (ap at same1 ∙ sees) in
    let tidy2 = put-AllTidy ty memory t eid buf now loads.ready loads.tidy _ u written in
    let sees2 : seen st u eid ≡ some buf = ap at changed ∙ update_self (seen st t) eid (some buf) in
    let ready =
      attr_ready (u.cache eid) (st.contents u.server eid) (ty.typed u.server eid) (coherent2 eid)
        (tidy2 eid) in
    let (a, v, asked, same3, coherent3) = getattr-seen st memory u eid buf coherent2 sees2 ready in
    let (told, loads3) = getattr-Loads ty memory u eid buf coherent2 sees2 tidy2 _ v asked in
    let (w, again, same4, coherent4) =
      get-seen st memory v eid buf coherent3 (ap at same3 ∙ sees2) in
    (
      t,
      u,
      v,
      w,
      a,
      got,
      written,
      asked,
      again,
      told ∙ ap (λ r. ty.typed r eid) server ∙ ap (λ (m : ℕ → ℕ). m eid) loads.types,
      same4 ∙ same3 ∙ changed ∙ ap (λ m. update m eid (some buf)) same1,
    )
