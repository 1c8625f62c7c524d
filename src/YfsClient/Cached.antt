-- ===== src/YfsClient/Cached.antt =====
-- The extent client of extent_client.cc is the store of files that yfs_client.cc relies on: over any server that keeps
-- contents and types, and so over that of extent_server.cc.
use cse_yet_another_file_sys.Prelude.{
  ℕ, ◌+◌, ◌^◌, ◌≡◌, ◌≢◌, refl, ap, ap₂, ◌∙◌, fun_ext, Bool, ◌&&◌, ltb, ◌==◌, Bool-cases, inl, inr,
  Option, none, some, some_injective, update, update_self, update_ne, ==_iff, arith, [],
}
use cse_yet_another_file_sys.Bytes.{Bytes}
use cse_yet_another_file_sys.Manager.{Clock}
use cse_yet_another_file_sys.Server.View.{File}
use cse_yet_another_file_sys.ExtentClient.{
  CachedFile, ExtentClient, create, get, getattr, put, remove,
}
use cse_yet_another_file_sys.ExtentClient.Interface.{Rpc, IsStore, IsTyped}
use cse_yet_another_file_sys.ExtentClient.Seen.{seen, IsCoherent}
use cse_yet_another_file_sys.ExtentClient.Steps.{known_there, get-seen, getattr-seen, put-seen}
use cse_yet_another_file_sys.ExtentClient.Syncing.{remove-seen, create-seen}
use cse_yet_another_file_sys.ExtentClient.Tidy.{
  AllTidy, has_attr, attr_ready, get-Loads, getattr-Loads,
}
use cse_yet_another_file_sys.ExtentClient.Changing.{put-AllTidy, remove-AllTidy, create-AllTidy}
use cse_yet_another_file_sys.YfsClient.Files.{IsFileStore}
use cse_yet_another_file_sys.YfsClient.Session.{Session, step_done, client_extents}

abbrev pub with_type : Option Bytes → ℕ → Option File
with_type none type = none
with_type (some b) type = some (record { type = type; bytes = b })

with_type_lem :
    (o : Option Bytes) (type : ℕ) (f : File)
    → with_type o type ≡ some f
    → (o ≡ some f.bytes) × (type ≡ f.type)
with_type_lem none type f h = absurd (ground (arith, h))
with_type_lem (some b) type f h =
    let e = some_injective h in (ap (λ (g : File). some g.bytes) e, ap (λ (g : File). g.type) e)

-- The files, from what is seen of them and their types.
abbrev pub files_of : (ℕ → Option Bytes) → (ℕ → ℕ) → ℕ → Option File
files_of v types i = with_type (v i) (types i)

-- One file is seen differently, and the types of the others stay.
files_of-update :
    (v : ℕ → Option Bytes) (types types' : ℕ → ℕ) (i : ℕ) (o : Option Bytes)
    → ((j : ℕ) → i ≢ j → types' j ≡ types j)
    → files_of (update v i o) types' ≡ update (files_of v types) i (with_type o (types' i))
files_of-update v types types' i o others = fun_ext λ j. elim (Bool-cases (i == j)) [
  | inl y ↦ let e : i ≡ j = (==_iff i j).0 y in rw (y, e) refl
  | inr n ↦ rw (n, others j (ground arith)) refl
]

module _ {R : Type 0} {rpc : Rpc R} (st : IsStore rpc) (ty : IsTyped st) (memory : ℕ → CachedFile)
    (now : ℕ → Clock) where
  abbrev pub session_files : Session R → ℕ → Option File
  session_files s = files_of (seen st s.client) (ty.typed s.client.server)

  -- The cache is coherent, and its attributes are kept well.
  abbrev pub IsSteady : Session R → Type 0
  IsSteady s = IsCoherent st s.client × AllTidy ty (memory 0) s.client

  abbrev next : Session R → ExtentClient R → Session R
  next s c = record { client = c; calls = s.calls + 1 }

  same_files :
      (s : Session R) (c : ExtentClient R)
      → seen st c ≡ seen st s.client
      → ty.typed c.server ≡ ty.typed s.client.server
      → session_files (next s c) ≡ session_files s
  same_files s c same types = ap₂ files_of same types

  pub client_files : IsFileStore (client_extents rpc memory now)
  client_files = record {
    IsValid = IsSteady;
    file = session_files;
    ready = λ s i. has_attr (s.client.cache i);
    has_room = λ s type. st.has_room s.client.server type && ltb type (2 ^ 15);
    get_law = λ s i f (coherent, tidy) here.
        let c = s.client in
        let (sees, typed) = with_type_lem (seen st c i) (ty.typed c.server i) f here in
        let (t, run, same, coherent') = get-seen st (memory s.calls) c i f.bytes coherent sees in
        let loads = get-Loads ty (memory s.calls) c i f.bytes sees tidy _ t run in
        (
          next s t,
          step_done (get rpc (memory s.calls) i) s run,
          same_files s t same loads.types,
          (coherent', loads.tidy),
          loads.ready,
          fun_ext λ type. ap (λ (m : ℕ → Bool). m type && ltb type (2 ^ 15)) loads.room,
        );
    getattr_law = λ s i f (coherent, tidy) here.
        let c = s.client in
        let (sees, typed) = with_type_lem (seen st c i) (ty.typed c.server i) f here in
        let ready =
          attr_ready (c.cache i) (st.contents c.server i) (ty.typed c.server i) (coherent i)
            (tidy i) in
        let (a, t, run, same, coherent') =
          getattr-seen st (memory s.calls) c i f.bytes coherent sees ready in
        let (told, loads) =
          getattr-Loads ty (memory s.calls) c i f.bytes coherent sees tidy _ t run in
        (
          next s t,
          a,
          step_done (getattr rpc (memory s.calls) i) s run,
          told ∙ typed,
          same_files s t same loads.types,
          (coherent', loads.tidy),
          loads.ready,
          fun_ext λ type. ap (λ (m : ℕ → Bool). m type && ltb type (2 ^ 15)) loads.room,
        );
    put_law = λ s i buf f (coherent, tidy) here ready.
        let c = s.client in
        let (sees, typed) = with_type_lem (seen st c i) (ty.typed c.server i) f here in
        let (t, run, server, changed, coherent') =
          put-seen st (memory s.calls) c i buf f.bytes (now s.calls) coherent sees in
        let types = ap ty.typed server in
        (
          next s t,
          step_done (put (memory s.calls) i buf (now s.calls)) s run,
          ap₂ files_of changed types
              ∙ files_of-update (seen st c) (ty.typed c.server) (ty.typed c.server) i (some buf)
                  (λ j _. refl)
              ∙ ap (λ k. update (session_files s) i (with_type (some buf) k)) typed,
          (coherent', put-AllTidy ty (memory s.calls) c i buf (now s.calls) ready tidy _ t run),
        );
    remove_law = λ s i f (coherent, tidy) here.
        let c = s.client in
        let (sees, typed) = with_type_lem (seen st c i) (ty.typed c.server i) f here in
        let (b, there) =
          known_there (c.cache i) (st.contents c.server i) f.bytes (coherent i) sees in
        let (t, run, gone, changed, coherent') = remove-seen st c i f.bytes coherent sees in
        let (tidy', ready, types) = remove-AllTidy ty (memory s.calls) c i b there tidy _ t run in
        (
          next s t,
          step_done (remove rpc i) s run,
          ap (λ v. files_of v (ty.typed t.server)) changed
              ∙ files_of-update (seen st c) (ty.typed c.server) (ty.typed t.server) i none types,
          (coherent', tidy'),
          ready,
        );
    create_law = λ s type old (coherent, tidy) room.
        let c = s.client in
        let (i, t, run, unseen, changed, coherent') =
          create-seen st c (memory s.calls) type old (now s.calls) coherent
            (ground (arith, room)) in
        let (tidy', ready, types, small) =
          create-AllTidy ty (memory s.calls) c type old (now s.calls) (ground (arith, room))
            (ground (arith, room)) tidy _ t run in
        let at = λ (j : ℕ). ap (λ (m : ℕ → ℕ). m j) types in
        (
          i,
          next s t,
          step_done (create rpc (memory s.calls) type old (now s.calls)) s run,
          small,
          ap (λ o. with_type o (ty.typed c.server i)) unseen,
          ap (λ v. files_of v (ty.typed t.server)) changed
              ∙ files_of-update (seen st c) (ty.typed c.server) (ty.typed t.server) i (some [])
                  (λ j ne. at j ∙ update_ne (ty.typed c.server) i j type ne)
              ∙ ap (λ k. update (session_files s) i (with_type (some []) k))
                  (at i ∙ update_self (ty.typed c.server) i type),
          (coherent', tidy'),
          ready,
        );
  }

  pub client_files-IsValid : (s : Session R) → IsSteady s → client_files.IsValid s
  unfolding client_files
  client_files-IsValid s h = h

  pub client_files-file : (s : Session R) (i : ℕ) → client_files.file s i ≡ session_files s i
  unfolding client_files
  client_files-file s i = refl

  pub client_files-has_room :
      (s : Session R) (type : ℕ)
      → client_files.has_room s type ≡ (st.has_room s.client.server type && ltb type (2 ^ 15))
  unfolding client_files
  client_files-has_room s type = refl
