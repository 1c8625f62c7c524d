-- ===== src/YfsClient/Files.antt =====
-- What yfs_client.cc relies on of the extent client: in a valid state it is a store of files with a type and bytes,
-- and a method that is called on a file of the store answers OK and does to the store what it says. The cache of
-- the extent client is why `put` asks for a file that is ready, one whose attributes are cached.
use cse_yet_another_file_sys.Prelude.{
  ℕ, ◌<◌, ◌^◌, ◌≡◌, ◌≢◌, Bool, true, Option, none, some, [], done, update,
}
use cse_yet_another_file_sys.Bytes.{Bytes}
use cse_yet_another_file_sys.Manager.Calls.{Attr}
use cse_yet_another_file_sys.Server.{Status}
use cse_yet_another_file_sys.Server.View.{File}
use cse_yet_another_file_sys.YfsClient.{Extents}

pub record IsFileStore {S : Type 0} (ext : Extents S) : Type 1 where
  pub IsValid : S → Type 0
  pub file : S → ℕ → Option File
  pub ready : S → ℕ → Bool
  pub has_room : S → ℕ → Bool
  pub get_law :
      (s : S) (i : ℕ) (f : File)
      → IsValid s
      → file s i ≡ some f
      → (t : S) × (ext.get i s ≡ done ((Status.ok, f.bytes), t))
        × (file t ≡ file s)
        × IsValid t
        × (ready t i ≡ true)
        × (has_room t ≡ has_room s)
  pub getattr_law :
      (s : S) (i : ℕ) (f : File)
      → IsValid s
      → file s i ≡ some f
      → (t : S) × (a : Attr) × (ext.getattr i s ≡ done ((Status.ok, a), t))
        × (a.type ≡ f.type)
        × (file t ≡ file s)
        × IsValid t
        × (ready t i ≡ true)
        × (has_room t ≡ has_room s)
  pub put_law :
      (s : S) (i : ℕ) (buf : Bytes) (f : File)
      → IsValid s
      → file s i ≡ some f
      → ready s i ≡ true
      → (t : S) × (ext.put i buf s ≡ done (Status.ok, t))
        × (file t ≡ update (file s) i (some (record f { bytes = buf })))
        × IsValid t
  pub remove_law :
      (s : S) (i : ℕ) (f : File)
      → IsValid s
      → file s i ≡ some f
      → (t : S) × (ext.remove i s ≡ done (Status.ok, t))
        × (file t ≡ update (file s) i none)
        × IsValid t
        × ((j : ℕ) → i ≢ j → ready t j ≡ ready s j)
  pub create_law :
      (s : S) (type old : ℕ)
      → IsValid s
      → has_room s type ≡ true
      → (i : ℕ) × (t : S) × (ext.create type old s ≡ done ((Status.ok, i), t))
        × (i < 2 ^ 64)
        × (file s i ≡ none)
        × (file t ≡ update (file s) i (some (record { type = type; bytes = [] })))
        × IsValid t
        × ((j : ℕ) → i ≢ j → ready t j ≡ ready s j)
