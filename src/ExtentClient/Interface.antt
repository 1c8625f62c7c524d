-- ===== src/ExtentClient/Interface.antt =====
-- The calls that extent_client.cc makes to the extent server, and what it may rely on: the server is a
-- store of files, and the library brings a call to it and its reply back.
use cse_yet_another_file_sys.Prelude.{
  ℕ, ◌^◌, ◌<◌, Bool, true, ◌≡◌, ◌≢◌, Option, none, some, [], update,
}
use cse_yet_another_file_sys.Bytes.{Bytes}
use cse_yet_another_file_sys.Server.{Status, FullFile}

-- `cl->call(extent_protocol::..., ...)`, over the state `R` of what is at the other end.
pub record Rpc (R : Type 0) : Type 0 where
  pub create : ℕ → ℕ → R → (Status × ℕ) × R
  pub get : ℕ → FullFile → R → (Status × FullFile) × R
  pub getattr : ℕ → FullFile → R → (Status × FullFile) × R
  pub put : ℕ → Bytes → R → Status × R
  pub remove : ℕ → R → Status × R

-- The files that the server has, what it accepts, and how its calls act on them.
pub record IsStore {R : Type 0} (rpc : Rpc R) : Type 0 where
  pub contents : R → ℕ → Option Bytes
  pub accepts : R → ℕ → Bytes → Bool
  pub has_room : R → ℕ → Bool
  pub get_law :
      (id : ℕ) (old : FullFile) (r : R) (b : Bytes)
      → contents r id ≡ some b
      → ((rpc.get id old r).0.0 ≡ Status.ok)
        × ((rpc.get id old r).0.1.buf ≡ b)
        × (contents (rpc.get id old r).1 ≡ contents r)
  pub getattr_law :
      (id : ℕ) (old : FullFile) (r : R) (b : Bytes)
      → contents r id ≡ some b
      → ((rpc.getattr id old r).0.0 ≡ Status.ok)
        × ((rpc.getattr id old r).0.1.buf ≡ b)
        × (contents (rpc.getattr id old r).1 ≡ contents r)
  pub put_law :
      (id : ℕ) (buf : Bytes) (r : R) (b : Bytes)
      → contents r id ≡ some b
      → accepts r id buf ≡ true
      → ((rpc.put id buf r).0 ≡ Status.ok)
        × (contents (rpc.put id buf r).1 ≡ update (contents r) id (some buf))
  pub remove_law :
      (id : ℕ) (r : R) (b : Bytes)
      → contents r id ≡ some b
      → ((rpc.remove id r).0 ≡ Status.ok)
        × (contents (rpc.remove id r).1 ≡ update (contents r) id none)
  pub create_law :
      (type old : ℕ) (r : R)
      → has_room r type ≡ true
      → ((rpc.create type old r).0.0 ≡ Status.ok)
        × (contents r (rpc.create type old r).0.1 ≡ none)
        × (contents (rpc.create type old r).1
            ≡ update (contents r) (rpc.create type old r).0.1 (some []))

-- The types of the files, as the replies tell them. Reading leaves the types and the room.
pub record IsTyped {R : Type 0} {rpc : Rpc R} (st : IsStore rpc) : Type 0 where
  pub typed : R → ℕ → ℕ
  pub get_typed :
      (id : ℕ) (old : FullFile) (r : R) (b : Bytes)
      → st.contents r id ≡ some b
      → ((rpc.get id old r).0.1.attr.type ≡ typed r id)
        × (typed (rpc.get id old r).1 ≡ typed r)
        × (st.has_room (rpc.get id old r).1 ≡ st.has_room r)
  pub getattr_typed :
      (id : ℕ) (old : FullFile) (r : R) (b : Bytes)
      → st.contents r id ≡ some b
      → ((rpc.getattr id old r).0.1.attr.type ≡ typed r id)
        × (typed (rpc.getattr id old r).1 ≡ typed r)
        × (st.has_room (rpc.getattr id old r).1 ≡ st.has_room r)
  pub remove_typed :
      (id : ℕ) (r : R) (b : Bytes)
      → st.contents r id ≡ some b
      → (j : ℕ) → id ≢ j
      → typed (rpc.remove id r).1 j ≡ typed r j
  pub create_typed :
      (type old : ℕ) (r : R)
      → st.has_room r type ≡ true
      → type < 2 ^ 15
      → ((rpc.create type old r).0.1 < 2 ^ 64)
        × (typed (rpc.create type old r).1 ≡ update (typed r) (rpc.create type old r).0.1 type)
