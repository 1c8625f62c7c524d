-- ===== src/YfsClient/Session.antt =====
-- The extent client of extent_client.cc as the one that yfs_client.cc calls. Each call has the memory and the clock of
-- its place in the order of the calls.
use cse_yet_another_file_sys.Prelude.{ℕ, ◌+◌, ◌≡◌, refl, Exec, done, exited, fault}
use cse_yet_another_file_sys.Manager.{Clock}
use cse_yet_another_file_sys.ExtentClient.{
  CachedFile, ExtentClient, create, get, getattr, put, remove,
}
use cse_yet_another_file_sys.ExtentClient.Interface.{Rpc}
use cse_yet_another_file_sys.YfsClient.{Extents}

-- The client, and how many calls there were.
pub record Session (R : Type 0) : Type 0 where
  pub client : ExtentClient R
  pub calls : ℕ

abbrev pub step : {R A : Type 0} → Exec (ExtentClient R) A → Exec (Session R) A
step m s = elim (m s.client) [
  | done (a, c) ↦ done (a, record { client = c; calls = s.calls + 1 })
  | exited ↦ exited
  | fault ↦ fault
]

-- A call that ends is a step.
pub step_done :
    {R A : Type 0} (m : Exec (ExtentClient R) A) (s : Session R) {a : A} {c : ExtentClient R}
    → m s.client ≡ done (a, c)
    → step m s ≡ done (a, record { client = c; calls = s.calls + 1 })
step_done m s e = rw (step, e) refl

abbrev pub client_extents :
    {R : Type 0} → Rpc R → (ℕ → CachedFile) → (ℕ → Clock) → Extents (Session R)
client_extents rpc memory now = record {
  create = λ type old s. step (create rpc (memory s.calls) type old (now s.calls)) s;
  get = λ i s. step (get rpc (memory s.calls) i) s;
  getattr = λ i s. step (getattr rpc (memory s.calls) i) s;
  put = λ i buf s. step (put (memory s.calls) i buf (now s.calls)) s;
  remove = λ i s. step (remove rpc i) s;
}
