-- ===== src/ExtentClient/Served.antt =====
-- extent_client.cc over extent_server.cc: what a client writes and flushes is on the server's disk.
use cse_yet_another_file_sys.Prelude.{ℕ, true, ◌≡◌, ap, sym, ◌∙◌, some, done, update_self}
use cse_yet_another_file_sys.Bytes.{Bytes}
use cse_yet_another_file_sys.Disk.{BlockManager}
use cse_yet_another_file_sys.Manager.{Clock}
use cse_yet_another_file_sys.Manager.Sound.{IsSound}
use cse_yet_another_file_sys.Server.{Status, mask}
use cse_yet_another_file_sys.Server.View.{File, view}
use cse_yet_another_file_sys.ExtentClient.{CachedFile, ExtentClient, put, sync}
use cse_yet_another_file_sys.ExtentClient.Seen.{seen, IsCoherent}
use cse_yet_another_file_sys.ExtentClient.Steps.{put-seen}
use cse_yet_another_file_sys.ExtentClient.Syncing.{sync-Syncs}
use cse_yet_another_file_sys.ExtentClient.Backing.{Backing, known, accepts}
use cse_yet_another_file_sys.ExtentClient.Backed.{
  extent_rpc, extent_store, stored_contents, stored_accepts,
}
use cse_yet_another_file_sys.ExtentClient.Known.{known_of}

-- A client with a coherent cache that puts bytes to a file that it sees, and then flushes the file: where the
-- server accepts the bytes, both calls answer OK, and afterwards the server has a sound disk on which the file has
-- just these bytes.
pub sync-put_served :
    (clocks : ℕ → Clock) (c : ExtentClient Backing) (memory : CachedFile) (eid : ℕ)
    (buf old : Bytes) (now : Clock)
    → IsCoherent (extent_store clocks) c
    → seen (extent_store clocks) c eid ≡ some old
    → accepts c.server eid buf ≡ true
    → (t : ExtentClient Backing) × (u : ExtentClient Backing) × (s : BlockManager) × (p : IsSound s)
      × (n : ℕ) × (f : File) × (put memory eid buf now c ≡ done (Status.ok, t))
      × (sync (extent_rpc clocks) eid t ≡ done (Status.ok, u))
      × (u.server ≡ known s p n)
      × (view s (mask eid) ≡ some f)
      × (f.bytes ≡ buf)
sync-put_served clocks c memory eid buf old now h s0 room =
    let st = extent_store clocks in
    let (t, written, same, changed, coherent) = put-seen st memory c eid buf old now h s0 in
    let sees : seen st t eid ≡ some buf =
      ap (λ m. m eid) changed ∙ update_self (seen st c) eid (some buf) in
    let takes : st.accepts t.server eid buf ≡ true =
      ap (λ r. st.accepts r eid buf) same ∙ stored_accepts clocks eid buf c.server ∙ room in
    let synced = sync-Syncs st t eid buf coherent sees takes in
    let (s, p, n, f, is_known, there, has) =
      known_of synced.after.server eid buf
        (sym (stored_contents clocks eid synced.after.server) ∙ synced.stored) in
    (t, synced.after, s, p, n, f, written, synced.result, is_known, there, has)
