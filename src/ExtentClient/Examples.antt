-- ===== src/ExtentClient/Examples.antt =====
-- A client of extent_client.cc at an extent server that was just started.
use cse_yet_another_file_sys.Prelude.{
  update, ℕ, true, false, ◌≡◌, ap, ◌∙◌, none, some, [], done, le→leb, length, ◌-◌,
}
use cse_yet_another_file_sys.Disk.{BlockManager, block_size}
use cse_yet_another_file_sys.Manager.{round_up}
use cse_yet_another_file_sys.Manager.Sound.{IsSound}
use cse_yet_another_file_sys.Manager.Allocating.{free_blocks_left}
use cse_yet_another_file_sys.Manager.Calls.{Attr}
use cse_yet_another_file_sys.Server.{Status}
use cse_yet_another_file_sys.Server.View.{File, view}
use cse_yet_another_file_sys.Server.Sample.{
  zeros, zeros-IsInode, clock, fresh, fresh-IsSound, root, hi, fresh_room,
}
use cse_yet_another_file_sys.Server.Start.{view-root}
use cse_yet_another_file_sys.ExtentClient.{CachedFile, ExtentClient, get, getattr, put, sync}
use cse_yet_another_file_sys.ExtentClient.Backing.{Backing, known, accepts, fits_in, bytes_in}
use cse_yet_another_file_sys.ExtentClient.Backed.{extent_rpc, extent_store, stored_contents}
use cse_yet_another_file_sys.ExtentClient.Typed.{extent_typed}
use cse_yet_another_file_sys.ExtentClient.Seen.{seen}
use cse_yet_another_file_sys.ExtentClient.Keeping.{getattr-put_keeps}
use cse_yet_another_file_sys.ExtentClient.Served.{sync-put_served}

abbrev memory : CachedFile
memory = record {
  type = 0;
  buf = [];
  attr = record { type = 0; atime = 0; mtime = 0; ctime = 0; size = 0 };
  buf_valid = false;
  attr_valid = false;
  dirty = false;
}

abbrev starting : ExtentClient Backing
starting = record { cache = λ id. none; server = known fresh fresh-IsSound 0 }

root_there : view fresh 1 ≡ some root
root_there = view-root zeros clock zeros-IsInode

accepts_hi : accepts starting.server 1 hi ≡ true
accepts_hi =
    ap (λ o. fits_in fresh o hi) root_there
    ∙ le→leb (round_up (length hi) block_size - round_up 0 block_size)
        (free_blocks_left fresh.using_blocks) fresh_room

sync-put_served_example :
    (t : ExtentClient Backing) × (u : ExtentClient Backing) × (s : BlockManager) × (p : IsSound s)
    × (n : ℕ) × (f : File) × (put memory 1 hi clock starting ≡ done (Status.ok, t))
    × (sync (extent_rpc (λ n. clock)) 1 t ≡ done (Status.ok, u))
    × (u.server ≡ known s p n)
    × (view s 1 ≡ some f)
    × (f.bytes ≡ hi)
sync-put_served_example =
    sync-put_served (λ n. clock) starting memory 1 hi [] clock (λ id. tt)
      (stored_contents (λ n. clock) 1 starting.server ∙ ap bytes_in root_there) accepts_hi

getattr-put_keeps_example :
    (t u v w : ExtentClient Backing) × (a : Attr) × (get (extent_rpc (λ n. clock)) memory 1 starting
      ≡ done ((Status.ok, []), t))
    × (put memory 1 hi clock t ≡ done (Status.ok, u))
    × (getattr (extent_rpc (λ n. clock)) memory 1 u ≡ done ((Status.ok, a), v))
    × (get (extent_rpc (λ n. clock)) memory 1 v ≡ done ((Status.ok, hi), w))
    × (a.type ≡ (extent_typed (λ n. clock)).typed starting.server 1)
    × (seen (extent_store (λ n. clock)) w
        ≡ update (seen (extent_store (λ n. clock)) starting) 1 (some hi))
getattr-put_keeps_example =
    getattr-put_keeps (extent_typed (λ n. clock)) memory starting 1 hi [] clock (λ id. tt)
      (λ id. tt) (stored_contents (λ n. clock) 1 starting.server ∙ ap bytes_in root_there)
