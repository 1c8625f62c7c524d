-- ===== src/Server/Tests.antt =====
-- The theorems on extent_server.cc at a disk that was just formatted.
use cse_yet_another_file_sys.Prelude.{ℕ, ◌≤◌, ◌≡◌, none, some, [], arith, done, update}
use cse_yet_another_file_sys.Disk.{block_manager_init, BlockManager, inode_num}
use cse_yet_another_file_sys.Manager.Calls.{Attr, t_file, inode_manager_init}
use cse_yet_another_file_sys.Manager.Sound.{IsSound}
use cse_yet_another_file_sys.Server.{ok, create, put, get, remove}
use cse_yet_another_file_sys.Server.View.{view}
use cse_yet_another_file_sys.Server.Refines.{put-refines, create-refines, remove-refines}
use cse_yet_another_file_sys.Server.Reads.{get-refines}
use cse_yet_another_file_sys.Server.Start.{view-root, view-unused, init-refines}
use cse_yet_another_file_sys.Server.Sample.{
  zeros, zeros-IsInode, clock, fresh, fresh-IsSound, root, hi, fresh_room,
}

put-refines_example :
    (t : BlockManager) × (put 1 hi clock fresh ≡ done (ok, t))
    × IsSound t
    × (view t ≡ update (view fresh) 1 (some (record root { bytes = hi })))
put-refines_example =
    put-refines 1 hi clock root fresh-IsSound (view-root zeros clock zeros-IsInode) (omega arith)
      (omega arith) fresh_room

create-refines_example :
    (id : ℕ) × (t : BlockManager) × (create t_file clock fresh ≡ done ((ok, id), t))
    × (2 ≤ id)
    × (id ≤ inode_num)
    × (view fresh id ≡ none)
    × IsSound t
    × (view t ≡ update (view fresh) id (some (record { type = t_file; bytes = [] })))
create-refines_example =
    create-refines t_file clock 2 fresh-IsSound (omega arith) (omega arith) (omega arith)
      (view-unused zeros clock zeros-IsInode 2 (omega arith) (omega arith))

remove-refines_example :
    (t : BlockManager) × (remove 1 fresh ≡ done (ok, t))
    × IsSound t
    × (view t ≡ update (view fresh) 1 none)
remove-refines_example = remove-refines 1 root fresh-IsSound (view-root zeros clock zeros-IsInode)

init-refines_example :
    (t : BlockManager) × (inode_manager_init zeros clock block_manager_init ≡ done (tt, t))
    × IsSound t
    × (view t ≡ update (λ i. none) 1 (some root))
init-refines_example = init-refines zeros clock zeros-IsInode

get-refines_example :
    (t : BlockManager) × (a : Attr) × (get 1 clock fresh
      ≡ done ((ok, record { attr = a; buf = [] }), t))
    × IsSound t
    × (view t ≡ view fresh)
    × (a.size ≡ 0)
    × (a.type ≡ 1)
get-refines_example = get-refines 1 clock root fresh-IsSound (view-root zeros clock zeros-IsInode)
