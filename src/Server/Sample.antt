-- ===== src/Server/Sample.antt =====
-- A disk of extent_server.cc that was just formatted.
use cse_yet_another_file_sys.Prelude.{◌-◌, ◌≤◌, refl, [], ◌∷◌, arith, replicate, length}
use cse_yet_another_file_sys.Bytes.{Bytes}
use cse_yet_another_file_sys.Disk.{BlockManager, block_num, start_at, block_size}
use cse_yet_another_file_sys.Disk.Alloc.{free_count_pos}
use cse_yet_another_file_sys.Inode.{Inode, IsInode}
use cse_yet_another_file_sys.Manager.{Clock, round_up}
use cse_yet_another_file_sys.Manager.Calls.{t_dir}
use cse_yet_another_file_sys.Manager.Sound.{IsSound}
use cse_yet_another_file_sys.Manager.Allocating.{free_blocks_left}
use cse_yet_another_file_sys.Manager.Initial.{formatted, formatted-IsSound}
use cse_yet_another_file_sys.Server.View.{File}

abbrev pub zeros : Inode
zeros = record { type = 0; size = 0; atime = 0; mtime = 0; ctime = 0; blocks = replicate 101 0 }

pub zeros-IsInode : IsInode zeros
zeros-IsInode = omega arith

abbrev pub clock : Clock
clock k = 1000

abbrev pub fresh : BlockManager
fresh = formatted zeros clock

pub fresh-IsSound : IsSound fresh
fresh-IsSound = formatted-IsSound zeros clock zeros-IsInode

abbrev pub root : File
root = record { type = t_dir; bytes = [] }

abbrev pub hi : Bytes
hi = b'h' ∷ b'i' ∷ []

pub fresh_room :
    round_up (length hi) block_size - round_up 0 block_size ≤ free_blocks_left fresh.using_blocks
fresh_room = free_count_pos (block_num - start_at) start_at fresh.using_blocks (omega arith) refl
