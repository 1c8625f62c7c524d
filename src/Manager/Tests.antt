-- ===== src/Manager/Tests.antt =====
-- The theorems on inode_manager.cc at concrete disks: the one that was just formatted, and one whose
-- inodes are all in use.
use cse_yet_another_file_sys.Prelude.{
  ℕ, List, get_elem?, ◌-◌, ◌≤◌, ◌<◌, ◌≡◌, ◌≢◌, ◌⊎◌, refl, ap, sym, ◌∙◌, false, [], arith, done,
  exited, replicate, update, All-replicate, length-replicate,
}
use cse_yet_another_file_sys.Bytes.{IsByte}
use cse_yet_another_file_sys.Disk.{
  BlockManager, block_manager_init, block_size, block_num, inode_num, start_at, alloc_block,
}
use cse_yet_another_file_sys.Disk.Alloc.{free_count, free_count_pos, alloc_block_lem}
use cse_yet_another_file_sys.Inode.{Inode, IsInode, IsBlock, store_inode, load_inode, ndirect}
use cse_yet_another_file_sys.Inode.Layout.{load_inode-store_inode, store_inode-IsBlock}
use cse_yet_another_file_sys.Manager.{Clock, alloc_block_in_inode, get_blockid_in_inode}
use cse_yet_another_file_sys.Manager.Access.{IsFormatted, inode_at}
use cse_yet_another_file_sys.Manager.Calls.{t_file}
use cse_yet_another_file_sys.Manager.Indirect.{indirect_shared}

abbrev zero_block : List ℕ
zero_block = replicate block_size 0

zero_block-IsBlock : IsBlock zero_block
zero_block-IsBlock =
    (length-replicate {A = ℕ} block_size 0, All-replicate IsByte block_size 0 (omega arith))

abbrev used_inode : Inode
used_inode = record {
  type = t_file;
  size = 3;
  atime = 10;
  mtime = 20;
  ctime = 30;
  blocks = replicate 101 0;
}

used_inode-IsInode : IsInode used_inode
used_inode-IsInode = omega arith

abbrev clock : Clock
clock k = 1000

abbrev full : BlockManager
full = record block_manager_init { d = record { blocks = λ b. store_inode used_inode zero_block } }

full-IsFormatted : IsFormatted full
full-IsFormatted = record {
  nblocks = refl;
  shape = λ b. store_inode-IsBlock used_inode zero_block used_inode-IsInode zero_block-IsBlock;
}

all_used : (j : ℕ) → 2 ≤ j → j ≤ inode_num → (inode_at full j).type ≢ 0
all_used j lo hi z =
    absurd (omega (arith, sym (ap (λ (x : Inode). x.type) load_inode-store_inode_full) ∙ z))
  where
    load_inode-store_inode_full : load_inode (store_inode used_inode zero_block) ≡ used_inode
    load_inode-store_inode_full = load_inode-store_inode used_inode zero_block used_inode-IsInode

alloc_block_lem_example :
    ((id : ℕ) × (alloc_block block_manager_init
        ≡ done (
          id,
          record block_manager_init { using_blocks = update block_manager_init.using_blocks id 1 },
        ))
      × (block_manager_init.using_blocks id ≡ 0)
      × (start_at ≤ id)
      × (id < block_num))
    ⊎ ((free_count (block_num - start_at) start_at block_manager_init.using_blocks ≡ 0)
        × (alloc_block block_manager_init ≡ exited))
alloc_block_lem_example = alloc_block_lem block_manager_init

indirect_shared_example :
    (b : ℕ) × (t : BlockManager) × (alloc_block_in_inode used_inode 100 [] false full
      ≡ done (used_inode, t))
    × (get_blockid_in_inode (inode_at full 5) 100 t ≡ done (b, t))
    × (full.using_blocks b ≡ 0)
    × (t.using_blocks b ≡ 1)
indirect_shared_example =
    indirect_shared used_inode (inode_at full 5) 0 100 full-IsFormatted
      (free_count_pos (block_num - start_at) start_at full.using_blocks (omega arith) refl)
      (omega arith) (omega arith) refl
      (ap (λ (x : Inode). get_elem? x.blocks ndirect)
        (load_inode-store_inode used_inode zero_block used_inode-IsInode))
      (omega arith)
