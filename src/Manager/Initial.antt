-- ===== src/Manager/Initial.antt =====
-- The disk that the constructors of inode_manager.cc make is sound: every block is zero but the
-- root directory's inode.
use cse_yet_another_file_sys.Prelude.{
  ℕ, ◌≤◌, ◌≡◌, ◌≢◌, refl, ap, ◌∙◌, List, [], some, arith, done, get_elem?, All-replicate,
  length-replicate,
}
use cse_yet_another_file_sys.Bytes.{IsByte, words}
use cse_yet_another_file_sys.Disk.{BlockManager, block_manager_init, block_size, inode_num}
use cse_yet_another_file_sys.Inode.{Inode, IsInode, load_inode, from_words}
use cse_yet_another_file_sys.Manager.{Clock, time}
use cse_yet_another_file_sys.Manager.Calls.{inode_manager_init, t_dir}
use cse_yet_another_file_sys.Manager.Access.{IsFormatted, inode_at, with_inode, put_inode_lem}
use cse_yet_another_file_sys.Manager.Owners.{Owns}
use cse_yet_another_file_sys.Manager.Frame.{own_of_free}
use cse_yet_another_file_sys.Manager.Sound.{IsSound, own_of}
use cse_yet_another_file_sys.Manager.Replacing.{replaced_self, replaced_other, replaced-IsSound}

init-IsFormatted : IsFormatted block_manager_init
init-IsFormatted = record {
  nblocks = refl;
  shape =
      λ b. (length-replicate {A = ℕ} block_size 0, All-replicate IsByte block_size 0 (omega arith));
}

-- A zero block is a free inode.
init_free : (i : ℕ) → (inode_at block_manager_init i).type ≡ 0
unfolding load_inode from_words words
init_free i = refl

init_own : (i : ℕ) → own_of block_manager_init i ≡ []
init_own i = own_of_free block_manager_init i (init_free i)

-- The root inode, over what the memory of the local variable holds.
abbrev pub root_of : Inode → Clock → Inode
root_of root now = record root { type = t_dir; size = 0; atime = time now 0 }

root-IsInode : (root : Inode) (now : Clock) → IsInode root → IsInode (root_of root now)
root-IsInode root now fits = record {
  type_fits = omega arith;
  size_fits = omega arith;
  atime_fits = omega arith;
  mtime_fits = fits.mtime_fits;
  ctime_fits = fits.ctime_fits;
  count = fits.count;
  ids_fit = fits.ids_fit;
}

-- Nothing is owned, whatever is marked.
no_owners : (own : ℕ → List ℕ) (used : ℕ → ℕ) → ((i : ℕ) → own i ≡ []) → Owns used own
no_owners own used h = record {
  valid = λ i k b e. absurd (none i k b e);
  single = λ i j k l b e. absurd (none i k b e);
}
  where
    none : (i k b : ℕ) → get_elem? (own i) k ≢ some b
    none i k b e = absurd (ground (arith, h i))

abbrev pub formatted : Inode → Clock → BlockManager
formatted root now = with_inode block_manager_init 1 (root_of root now)

pub inode_manager_init_lem :
    (root : Inode) (now : Clock)
    → IsInode root
    → inode_manager_init root now block_manager_init ≡ done (tt, formatted root now)
unfolding inode_manager_init
inode_manager_init_lem root now fits =
    put_inode_lem init-IsFormatted 1 (root_of root now) (omega arith) (root-IsInode root now fits)

-- Whatever the memory of the local `root` held, the constructor leaves a sound disk.
pub formatted-IsSound : (root : Inode) (now : Clock) → IsInode root → IsSound (formatted root now)
formatted-IsSound root now fits =
    replaced-IsSound block_manager_init init-IsFormatted 1 (omega arith) (root_of root now)
      (root-IsInode root now fits) (λ j jnum live. absurd (live (init_free j))) (λ _. omega arith)
      (no_owners _ _ (λ i. ground (arith, init_own i)))

pub formatted_inode :
    (root : Inode) (now : Clock) → IsInode root → inode_at (formatted root now) 1 ≡ root_of root now
formatted_inode root now fits =
    replaced_self block_manager_init init-IsFormatted 1 (omega arith) (root_of root now)
      (root-IsInode root now fits)

-- The other inodes are free.
pub formatted_free :
    (root : Inode) (now : Clock) (i : ℕ)
    → IsInode root
    → 2 ≤ i
    → i ≤ inode_num
    → (inode_at (formatted root now) i).type ≡ 0
formatted_free root now i fits lo hi =
    ap (λ (x : Inode). x.type)
      (replaced_other block_manager_init init-IsFormatted 1 (omega arith) (root_of root now)
        (root-IsInode root now fits) i (omega arith) (λ e. absurd (omega arith)))
    ∙ init_free i
