-- ===== src/Server/Start.antt =====
-- What extent_server.cc serves right after its constructor: the empty root directory alone.
use cse_yet_another_file_sys.Prelude.{
  sym, fun_ext, update, update_self, update_ne, Bool-cases, inl, inr, ◌≢◌, done, leb, ◌&&◌, ◌==◌, ℕ,
  ◌≤◌, ◌≡◌, ap, ◌∙◌, none, some, [], arith, take, ==_iff,
}
use cse_yet_another_file_sys.Disk.{inode_num, BlockManager, block_manager_init}
use cse_yet_another_file_sys.Inode.{Inode, IsInode}
use cse_yet_another_file_sys.Manager.{Clock}
use cse_yet_another_file_sys.Manager.Calls.{t_dir, inode_manager_init}
use cse_yet_another_file_sys.Manager.Access.{inode_at}
use cse_yet_another_file_sys.Manager.Frame.{inum_of_test}
use cse_yet_another_file_sys.Manager.Loops.{gather}
use cse_yet_another_file_sys.Manager.Sound.{owned, IsSound}
use cse_yet_another_file_sys.Manager.Initial.{
  inode_manager_init_lem, formatted-IsSound, formatted, formatted_inode, formatted_free,
}
use cse_yet_another_file_sys.Server.View.{file_of, view, view_inum, view-none}

module _ (root : Inode) (now : Clock) (fits : IsInode root) where
  pub view-root : view (formatted root now) 1 ≡ some (record { type = t_dir; bytes = [] })
  view-root =
      view_inum (formatted root now) 1 (omega arith)
      ∙ ap
          (λ (x : Inode).
            file_of x.type (take x.size (gather (formatted root now).d.blocks (owned x))))
          (formatted_inode root now fits)

  pub view-unused : (i : ℕ) → 2 ≤ i → i ≤ inode_num → view (formatted root now) i ≡ none
  view-unused i lo hi =
      view_inum (formatted root now) i (omega arith, hi)
      ∙ rw (
          (==_iff (inode_at (formatted root now) i).type 0).1
            (formatted_free root now i fits lo hi))

-- The constructors return, whatever the memory of the local variable `root` held (a short and words of 32
-- bits), and leave a sound disk whose view has one file: number 1, the empty root directory.
pub init-refines :
    (root : Inode) (now : Clock)
    → IsInode root
    → (t : BlockManager) × (inode_manager_init root now block_manager_init ≡ done (tt, t))
      × IsSound t
      × (view t ≡ update (λ i. none) 1 (some (record { type = t_dir; bytes = [] })))
init-refines root now fits = (
  formatted root now,
  inode_manager_init_lem root now fits,
  formatted-IsSound root now fits,
  fun_ext λ i. elim (Bool-cases (1 == i)) [
    | inl y ↦
        let here : 1 ≡ i = (==_iff 1 i).0 y in
        rw (← here) (view-root root now fits ∙ sym (update_self (λ (i : ℕ). none) 1 _))
    | inr n ↦ others i (ground arith) ∙ sym (update_ne (λ (i : ℕ). none) 1 i _ (ground arith))
  ],
)
  where
    others : (i : ℕ) → i ≢ 1 → view (formatted root now) i ≡ none
    others i ne = elim (Bool-cases (leb 1 i && leb i inode_num)) [
      | inl y ↦
          let range = inum_of_test i y in
          view-unused root now fits i (omega (arith, range.0)) range.1
      | inr n ↦ view-none (formatted root now) i n
    ]
