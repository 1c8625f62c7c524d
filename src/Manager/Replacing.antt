-- ===== src/Manager/Replacing.antt =====
-- A call of inode_manager.cc that writes back one inode and no data block: what it changes, and
-- when the invariant survives it.
use cse_yet_another_file_sys.Prelude.{
  ℕ, ◌+◌, ◌≤◌, ◌≡◌, ◌≢◌, ap, ap₂, sym, take, ◌∙◌, subst, arith, inl, inr, List, some, update,
  update_ne, Bool-cases, ◌==◌, ==_iff, get_elem?,
}
use cse_yet_another_file_sys.Disk.{BlockManager, start_at}
use cse_yet_another_file_sys.Inode.{Inode, IsInode, load_inode}
use cse_yet_another_file_sys.Manager.Access.{
  IsFormatted, IsInum, inode_at, with_inode, with_inode-IsFormatted, inode_at-with_inode_self,
}
use cse_yet_another_file_sys.Manager.Owners.{Owns}
use cse_yet_another_file_sys.Manager.Loops.{gather}
use cse_yet_another_file_sys.Manager.Contents.{gather_cong}
use cse_yet_another_file_sys.Manager.Frame.{SameInodes, own_of-update, content_cong}
use cse_yet_another_file_sys.Manager.Sound.{
  IsSound, owned, own_of, own_of_inum, content, max_direct,
}

-- The sizes bound, apart from the rest of the invariant.
abbrev pub IsSmall : BlockManager → Type 0
IsSmall s = (j : ℕ) → IsInum j → (inode_at s j).type ≢ 0 → (inode_at s j).size ≤ max_direct

module _ (s : BlockManager) (f : IsFormatted s) (i : ℕ) (inum : IsInum i) (ino : Inode)
    (fits : IsInode ino) where
  abbrev t : BlockManager
  t = with_inode s i ino

  pub replaced_self : inode_at t i ≡ ino
  replaced_self = inode_at-with_inode_self f i ino fits

  pub replaced_other : SameInodes s t i
  replaced_other j jnum ne =
      ap load_inode (update_ne s.d.blocks (i + 11) (j + 11) _ (λ e. ne (omega arith)))

  data_same : (b : ℕ) → start_at ≤ b → t.d.blocks b ≡ s.d.blocks b
  data_same b h = update_ne s.d.blocks (i + 11) b _ (λ e. absurd (omega (arith, inum.1)))

  own_of_replaced : own_of t ≡ update (own_of s) i (owned ino)
  own_of_replaced =
      own_of-update s t i inum replaced_other
      ∙ ap (λ (x : Inode). update (own_of s) i (owned x)) replaced_self

  pub content_replaced :
      ((k b : ℕ) (j : ℕ) → get_elem? (own_of s j) k ≡ some b → start_at ≤ b)
      → (j : ℕ) → IsInum j
      → j ≢ i
      → content t j ≡ content s j
  content_replaced valid j jnum ne =
      content_cong s t j jnum (replaced_other j jnum ne) (λ k b e. data_same b (valid k b j e))

  -- Where the new inode has the type, the size and the blocks of the old, it has its bytes.
  pub content_replaced_self :
      ((k b : ℕ) (j : ℕ) → get_elem? (own_of s j) k ≡ some b → start_at ≤ b)
      → owned ino ≡ owned (inode_at s i)
      → ino.size ≡ (inode_at s i).size
      → content t i ≡ content s i
  content_replaced_self valid o z =
      ap (λ (x : Inode). take x.size (gather t.d.blocks (owned x))) replaced_self
      ∙ ap₂ (λ (n : ℕ) (ids : List ℕ). take n (gather t.d.blocks ids)) z o
      ∙ ap (take (inode_at s i).size) (
          gather_cong t.d.blocks s.d.blocks (owned (inode_at s i)) (λ k b e.
            data_same b
              (valid k b i (ap (λ (l : List ℕ). get_elem? l k) (own_of_inum s i inum) ∙ e))))

  pub replaced-IsSound :
      IsSmall s
      → (ino.type ≢ 0 → ino.size ≤ max_direct)
      → Owns s.using_blocks (update (own_of s) i (owned ino))
      → IsSound t
  replaced-IsSound small here o = record {
    formatted = with_inode-IsFormatted f i ino fits;
    small = λ j jnum alive. elim (Bool-cases (i == j)) [
      | inl e ↦
          let eq : i ≡ j = (==_iff i j).0 e in
          subst (λ (x : Inode). x.size ≤ max_direct) (sym replaced_self ∙ ap (inode_at t) eq)
            (here
              (subst (λ (x : Inode). x.type ≢ 0) (sym (ap (inode_at t) eq) ∙ replaced_self) alive))
      | inr e ↦
          let same = replaced_other j jnum (ground arith) in
          subst (λ (x : Inode). x.size ≤ max_direct) (sym same)
            (small j jnum (subst (λ (x : Inode). x.type ≢ 0) same alive))
    ];
    owns = subst (Owns s.using_blocks) (sym own_of_replaced) o;
  }
