-- ===== src/Manager/Frame.antt =====
-- What follows for the files of inode_manager.cc when a call changes one inode and leaves the
-- others and their blocks.
use cse_yet_another_file_sys.Prelude.{
  ℕ, ◌≡◌, ◌≢◌, ap, sym, ◌∙◌, fun_ext, ◌&&◌, true, false, List, [], some, arith, inl, inr, take,
  get_elem?, update, update_self, update_ne, Bool-cases, leb, ◌==◌, ==_iff,
}
use cse_yet_another_file_sys.Disk.{BlockManager, inode_num}
use cse_yet_another_file_sys.Inode.{Inode}
use cse_yet_another_file_sys.Manager.Access.{IsInum, inode_at}
use cse_yet_another_file_sys.Manager.Loops.{gather}
use cse_yet_another_file_sys.Manager.Contents.{gather_cong}
use cse_yet_another_file_sys.Manager.Sound.{owned, own_of, own_of_inum, content}

own_of_none : (s : BlockManager) (i : ℕ) → (leb 1 i && leb i inode_num) ≡ false → own_of s i ≡ []
own_of_none s i h = rw h

pub inum_of_test : (i : ℕ) → (leb 1 i && leb i inode_num) ≡ true → IsInum i
inum_of_test i h = (ground arith, ground arith)

-- An inode that is not in use owns nothing.
pub own_of_free : (s : BlockManager) (i : ℕ) → (inode_at s i).type ≡ 0 → own_of s i ≡ []
own_of_free s i free = elim (Bool-cases (leb 1 i && leb i inode_num)) [
  | inl y ↦ own_of_inum s i (inum_of_test i y) ∙ rw ((==_iff (inode_at s i).type 0).1 free)
  | inr n ↦ own_of_none s i n
]

-- The inodes other than `i` are the same in both states.
abbrev pub SameInodes : BlockManager → BlockManager → ℕ → Type 0
SameInodes s t i = (j : ℕ) → IsInum j → j ≢ i → inode_at t j ≡ inode_at s j

module _ (s t : BlockManager) (i : ℕ) (inum : IsInum i) (same : SameInodes s t i) where
  own_of_at : (j : ℕ) → own_of t j ≡ update (own_of s) i (owned (inode_at t i)) j
  own_of_at j = elim (Bool-cases (i == j)) [
    | inl e ↦
        let here : i ≡ j = (==_iff i j).0 e in
        rw (← here) (own_of_inum t i inum ∙ sym (update_self (own_of s) i _))
    | inr e ↦ elim (Bool-cases (leb 1 j && leb j inode_num)) [
      | inl y ↦
          own_of_inum t j (inum_of_test j y)
          ∙ ap owned (same j (inum_of_test j y) (ground arith))
          ∙ sym (own_of_inum s j (inum_of_test j y))
          ∙ sym (update_ne (own_of s) i j _ (ground arith))
      | inr n ↦
          own_of_none t j n
          ∙ sym (own_of_none s j n)
          ∙ sym (update_ne (own_of s) i j _ (ground arith))
    ]
  ]

  -- Only the ownership of the changed inode is new.
  pub own_of-update : own_of t ≡ update (own_of s) i (owned (inode_at t i))
  own_of-update = fun_ext own_of_at

-- A file whose inode and blocks are as before holds the same bytes.
pub content_cong :
    (s t : BlockManager) (j : ℕ)
    → IsInum j
    → inode_at t j ≡ inode_at s j
    → ((k b : ℕ) → get_elem? (own_of s j) k ≡ some b → t.d.blocks b ≡ s.d.blocks b)
    → content t j ≡ content s j
content_cong s t j jnum e h =
    ap (λ (ino : Inode). take ino.size (gather t.d.blocks (owned ino))) e
    ∙ ap (take (inode_at s j).size) (
        gather_cong t.d.blocks s.d.blocks (owned (inode_at s j))
          (λ k b p. h k b (ap (λ (l : List ℕ). get_elem? l k) (own_of_inum s j jnum) ∙ p)))
