-- ===== src/Server/View.antt =====
-- The abstract file store that extent_server.cc implements: each inode number has no file, or one
-- with a type and bytes.
use cse_yet_another_file_sys.Prelude.{
  ℕ, ◌*◌, ◌≤◌, ◌≡◌, ◌≢◌, ap, ap₂, sym, ◌∙◌, fun_ext, ◌&&◌, false, Option, none, some, arith, inl,
  inr, leb, ◌==◌, if◌then◌else◌, ==_iff, Bool-cases, update, length, length-take, le→leb,
  update_self, update_ne,
}
use cse_yet_another_file_sys.Bytes.{Bytes}
use cse_yet_another_file_sys.Disk.{BlockManager, inode_num, block_size}
use cse_yet_another_file_sys.Inode.{Inode}
use cse_yet_another_file_sys.Manager.{round_up}
use cse_yet_another_file_sys.Manager.Access.{IsInum, inode_at}
use cse_yet_another_file_sys.Manager.Loops.{gather}
use cse_yet_another_file_sys.Manager.Frame.{inum_of_test}
use cse_yet_another_file_sys.Manager.Contents.{length-gather}
use cse_yet_another_file_sys.Manager.Sound.{IsSound, owned, own_of_inum, content, length-own_of}

pub record File : Type 0 where
  pub type : ℕ
  pub bytes : Bytes

abbrev pub file_of : ℕ → Bytes → Option File
file_of type bytes = if type == 0 then none else some (record { type = type; bytes = bytes })

pub view : BlockManager → ℕ → Option File
view s i = if leb 1 i && leb i inode_num then file_of (inode_at s i).type (content s i) else none

pub view_inum :
    (s : BlockManager) (i : ℕ) → IsInum i → view s i ≡ file_of (inode_at s i).type (content s i)
unfolding view
view_inum s i (lo, hi) = rw (le→leb 1 i lo, le→leb i inode_num hi)

pub view-none : (s : BlockManager) (i : ℕ) → (leb 1 i && leb i inode_num) ≡ false → view s i ≡ none
unfolding view
view-none s i h = rw h

view_other :
    (s t : BlockManager) (j : ℕ)
    → (IsInum j → (inode_at t j ≡ inode_at s j) × (content t j ≡ content s j))
    → view t j ≡ view s j
view_other s t j same = elim (Bool-cases (leb 1 j && leb j inode_num)) [
  | inl y ↦
      let jnum = inum_of_test j y in
      let (e, c) = same jnum in
      view_inum t j jnum
      ∙ ap₂ (λ (x : Inode) (b : Bytes). file_of x.type b) e c
      ∙ sym (view_inum s j jnum)
  | inr n ↦ view-none t j n ∙ sym (view-none s j n)
]

-- A call that changes one file changes the view there and nowhere else.
pub view-update :
    (s t : BlockManager) (i : ℕ)
    → IsInum i
    → ((j : ℕ) → IsInum j → j ≢ i → (inode_at t j ≡ inode_at s j) × (content t j ≡ content s j))
    → view t ≡ update (view s) i (file_of (inode_at t i).type (content t i))
view-update s t i inum others = fun_ext λ j. elim (Bool-cases (i == j)) [
  | inl e ↦
      let here : i ≡ j = (==_iff i j).0 e in
      rw (← here) (view_inum t i inum ∙ sym (update_self (view s) i _))
  | inr e ↦
      view_other s t j (λ jnum. others j jnum (ground arith))
      ∙ sym (update_ne (view s) i j _ (ground arith))
]

-- A call that changes no file leaves the view.
pub view_same :
    (s t : BlockManager)
    → ((j : ℕ) → IsInum j → (inode_at t j).type ≡ (inode_at s j).type)
    → ((j : ℕ) → IsInum j → content t j ≡ content s j)
    → view t ≡ view s
view_same s t types contents = fun_ext λ j. elim (Bool-cases (leb 1 j && leb j inode_num)) [
  | inl y ↦
      let jnum = inum_of_test j y in
      view_inum t j jnum ∙ ap₂ file_of (types j jnum) (contents j jnum) ∙ sym (view_inum s j jnum)
  | inr n ↦ view-none t j n ∙ sym (view-none s j n)
]

pub round_up_enough : (size : ℕ) → size ≤ block_size * round_up size block_size
round_up_enough size = ground arith

-- A file in use has as many bytes as its inode says.
pub length-content :
    {s : BlockManager} (i : ℕ)
    → IsSound s
    → IsInum i
    → (inode_at s i).type ≢ 0
    → length (content s i) ≡ (inode_at s i).size
length-content {s} i sound inum live = omega (
  arith,
  length-take (inode_at s i).size (gather s.d.blocks (owned (inode_at s i))),
  length-gather s.d.blocks (owned (inode_at s i)) sound.formatted.shape,
  ap length (own_of_inum s i inum),
  length-own_of sound i inum live,
  round_up_enough (inode_at s i).size,
)
