-- ===== src/Manager/Owners.antt =====
-- Which data blocks belong to which file: the invariant behind the sharing-free disk, and what
-- taking a free block and giving blocks back do to it.
use cse_yet_another_file_sys.Prelude.{
  ℕ, zero, suc, ◌+◌, ◌≤◌, ◌<◌, ◌≡◌, ◌≢◌, refl, sym, ◌∙◌, ◌⊎◌, inl, inr, some, List, [], ◌∷◌, ◌++◌,
  arith, length, get_elem?, take, drop, update, update_self, get_elem?-snoc, get_elem?-take,
  get_elem?-drop,
}
use cse_yet_another_file_sys.Disk.{block_num, start_at}

-- Every file's blocks lie in the data area and are marked as used, and no block stands twice, in
-- one file or in two.
pub record Owns (used : ℕ → ℕ) (own : ℕ → List ℕ) : Type 0 where
  pub valid :
      (i k b : ℕ) → get_elem? (own i) k ≡ some b → (start_at ≤ b) × (b < block_num) × (used b ≢ 0)
  pub single :
      (i j k l b : ℕ)
      → get_elem? (own i) k ≡ some b
      → get_elem? (own j) l ≡ some b
      → (i ≡ j) × (k ≡ l)

-- `using_blocks[id] = 0` for each id of the list.
unfoldable pub free_all : List ℕ → (ℕ → ℕ) → ℕ → ℕ
free_all [] used = used
free_all (b ∷ bs) used = free_all bs (update used b 0)

pub free_all_other :
    (bs : List ℕ) (used : ℕ → ℕ) (c : ℕ)
    → ((l : ℕ) → get_elem? bs l ≢ some c)
    → free_all bs used c ≡ used c
unfolding free_all
free_all_other [] used c h = refl
free_all_other (b ∷ bs) used c h =
    free_all_other bs (update used b 0) c (λ l. h (suc l)) ∙ ground (arith, h 0)

-- What is free stays free, and each id of the list is free in the end.
free_all_zero : (bs : List ℕ) (used : ℕ → ℕ) (c : ℕ) → used c ≡ 0 → free_all bs used c ≡ 0
unfolding free_all
free_all_zero [] used c h = h
free_all_zero (b ∷ bs) used c h = free_all_zero bs (update used b 0) c (ground arith)

pub free_all_in :
    (bs : List ℕ) (used : ℕ → ℕ) (k c : ℕ) → get_elem? bs k ≡ some c → free_all bs used c ≡ 0
unfolding free_all
free_all_in [] used k c h = absurd (ground arith)
free_all_in (b ∷ bs) used zero c h = free_all_zero bs (update used b 0) c (ground arith)
free_all_in (b ∷ bs) used (suc k) c h = free_all_in bs (update used b 0) k c h

-- An entry of the enlarged list is an old one or the new block.
module _ (own : ℕ → List ℕ) (i : ℕ) (xs : List ℕ) where
  entry_snoc :
      (b j k c : ℕ)
      → get_elem? (update own i (xs ++ b ∷ []) j) k ≡ some c
      → (get_elem? (update own i xs j) k ≡ some c) ⊎ ((i ≡ j) × (k ≡ length xs) × (b ≡ c))
  entry_snoc b j k c h = ground (arith, get_elem?-snoc xs b k {c = c})

  entry_take :
      (n j k c : ℕ)
      → get_elem? (update own i (take n xs) j) k ≡ some c
      → (get_elem? (update own i xs j) k ≡ some c) × ((i ≡ j → k < n))
  entry_take n j k c h = (
    ground (arith, get_elem?-take n xs k {c = c}),
    λ e. ground (arith, get_elem?-take n xs k {c = c}),
  )

module _ {used : ℕ → ℕ} {own : ℕ → List ℕ} (o : Owns used own) where
  -- A block that is free belongs to no file.
  pub free_unowned : (i k b : ℕ) → used b ≡ 0 → get_elem? (own i) k ≢ some b
  free_unowned i k b free e = (o.valid i k b e).2 free

module _ {used : ℕ → ℕ} (own : ℕ → List ℕ) (i : ℕ) (xs : List ℕ)
    (o : Owns used (update own i xs)) where
  pub Owns-alloc :
      (b : ℕ)
      → used b ≡ 0
      → start_at ≤ b
      → b < block_num
      → Owns (update used b 1) (update own i (xs ++ b ∷ []))
  Owns-alloc b free lo hi = record {
    valid = λ j k c h. elim (entry_snoc own i xs b j k c h) [
      | inl e ↦ let (p, q, r) = o.valid j k c e in (p, q, ground arith)
      | inr (_, _, e) ↦ (omega arith, omega arith, ground arith)
    ];
    single = λ j j' k l c h h'. elim (entry_snoc own i xs b j k c h) [
      | inl e ↦ elim (entry_snoc own i xs b j' l c h') [
        | inl e' ↦ o.single j j' k l c e e'
        | inr (_, _, e') ↦ absurd ((o.valid j k c e).2 (ground arith))
      ]
      | inr (p, q, e) ↦ elim (entry_snoc own i xs b j' l c h') [
        | inl e' ↦ absurd ((o.valid j' l c e').2 (ground arith))
        | inr (p', q', e') ↦ (omega arith, omega arith)
      ]
    ];
  }

  entry_drop :
      (n l c : ℕ)
      → get_elem? (drop n xs) l ≡ some c
      → get_elem? (update own i xs i) (n + l) ≡ some c
  entry_drop n l c h = rw (update_self own i xs) (sym (get_elem?-drop n xs l) ∙ h)

  kept :
      (n j k c : ℕ)
      → get_elem? (update own i xs j) k ≡ some c
      → (i ≡ j → k < n)
      → (l : ℕ) → get_elem? (drop n xs) l ≢ some c
  kept n j k c e below l d =
      let (p, q) = o.single i j (n + l) k c (entry_drop n l c d) e in
      absurd (omega (arith, below p))

  pub Owns-free : (n : ℕ) → Owns (free_all (drop n xs) used) (update own i (take n xs))
  Owns-free n = record {
    valid = λ j k c h.
        let (e, below) = entry_take own i xs n j k c h in
        let (p, q, r) = o.valid j k c e in
        (p, q, λ z. r (sym (free_all_other (drop n xs) used c (kept n j k c e below)) ∙ z));
    single = λ j j' k l c h h'.
        o.single j j' k l c (entry_take own i xs n j k c h).0 (entry_take own i xs n j' l c h').0;
  }
