-- ===== src/Ids/Laws.antt =====
-- The order of strings is a strict total order, and a `std::set` of them keeps its elements in it.
use cse_yet_another_file_sys.Prelude.{
  ◌≡◌, refl, sym, ◌∙◌, true, false, ◌||◌, List, [], ◌∷◌, arith, All, ◌⊎◌, inl, inr, Bool-cases, ◌↔◌,
}
use cse_yet_another_file_sys.Bytes.{Bytes}
use cse_yet_another_file_sys.Ids.{order, same_id, set_insert, member}
use Prim.Native.Nat.{Ordering}

pub Ordering-cases : (o : Ordering) → (o ≡ Ordering.lt) ⊎ ((o ≡ Ordering.eq) ⊎ (o ≡ Ordering.gt))
Ordering-cases Ordering.lt = inl refl
Ordering-cases Ordering.eq = inr (inl refl)
Ordering-cases Ordering.gt = inr (inr refl)

pub order_refl : (a : Bytes) → order a a ≡ Ordering.eq
unfolding order
order_refl [] = refl
order_refl (x ∷ xs) = ground (arith, order_refl xs)

pub order-eq : (a b : Bytes) → order a b ≡ Ordering.eq → a ≡ b
unfolding order
order-eq [] [] h = refl
order-eq [] (y ∷ ys) h = ground arith
order-eq (x ∷ xs) [] h = ground arith
order-eq (x ∷ xs) (y ∷ ys) h = ground (arith, order-eq xs ys)

pub order_flip : (a b : Bytes) → order a b ≡ Ordering.gt → order b a ≡ Ordering.lt
unfolding order
order_flip [] [] h = ground arith
order_flip [] (y ∷ ys) h = ground arith
order_flip (x ∷ xs) [] h = refl
order_flip (x ∷ xs) (y ∷ ys) h = ground (arith, order_flip xs ys)

pub order_trans :
    (a b c : Bytes) → order a b ≡ Ordering.lt → order b c ≡ Ordering.lt → order a c ≡ Ordering.lt
unfolding order
order_trans [] b [] h k = ground arith
order_trans [] b (z ∷ zs) h k = refl
order_trans (x ∷ xs) [] c h k = ground arith
order_trans (x ∷ xs) (y ∷ ys) [] h k = ground arith
order_trans (x ∷ xs) (y ∷ ys) (z ∷ zs) h k = ground (arith, order_trans xs ys zs)

pub same_id_iff : (a b : Bytes) → (same_id a b ≡ true) ↔ (a ≡ b)
unfolding same_id
same_id_iff a b = (λ h. order-eq a b (ground arith), λ h. rw (← h, same_id, order_refl a))

pub same_id_refl : (a : Bytes) → same_id a a ≡ true
same_id_refl a = (same_id_iff a a).1 refl

pub same_id_comm : (a b : Bytes) → same_id a b ≡ same_id b a
same_id_comm a b = elim (Bool-cases (same_id a b)) [
  | inl y ↦ let e : a ≡ b = (same_id_iff a b).0 y in rw e refl
  | inr n ↦ elim (Bool-cases (same_id b a)) [
    | inl y ↦ let e : b ≡ a = (same_id_iff b a).0 y in rw e refl
    | inr m ↦ n ∙ sym m
  ]
]

-- The elements stand in the order, each once.
unfoldable pub IsSorted : List Bytes → Type 0
IsSorted [] = Unit
IsSorted (x ∷ xs) = All (λ y. order x y ≡ Ordering.lt) xs × IsSorted xs

All-set_insert :
    (P : Bytes → Type 0) (id : Bytes) (xs : List Bytes) → P id → All P xs → All P (set_insert id xs)
unfolding set_insert
All-set_insert P id [] h hs = (h, tt)
All-set_insert P id (x ∷ xs) h hs = elim (Ordering-cases (order id x)) [
  | inl e ↦ rw (e, All) (h, hs)
  | inr (inl e) ↦ rw (e, All) hs
  | inr (inr e) ↦ rw (e, All) (hs.0, All-set_insert P id xs h hs.1)
]

All-above :
    (id x : Bytes) (xs : List Bytes)
    → order id x ≡ Ordering.lt
    → All (λ y. order x y ≡ Ordering.lt) xs
    → All (λ y. order id y ≡ Ordering.lt) xs
All-above id x [] h hs = tt
All-above id x (y ∷ ys) h hs = (order_trans id x y h hs.0, All-above id x ys h hs.1)

pub set_insert-IsSorted : (id : Bytes) (xs : List Bytes) → IsSorted xs → IsSorted (set_insert id xs)
unfolding set_insert IsSorted
set_insert-IsSorted id [] h = (tt, tt)
set_insert-IsSorted id (x ∷ xs) h = elim (Ordering-cases (order id x)) [
  | inl e ↦ rw (e, IsSorted) ((e, All-above id x xs e h.0), h)
  | inr (inl e) ↦ rw (e, IsSorted) h
  | inr (inr e) ↦
      rw (e, IsSorted)
        (
          All-set_insert (λ y. order x y ≡ Ordering.lt) id xs (order_flip id x e) h.0,
          set_insert-IsSorted id xs h.1,
        )
]

-- Inserting adds the one element.
pub member-set_insert :
    (a id : Bytes) (xs : List Bytes) → member a (set_insert id xs) ≡ same_id a id || member a xs
unfolding set_insert member
member-set_insert a id [] = ground arith
member-set_insert a id (x ∷ xs) = elim (Ordering-cases (order id x)) [
  | inl e ↦ rw (e, member) (ground arith)
  | inr (inl e) ↦ rw (e, member, order-eq id x e) (ground arith)
  | inr (inr e) ↦ rw (e, member) (ground (arith, member-set_insert a id xs))
]

-- The first element is not among those after it.
pub member_later :
    (x : Bytes) (xs : List Bytes) → All (λ y. order x y ≡ Ordering.lt) xs → member x xs ≡ false
unfolding member same_id
member_later x [] h = refl
member_later x (y ∷ ys) h = rw (h.0, member) (member_later x ys h.1)

pub member-cons : (c x : Bytes) (xs : List Bytes) → member c (x ∷ xs) ≡ member c xs || same_id c x
unfolding member
member-cons c x xs = ground arith

-- A member is the first element or comes after it.
pub member_after :
    (w x : Bytes) (xs : List Bytes)
    → member w (x ∷ xs) ≡ true
    → All (λ y. order x y ≡ Ordering.lt) xs
    → (w ≡ x) ⊎ (order x w ≡ Ordering.lt)
unfolding member
member_after w x xs h above = elim (Bool-cases (same_id w x)) [
  | inl y ↦ inl ((same_id_iff w x).0 y)
  | inr n ↦ inr (later xs above (ground arith))
]
  where
    later :
        (ys : List Bytes)
        → All (λ y. order x y ≡ Ordering.lt) ys
        → member w ys ≡ true
        → order x w ≡ Ordering.lt
    later [] a k = ground arith
    later (y ∷ ys) a k = elim (Bool-cases (same_id w y)) [
      | inl e ↦ let here : w ≡ y = (same_id_iff w y).0 e in rw here a.0
      | inr n ↦ later ys a.1 (ground arith)
    ]
