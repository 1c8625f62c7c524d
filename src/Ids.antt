-- ===== src/Ids.antt =====
-- `std::string` as the name of a client, with the order of its `operator<`, and `std::set` of such
-- names, as lock_server_cache.h uses them.
pub mod Laws
use cse_yet_another_file_sys.Prelude.{ℕ, Bool, true, false, List, [], ◌∷◌}
use cse_yet_another_file_sys.Bytes.{Bytes}
use Prim.Native.Nat.{compare, Ordering}

-- `std::string::compare`: the first byte that differs decides, then the lengths.
unfoldable pub order : Bytes → Bytes → Ordering
order [] [] = Ordering.eq
order [] (y ∷ ys) = Ordering.lt
order (x ∷ xs) [] = Ordering.gt
order (x ∷ xs) (y ∷ ys) =
    let rest = order xs ys in
    elim (compare x y) [
      | Ordering.lt ↦ Ordering.lt
      | Ordering.gt ↦ Ordering.gt
      | Ordering.eq ↦ rest
    ]

-- `operator==` on strings.
unfoldable pub same_id : Bytes → Bytes → Bool
unfolding order
same_id a b = elim (order a b) [ Ordering.eq ↦ true | _ ↦ false ]

-- `std::set::insert`: the elements stand in order, and one that is there is not added again.
unfoldable pub set_insert : Bytes → List Bytes → List Bytes
unfolding order
set_insert id [] = id ∷ []
set_insert id (x ∷ xs) =
    let rest = set_insert id xs in
    elim (order id x) [ Ordering.lt ↦ id ∷ x ∷ xs | Ordering.eq ↦ x ∷ xs | Ordering.gt ↦ x ∷ rest ]

-- Whether a set has an element.
unfoldable pub member : Bytes → List Bytes → Bool
unfolding same_id
member id [] = false
member id (x ∷ xs) = let rest = member id xs in elim (same_id id x) [ true ↦ true | false ↦ rest ]
