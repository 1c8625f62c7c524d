-- ===== src/Marshall.antt =====
-- The templates of rpc/marshall.h for vectors and maps, and the operators of extent_protocol.h. The ones for
-- numbers and strings stand in the RPC library: they are a parameter, the bytes that each appends and what
-- each reads from an unmarshall.
pub mod Trips
pub mod Headers
pub mod Requests
pub mod Sample
mod Tests
use cse_yet_another_file_sys.Prelude.{
  ℕ, Bool, true, zero, suc, ◌%◌, ◌^◌, ◌<◌, ◌≡◌, List, [], ◌∷◌, ◌++◌, All, length, ap,
}
use cse_yet_another_file_sys.Bytes.{Bytes, IsByte}
use cse_yet_another_file_sys.Manager.Calls.{Attr}
use cse_yet_another_file_sys.Server.{FullFile}
use Prim.Native.Nat.{Ordering}

-- `unmarshall`: what is left of its buffer, and whether every read found what it wanted there.
pub record Unmarshall : Type 0 where
  pub left : Bytes
  pub ok : Bool

-- An unmarshall with a content, of which every read was good.
abbrev pub reading : Bytes → Unmarshall
reading u = record { left = u; ok = true }

-- The operators of the library, with what they are for: what was written is read. An int is its 32 bits.
pub record Wire : Type 0 where
  pub uint_bytes : ℕ → Bytes
  pub int_bytes : ℕ → Bytes
  pub ulonglong_bytes : ℕ → Bytes
  pub string_bytes : Bytes → Bytes
  pub get_uint : Unmarshall → ℕ × Unmarshall
  pub get_int : Unmarshall → ℕ × Unmarshall
  pub get_ulonglong : Unmarshall → ℕ × Unmarshall
  pub get_string : Unmarshall → Bytes × Unmarshall
  pub uint_law :
      (n : ℕ) (rest : Bytes)
      → n < 2 ^ 32
      → get_uint (reading (uint_bytes n ++ rest)) ≡ (n, reading rest)
  pub int_law :
      (n : ℕ) (rest : Bytes)
      → n < 2 ^ 32
      → get_int (reading (int_bytes n ++ rest)) ≡ (n, reading rest)
  pub ulonglong_law :
      (n : ℕ) (rest : Bytes)
      → n < 2 ^ 64
      → get_ulonglong (reading (ulonglong_bytes n ++ rest)) ≡ (n, reading rest)
  pub string_law :
      (s rest : Bytes)
      → length s < 2 ^ 31
      → All IsByte s
      → get_string (reading (string_bytes s ++ rest)) ≡ (s, reading rest)

-- `d[a] = b` on a `std::map` with the order `cmp` of its keys, as the list of its entries in that order.
unfoldable pub map_set : {A B : Type 0} → (A → A → Ordering) → A → B → List (A × B) → List (A × B)
map_set cmp a b [] = (a, b) ∷ []
map_set cmp a b ((x, y) ∷ d) =
    let rest = map_set cmp a b d in
    elim (cmp a x) [
      | Ordering.lt ↦ (a, b) ∷ (x, y) ∷ d
      | Ordering.eq ↦ (a, b) ∷ d
      | Ordering.gt ↦ (x, y) ∷ rest
    ]

-- The loops over the elements that are left.
unfoldable pub put_all : {A : Type 0} → (A → Bytes) → List A → Bytes
put_all put [] = []
put_all put (x ∷ xs) = put x ++ put_all put xs

unfoldable pub get_all :
    {A : Type 0} → (Unmarshall → A × Unmarshall) → ℕ → List A → Unmarshall → List A × Unmarshall
get_all get zero v u = (v, u)
get_all get (suc n) v u = let (z, u') = get u in get_all get n (v ++ (z ∷ [])) u'

unfoldable pub get_entries :
    {A B : Type 0}
    → (A → A → Ordering)
    → (Unmarshall → A × Unmarshall)
    → (Unmarshall → B × Unmarshall)
    → ℕ
    → List (A × B)
    → Unmarshall
    → List (A × B) × Unmarshall
unfolding map_set
get_entries cmp get_a get_b zero d u = (d, u)
get_entries cmp get_a get_b (suc n) d u =
    let (a, u1) = get_a u in
    let (b, u2) = get_b u1 in get_entries cmp get_a get_b n (map_set cmp a b d) u2

module _ (w : Wire) where
  unfoldable pub put_vector : {A : Type 0} → (A → Bytes) → List A → Bytes
  unfolding put_all
  put_vector put v = w.uint_bytes (length v % 2 ^ 32) ++ put_all put v

  -- The elements are added to those that `v` has.
  unfoldable pub get_vector :
      {A : Type 0} → (Unmarshall → A × Unmarshall) → List A → Unmarshall → List A × Unmarshall
  unfolding get_all
  get_vector get v u = let (n, u') = w.get_uint u in get_all get n v u'

  unfoldable pub put_map : {A B : Type 0} → (A → Bytes) → (B → Bytes) → List (A × B) → Bytes
  unfolding put_all
  put_map put_a put_b d =
      w.uint_bytes (length d % 2 ^ 32) ++ put_all (λ e. put_a e.0 ++ put_b e.1) d

  -- What the map had is cleared.
  unfoldable pub get_map :
      {A B : Type 0}
      → (A → A → Ordering)
      → (Unmarshall → A × Unmarshall)
      → (Unmarshall → B × Unmarshall)
      → List (A × B)
      → Unmarshall
      → List (A × B) × Unmarshall
  unfolding get_entries
  get_map cmp get_a get_b d u = let (n, u') = w.get_uint u in get_entries cmp get_a get_b n [] u'

  unfoldable pub put_attr : Attr → Bytes
  put_attr a =
      w.uint_bytes a.type
      ++ (w.uint_bytes a.atime
          ++ (w.uint_bytes a.mtime ++ (w.uint_bytes a.ctime ++ w.uint_bytes a.size)))

  unfoldable pub get_attr : Unmarshall → Attr × Unmarshall
  get_attr u =
      let (type, u1) = w.get_uint u in
      let (atime, u2) = w.get_uint u1 in
      let (mtime, u3) = w.get_uint u2 in
      let (ctime, u4) = w.get_uint u3 in
      let (size, u5) = w.get_uint u4 in
      (record { type = type; atime = atime; mtime = mtime; ctime = ctime; size = size }, u5)

  unfoldable pub put_full_file : FullFile → Bytes
  unfolding put_attr
  put_full_file f = put_attr f.attr ++ w.string_bytes f.buf

  unfoldable pub get_full_file : Unmarshall → FullFile × Unmarshall
  unfolding get_attr
  get_full_file u =
      let (attr, u1) = get_attr u in
      let (buf, u2) = w.get_string u1 in (record { attr = attr; buf = buf }, u2)
