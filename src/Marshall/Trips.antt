-- ===== src/Marshall/Trips.antt =====
-- What the templates of rpc/marshall.h and the operators of extent_protocol.h write, they read.
use cse_yet_another_file_sys.Prelude.{
  ℕ, ◌%◌, ◌^◌, ◌<◌, ◌≡◌, refl, ap, sym, ◌∙◌, List, [], ◌∷◌, ◌++◌, All, length, arith, append_assoc,
  append-nil, All-append,
}
use cse_yet_another_file_sys.Bytes.{Bytes, IsByte}
use cse_yet_another_file_sys.Manager.Calls.{Attr}
use cse_yet_another_file_sys.Server.{FullFile}
use cse_yet_another_file_sys.Marshall.{
  Unmarshall, reading, Wire, map_set, put_all, get_all, get_entries, put_vector, get_vector,
  put_map, get_map, put_attr, get_attr, put_full_file, get_full_file,
}
use Prim.Native.Nat.{Ordering}

-- A number is read, and what was written behind it is left.
next_uint :
    (w : Wire) (n : ℕ) (tail rest : Bytes)
    → n < 2 ^ 32
    → w.get_uint (reading (w.uint_bytes n ++ tail ++ rest)) ≡ (n, reading (tail ++ rest))
next_uint w n tail rest h =
    ap (λ b. w.get_uint (reading b)) (append_assoc (w.uint_bytes n) tail rest)
    ∙ w.uint_law n (tail ++ rest) h

get_all-put_all :
    {A : Type 0} (put : A → Bytes) (get : Unmarshall → A × Unmarshall) (IsValue : A → Type 0)
    → ((a : A) (rest : Bytes) → IsValue a → get (reading (put a ++ rest)) ≡ (a, reading rest))
    → (v before : List A) (rest : Bytes) → All IsValue v
    → get_all get (length v) before (reading (put_all put v ++ rest)) ≡ (before ++ v, reading rest)
unfolding get_all put_all
get_all-put_all put get IsValue law [] before rest h =
    ap (λ b. (b, reading rest)) (sym (append-nil before))
get_all-put_all put get IsValue law (x ∷ v) before rest h =
    let e =
      ap (λ b. get (reading b)) (append_assoc (put x) (put_all put v) rest)
      ∙ law x (put_all put v ++ rest) h.0 in
    ap (λ p. get_all get (length v) (before ++ (p.0 ∷ [])) p.1) e
    ∙ get_all-put_all put get IsValue law v (before ++ (x ∷ [])) rest h.1
    ∙ ap (λ b. (b, reading rest)) (append_assoc before (x ∷ []) v)

-- A vector of fewer than 2 ^ 32 elements, whose elements are read as they were written, is read back behind the
-- elements that the vector had, and what follows it is left.
pub get_vector-put_vector :
    (w : Wire) {A : Type 0} (put : A → Bytes) (get : Unmarshall → A × Unmarshall)
    (IsValue : A → Type 0)
    → ((a : A) (rest : Bytes) → IsValue a → get (reading (put a ++ rest)) ≡ (a, reading rest))
    → (v before : List A) (rest : Bytes) → All IsValue v
    → length v < 2 ^ 32
    → get_vector w get before (reading (put_vector w put v ++ rest)) ≡ (before ++ v, reading rest)
unfolding get_vector put_vector
get_vector-put_vector w put get IsValue law v before rest h small =
    let whole : length v % 2 ^ 32 ≡ length v = omega (arith, small) in
    ap (λ p. get_all get p.0 before p.1)
      (next_uint w (length v % 2 ^ 32) (put_all put v) rest (omega arith))
    ∙ ap (λ n. get_all get n before (reading (put_all put v ++ rest))) whole
    ∙ get_all-put_all put get IsValue law v before rest h

-- The entries of a map stand in the order of their keys: a later key is greater than an earlier one.
unfoldable pub IsMap : {A B : Type 0} → (A → A → Ordering) → List (A × B) → Type 0
IsMap cmp [] = Unit
IsMap {A} {B} cmp (e ∷ d) = All (λ (f : A × B). cmp f.0 e.0 ≡ Ordering.gt) d × IsMap cmp d

-- A key that is greater than all others is added at the end.
map_set_last :
    {A B : Type 0} (cmp : A → A → Ordering) (a : A) (b : B) (d : List (A × B))
    → All (λ (e : A × B). cmp a e.0 ≡ Ordering.gt) d
    → map_set cmp a b d ≡ d ++ ((a, b) ∷ [])
unfolding map_set
map_set_last cmp a b [] h = refl
map_set_last cmp a b (e ∷ d) h = rw (h.0, map_set) (ap (◌∷◌ e) (map_set_last cmp a b d h.1))

-- What `operator<<` of an attr wrote is read back, where the fields are words of 32 bits.
pub record IsAttr (a : Attr) : Type 0 where
  pub type_fits : a.type < 2 ^ 32
  pub atime_fits : a.atime < 2 ^ 32
  pub mtime_fits : a.mtime < 2 ^ 32
  pub ctime_fits : a.ctime < 2 ^ 32
  pub size_fits : a.size < 2 ^ 32

pub get_attr-put_attr :
    (w : Wire) (a : Attr) (rest : Bytes)
    → IsAttr a
    → get_attr w (reading (put_attr w a ++ rest)) ≡ (a, reading rest)
unfolding get_attr put_attr
get_attr-put_attr w a rest h =
    let u1 = w.uint_bytes a.size in
    let u2 = w.uint_bytes a.ctime ++ u1 in
    let u3 = w.uint_bytes a.mtime ++ u2 in
    let u4 = w.uint_bytes a.atime ++ u3 in
    rw
      (
        next_uint w a.type u4 rest h.type_fits,
        next_uint w a.atime u3 rest h.atime_fits,
        next_uint w a.mtime u2 rest h.mtime_fits,
        next_uint w a.ctime u1 rest h.ctime_fits,
        w.uint_law a.size rest h.size_fits,
      )
      refl

-- The file that the extent server sends is the one that the extent client gets: a `full_file` of such attributes
-- and a string of fewer than 2 ^ 31 bytes is read back, and what follows it is left.
pub get_full_file-put_full_file :
    (w : Wire) (f : FullFile) (rest : Bytes)
    → IsAttr f.attr
    → length f.buf < 2 ^ 31
    → All IsByte f.buf
    → get_full_file w (reading (put_full_file w f ++ rest)) ≡ (f, reading rest)
unfolding get_full_file put_full_file
get_full_file-put_full_file w f rest h small bytes =
    let e : get_attr w (reading (put_attr w f.attr ++ w.string_bytes f.buf ++ rest))
        ≡ (f.attr, reading (w.string_bytes f.buf ++ rest)) =
      ap (λ b. get_attr w (reading b))
        (append_assoc (put_attr w f.attr) (w.string_bytes f.buf) rest)
      ∙ get_attr-put_attr w f.attr (w.string_bytes f.buf ++ rest) h in
    ap
      (λ (p : Attr × Unmarshall).
        let (buf, left) = w.get_string p.1 in (record { attr = p.0; buf = buf }, left))
      e
    ∙ ap (λ (q : Bytes × Unmarshall). (record { attr = f.attr; buf = q.0 }, q.1))
        (w.string_law f.buf rest small bytes)

above_snoc :
    {A B : Type 0} (cmp : A → A → Ordering) (a : A) (b : B) (before d : List (A × B))
    → All (λ (e : A × B). All (λ (f : A × B). cmp e.0 f.0 ≡ Ordering.gt) before) d
    → All (λ (e : A × B). cmp e.0 a ≡ Ordering.gt) d
    → All
        (λ (e : A × B). All (λ (f : A × B). cmp e.0 f.0 ≡ Ordering.gt) (before ++ ((a, b) ∷ [])))
        d
above_snoc cmp a b before [] h k = tt
above_snoc cmp a b before (e ∷ d) h k = (
  All-append (λ f. cmp e.0 f.0 ≡ Ordering.gt) before ((a, b) ∷ []) h.0 (k.0, tt),
  above_snoc cmp a b before d h.1 k.1,
)

get_entries-put_all :
    {A B : Type 0} (cmp : A → A → Ordering) (put_a : A → Bytes) (put_b : B → Bytes)
    (get_a : Unmarshall → A × Unmarshall) (get_b : Unmarshall → B × Unmarshall) (IsKey : A → Type 0)
    (IsValue : B → Type 0)
    → ((a : A) (rest : Bytes) → IsKey a → get_a (reading (put_a a ++ rest)) ≡ (a, reading rest))
    → ((b : B) (rest : Bytes) → IsValue b → get_b (reading (put_b b ++ rest)) ≡ (b, reading rest))
    → (d before : List (A × B)) (rest : Bytes) → All (λ (e : A × B). IsKey e.0 × IsValue e.1) d
    → IsMap cmp d
    → All (λ (e : A × B). All (λ (f : A × B). cmp e.0 f.0 ≡ Ordering.gt) before) d
    → get_entries cmp get_a get_b
        (length d)
        before
        (reading (put_all (λ e. put_a e.0 ++ put_b e.1) d ++ rest))
      ≡ (before ++ d, reading rest)
unfolding get_entries put_all IsMap
get_entries-put_all cmp put_a put_b get_a get_b IsKey IsValue law_a law_b [] before rest h m above =
    ap (λ b. (b, reading rest)) (sym (append-nil before))
get_entries-put_all cmp put_a put_b get_a get_b IsKey IsValue law_a law_b ((a, b) ∷ d) before rest h
      m above =
    let tail = put_all (λ e. put_a e.0 ++ put_b e.1) d in
    let e1 : get_a (reading (put_a a ++ put_b b ++ tail ++ rest))
        ≡ (a, reading (put_b b ++ (tail ++ rest))) =
      ap (λ b. get_a (reading b))
        (append_assoc (put_a a ++ put_b b) tail rest
          ∙ append_assoc (put_a a) (put_b b) (tail ++ rest))
      ∙ law_a a (put_b b ++ (tail ++ rest)) h.0.0 in
    ap
      (λ p.
        get_entries cmp get_a get_b (length d) (map_set cmp p.0 (get_b p.1).0 before) (get_b p.1).1)
      e1
    ∙ ap (λ q. get_entries cmp get_a get_b (length d) (map_set cmp a q.0 before) q.1)
        (law_b b (tail ++ rest) h.0.1)
    ∙ ap (λ c. get_entries cmp get_a get_b (length d) c (reading (tail ++ rest)))
        (map_set_last cmp a b before above.0)
    ∙ get_entries-put_all cmp put_a put_b get_a get_b IsKey IsValue law_a law_b d
        (before ++ ((a, b) ∷ [])) rest h.1 m.1 (above_snoc cmp a b before d above.1 m.0)
    ∙ ap (λ c. (c, reading rest)) (append_assoc before ((a, b) ∷ []) d)

none_above :
    {A B : Type 0} (cmp : A → A → Ordering) (d : List (A × B))
    → All (λ (e : A × B). All (λ (f : A × B). cmp e.0 f.0 ≡ Ordering.gt) []) d
none_above cmp [] = tt
none_above cmp (e ∷ d) = (tt, none_above cmp d)

-- A map of fewer than 2 ^ 32 entries, whose keys and values are read as they were written, is read back, whatever
-- the map that is read into had, and what follows it is left.
pub get_map-put_map :
    (w : Wire) {A B : Type 0} (cmp : A → A → Ordering) (put_a : A → Bytes) (put_b : B → Bytes)
    (get_a : Unmarshall → A × Unmarshall) (get_b : Unmarshall → B × Unmarshall) (IsKey : A → Type 0)
    (IsValue : B → Type 0)
    → ((a : A) (rest : Bytes) → IsKey a → get_a (reading (put_a a ++ rest)) ≡ (a, reading rest))
    → ((b : B) (rest : Bytes) → IsValue b → get_b (reading (put_b b ++ rest)) ≡ (b, reading rest))
    → (d old : List (A × B)) (rest : Bytes) → All (λ (e : A × B). IsKey e.0 × IsValue e.1) d
    → IsMap cmp d
    → length d < 2 ^ 32
    → get_map w cmp get_a get_b old (reading (put_map w put_a put_b d ++ rest)) ≡ (d, reading rest)
unfolding get_map put_map
get_map-put_map w cmp put_a put_b get_a get_b IsKey IsValue law_a law_b d old rest h m small =
    let whole : length d % 2 ^ 32 ≡ length d = omega (arith, small) in
    let tail = put_all (λ e. put_a e.0 ++ put_b e.1) d in
    ap (λ p. get_entries cmp get_a get_b p.0 [] p.1)
      (next_uint w (length d % 2 ^ 32) tail rest (omega arith))
    ∙ ap (λ n. get_entries cmp get_a get_b n [] (reading (tail ++ rest))) whole
    ∙ get_entries-put_all cmp put_a put_b get_a get_b IsKey IsValue law_a law_b d [] rest h m
        (none_above cmp d)
