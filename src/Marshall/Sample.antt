-- ===== src/Marshall/Sample.antt =====
-- The operators of the RPC library with numbers of four and eight bytes, the lowest first, and strings behind
-- their length: they do what the Wire of marshalling asks.
use cse_yet_another_file_sys.Prelude.{
  leb, ltb, ◌*◌, ◌/◌, ◌%◌, ◌-◌, ◌+◌, ◌==◌, ◌&&◌, ℕ, Bool, true, false, if◌then◌else◌, length-append,
  ◌^◌, ◌<◌, ◌≡◌, refl, ap, ◌∙◌, ◌++◌, length, take, drop, arith, append_assoc, take-append,
  drop-append,
}
use cse_yet_another_file_sys.Bytes.{Bytes}
use cse_yet_another_file_sys.Marshall.Headers.{MarshallBuffer, UnmarshallBuffer, Packing}
use cse_yet_another_file_sys.Marshall.{Unmarshall, reading, Wire}
use cse_yet_another_file_sys.YfsClient.Format.{number_bytes, bytes_number}
use cse_yet_another_file_sys.YfsClient.Printing.{length-number_bytes, bytes_number-number_bytes}

-- A read beyond the end is bad.
abbrev pub beyond : ℕ → Unmarshall → Bool
beyond n u = if ltb (length u.left) n then false else u.ok

abbrev pub read_number : ℕ → Unmarshall → ℕ × Unmarshall
read_number n u = (bytes_number (take n u.left), record { left = drop n u.left; ok = beyond n u })

abbrev pub read_string : Unmarshall → Bytes × Unmarshall
read_string u =
    let (n, v) = read_number 4 u in
    (take n v.left, record { left = drop n v.left; ok = beyond n v })

-- What is long enough is read well.
beyond_append : (n : ℕ) (a rest : Bytes) → length a ≡ n → beyond n (reading (a ++ rest)) ≡ true
beyond_append n a rest h = ground (arith, length-append a rest, h)

reading_lem :
    {A : Type 0} {a a' : A} {u : Bytes} {k : Bool} (rest : Bytes)
    → a ≡ a'
    → u ≡ rest
    → k ≡ true
    → ◌≡◌ {A = A × Unmarshall} (a, record { left = u; ok = k }) (a', reading rest)
reading_lem rest ea eu ek = rw (ea, eu, ek) refl

pub read_number_lem :
    (k n : ℕ) (rest : Bytes)
    → n < 256 ^ k
    → read_number k (reading (number_bytes k n ++ rest)) ≡ (n, reading rest)
read_number_lem k n rest h =
    reading_lem rest
      (ap bytes_number (take-append k (number_bytes k n) rest (length-number_bytes k n))
        ∙ bytes_number-number_bytes k n h)
      (drop-append k (number_bytes k n) rest (length-number_bytes k n))
      (beyond_append k (number_bytes k n) rest (length-number_bytes k n))

abbrev pub write_string : Bytes → Bytes
write_string s = number_bytes 4 (length s) ++ s

pub read_string_lem :
    (s rest : Bytes)
    → length s < 2 ^ 31
    → read_string (reading (write_string s ++ rest)) ≡ (s, reading rest)
read_string_lem s rest h =
    ap
      (λ (p : ℕ × Unmarshall).
        (take p.0 p.1.left, record { left = drop p.0 p.1.left; ok = beyond p.0 p.1 }))
      (ap (λ b. read_number 4 (reading b)) (append_assoc (number_bytes 4 (length s)) s rest)
        ∙ read_number_lem 4 (length s) (s ++ rest) (omega (arith, h)))
    ∙ reading_lem rest (take-append (length s) s rest refl) (drop-append (length s) s rest refl)
        (beyond_append (length s) s rest refl)

abbrev pub wire : Wire
wire = record {
  uint_bytes = number_bytes 4;
  int_bytes = number_bytes 4;
  ulonglong_bytes = number_bytes 8;
  string_bytes = write_string;
  get_uint = read_number 4;
  get_int = read_number 4;
  get_ulonglong = read_number 8;
  get_string = read_string;
  uint_law = λ n rest h. read_number_lem 4 n rest h;
  int_law = λ n rest h. read_number_lem 4 n rest h;
  ulonglong_law = λ n rest h. read_number_lem 8 n rest h;
  string_law = λ s rest small bytes. read_string_lem s rest small;
}

-- Everything was read, and read well.
abbrev pub okdone : Unmarshall → Bool
okdone u = u.ok && (length u.left == 0)

-- Ints as four bytes, the lowest first.
abbrev pub int_byte : ℕ → ℕ → ℕ
int_byte i k =
    if k == 0
    then i % 256
    else if k == 1
    then i / 256 % 256
    else if k == 2
    then i / 65536 % 256
    else i / 16777216 % 256

abbrev pub pack : ℕ → MarshallBuffer → MarshallBuffer
pack i m = record {
  buf = λ j. if leb m.ind j && ltb j (m.ind + 4) then int_byte i (j - m.ind) else m.buf j;
  ind = m.ind + 4;
}

abbrev pub join : ℕ → ℕ → ℕ → ℕ → ℕ
join a b c d = a + b * 256 + c * 65536 + d * 16777216

abbrev pub unpack : UnmarshallBuffer → ℕ × UnmarshallBuffer
unpack u = (
  join (u.buf u.ind) (u.buf (u.ind + 1)) (u.buf (u.ind + 2)) (u.buf (u.ind + 3)),
  record u { ind = u.ind + 4 },
)

pub join_lem :
    (i : ℕ) (u : UnmarshallBuffer)
    → i < 2 ^ 32
    → ((k : ℕ) → k < 4 → u.buf (u.ind + k) ≡ int_byte i k)
    → unpack u ≡ (i, record u { ind = u.ind + 4 })
join_lem i u h bytes =
    let none_more : u.ind ≡ u.ind + 0 = omega arith in
    ap (λ (n : ℕ). (n, record u { ind = u.ind + 4 }))
      (omega (
        arith,
        ap u.buf none_more ∙ bytes 0 (omega arith),
        bytes 1 (omega arith),
        bytes 2 (omega arith),
        bytes 3 (omega arith),
        h,
      ))

abbrev pub packing : Packing
packing = record {
  int_byte = int_byte;
  pack = pack;
  unpack = unpack;
  pack-ind = λ i m. refl;
  pack-here = λ i m k small. ground arith;
  pack-before = λ i m j small. ground arith;
  pack-after = λ i m j large. ground arith;
  unpack_law = λ i u small good room bytes. join_lem i u small bytes;
}
