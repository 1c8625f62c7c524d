-- ===== src/YfsClient/Ranges.antt =====
-- The bytes of a file with others written over a range, as `write` of yfs_client.cc writes them.
use cse_yet_another_file_sys.Prelude.{
  ℕ, zero, suc, ◌+◌, ◌-◌, ◌<◌, ◌≤◌, ◌≡◌, refl, ap, ap₂, sym, ◌∙◌, [], ◌∷◌, ◌++◌, length, take, drop,
  replicate, arith, leb, if◌then◌else◌, length-append, length-take, length-replicate, take_all,
  take-append, drop-append, append-nil, append_assoc,
}
use cse_yet_another_file_sys.Bytes.{Bytes}
use cse_yet_another_file_sys.Manager.{resize}

-- The bytes with others written over them from `off` on, after zero bytes up to there.
abbrev pub overwritten : Bytes → ℕ → Bytes → Bytes
overwritten content off bytes =
    take off (content ++ replicate (off - length content) 0)
    ++ bytes
    ++ drop (off + length bytes) content

-- How many bytes `write` says it wrote.
abbrev pub reported : Bytes → ℕ → Bytes → ℕ
reported content off bytes =
    if leb off (length content) then length bytes else length bytes + off - length content

replicate-add : (m n : ℕ) → replicate {A = ℕ} (m + n) 0 ≡ replicate m 0 ++ replicate n 0
replicate-add zero n = let e : zero + n ≡ n = omega arith in rw e refl
replicate-add (suc m) n =
    let e : suc m + n ≡ suc (m + n) = omega arith in rw e (ap (◌∷◌ 0) (replicate-add m n))

pub drop_all : (n : ℕ) (xs : Bytes) → length xs ≤ n → drop n xs ≡ []
drop_all zero [] h = refl
drop_all zero (x ∷ xs) h = absurd (omega arith)
drop_all (suc n) [] h = refl
drop_all (suc n) (x ∷ xs) h = drop_all n xs (omega arith)

pub length-resize : (k off : ℕ) (content : Bytes) → off ≤ length (resize (k + off) content)
length-resize k off content = omega (
  arith,
  length-append (take (k + off) content) (replicate (k + off - length content) 0),
  length-take (k + off) content,
  length-replicate {A = ℕ} (k + off - length content) 0,
)

pub take_nil : (n : ℕ) → take {A = ℕ} n [] ≡ []
take_nil zero = refl
take_nil (suc n) = refl

-- The bytes that were written stand at the offset.
pub written_back :
    (content : Bytes) (off : ℕ) (bytes : Bytes)
    → take (length bytes) (drop off (overwritten content off bytes)) ≡ bytes
written_back content off bytes =
    let before = take off (content ++ replicate (off - length content) 0) in
    let behind = drop (off + length bytes) content in
    let reach : length before ≡ off = omega (
      arith,
      length-take off (content ++ replicate (off - length content) 0),
      length-append content (replicate (off - length content) 0),
      length-replicate {A = ℕ} (off - length content) 0,
    ) in
    ap (λ (b : Bytes). take (length bytes) (drop off b)) (append_assoc before bytes behind)
    ∙ ap (take (length bytes)) (drop-append off before (bytes ++ behind) reach)
    ∙ take-append (length bytes) bytes behind refl

pub inside :
    (content : Bytes) (off : ℕ) (bytes : Bytes)
    → off ≤ length content
    → take off content ++ bytes ++ drop (off + length bytes) content ≡ overwritten content off bytes
inside content off bytes h =
    let e : off - length content ≡ 0 = omega arith in rw (e, append-nil content) refl

pub beyond :
    (content : Bytes) (off : ℕ) (bytes : Bytes)
    → length content < off
    → take off (resize (length bytes + off) content)
        ++ bytes
        ++ drop (off + length bytes) (resize (length bytes + off) content)
      ≡ overwritten content off bytes
beyond content off bytes h =
    let n = length bytes + off in
    let zeros = off - length content in
    let split : n - length content ≡ zeros + length bytes = omega arith in
    let long : take n content ≡ content = take_all n content (omega arith) in
    let grown : resize n content ≡ content ++ replicate zeros 0 ++ replicate (length bytes) 0 =
      ap₂ (◌++◌) long (ap (λ k. replicate k 0) split ∙ replicate-add zeros (length bytes))
      ∙ sym (append_assoc content (replicate zeros 0) (replicate (length bytes) 0)) in
    let reach : length (content ++ replicate zeros 0) ≡ off =
      omega (arith, length-append content (replicate zeros 0), length-replicate {A = ℕ} zeros 0) in
    let front : take off (resize n content) ≡ take off (content ++ replicate zeros 0) =
      ap (take off) grown
      ∙ take-append off (content ++ replicate zeros 0) (replicate (length bytes) 0) reach
      ∙ sym (take_all off (content ++ replicate zeros 0) (omega (arith, reach))) in
    let back : drop (off + length bytes) (resize n content) ≡ drop (off + length bytes) content =
      drop_all (off + length bytes) (resize n content) (
        omega (
          arith,
          ap length grown,
          length-append (content ++ replicate zeros 0) (replicate (length bytes) 0),
          reach,
          length-replicate {A = ℕ} (length bytes) 0,
        ))
      ∙ sym (drop_all (off + length bytes) content (omega arith)) in
    ap₂ (λ (u v : Bytes). u ++ bytes ++ v) front back
