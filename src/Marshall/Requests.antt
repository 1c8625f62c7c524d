-- ===== src/Marshall/Requests.antt =====
-- A header that was packed before the content of rpc/marshall.h is unpacked, and the content is what is left.
use cse_yet_another_file_sys.Prelude.{
  ℕ, zero, suc, ◌+◌, ◌-◌, ◌*◌, ◌<◌, ◌≤◌, ◌^◌, ◌≡◌, refl, ap, ap₂, ◌∙◌, Bool, true, false,
  Bool-cases, inl, inr, List, [], ◌∷◌, All, length, arith, ltb,
}
use cse_yet_another_file_sys.Bytes.{Bytes}
use cse_yet_another_file_sys.Marshall.{reading}
use cse_yet_another_file_sys.Marshall.Headers.{
  MarshallBuffer, UnmarshallBuffer, ReqHeader, ReplyHeader, Packing, bytes_from, byte_of,
  take_content, left_of, header_start, rpc_header_sz, get_content, unmarshall_init, pack_req_header,
  pack_reply_header, unpack_req_header, unpack_reply_header,
}

-- The bytes from an offset on depend on those bytes only.
bytes_from_same :
    (f g : ℕ → ℕ) (i n : ℕ) → ((j : ℕ) → i ≤ j → f j ≡ g j) → bytes_from f i n ≡ bytes_from g i n
unfolding bytes_from
bytes_from_same f g i zero h = refl
bytes_from_same f g i (suc n) h =
    ap₂ (λ (b : ℕ) (bs : Bytes). b ∷ bs) (h i (omega arith))
      (bytes_from_same f g (i + 1) n (λ j le. h j (omega (arith, le))))

bytes_from-byte_of :
    (s : Bytes) (f : ℕ → ℕ) (i : ℕ)
    → ((k : ℕ) → k < length s → f (i + k) ≡ byte_of s k)
    → bytes_from f i (length s) ≡ s
unfolding bytes_from byte_of
bytes_from-byte_of [] f i h = refl
bytes_from-byte_of (b ∷ s) f i h =
    let here : i ≡ i + 0 = omega arith in
    ap₂ (λ (c : ℕ) (bs : Bytes). c ∷ bs) (ap f here ∙ h 0 (omega arith))
      (bytes_from-byte_of s f (i + 1) (λ k small.
        let there : i + 1 + k ≡ i + suc k = omega arith in
        ap f there ∙ h (suc k) (omega (arith, small))))

-- An unmarshall that took a string, such as the content of a marshall, has it left to read.
pub left_of-take_content :
    (checksumming : Bool) (s : Bytes) (u : UnmarshallBuffer)
    → left_of (take_content checksumming s u) ≡ reading s
unfolding take_content
left_of-take_content checksumming s u =
    let n = rpc_header_sz checksumming in
    let size : length s + n - n ≡ length s = omega arith in
    ap reading (
      ap (bytes_from (take_content checksumming s u).buf n) size
      ∙ bytes_from-byte_of s (take_content checksumming s u).buf n (λ k small.
        let above : ltb (n + k) n ≡ false = ground arith in
        let back : n + k - n ≡ k = omega arith in rw above (ap (byte_of s) back)))

module _ (p : Packing) where
  abbrev pack_all : List ℕ → MarshallBuffer → MarshallBuffer
  pack_all [] m = m
  pack_all (x ∷ xs) m = pack_all xs (p.pack x m)

  abbrev unpack_all : ℕ → UnmarshallBuffer → List ℕ × UnmarshallBuffer
  unpack_all zero u = ([], u)
  unpack_all (suc n) u = let (x, v) = p.unpack u in let (xs, w) = unpack_all n v in (x ∷ xs, w)

  pack_all-before :
      (xs : List ℕ) (m : MarshallBuffer) (j : ℕ) → j < m.ind → (pack_all xs m).buf j ≡ m.buf j
  pack_all-before [] m j h = refl
  pack_all-before (x ∷ xs) m j h =
      pack_all-before xs (p.pack x m) j (omega (arith, p.pack-ind x m, h)) ∙ p.pack-before x m j h

  pack_all-after :
      (xs : List ℕ) (m : MarshallBuffer) (j : ℕ)
      → m.ind + 4 * length xs ≤ j
      → (pack_all xs m).buf j ≡ m.buf j
  pack_all-after [] m j h = refl
  pack_all-after (x ∷ xs) m j h =
      pack_all-after xs (p.pack x m) j (omega (arith, p.pack-ind x m, h))
      ∙ p.pack-after x m j (omega (arith, h))

  -- Where a buffer has what was packed, at its head, it is unpacked.
  unpack_all-pack_all :
      (xs : List ℕ) (m : MarshallBuffer) (u : UnmarshallBuffer)
      → All (λ x. x < 2 ^ 32) xs
      → u.ind ≡ m.ind
      → u.ok ≡ true
      → u.ind + 4 * length xs ≤ u.sz
      → ((j : ℕ) → j < u.ind + 4 * length xs → u.buf j ≡ (pack_all xs m).buf j)
      → unpack_all (length xs) u ≡ (xs, record u { ind = u.ind + 4 * length xs })
  unpack_all-pack_all [] m u fits at good room same =
      ap (λ (i : ℕ). ([], record u { ind = i })) (omega arith)
  unpack_all-pack_all (x ∷ xs) m u fits at good room same =
      let v : UnmarshallBuffer = record u { ind = u.ind + 4 } in
      let first : p.unpack u ≡ (x, v) =
        p.unpack_law x u fits.0 good (omega (arith, room)) (λ k small.
          same (u.ind + k) (omega (arith, small))
          ∙ pack_all-before xs (p.pack x m) (u.ind + k) (omega (arith, p.pack-ind x m, at, small))
          ∙ ap (λ i. (p.pack x m).buf (i + k)) at
          ∙ p.pack-here x m k small) in
      let rest =
        unpack_all-pack_all xs (p.pack x m) v fits.1 (omega (arith, p.pack-ind x m, at)) good
          (omega (arith, room)) (λ j below. same j (omega (arith, below))) in
      ap (λ (q : ℕ × UnmarshallBuffer). let (ys, w) = unpack_all (length xs) q.1 in (q.0 ∷ ys, w))
        first
      ∙ ap (λ (q : List ℕ × UnmarshallBuffer). (x ∷ q.0, q.1)) rest
      ∙ ap (λ (i : ℕ). (x ∷ xs, record u { ind = i })) (omega arith)

  module _ (checksumming : Bool) where
    header_fits : header_start checksumming + 20 ≡ rpc_header_sz checksumming
    header_fits = elim (Bool-cases checksumming) [
      | inl y ↦ rw y (omega arith)
      | inr n ↦ rw n (omega arith)
    ]

    abbrev packed : List ℕ → MarshallBuffer → MarshallBuffer
    packed xs m = pack_all xs (record m { ind = header_start checksumming })

    abbrev received : List ℕ → MarshallBuffer → UnmarshallBuffer
    received xs m = record {
      buf = (packed xs m).buf;
      sz = m.ind;
      ind = header_start checksumming;
      ok = true;
    }

    -- The words of a header are read, and the content is left.
    header_words :
        (xs : List ℕ) (m : MarshallBuffer)
        → All (λ x. x < 2 ^ 32) xs
        → length xs ≤ 5
        → rpc_header_sz checksumming ≤ m.ind
        → (unpack_all (length xs) (received xs m)
            ≡ (xs, record (received xs m) { ind = header_start checksumming + 4 * length xs }))
          × (left_of (record (received xs m) { ind = rpc_header_sz checksumming })
              ≡ reading (get_content checksumming m))
    unfolding get_content
    header_words xs m fits few room = (
      unpack_all-pack_all xs (record m { ind = header_start checksumming }) (received xs m) fits
          refl refl (omega (arith, header_fits, few, room)) (λ j below. refl),
      ap reading (
          bytes_from_same (packed xs m).buf m.buf (rpc_header_sz checksumming)
            (m.ind - rpc_header_sz checksumming)
            (λ j above.
              pack_all-after xs (record m { ind = header_start checksumming }) j
                (omega (arith, header_fits, few, above)))),
    )

    abbrev word : List ℕ → ℕ → ℕ
    word [] n = 0
    word (x ∷ xs) zero = x
    word (x ∷ xs) (suc n) = word xs n

    abbrev IsReqHeader : ReqHeader → Type 0
    IsReqHeader h =
        All (λ x. x < 2 ^ 32) (h.xid ∷ h.proc ∷ h.clt_nonce ∷ h.srv_nonce ∷ h.xid_rep ∷ [])

    -- The server that gets the buffer of a marshalled request unpacks the header that was packed into it, whose words
    -- fit in 32 bits, and is left to read the content that was marshalled, with checksums and without.
    pub unpack_req_header-pack_req_header :
        (h : ReqHeader) (m : MarshallBuffer)
        → IsReqHeader h
        → rpc_header_sz checksumming ≤ m.ind
        → (v : UnmarshallBuffer) × (unpack_req_header checksumming p
              (unmarshall_init checksumming (pack_req_header checksumming p h m))
            ≡ (h, v))
          × (left_of v ≡ reading (get_content checksumming m))
    unfolding unpack_req_header pack_req_header
    unpack_req_header-pack_req_header h m fits room =
        let xs : List ℕ = h.xid ∷ h.proc ∷ h.clt_nonce ∷ h.srv_nonce ∷ h.xid_rep ∷ [] in
        let (read, left) = header_words xs m fits (omega arith) room in
        (
          record (received xs m) { ind = rpc_header_sz checksumming },
          ap
              (λ (q : List ℕ × UnmarshallBuffer). (
                record {
                  xid = word q.0 0;
                  proc = word q.0 1;
                  clt_nonce = word q.0 2;
                  srv_nonce = word q.0 3;
                  xid_rep = word q.0 4;
                },
                record (q.1) { ind = rpc_header_sz checksumming },
              ))
              read,
          left,
        )

    -- The same of a reply, for the client.
    pub unpack_reply_header-pack_reply_header :
        (h : ReplyHeader) (m : MarshallBuffer)
        → h.xid < 2 ^ 32
        → h.ret < 2 ^ 32
        → rpc_header_sz checksumming ≤ m.ind
        → (v : UnmarshallBuffer) × (unpack_reply_header checksumming p
              (unmarshall_init checksumming (pack_reply_header checksumming p h m))
            ≡ (h, v))
          × (left_of v ≡ reading (get_content checksumming m))
    unfolding unpack_reply_header pack_reply_header
    unpack_reply_header-pack_reply_header h m xid_fits ret_fits room =
        let xs : List ℕ = h.xid ∷ h.ret ∷ [] in
        let (read, left) = header_words xs m (xid_fits, (ret_fits, tt)) (omega arith) room in
        (
          record (received xs m) { ind = rpc_header_sz checksumming },
          ap
              (λ (q : List ℕ × UnmarshallBuffer). (
                record { xid = word q.0 0; ret = word q.0 1 },
                record (q.1) { ind = rpc_header_sz checksumming },
              ))
              read,
          left,
        )
