-- ===== src/Marshall/Headers.antt =====
-- The buffers of class marshall and class unmarshall of rpc/marshall.h, and the headers of requests and replies in
-- them. `pack` and `unpack` stand in the RPC library: they are parameters. An int is its 32 bits.
use cse_yet_another_file_sys.Prelude.{
  ℕ, zero, suc, ◌+◌, ◌-◌, ◌<◌, ◌≤◌, ◌^◌, ◌≡◌, Bool, true, [], ◌∷◌, if◌then◌else◌, ltb, length,
}
use cse_yet_another_file_sys.Bytes.{Bytes}
use cse_yet_another_file_sys.Marshall.{Unmarshall}

-- `_buf` by offset, and `_ind`. The library keeps `_capa` large enough.
pub record MarshallBuffer : Type 0 where
  pub buf : ℕ → ℕ
  pub ind : ℕ

pub record UnmarshallBuffer : Type 0 where
  pub buf : ℕ → ℕ
  pub sz : ℕ
  pub ind : ℕ
  pub ok : Bool

pub record ReqHeader : Type 0 where
  pub xid : ℕ
  pub proc : ℕ
  pub clt_nonce : ℕ
  pub srv_nonce : ℕ
  pub xid_rep : ℕ

pub record ReplyHeader : Type 0 where
  pub xid : ℕ
  pub ret : ℕ

-- An int is written in four bytes at the head, which moves behind them, and is read from such bytes.
pub record Packing : Type 0 where
  pub int_byte : ℕ → ℕ → ℕ
  pub pack : ℕ → MarshallBuffer → MarshallBuffer
  pub unpack : UnmarshallBuffer → ℕ × UnmarshallBuffer
  pub pack-ind : (i : ℕ) (m : MarshallBuffer) → (pack i m).ind ≡ m.ind + 4
  pub pack-here :
      (i : ℕ) (m : MarshallBuffer) (k : ℕ) → k < 4 → (pack i m).buf (m.ind + k) ≡ int_byte i k
  pub pack-before : (i : ℕ) (m : MarshallBuffer) (j : ℕ) → j < m.ind → (pack i m).buf j ≡ m.buf j
  pub pack-after : (i : ℕ) (m : MarshallBuffer) (j : ℕ) → m.ind + 4 ≤ j → (pack i m).buf j ≡ m.buf j
  pub unpack_law :
      (i : ℕ) (u : UnmarshallBuffer)
      → i < 2 ^ 32
      → u.ok ≡ true
      → u.ind + 4 ≤ u.sz
      → ((k : ℕ) → k < 4 → u.buf (u.ind + k) ≡ int_byte i k)
      → unpack u ≡ (i, record u { ind = u.ind + 4 })

-- The bytes from an offset on.
unfoldable pub bytes_from : (ℕ → ℕ) → ℕ → ℕ → Bytes
bytes_from buf i zero = []
bytes_from buf i (suc n) = buf i ∷ bytes_from buf (i + 1) n

-- The byte of a string at an index below its length.
unfoldable pub byte_of : Bytes → ℕ → ℕ
byte_of [] n = 0
byte_of (b ∷ s) zero = b
byte_of (b ∷ s) (suc n) = byte_of s n

-- What is left to read.
abbrev pub left_of : UnmarshallBuffer → Unmarshall
left_of u = record { left = bytes_from u.buf u.ind (u.sz - u.ind); ok = u.ok }

-- `RPC_CHECKSUMMING` puts eight bytes for a checksum before the header.
module _ (checksumming : Bool) where
  abbrev pub header_start : ℕ
  header_start = if checksumming then 12 else 4

  abbrev pub rpc_header_sz : ℕ
  rpc_header_sz = if checksumming then 32 else 24

  -- The buffer that `malloc` gave has some bytes.
  abbrev pub marshall_init : (ℕ → ℕ) → MarshallBuffer
  marshall_init some_bytes = record { buf = some_bytes; ind = rpc_header_sz }

  unfoldable pub get_content : MarshallBuffer → Bytes
  unfolding bytes_from
  get_content m = bytes_from m.buf rpc_header_sz (m.ind - rpc_header_sz)

  -- `take_buf` of the one, and `unmarshall(char *, int)` of what it took.
  abbrev pub unmarshall_init : MarshallBuffer → UnmarshallBuffer
  unmarshall_init m = record { buf = m.buf; sz = m.ind; ind = 0; ok = true }

  -- The content of a string, behind room for a header whose bytes stay what they are.
  unfoldable pub take_content : Bytes → UnmarshallBuffer → UnmarshallBuffer
  unfolding byte_of
  take_content s u = record {
    buf = λ j. if ltb j rpc_header_sz then u.buf j else byte_of s (j - rpc_header_sz);
    sz = length s + rpc_header_sz;
    ind = rpc_header_sz;
    ok = true;
  }

  module _ (p : Packing) where
    unfoldable pub pack_req_header : ReqHeader → MarshallBuffer → MarshallBuffer
    pack_req_header h m =
        let saved_sz = m.ind in
        let m1 = p.pack h.xid (record m { ind = header_start }) in
        let m2 = p.pack h.proc m1 in
        let m3 = p.pack h.clt_nonce m2 in
        let m4 = p.pack h.srv_nonce m3 in
        let m5 = p.pack h.xid_rep m4 in record m5 { ind = saved_sz }

    unfoldable pub pack_reply_header : ReplyHeader → MarshallBuffer → MarshallBuffer
    pack_reply_header h m =
        let saved_sz = m.ind in
        let m1 = p.pack h.xid (record m { ind = header_start }) in
        let m2 = p.pack h.ret m1 in record m2 { ind = saved_sz }

    unfoldable pub unpack_req_header : UnmarshallBuffer → ReqHeader × UnmarshallBuffer
    unpack_req_header u =
        let (xid, u1) = p.unpack (record u { ind = header_start }) in
        let (proc, u2) = p.unpack u1 in
        let (clt_nonce, u3) = p.unpack u2 in
        let (srv_nonce, u4) = p.unpack u3 in
        let (xid_rep, u5) = p.unpack u4 in
        (
          record {
            xid = xid;
            proc = proc;
            clt_nonce = clt_nonce;
            srv_nonce = srv_nonce;
            xid_rep = xid_rep;
          },
          record u5 { ind = rpc_header_sz },
        )

    unfoldable pub unpack_reply_header : UnmarshallBuffer → ReplyHeader × UnmarshallBuffer
    unpack_reply_header u =
        let (xid, u1) = p.unpack (record u { ind = header_start }) in
        let (ret, u2) = p.unpack u1 in
        (record { xid = xid; ret = ret }, record u2 { ind = rpc_header_sz })
