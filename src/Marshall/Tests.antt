-- ===== src/Marshall/Tests.antt =====
-- The theorems on marshalling at the sample operators.
use cse_yet_another_file_sys.Prelude.{
  true, ◌-◌, ◌==◌, if◌then◌else◌, ℕ, ◌^◌, ◌<◌, ◌≡◌, refl, List, [], ◌∷◌, ◌++◌, arith,
}
use cse_yet_another_file_sys.Server.{FullFile}
use cse_yet_another_file_sys.Marshall.{reading, put_map, get_map}
use cse_yet_another_file_sys.Marshall.Trips.{IsMap, get_map-put_map}
use cse_yet_another_file_sys.YfsClient.Format.{number_bytes}
use Prim.Native.Nat.{compare}
use cse_yet_another_file_sys.Marshall.Headers.{
  MarshallBuffer, UnmarshallBuffer, ReqHeader, bytes_from, left_of, get_content, unmarshall_init,
  pack_req_header, unpack_req_header,
}
use cse_yet_another_file_sys.Marshall.Requests.{unpack_req_header-pack_req_header}
use cse_yet_another_file_sys.Marshall.Sample.{packing, read_number, read_number_lem, wire}

abbrev IsUint : ℕ → Type 0
IsUint n = n < 2 ^ 32

abbrev pairs : List (ℕ × ℕ)
pairs = (3, 30) ∷ (8, 80) ∷ []

pairs-IsMap : IsMap compare pairs
unfolding IsMap
pairs-IsMap = ((refl, tt), (tt, tt))

get_map-put_map_example :
    get_map wire compare
      (read_number 4)
      (read_number 4)
      ((5, 5) ∷ [])
      (reading (put_map wire (number_bytes 4) (number_bytes 4) pairs ++ []))
    ≡ (pairs, reading [])
get_map-put_map_example =
    get_map-put_map wire compare (number_bytes 4) (number_bytes 4) (read_number 4) (read_number 4)
      IsUint IsUint (read_number_lem 4) (read_number_lem 4) pairs ((5, 5) ∷ []) []
      ((omega arith, omega arith), ((omega arith, omega arith), tt)) pairs-IsMap (omega arith)

abbrev file : FullFile
file = record {
  attr = record { type = 2; atime = 10; mtime = 20; ctime = 30; size = 2 };
  buf = b'h' ∷ b'i' ∷ [];
}

abbrev header : ReqHeader
header = record { xid = 7; proc = 0x6001; clt_nonce = 300; srv_nonce = 5; xid_rep = 2 ^ 32 - 1 }

-- A request with the bytes 1 and 2, in a buffer that had zeros.
abbrev message : MarshallBuffer
message = record { buf = λ j. if j == 32 then 1 else if j == 33 then 2 else 0; ind = 34 }

unpack_req_header-pack_req_header_example :
    (v : UnmarshallBuffer) × (unpack_req_header true packing
        (unmarshall_init true (pack_req_header true packing header message))
      ≡ (header, v))
    × (left_of v ≡ reading (get_content true message))
unpack_req_header-pack_req_header_example =
    unpack_req_header-pack_req_header packing true header message (omega arith) (omega arith)

content_of_message : get_content true message ≡ 1 ∷ 2 ∷ []
unfolding get_content bytes_from
content_of_message = refl
