-- ===== src/Wire/Encode.antt =====
-- src/network-mysqld-proto.c: the functions that append to a packet, and the four header bytes.
use cetus.Common.{
  ℕ, zero, suc, ◌+◌, ◌/◌, ◌%◌, ◌^◌, bit_or, Option, none, some, List, [], ◌∷◌, ◌++◌, take, set,
  get_or, byte_of, shl32, ltb, leb, if◌then◌else◌,
}
use cetus.Wire.Decode.{packet_len_max}
use cetus.Wire.Strings.{scan}

unfoldable pub append_lenenc_int : List ℕ → ℕ → List ℕ
append_lenenc_int packet length =
    if ltb length 251
    then packet ++ length ∷ []
    else if ltb length 65536
    then packet ++ 252 ∷ byte_of length 0 ∷ byte_of length 8 ∷ []
    else if ltb length 16777216
    then packet ++ 253 ∷ byte_of length 0 ∷ byte_of length 8 ∷ byte_of length 16 ∷ []
    else packet
      ++ 254
        ∷ byte_of length 0
        ∷ byte_of length 8
        ∷ byte_of length 16
        ∷ byte_of length 24
        ∷ byte_of length 32
        ∷ byte_of length 40
        ∷ byte_of length 48
        ∷ byte_of length 56
        ∷ []

-- `s` is a pointer to at least `length` bytes, or NULL.
unfoldable pub append_lenenc_str_len : List ℕ → Option (List ℕ) → ℕ → List ℕ
append_lenenc_str_len packet none length = packet ++ 251 ∷ []
append_lenenc_str_len packet (some s) length = append_lenenc_int packet length ++ take length s

-- `s` is the memory of a C string; `strlen` counts up to its NUL.
unfoldable pub append_lenenc_str : List ℕ → Option (List ℕ) → List ℕ
append_lenenc_str packet none = append_lenenc_str_len packet none 0
append_lenenc_str packet (some s) = append_lenenc_str_len packet (some s) (scan s)

-- `for (i = 0; i < size; i++) { append (num & 0xff); num >>= 8; }`
unfoldable pub append_int_len : List ℕ → ℕ → ℕ → List ℕ
append_int_len packet num zero = packet
append_int_len packet num (suc size) = append_int_len (packet ++ num % 256 ∷ []) (num / 2 ^ 8) size

-- The argument is converted to the parameter's type first.
unfoldable pub append_int8 : List ℕ → ℕ → List ℕ
append_int8 packet num = append_int_len packet (num % 2 ^ 8) 1

unfoldable pub append_int16 : List ℕ → ℕ → List ℕ
append_int16 packet num = append_int_len packet (num % 2 ^ 16) 2

unfoldable pub append_int24 : List ℕ → ℕ → List ℕ
append_int24 packet num = append_int_len packet (num % 2 ^ 32) 3

unfoldable pub append_int32 : List ℕ → ℕ → List ℕ
append_int32 packet num = append_int_len packet (num % 2 ^ 32) 4

unfoldable pub append_packet_len : List ℕ → ℕ → List ℕ
append_packet_len = append_int24

unfoldable pub append_packet_id : List ℕ → ℕ → List ℕ
append_packet_id = append_int8

-- The three bytes of a length, from position `i` on.
abbrev put24 : List ℕ → ℕ → ℕ → List ℕ
put24 header i n =
    set (set (set header i (byte_of n 0)) (i + 1) (byte_of n 8)) (i + 2) (byte_of n 16)

-- `none` is the assertion that fails. The header has the bytes that are written.
unfoldable pub set_packet_len : List ℕ → ℕ → Option (List ℕ)
set_packet_len header length =
    if leb length packet_len_max then some (put24 header 0 length) else none

unfoldable pub set_packet_id : List ℕ → ℕ → List ℕ
set_packet_id header id = set header 3 (id % 2 ^ 8)

unfoldable pub set_compressed_packet_len : List ℕ → ℕ → ℕ → Option (List ℕ)
set_compressed_packet_len header length len_before =
    if leb length packet_len_max then some (put24 (put24 header 0 length) 4 len_before) else none

unfoldable pub get_packet_len : List ℕ → ℕ
get_packet_len header =
    bit_or (bit_or (get_or header 0 0) (shl32 (get_or header 1 0) 8)) (shl32 (get_or header 2 0) 16)

unfoldable pub get_packet_id : List ℕ → ℕ
get_packet_id header = get_or header 3 0
