-- ===== src/Wire/Header.antt =====
-- src/network-mysqld-proto.c: the packet header, three bytes of length and one of sequence number.
use cetus.Common.{drop, ℕ, ◌<◌, ◌≤◌, ◌≡◌, refl, ◌∙◌, arith, some, List, [], ◌∷◌, length, byte_of}
use cetus.Wire.Decode.{packet_len_max, word24}
use cetus.Wire.Encode.{
  set_packet_len, set_packet_id, get_packet_len, get_packet_id, append_packet_len, append_packet_id,
  append_int24, append_int8, append_int_len,
}
use cetus.Wire.Words.{word24_value}

word24_of_bytes :
    (n : ℕ) → n ≤ packet_len_max → word24 (byte_of n 0) (byte_of n 8) (byte_of n 16) ≡ n
word24_of_bytes n h = word24_value _ _ _ (omega arith) (omega arith) (omega arith) ∙ omega arith

-- Setting the length of a header of at least four bytes, up to 0xffffff, and then its sequence number,
-- a byte, gives a header from which both are read back; its size is as before, and so is every byte
-- behind the fourth.
pub get_packet_len-set :
    (header : List ℕ) (n id : ℕ)
    → 4 ≤ length header
    → n ≤ packet_len_max
    → id < 256
    → (h : List ℕ) × (set_packet_len header n ≡ some h)
      × (get_packet_len (set_packet_id h id) ≡ n)
      × (get_packet_id (set_packet_id h id) ≡ id)
      × (length (set_packet_id h id) ≡ length header)
      × (drop 4 (set_packet_id h id) ≡ drop 4 header)
unfolding set_packet_len set_packet_id get_packet_len get_packet_id
get_packet_len-set [] n id l h hid = absurd (omega arith)
get_packet_len-set (a ∷ []) n id l h hid = absurd (omega arith)
get_packet_len-set (a ∷ b ∷ []) n id l h hid = absurd (omega arith)
get_packet_len-set (a ∷ b ∷ c ∷ []) n id l h hid = absurd (omega arith)
get_packet_len-set (a ∷ b ∷ c ∷ d ∷ header) n id l h hid = (
  byte_of n 0 ∷ byte_of n 8 ∷ byte_of n 16 ∷ d ∷ header,
  ground arith,
  word24_of_bytes n h,
  omega arith,
  refl,
  refl,
)

-- The header that the two append functions build, of a length up to 0xffffff and a sequence number of
-- a byte, is read back too.
pub get_packet_len-append :
    (n id : ℕ)
    → n ≤ packet_len_max
    → id < 256
    → (get_packet_len (append_packet_id (append_packet_len [] n) id) ≡ n)
      × (get_packet_id (append_packet_id (append_packet_len [] n) id) ≡ id)
unfolding append_packet_id append_packet_len append_int24 append_int8 append_int_len get_packet_len
    get_packet_id
get_packet_len-append n id h hid =
    (word24_value _ _ _ (omega arith) (omega arith) (omega arith) ∙ omega arith, omega arith)
