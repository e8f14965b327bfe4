-- ===== src/Wire/Typed.antt =====
-- src/network-mysqld-proto.c: the integers of 8, 16, 24 and 32 bits.
use cetus.Common.{ℕ, ◌+◌, ◌^◌, ◌<◌, ◌≤◌, ◌%◌, ◌≡◌, arith, List, ◌++◌, length}
use cetus.Wire.Packet.{Packet, M, ok}
use cetus.Wire.Decode.{get_int_len, get_int8, get_int16, get_int24, get_int32}
use cetus.Wire.Encode.{append_int_len, append_int8, append_int16, append_int24, append_int32}
use cetus.Wire.Fixed.{get_int_len-append}

-- The four widths, each with its reader and its writer.
pub data Width : Type 0 where
  one two three four : Width

abbrev pub size : Width → ℕ
size one = 1
size two = 2
size three = 3
size four = 4

abbrev pub get_int : Width → M ℕ
get_int one = get_int8
get_int two = get_int16
get_int three = get_int24
get_int four = get_int32

abbrev pub append_int : Width → List ℕ → ℕ → List ℕ
append_int one = append_int8
append_int two = append_int16
append_int three = append_int24
append_int four = append_int32

append_int-len :
    (w : Width) (front : List ℕ) (v : ℕ)
    → v < 256 ^ size w
    → append_int w front v ≡ append_int_len front v (size w)
unfolding append_int8 append_int16 append_int24 append_int32
append_int-len one front v h = let same : v % 2 ^ 8 ≡ v = omega arith in rw same
append_int-len two front v h = let same : v % 2 ^ 16 ≡ v = omega arith in rw same
append_int-len three front v h = let same : v % 2 ^ 32 ≡ v = omega arith in rw same
append_int-len four front v h = let same : v % 2 ^ 32 ≡ v = omega arith in rw same

get_int-len :
    (w : Width) (p q : Packet) (v : ℕ)
    → v < 256 ^ size w
    → get_int_len (size w) p ≡ ok v q
    → get_int w p ≡ ok v q
unfolding get_int8 get_int16 get_int24 get_int32
get_int-len one p q v h e = ground arith
get_int-len two p q v h e = ground arith
get_int-len three p q v h e = ground arith
get_int-len four p q v h e = ground arith

-- In a packet whose length fits 32 bits each of the readers for 8, 16, 24 and 32 bits reads the
-- integer that the writer of its width wrote, if it fits the width, and goes on to the end of it.
pub get_int-append :
    (w : Width) (front back : List ℕ) (v : ℕ)
    → v < 256 ^ size w
    → length front + size w + length back < 2 ^ 32
    → get_int w (record { bytes = append_int w front v ++ back; offset = length front })
      ≡ ok v
          (record { bytes = append_int w front v ++ back; offset = length (append_int w front v) })
get_int-append w front back v h fits =
    rw (append_int-len w front v h)
      (get_int-len w _ _ v h (get_int_len-append front back (size w) v (at_most_eight w) h fits).1)
  where
    at_most_eight : (w : Width) → size w ≤ 8
    at_most_eight one = omega arith
    at_most_eight two = omega arith
    at_most_eight three = omega arith
    at_most_eight four = omega arith
