-- ===== src/Wire/Decode.antt =====
-- src/network-mysqld-proto.c: the functions that read from a packet.
use cetus.Common.{
  ℕ, zero, suc, ◌+◌, ◌-◌, ◌*◌, ◌%◌, ◌^◌, min, bit_or, length, add32, add64, shl32, ltb, leb, ◌==◌,
  if◌then◌else◌,
}
use cetus.Wire.Packet.{
  Packet, ok, fail, M, ◌>>=◌, ◌>>◌, return, check, assert, advance, len, byte_at,
}

abbrev pub packet_len_max : ℕ
packet_len_max = 0x00ff_ffff

-- The byte at `off + k`, where `off` is the packet's offset and the sum is a guint.
abbrev pub ahead : Packet → ℕ → ℕ
ahead p k = byte_at p (add32 p.offset k)

-- (a << 0) | (b << 8) | (c << 16) | (d << 24), as an unsigned int.
abbrev pub word24 : ℕ → ℕ → ℕ → ℕ
word24 a b c = bit_or (bit_or a (shl32 b 8)) (shl32 c 16)

abbrev pub word32 : ℕ → ℕ → ℕ → ℕ → ℕ
word32 a b c d = bit_or (word24 a b c) (shl32 d 24)

-- `ret = high; ret <<= 32; ret += low;`
abbrev pub word64 : ℕ → ℕ → ℕ
word64 high low = add64 (high * 2 ^ 32 % 2 ^ 64) low

-- The common end: `off` has gone `extra` bytes on; `off += 1; packet->offset = off; *v = ret`.
abbrev pub lenenc_end : ℕ → ℕ → M ℕ
lenenc_end extra ret p = ok ret (record p { offset = add32 (add32 p.offset extra) 1 })

unfoldable pub get_lenenc_int : M ℕ
get_lenenc_int p =
    if leb (len p) p.offset
    then fail p
    else if ltb (ahead p 0) 251
    then lenenc_end 0 (ahead p 0) p
    else if ahead p 0 == 252
    then if leb (len p) (add32 p.offset 2)
      then fail p
      else lenenc_end 2 (bit_or (ahead p 1) (shl32 (ahead p 2) 8)) p
    else if ahead p 0 == 253
    then if leb (len p) (add32 p.offset 3)
      then fail p
      else lenenc_end 3 (word24 (ahead p 1) (ahead p 2) (ahead p 3)) p
    else if ahead p 0 == 254
    then if leb (len p) (add32 p.offset 8)
      then fail p
      else lenenc_end 8
          (word64 (word32 (ahead p 5) (ahead p 6) (ahead p 7) (ahead p 8))
            (word32 (ahead p 1) (ahead p 2) (ahead p 3) (ahead p 4)))
          p
    else fail (record p { offset = add32 p.offset 1 })

-- `size` is a gsize, and the sum in the test is one too.
unfoldable pub skip : ℕ → M (Unit {0})
skip size = do check (λ p. leb (add64 p.offset size) (len p)); advance size

abbrev pub net_header_size : ℕ
net_header_size = 4

unfoldable pub skip_network_header : M (Unit {0})
skip_network_header = skip net_header_size

unfoldable pub skip_lenenc_str : M (Unit {0})
skip_lenenc_str = do
  check (λ p. ltb p.offset (len p))
  length ← get_lenenc_int
  check (λ p. leb (add64 p.offset length) (len p))
  advance length

-- `for (…; rounds) acc |= *bytes++ << shift, shift += 8`, in a guint32.
unfoldable pub or_bytes : ℕ → Packet → ℕ → ℕ → ℕ → ℕ
or_bytes zero p i shift acc = acc
or_bytes (suc rounds) p i shift acc =
    or_bytes rounds p (i + 1) (shift + 8) (bit_or acc (shl32 (byte_at p i) shift))

-- Beyond eight bytes the source shifts by 32 bits or more, which C leaves undefined.
unfoldable pub peek_int_len : ℕ → M ℕ
peek_int_len size = do
  check (λ p. leb p.offset (len p))
  check (λ p. leb (add64 p.offset size) (len p))
  assert (leb size 8)
  λ p.
      let low = or_bytes (min size 4) p p.offset 0 0 in
      let high = or_bytes (size - 4) p (p.offset + 4) 0 0 in ok (bit_or (high * 2 ^ 32) low) p

unfoldable pub get_int_len : ℕ → M ℕ
get_int_len size = do v ← peek_int_len size; advance size; return v

-- `g_assert_cmpint (v & mask, ==, v); *v = v & mask`, for a mask of `bits` ones.
abbrev pub narrow : ℕ → ℕ → M ℕ
narrow bits v = do assert (v % 2 ^ bits == v); return (v % 2 ^ bits)

unfoldable pub get_int8 : M ℕ
get_int8 = get_int_len 1 >>= narrow 8

unfoldable pub peek_int8 : M ℕ
peek_int8 = peek_int_len 1 >>= narrow 8

unfoldable pub get_int16 : M ℕ
get_int16 = get_int_len 2 >>= narrow 16

unfoldable pub peek_int16 : M ℕ
peek_int16 = peek_int_len 2 >>= narrow 16

unfoldable pub get_int24 : M ℕ
get_int24 = get_int_len 3 >>= narrow 24

-- The 32-bit reader masks and does not assert.
unfoldable pub get_int32 : M ℕ
get_int32 = do v ← get_int_len 4; return (v % 2 ^ 32)
