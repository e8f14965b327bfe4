-- ===== src/Wire/Words.antt =====
-- src/network-mysqld-proto.c: the words that the readers put together by `|` and `<<`, as numbers.
use cetus.Common.{
  ℕ, ◌+◌, ◌*◌, ◌^◌, ◌<◌, ◌≡◌, ap, ◌∙◌, bit_or, bit_or_disjoint, shl32, arith, List, length, get_or,
  add32, ◌++◌, get_or-append,
}
use cetus.Wire.Decode.{word24, word32}

-- `acc | (b << shift)` adds a byte above the bits of `acc`.
pub or_shl :
    (shift acc b : ℕ)
    → acc < 2 ^ shift
    → b * 2 ^ shift < 2 ^ 32
    → bit_or acc (shl32 b shift) ≡ acc + b * 2 ^ shift
or_shl shift acc b h k = ap (bit_or acc) (omega arith) ∙ bit_or_disjoint shift acc b h

pub word16_value : (a b : ℕ) → a < 256 → b < 256 → bit_or a (shl32 b 8) ≡ a + b * 2 ^ 8
word16_value a b ha hb = or_shl 8 a b (omega arith) (omega arith)

pub word24_value :
    (a b c : ℕ) → a < 256 → b < 256 → c < 256 → word24 a b c ≡ a + b * 2 ^ 8 + c * 2 ^ 16
word24_value a b c ha hb hc =
    rw (word16_value a b ha hb) (or_shl 16 (a + b * 2 ^ 8) c (omega arith) (omega arith))

pub word32_value :
    (a b c d : ℕ)
    → a < 256
    → b < 256
    → c < 256
    → d < 256
    → word32 a b c d ≡ a + b * 2 ^ 8 + c * 2 ^ 16 + d * 2 ^ 24
word32_value a b c d ha hb hc hd =
    rw (word24_value a b c ha hb hc) (or_shl 24 _ d (omega arith) (omega arith))

-- A read behind a prefix that ends at the offset.
pub ahead-append :
    (front back : List ℕ) (k : ℕ)
    → length front + k < 2 ^ 32
    → get_or (front ++ back) (add32 (length front) k) 0 ≡ get_or back k 0
ahead-append front back k h =
    ap (λ i. get_or (front ++ back) i 0) (omega arith) ∙ get_or-append front back k 0
