-- ===== src/Wire/Lenenc.antt =====
-- src/network-mysqld-proto.c: length-encoded integers, written and read back.
use cetus.Common.{
  ◌≤◌, ℕ, ◌+◌, ◌/◌, ◌%◌, ◌^◌, ◌<◌, ◌≡◌, ◌∙◌, arith, List, [], ◌∷◌, ◌++◌, length, length-append,
  append_assoc, byte_of, get_or, ltb, Bool-cases, ltb→lt, inl, inr, if◌then◌else◌,
}
use cetus.Wire.Packet.{Packet, ok, len}
use cetus.Wire.Decode.{ahead, get_lenenc_int, word32}
use cetus.Wire.Encode.{append_lenenc_int}
use cetus.Wire.Words.{word16_value, word24_value, word32_value, ahead-append}

-- Eight bytes, the lowest first.
abbrev pub halves : ℕ → List ℕ
halves v =
    byte_of v 0
    ∷ byte_of v 8
    ∷ byte_of v 16
    ∷ byte_of v 24
    ∷ byte_of v 32
    ∷ byte_of v 40
    ∷ byte_of v 48
    ∷ byte_of v 56
    ∷ []

-- The bytes of a length-encoded integer.
abbrev pub lenenc_bytes : ℕ → List ℕ
lenenc_bytes v =
    if ltb v 251
    then v ∷ []
    else if ltb v 65536
    then 252 ∷ byte_of v 0 ∷ byte_of v 8 ∷ []
    else if ltb v 16777216
    then 253 ∷ byte_of v 0 ∷ byte_of v 8 ∷ byte_of v 16 ∷ []
    else 254 ∷ halves v

pub append_lenenc_int-bytes :
    (packet : List ℕ) (v : ℕ) → append_lenenc_int packet v ≡ packet ++ lenenc_bytes v
unfolding append_lenenc_int
append_lenenc_int-bytes packet v = ground arith

pub length-append_lenenc_int :
    (packet : List ℕ) (v : ℕ)
    → (length packet < length (append_lenenc_int packet v))
      × (length (append_lenenc_int packet v) ≤ length packet + 9)
length-append_lenenc_int packet v =
    rw (append_lenenc_int-bytes packet v) (ground (arith, length-append packet (lenenc_bytes v)))

-- What the four forms of an encoding are read as, from the bytes behind the offset.
module _ (p : Packet) (fits : len p < 2 ^ 32) (v : ℕ) where
  read_one :
      ahead p 0 ≡ v
      → v < 251
      → p.offset < len p
      → get_lenenc_int p ≡ ok v (record p { offset = p.offset + 1 })
  unfolding get_lenenc_int
  read_one e h within = ground arith

  read_two :
      ahead p 0 ≡ 252
      → ahead p 1 ≡ byte_of v 0
      → ahead p 2 ≡ byte_of v 8
      → v < 65536
      → p.offset + 2 < len p
      → get_lenenc_int p ≡ ok v (record p { offset = p.offset + 3 })
  unfolding get_lenenc_int
  read_two e ea eb h within = ground (arith, word16_value (byte_of v 0) (byte_of v 8))

  read_three :
      ahead p 0 ≡ 253
      → ahead p 1 ≡ byte_of v 0
      → ahead p 2 ≡ byte_of v 8
      → ahead p 3 ≡ byte_of v 16
      → v < 16777216
      → p.offset + 3 < len p
      → get_lenenc_int p ≡ ok v (record p { offset = p.offset + 4 })
  unfolding get_lenenc_int
  read_three e ea eb ec h within =
      ground (arith, word24_value (byte_of v 0) (byte_of v 8) (byte_of v 16))

  -- The lower and the upper four bytes of eight.
  read_eight :
      ahead p 0 ≡ 254
      → word32 (ahead p 1) (ahead p 2) (ahead p 3) (ahead p 4) ≡ v % 2 ^ 32
      → word32 (ahead p 5) (ahead p 6) (ahead p 7) (ahead p 8) ≡ v / 2 ^ 32
      → v < 2 ^ 64
      → p.offset + 8 < len p
      → get_lenenc_int p ≡ ok v (record p { offset = p.offset + 9 })
  unfolding get_lenenc_int
  read_eight e lo hi h within = ground arith

-- The upper and the lower half of `v`, from the bytes that are written.
high_word :
    (v : ℕ)
    → v < 2 ^ 64
    → word32 (byte_of v 32) (byte_of v 40) (byte_of v 48) (byte_of v 56) ≡ v / 2 ^ 32
high_word v h =
    word32_value _ _ _ _ (omega arith) (omega arith) (omega arith) (omega arith) ∙ omega arith

low_word : (v : ℕ) → word32 (byte_of v 0) (byte_of v 8) (byte_of v 16) (byte_of v 24) ≡ v % 2 ^ 32
low_word v =
    word32_value _ _ _ _ (omega arith) (omega arith) (omega arith) (omega arith) ∙ omega arith

-- `front` and `tail`, with the offset between them.
abbrev pub between : List ℕ → List ℕ → Packet
between front tail = record { bytes = front ++ tail; offset = length front }

module _ (front tail : List ℕ) (fits : length front + length tail < 2 ^ 32) where
  pub between_fits : len (between front tail) < 2 ^ 32
  between_fits = omega (arith, length-append front tail)

  at_between : (k : ℕ) → k < length tail → ahead (between front tail) k ≡ get_or tail k 0
  at_between k h = ahead-append front tail k (omega arith)

-- The encoding `e`, between `front` and `back`, is read as `v`, and the offset goes behind it.
abbrev pub ReadsBack : List ℕ → List ℕ → ℕ → List ℕ → Type 0
ReadsBack front back v e =
    get_lenenc_int (between front (e ++ back))
    ≡ ok v (record { bytes = front ++ (e ++ back); offset = length front + length e })

module _ (front back : List ℕ) (v : ℕ) (small : length front + length back + 9 < 2 ^ 32) where
  one_byte : v < 251 → ReadsBack front back v (v ∷ [])
  one_byte h =
      let tail : List ℕ = v ∷ back in
      read_one (between front tail) (between_fits front tail (omega arith)) v
        (at_between front tail (omega arith) 0 (omega arith)) h
        (omega (arith, length-append front tail))

  two_bytes : v < 65536 → ReadsBack front back v (252 ∷ byte_of v 0 ∷ byte_of v 8 ∷ [])
  two_bytes h =
      let tail : List ℕ = 252 ∷ byte_of v 0 ∷ byte_of v 8 ∷ back in
      let at = at_between front tail (omega arith) in
      read_two (between front tail) (between_fits front tail (omega arith)) v (at 0 (omega arith))
        (at 1 (omega arith)) (at 2 (omega arith)) h (omega (arith, length-append front tail))

  three_bytes :
      v < 16777216 → ReadsBack front back v (253 ∷ byte_of v 0 ∷ byte_of v 8 ∷ byte_of v 16 ∷ [])
  three_bytes h =
      let tail : List ℕ = 253 ∷ byte_of v 0 ∷ byte_of v 8 ∷ byte_of v 16 ∷ back in
      let at = at_between front tail (omega arith) in
      read_three (between front tail) (between_fits front tail (omega arith)) v (at 0 (omega arith))
        (at 1 (omega arith)) (at 2 (omega arith)) (at 3 (omega arith)) h
        (omega (arith, length-append front tail))

  eight_bytes : v < 2 ^ 64 → ReadsBack front back v (254 ∷ halves v)
  eight_bytes h =
      let tail : List ℕ = 254 ∷ (halves v ++ back) in
      let at = at_between front tail (omega arith) in
      read_eight (between front tail) (between_fits front tail (omega arith)) v (at 0 (omega arith))
        (rw (at 1 (omega arith), at 2 (omega arith), at 3 (omega arith), at 4 (omega arith))
          (low_word v))
        (rw (at 5 (omega arith), at 6 (omega arith), at 7 (omega arith), at 8 (omega arith))
          (high_word v h))
        h (omega (arith, length-append front tail))

  lenenc_bytes-ReadsBack : v < 2 ^ 64 → ReadsBack front back v (lenenc_bytes v)
  lenenc_bytes-ReadsBack h = elim (Bool-cases (ltb v 251)) [
    | inl e ↦ rw e (one_byte (ltb→lt v 251 e))
    | inr e ↦ elim (Bool-cases (ltb v 65536)) [
      | inl f ↦ rw (e, f) (two_bytes (ltb→lt v 65536 f))
      | inr f ↦ elim (Bool-cases (ltb v 16777216)) [
        | inl g ↦ rw (e, f, g) (three_bytes (ltb→lt v 16777216 g))
        | inr g ↦ rw (e, f, g) (eight_bytes h)
      ]
    ]
  ]

-- Whatever stands before and behind it, the integer of up to 64 bits that `append_lenenc_int` wrote is
-- what `get_lenenc_int` reads, and the offset goes on to the end of what was written. What stands
-- around it and nine bytes more fit 32 bits.
pub get_lenenc_int-append :
    (front back : List ℕ) (v : ℕ)
    → v < 2 ^ 64
    → length front + length back + 9 < 2 ^ 32
    → get_lenenc_int (record { bytes = append_lenenc_int front v ++ back; offset = length front })
      ≡ ok v (record {
        bytes = append_lenenc_int front v ++ back;
        offset = length (append_lenenc_int front v);
      })
get_lenenc_int-append front back v h small =
    rw
      (
        append_lenenc_int-bytes front v,
        append_assoc front (lenenc_bytes v) back,
        length-append front (lenenc_bytes v),
      )
      (lenenc_bytes-ReadsBack front back v small h)
