-- ===== src/Wire/Text.antt =====
-- src/network-mysqld-proto.c: strings, written and read back.
use cetus.Common.{
  ℕ, ◌+◌, ◌^◌, ◌<◌, ◌≤◌, ◌≡◌, ◌≢◌, refl, ap, ◌∙◌, arith, Option, none, some, List, [], ◌∷◌, ◌++◌,
  length, All, length-append, append_assoc, take, drop, take-append, drop-append, get_or,
  get_or-append,
}
use cetus.Wire.Packet.{Packet, ok, fail, len}
use cetus.Wire.Decode.{packet_len_max, get_lenenc_int, skip}
use cetus.Wire.Encode.{append_lenenc_str_len, append_lenenc_int}
use cetus.Wire.Strings.{here, get_str_len, get_lenenc_str, scan, get_string, get_gstr, get_gstr_len}
use cetus.Wire.Words.{ahead-append}
use cetus.Wire.Lenenc.{between, get_lenenc_int-append, length-append_lenenc_int}

-- The pointer that a reader hands out: NULL for the empty string.
abbrev pub pointer : List ℕ → Option (List ℕ)
pointer [] = none
pointer (b ∷ s) = some (b ∷ s)

module _ (front s back : List ℕ) (fits : length front + length s + length back < 2 ^ 32) where
  total : len (between front (s ++ back)) ≡ length front + length s + length back
  total = omega (arith, length-append front (s ++ back), length-append s back)

  pub here-between : here (length s) (between front (s ++ back)) ≡ s
  here-between = rw (drop-append front (s ++ back)) (take-append s back)

pub get_str_len-between :
    (front s back : List ℕ)
    → length front + length s + length back < 2 ^ 32
    → get_str_len (length s) (between front (s ++ back))
      ≡ ok (pointer s) (record { bytes = front ++ (s ++ back); offset = length front + length s })
unfolding get_str_len
get_str_len-between front [] back fits = ground arith
get_str_len-between front (b ∷ s) back fits =
    ground (arith, total front (b ∷ s) back fits, here-between front (b ∷ s) back fits)

take-length : (s : List ℕ) → take (length s) s ≡ s
take-length [] = refl
take-length (b ∷ s) = ap (◌∷◌ b) (take-length s)

append_lenenc_str_len-some :
    (front s : List ℕ)
    → append_lenenc_str_len front (some s) (length s) ≡ append_lenenc_int front (length s) ++ s
unfolding append_lenenc_str_len
append_lenenc_str_len-some front s = ap (◌++◌ (append_lenenc_int front (length s))) (take-length s)

-- A length-encoded string of at most 0xffffff bytes is read back with its length, and the offset goes
-- on to its end, in a packet whose length fits 32 bits with nine bytes to spare. The empty string
-- comes back as the pointer NULL.
pub get_lenenc_str-append :
    (front s back : List ℕ)
    → length s ≤ packet_len_max
    → length front + length s + length back + 9 < 2 ^ 32
    → get_lenenc_str (record {
      bytes = append_lenenc_str_len front (some s) (length s) ++ back;
      offset = length front;
    })
      ≡ ok
          (pointer s, length s)
          (record {
            bytes = append_lenenc_str_len front (some s) (length s) ++ back;
            offset = length (append_lenenc_str_len front (some s) (length s));
          })
unfolding get_lenenc_str
get_lenenc_str-append front s back short fits =
    let head : List ℕ = append_lenenc_int front (length s) in
    rw (append_lenenc_str_len-some front s, append_assoc head s back, length-append head s)
      (ground (
        arith,
        length-append_lenenc_int front (length s),
        length-append s back,
        total head s back,
        get_lenenc_int-append front (s ++ back) (length s),
        get_str_len-between head s back,
      ))

-- The encoding of NULL is refused by `get_lenenc_str`, which steps over it, in a packet whose length
-- fits 32 bits.
pub get_lenenc_str-append_null :
    (front back : List ℕ) (n : ℕ)
    → length front + length back + 1 < 2 ^ 32
    → get_lenenc_str
        (record { bytes = append_lenenc_str_len front none n ++ back; offset = length front })
      ≡ fail (record {
        bytes = append_lenenc_str_len front none n ++ back;
        offset = length (append_lenenc_str_len front none n);
      })
unfolding get_lenenc_str get_lenenc_int append_lenenc_str_len
get_lenenc_str-append_null front back n fits = rw append_assoc (
    ground (
      arith,
      length-append front (251 ∷ back),
      length-append front (251 ∷ []),
      ahead-append front (251 ∷ back) 0,
    ))

scan-until : (s back : List ℕ) → All (λ b. b ≢ 0) s → scan (s ++ 0 ∷ back) ≡ length s
unfolding scan
scan-until [] back h = refl
scan-until (b ∷ s) back h = ground (arith, scan-until s back h.1)

-- `front`, the string `s` with its NUL, and `back`.
abbrev terminated : List ℕ → List ℕ → List ℕ → Packet
terminated front s back = between front (s ++ 0 ∷ back)

abbrev pub IsCString : List ℕ → Type 0
IsCString s = All (λ b. b ≢ 0) s

module _ (front s back : List ℕ) (no_nul : IsCString s) where
  scan-terminated : scan (drop (length front) (front ++ (s ++ 0 ∷ back))) ≡ length s
  scan-terminated = rw (drop-append front (s ++ 0 ∷ back)) (scan-until s back no_nul)

  nul_at_end : get_or (front ++ (s ++ 0 ∷ back)) (length front + length s) 0 ≡ 0
  nul_at_end =
      let at_nul : length s ≡ length s + 0 = omega arith in
      get_or-append front (s ++ 0 ∷ back) (length s) 0 ∙ rw at_nul (get_or-append s (0 ∷ back) 0 0)

  length-terminated : length (front ++ (s ++ 0 ∷ back)) ≡ length front + length s + length back + 1
  length-terminated = omega (arith, length-append front (s ++ 0 ∷ back), length-append s (0 ∷ back))

-- In a packet whose length fits 32 bits `get_string` reads a NUL-terminated string and steps over its
-- NUL; it hands out NULL for the empty string.
pub get_string_lem :
    (front s back : List ℕ)
    → IsCString s
    → length front + length s + length back + 1 < 2 ^ 32
    → get_string (record { bytes = front ++ (s ++ 0 ∷ back); offset = length front })
      ≡ ok
          (pointer s)
          (record { bytes = front ++ (s ++ 0 ∷ back); offset = length front + length s + 1 })
unfolding get_string skip
get_string_lem front [] back no_nul fits = ground (
  arith,
  scan-terminated front [] back no_nul,
  nul_at_end front [] back no_nul,
  length-terminated front [] back no_nul,
)
get_string_lem front (b ∷ s) back no_nul fits = ground (
  arith,
  scan-terminated front (b ∷ s) back no_nul,
  nul_at_end front (b ∷ s) back no_nul,
  length-terminated front (b ∷ s) back no_nul,
  get_str_len-between front (b ∷ s) (0 ∷ back),
)

-- What `get_gstr` leaves in a buffer that held `out`.
abbrev pub content : List ℕ → List ℕ → List ℕ
content out [] = out
content out (b ∷ s) = b ∷ s

-- In a packet whose length fits 32 bits `get_gstr` reads a NUL-terminated string into a buffer,
-- whatever it held, and steps over the NUL; but on the empty string the buffer keeps its old content.
pub get_gstr_lem :
    (out front s back : List ℕ)
    → IsCString s
    → length front + length s + length back + 1 < 2 ^ 32
    → get_gstr out (record { bytes = front ++ (s ++ 0 ∷ back); offset = length front })
      ≡ ok
          (content out s)
          (record { bytes = front ++ (s ++ 0 ∷ back); offset = length front + length s + 1 })
unfolding get_gstr get_gstr_len skip
get_gstr_lem out front [] back no_nul fits =
    ground (arith, scan-terminated front [] back no_nul, length-terminated front [] back no_nul)
get_gstr_lem out front (b ∷ s) back no_nul fits = ground (
  arith,
  scan-terminated front (b ∷ s) back no_nul,
  length-terminated front (b ∷ s) back no_nul,
  here-between front (b ∷ s) (0 ∷ back),
)
