-- ===== src/Wire/Bounds.antt =====
-- src/network-mysqld-proto.c: on a packet whose offset is not past its end, the readers neither fault nor
-- leave the packet; and the one reader that can go backwards.
use cetus.Common.{
  ◌%◌, refl, ap, Bool-cases, leb→le, drop, length-drop, leb, ℕ, ◌+◌, ◌-◌, ◌^◌, ◌<◌, ◌≤◌, ◌≡◌, arith,
  ◌⊎◌, inl, inr, Option, none, some, List, [], ◌∷◌, length,
}
use cetus.Wire.Packet.{Packet, Outcome, M, ok, fail, fault, len, IsValid, ◌>>=◌, ◌>>◌, return}
use cetus.Wire.Decode.{
  get_lenenc_int, skip, skip_lenenc_str, peek_int_len, get_int_len, narrow, get_int8, get_int16,
  get_int24, get_int32, peek_int8, peek_int16,
}
use cetus.Wire.Integers.{int_there}
use cetus.Wire.Strings.{
  scan, scan_here, get_str_len, get_str_len2, get_lenenc_str, get_column, get_gstr_len, get_gstr,
  get_string,
}

-- The packet after a call: the same bytes, and an offset between the old one and the end.
abbrev pub Ahead : Packet → Packet → Type 0
Ahead p q = (q.bytes ≡ p.bytes) × (p.offset ≤ q.offset) × (q.offset ≤ len p)

-- The call returns, and the packet it leaves is ahead.
abbrev pub Advances : {A : Type 0} → Packet → Outcome A → Type 0
Advances p (ok a q) = Ahead p q
Advances p (fail q) = Ahead p q
Advances p fault = ⊥

scan-le : (s : List ℕ) → scan s ≤ length s
unfolding scan
scan-le [] = omega arith
scan-le (b ∷ s) = ground (arith, scan-le s)

module _ (p : Packet) (v : IsValid p) where
  get_lenenc_int-Advances : Advances p (get_lenenc_int p)
  unfolding get_lenenc_int
  get_lenenc_int-Advances = ground arith

  skip-Advances : (n : ℕ) → n < 2 ^ 32 → Advances p (skip n p)
  unfolding skip
  skip-Advances n h = ground arith

  get_int_len-Advances : (n : ℕ) → n ≤ 8 → Advances p (get_int_len n p)
  unfolding get_int_len peek_int_len
  get_int_len-Advances n h = ground arith

  get_str_len-Advances : (n : ℕ) → n < 2 ^ 32 → Advances p (get_str_len n p)
  unfolding get_str_len
  get_str_len-Advances n h = ground arith

  get_column-Advances : (n : ℕ) → n < 2 ^ 32 → Advances p (get_column n p)
  unfolding get_column get_str_len2
  get_column-Advances n h = ground (arith, get_lenenc_int-Advances)

  get_lenenc_str-Advances : Advances p (get_lenenc_str p)
  unfolding get_lenenc_str get_str_len
  get_lenenc_str-Advances = ground (arith, get_lenenc_int-Advances)

  scan_here-within : p.offset + scan_here p ≤ len p
  scan_here-within = omega (arith, scan-le (drop p.offset p.bytes), length-drop p.offset p.bytes)

  get_string-Advances : Advances p (get_string p)
  unfolding get_string skip get_str_len
  get_string-Advances = ground (arith, scan_here-within)

  get_gstr_len-Advances :
      (n : ℕ) (out : Option (List ℕ)) → n < 2 ^ 32 → Advances p (get_gstr_len n out p)
  unfolding get_gstr_len
  get_gstr_len-Advances n none h = ground arith
  get_gstr_len-Advances n (some out) h = ground arith

  get_gstr-Advances : (out : List ℕ) → Advances p (get_gstr out p)
  unfolding get_gstr skip get_gstr_len
  get_gstr-Advances out = ground (arith, scan_here-within)

  -- An integer that fits `size` bytes, with the packet ahead, or a failure that leaves the packet.
  abbrev Gives : ℕ → Outcome ℕ → Type 0
  Gives size r =
      ((n : ℕ) × (q : Packet) × (n < 256 ^ size) × (r ≡ ok n q) × Ahead p q) ⊎ (r ≡ fail p)

  peek_short : (n : ℕ) → len p < p.offset + n → n ≤ 8 → peek_int_len n p ≡ fail p
  unfolding peek_int_len
  peek_short n short h = ground (arith, v.fits)

  get_short : (n : ℕ) → len p < p.offset + n → n ≤ 8 → get_int_len n p ≡ fail p
  unfolding get_int_len
  get_short n short h = rw (peek_short n short h, ◌>>=◌) refl

  here : Ahead p p
  here = (refl, omega arith, v.within)

  integer_lem : (n : ℕ) → n ≤ 8 → Gives n (peek_int_len n p) × Gives n (get_int_len n p)
  integer_lem n h = elim (Bool-cases (leb (p.offset + n) (len p))) [
    | inl fits ↦
        let within = leb→le _ _ fits in
        let (m, small, peeked, got) = int_there p n v h within in
        (
          inl (m, p, small, peeked, here),
          inl (m, record p { offset = p.offset + n }, small, got, (refl, omega arith, within)),
        )
    | inr short ↦
        let outside : len p < p.offset + n = ground arith in
        (inr (peek_short n outside h), inr (get_short n outside h))
  ]

  -- The rest of a typed reader takes the integer as it is.
  then-Advances :
      (size : ℕ) (m : M ℕ) (k : ℕ → M ℕ)
      → ((n : ℕ) (q : Packet) → n < 256 ^ size → k n q ≡ ok n q)
      → Gives size (m p)
      → Advances p ((m >>= k) p)
  then-Advances size m k keeps (inl (n, q, small, e, ahead)) =
      rw (e, ◌>>=◌) (rw (keeps n q small) ahead)
  then-Advances size m k keeps (inr e) = rw (e, ◌>>=◌) here

narrow_same8 : (n : ℕ) (q : Packet) → n < 256 ^ 1 → narrow 8 n q ≡ ok n q
narrow_same8 n q h = ground arith

narrow_same16 : (n : ℕ) (q : Packet) → n < 256 ^ 2 → narrow 16 n q ≡ ok n q
narrow_same16 n q h = ground arith

narrow_same24 : (n : ℕ) (q : Packet) → n < 256 ^ 3 → narrow 24 n q ≡ ok n q
narrow_same24 n q h = ground arith

masked_same : (n : ℕ) (q : Packet) → n < 256 ^ 4 → ok (n % 2 ^ 32) q ≡ ok n q
masked_same n q h = ground arith

-- The widths of the readers of integers.
pub data Width : Type 0 where
  bits8 bits16 bits24 bits32 peek8 peek16 : Width

abbrev pub read_width : Width → M ℕ
read_width bits8 = get_int8
read_width bits16 = get_int16
read_width bits24 = get_int24
read_width bits32 = get_int32
read_width peek8 = peek_int8
read_width peek16 = peek_int16

width-Advances : (w : Width) (p : Packet) → IsValid p → Advances p (read_width w p)
unfolding get_int8 get_int16 get_int24 get_int32 peek_int8 peek_int16
width-Advances bits8 p v =
    then-Advances p v 1 (get_int_len 1) _ narrow_same8 (integer_lem p v 1 (omega arith)).1
width-Advances bits16 p v =
    then-Advances p v 2 (get_int_len 2) _ narrow_same16 (integer_lem p v 2 (omega arith)).1
width-Advances bits24 p v =
    then-Advances p v 3 (get_int_len 3) _ narrow_same24 (integer_lem p v 3 (omega arith)).1
width-Advances bits32 p v =
    then-Advances p v 4 (get_int_len 4) _ masked_same (integer_lem p v 4 (omega arith)).1
width-Advances peek8 p v =
    then-Advances p v 1 (peek_int_len 1) _ narrow_same8 (integer_lem p v 1 (omega arith)).0
width-Advances peek16 p v =
    then-Advances p v 2 (peek_int_len 2) _ narrow_same16 (integer_lem p v 2 (omega arith)).0

peek-Advances : (n : ℕ) (p : Packet) → IsValid p → n ≤ 8 → Advances p (peek_int_len n p)
peek-Advances n p v h = elim (integer_lem p v n h).0 [
  | inl (m, q, small, e, ahead) ↦ rw e ahead
  | inr e ↦ rw e (here p v)
]

-- The readers but skip_lenenc_str, with their arguments.
pub data Read : Type 0 where
  lenenc_int lenenc_str c_string : Read
  skipped int peeked str column : ℕ → Read
  typed : Width → Read
  gstr_len : ℕ → Option (List ℕ) → Read
  gstr : List ℕ → Read

-- A call, without the value that it reads.
abbrev pub run : Read → M (Unit {0})
run lenenc_int = get_lenenc_int >> return tt
run lenenc_str = get_lenenc_str >> return tt
run c_string = get_string >> return tt
run (skipped n) = skip n >> return tt
run (int n) = get_int_len n >> return tt
run (peeked n) = peek_int_len n >> return tt
run (typed w) = read_width w >> return tt
run (str n) = get_str_len n >> return tt
run (column n) = get_column n >> return tt
run (gstr_len n out) = get_gstr_len n out >> return tt
run (gstr out) = get_gstr out >> return tt

-- Integers have up to eight bytes, and sizes fit 32 bits.
abbrev pub IsSmall : Read → Type 0
IsSmall (skipped n) = n < 2 ^ 32
IsSmall (int n) = n ≤ 8
IsSmall (peeked n) = n ≤ 8
IsSmall (str n) = n < 2 ^ 32
IsSmall (column n) = n < 2 ^ 32
IsSmall (gstr_len n out) = n < 2 ^ 32
IsSmall _ = Unit {0}

discard : {A : Type 0} (p : Packet) (m : M A) → Advances p (m p) → Advances p ((m >> return tt) p)
discard {A} p m h = at_result (m p) h
  where
    at_result : (r : Outcome A) → Advances p r → Advances p (((λ _. r) >> return tt) p)
    at_result (ok a q) h = h
    at_result (fail q) h = h
    at_result fault h = h

-- None of these readers, on any content of a packet, faults, changes the bytes, moves the offset back
-- or moves it past the end of the packet: get_lenenc_int, get_lenenc_str, get_string, skip,
-- get_int_len, peek_int_len, get_int8, 16, 24 and 32, peek_int8 and 16, get_str_len, get_column,
-- get_gstr_len and get_gstr. This holds for packets of bytes, nine of which more still fit 32 bits,
-- whose offset is not past their end, for integers of up to eight bytes and for sizes that fit 32
-- bits. skip_lenenc_str is not one of them.
pub run-Advances : (r : Read) (p : Packet) → IsValid p → IsSmall r → Advances p (run r p)
run-Advances lenenc_int p v h = discard p get_lenenc_int (get_lenenc_int-Advances p v)
run-Advances lenenc_str p v h = discard p get_lenenc_str (get_lenenc_str-Advances p v)
run-Advances c_string p v h = discard p get_string (get_string-Advances p v)
run-Advances (skipped n) p v h = discard p (skip n) (skip-Advances p v n h)
run-Advances (int n) p v h = discard p (get_int_len n) (get_int_len-Advances p v n h)
run-Advances (peeked n) p v h = discard p (peek_int_len n) (peek-Advances n p v h)
run-Advances (typed w) p v h = discard p (read_width w) (width-Advances w p v)
run-Advances (str n) p v h = discard p (get_str_len n) (get_str_len-Advances p v n h)
run-Advances (column n) p v h = discard p (get_column n) (get_column-Advances p v n h)
run-Advances (gstr_len n out) p v h =
    discard p (get_gstr_len n out) (get_gstr_len-Advances p v n out h)
run-Advances (gstr out) p v h = discard p (get_gstr out) (get_gstr-Advances p v out)

get_lenenc_int_inside : (p q : Packet) (n : ℕ) → get_lenenc_int p ≡ ok n q → p.offset < len p
unfolding get_lenenc_int
get_lenenc_int_inside p q n e = elim (Bool-cases (leb (len p) p.offset)) [
  | inl outside ↦ absurd (failed (rw outside at e))
  | inr inside ↦ ground arith
]
  where
    failed : ¬ (fail p ≡ ok n q)
    failed h = cc

-- `skip_lenenc_str` has no bound on the length of 64 bits that it reads from a valid packet. Where the
-- length fits the packet it is skipped; where it is too large the call fails; but from 2 ^ 64 less the
-- offset on the sum wraps, and the call succeeds with the offset at the sum less 2 ^ 64.
pub skip_lenenc_str_wraps :
    (p q : Packet) (n : ℕ)
    → IsValid p
    → get_lenenc_int p ≡ ok n q
    → n < 2 ^ 64
    → ((q.offset + n ≤ len p) × (skip_lenenc_str p ≡ ok tt (record q { offset = q.offset + n })))
      ⊎ (((len p < q.offset + n) × (q.offset + n < 2 ^ 64) × (skip_lenenc_str p ≡ fail q))
          ⊎ ((2 ^ 64 ≤ q.offset + n)
              × (skip_lenenc_str p ≡ ok tt (record q { offset = q.offset + n - 2 ^ 64 }))))
unfolding skip_lenenc_str
skip_lenenc_str_wraps p q n v e small = elim (Bool-cases (leb (2 ^ 64) (q.offset + n))) [
  | inl wraps ↦ inr (inr (leb→le _ _ wraps, ground (arith, inside, ahead, same_len)))
  | inr exact ↦ elim (Bool-cases (leb (q.offset + n) (len p))) [
    | inl fits ↦ inl (leb→le _ _ fits, ground (arith, inside, ahead, same_len))
    | inr long ↦ inr (inl (ground arith, ground arith, ground (arith, inside, ahead, same_len)))
  ]
]
  where
    inside : p.offset < len p
    inside = get_lenenc_int_inside p q n e

    ahead : Ahead p q
    ahead = rw e at (get_lenenc_int-Advances p v)

    same_len : len q ≡ len p
    same_len = ap length ahead.0
