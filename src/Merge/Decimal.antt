-- ===== src/Merge/Decimal.antt =====
-- str_add on decimals of any signs and scales.
use native.Mathlib.Nat.{zero-mul}
use cetus.Common.{
  ℕ, ◌+◌, ◌-◌, ◌*◌, ◌^◌, ◌≤◌, ◌<◌, ◌≡◌, refl, sym, ap, arith, ◌∙◌, Bool, true, false, Option, some,
  List, [], ◌∷◌, ◌++◌, length, length-append, if◌then◌else◌, ◌⊎◌, inl, inr,
}
use cetus.Common.Int.{ℤ, pos, sub_ℕ, ◌+ℤ◌}
use cetus.Merge.Compare.{zeros}
use cetus.Merge.Aggregate.{
  FieldType, newdecimal, decimal, SumResult, merged, padded_result, add_padded, str_add,
}
use cetus.Merge.Numeral.{length-render, suffix}
use cetus.Merge.Comparison.{Parts}
use cetus.Merge.Signed.{Numeral, magnitude, value, spell, IsNumeral, Returns}
use cetus.Merge.Sum.{dispose_sign_add_lem}
use cetus.Merge.Padding.{
  widen, length-zeros, magnitude-widen, widen-Parts, widen_none, padding_zero_lem,
}

-- The number in units of `10 ^ - (k + length n.frac)`.
abbrev pub at_scale : Numeral → ℕ → ℤ
at_scale n k = if n.minus then sub_ℕ 0 (magnitude n * 10 ^ k) else pos (magnitude n * 10 ^ k)

pub value-widen : (n : Numeral) (k : ℕ) → value (widen n k) ≡ at_scale n k
value-widen n k = rw (magnitude-widen n k) refl

at_scale_zero : (n : Numeral) (k : ℕ) → magnitude n ≡ 0 → at_scale n k ≡ value n
at_scale_zero n k e = rw (e, zero-mul (10 ^ k)) refl

pub widen-IsNumeral : (n : Numeral) (k : ℕ) → IsNumeral n → IsNumeral (widen n k)
widen-IsNumeral n k h = record { parts = widen-Parts n k h.parts; no_zero = h.no_zero }

length-suffix : (frac : List ℕ) → length frac ≤ length (suffix frac)
unfolding suffix
length-suffix [] = omega arith
length-suffix (c ∷ frac) = omega arith

suffix-append :
    (frac t : List ℕ) → length (suffix (frac ++ t)) ≤ length (suffix frac) + 1 + length t
unfolding suffix
suffix-append [] [] = omega arith
suffix-append [] (c ∷ t) = omega arith
suffix-append (c ∷ frac) t = omega (arith, length-append frac t)

length-spell : (n : Numeral) → length n.frac ≤ length (spell n)
length-spell n = ground (arith, length-suffix n.frac, length-render n.whole n.frac)

length-spell-widen : (n : Numeral) (k : ℕ) → length (spell (widen n k)) ≤ length (spell n) + 1 + k
length-spell-widen n k = ground (
  arith,
  length-render n.whole n.frac,
  length-render n.whole (n.frac ++ zeros k),
  suffix-append n.frac (zeros k),
  length-zeros k,
)

-- A sum with `scale` digits behind its point.
abbrev pub IsSum : ℤ → ℕ → SumResult → Type 0
IsSum v scale outcome =
    (sum : Numeral) × (outcome ≡ merged (spell sum))
    × Parts sum.whole sum.frac
    × (length sum.frac ≡ scale)
    × (value sum ≡ v)

-- The `0` of two numbers that cancel out gets the digits of the second operand.
padded_result-IsSum :
    (frac : List ℕ) (v : ℤ) (y : Numeral) (r : Option (Bool × List ℕ))
    → Parts y.whole y.frac
    → length y.frac ≡ length frac
    → length (spell y) < 512
    → Returns frac v r
    → IsSum v (length frac) (padded_result true (spell y) (r, false))
padded_result-IsSum frac v y r py e fits s = rw s.spelled (elim s.scale [
  | inl (returned, zero_text, nothing, no_frac) ↦
      let k = length y.frac - length s.sum.frac in
      let none_left = widen_none y (length s.sum.frac - length y.frac) (omega arith) in
      let room : length (spell (widen s.sum k)) < 1024 =
        omega (arith, length-spell-widen s.sum k, ap length zero_text, length-spell y) in
      let padded = padding_zero_lem s.sum y 1024 512 s.parts py room (rw none_left fits) in
      rw (returned, padded)
        (
          widen s.sum k,
          refl,
          widen-Parts s.sum k s.parts,
          omega (arith, length-append s.sum.frac (zeros k), length-zeros k),
          value-widen s.sum k ∙ at_scale_zero s.sum k nothing ∙ s.exact,
        )
  | inr (returned, same) ↦ rw returned (s.sum, refl, s.parts, same, s.exact)
])

add_padded-IsSum :
    (x y : Numeral)
    → IsNumeral x
    → IsNumeral y
    → length x.frac ≡ length y.frac
    → length (spell y) < 512
    → IsSum (value x +ℤ value y) (length x.frac) (add_padded true (some (spell x, spell y)))
unfolding add_padded
add_padded-IsSum x y h k e fits =
    let (r, returned, s) = dispose_sign_add_lem false x y h k e (inl refl) (inl refl) in
    rw returned (padded_result-IsSum x.frac _ y r k.parts (sym e) fits s)

abbrev pub IsDecimal : FieldType → Type 0
IsDecimal type = (type ≡ decimal) ⊎ (type ≡ newdecimal)

-- On columns of a decimal type, for two decimals of any signs and with any number of digits behind
-- their points, in which no zero leads but in front of the point, and which fit the buffers of 512
-- bytes with the digits of the other, str_add returns a decimal, and its value is the sum. It has as
-- many digits behind its point as the operand with more of them, also where the two cancel out.
pub str_add_lem :
    (type : FieldType) (x y : Numeral)
    → IsDecimal type
    → IsNumeral x
    → IsNumeral y
    → length (spell (widen x (length y.frac - length x.frac))) < 512
    → length (spell (widen y (length x.frac - length y.frac))) < 512
    → IsSum
        (at_scale x (length y.frac - length x.frac) +ℤ at_scale y (length x.frac - length y.frac))
        (length x.frac + (length y.frac - length x.frac))
        (str_add type (spell x) (spell y))
unfolding str_add
str_add_lem type x y d h k fits1 fits2 =
    let kx = length y.frac - length x.frac in
    let ky = length x.frac - length y.frac in
    let padded = padding_zero_lem x y 512 512 h.parts k.parts fits1 fits2 in
    let scale : length (x.frac ++ zeros kx) ≡ length x.frac + kx =
      omega (arith, length-append x.frac (zeros kx), length-zeros kx) in
    let same : length (x.frac ++ zeros kx) ≡ length (y.frac ++ zeros ky) =
      omega (arith, length-append y.frac (zeros ky), length-zeros ky) in
    let sum =
      add_padded-IsSum (widen x kx) (widen y ky) (widen-IsNumeral x kx h) (widen-IsNumeral y ky k)
        same fits2 in
    let sum' = rw (value-widen x kx, value-widen y ky, scale) at sum in
    elim d [ inl e ↦ rw (e, padded) sum' | inr e ↦ rw (e, padded) sum' ]
