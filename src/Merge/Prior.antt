-- ===== src/Merge/Prior.antt =====
-- compare_str_num_value orders decimals of any signs and scales.
use native.Mathlib.Nat.{pow-succ'}
use cetus.Common.{
  ℕ, zero, suc, ◌-◌, ◌*◌, ◌^◌, ◌<◌, ◌≡◌, refl, ap, arith, Bool, true, false, ◌++◌, length,
  length-append, Bool-cases, ◌⊎◌, inl, inr,
}
use cetus.Common.Int.{ℤ, pos, negsuc, neg, sub_ℕ, ◌<ℤ◌}
use cetus.Merge.Compare.{
  zeros, cmp_str_num, unsigned, prior_to, compare_result, compare_padded, compare_str_num_value,
}
use cetus.Merge.Comparison.{Parts, Orders, cmp_str_pos_num_lem}
use cetus.Merge.Signed.{Numeral, magnitude, value, spell, is_minus-render, unsigned-render}
use cetus.Merge.Padding.{widen, length-zeros, magnitude-widen, widen-Parts, padding_zero_lem}
use cetus.Merge.Decimal.{at_scale, value-widen}

-- The result of a comparison of two integers.
abbrev pub OrdersInt : ℤ → ℤ → ℤ → Type 0
OrdersInt r a b = ((r ≡ pos 1) × (b <ℤ a)) ⊎ (((r ≡ pos 0) × (a ≡ b)) ⊎ ((r ≡ negsuc 0) × (a <ℤ b)))

-- There is no minus in front of zero.
abbrev pub IsPlain : Numeral → Type 0
IsPlain n = (n.minus ≡ false) ⊎ (0 < magnitude n)

Orders-neg : (r : ℤ) (m n : ℕ) → Orders r m n → OrdersInt (neg r) (sub_ℕ 0 m) (sub_ℕ 0 n)
unfolding neg
Orders-neg r m n (inl (e, above)) = rw e (inr (inr (refl, ground arith)))
Orders-neg r m n (inr (inl (e, same))) = rw (e, same) (inr (inl (refl, refl)))
Orders-neg r m n (inr (inr (e, below))) = rw e (inl (refl, ground arith))

Orders-pos : (r : ℤ) (m n : ℕ) → Orders r m n → OrdersInt r (pos m) (pos n)
Orders-pos r m n (inl (e, above)) = inl (e, omega arith)
Orders-pos r m n (inr (inl (e, same))) = inr (inl (e, ap pos same))
Orders-pos r m n (inr (inr (e, below))) = inr (inr (e, omega arith))

module _ (x y : Numeral) (px : Parts x.whole x.frac) (py : Parts y.whole y.frac)
    (same_scale : length x.frac ≡ length y.frac) (plain_x : IsPlain x) (plain_y : IsPlain y) where
  pub cmp_str_num-OrdersInt :
      (r : ℤ) × (cmp_str_num (spell x) (spell y) ≡ (r, false)) × OrdersInt r (value x) (value y)
  unfolding cmp_str_num unsigned
  cmp_str_num-OrdersInt =
      let (r, compared, o) = cmp_str_pos_num_lem x.whole x.frac y.whole y.frac px py same_scale in
      let u1 = unsigned-render x.whole x.frac px in
      let u2 = unsigned-render y.whole y.frac py in
      let m1 = is_minus-render x.whole x.frac px in
      let m2 = is_minus-render y.whole y.frac py in
      elim (Bool-cases x.minus) [
        | inl minus ↦ elim (Bool-cases y.minus) [
          | inl minus' ↦
              rw (minus, minus', compared) (neg r, refl, Orders-neg r (magnitude x) (magnitude y) o)
          | inr plus' ↦ rw (minus, plus', m2) (negsuc 0, refl, inr (inr (refl, ground arith)))
        ]
        | inr plus ↦ elim (Bool-cases y.minus) [
          | inl minus' ↦ rw (plus, minus', m1) (pos 1, refl, inl (refl, ground arith))
          | inr plus' ↦
              rw (plus, plus', u1, u2, m1, m2, compared)
                (r, refl, Orders-pos r (magnitude x) (magnitude y) o)
        ]
      ]

-- In front of the other, in ascending or in descending order.
abbrev pub Before : Bool → ℤ → ℤ → Type 0
Before false a b = a <ℤ b
Before true a b = b <ℤ a

-- The three answers to whether `a` is prior to `b`.
abbrev pub Ranks : Bool → ℤ → ℤ → ℤ → Bool × ℤ × Bool → Type 0
Ranks desc dest a b answer =
    ((answer ≡ (true, dest, false)) × (a ≡ b))
    ⊎ (((answer ≡ (false, pos 1, false)) × Before desc a b)
        ⊎ ((answer ≡ (false, pos 0, false)) × Before desc b a))

compare_result-Ranks :
    (desc : Bool) (dest r a b : ℤ)
    → OrdersInt r a b
    → Ranks desc dest a b (compare_result prior_to desc dest (r, false))
unfolding compare_result
compare_result-Ranks false dest r a b (inl (e, above)) = rw e (inr (inr (refl, above)))
compare_result-Ranks true dest r a b (inl (e, above)) = rw e (inr (inl (refl, above)))
compare_result-Ranks desc dest r a b (inr (inl (e, same))) = rw e (inl (refl, same))
compare_result-Ranks false dest r a b (inr (inr (e, below))) = rw e (inr (inl (refl, below)))
compare_result-Ranks true dest r a b (inr (inr (e, below))) = rw e (inr (inr (refl, below)))

pow_pos : (k : ℕ) → 0 < 10 ^ k
pow_pos zero = omega arith
pow_pos (suc k) = omega (arith, pow-succ' 10 k, pow_pos k)

widen-IsPlain : (n : Numeral) (k : ℕ) → IsPlain n → IsPlain (widen n k)
widen-IsPlain n k (inl plus) = inl plus
widen-IsPlain n k (inr positive) = inr (rw (magnitude-widen n k) (mul_pos positive (pow_pos k)))
  where
    mul_pos : {a b : ℕ} → 0 < a → 0 < b → 0 < a * b
    mul_pos h k = grind arith

module _ (x y : Numeral) (desc : Bool) (dest : ℤ) (px : Parts x.whole x.frac)
    (py : Parts y.whole y.frac) (plain_x : IsPlain x) (plain_y : IsPlain y) where
  -- For two decimals of any signs and with any number of digits behind their points, leading zeros or
  -- not, without a minus in front of zero, which fit the buffers of 512 bytes with the digits of the
  -- other, compare_str_num_value tells whether they are equal, and then leaves `dest` alone, and else
  -- stores whether the first is in front of the second, in the order that `desc` asks for. It does not
  -- fail.
  pub compare_str_num_value_lem :
      length (spell (widen x (length y.frac - length x.frac))) < 512
      → length (spell (widen y (length x.frac - length y.frac))) < 512
      → Ranks desc dest
          (at_scale x (length y.frac - length x.frac))
          (at_scale y (length x.frac - length y.frac))
          (compare_str_num_value (spell x) (spell y) prior_to desc dest)
  unfolding compare_str_num_value compare_padded
  compare_str_num_value_lem fits1 fits2 =
      let kx = length y.frac - length x.frac in
      let ky = length x.frac - length y.frac in
      let padded = padding_zero_lem x y 512 512 px py fits1 fits2 in
      let same : length (x.frac ++ zeros kx) ≡ length (y.frac ++ zeros ky) = omega (
        arith,
        length-append x.frac (zeros kx),
        length-append y.frac (zeros ky),
        length-zeros kx,
        length-zeros ky,
      ) in
      let (r, compared, o) =
        cmp_str_num-OrdersInt (widen x kx) (widen y ky) (widen-Parts x kx px) (widen-Parts y ky py)
          same (widen-IsPlain x kx plain_x) (widen-IsPlain y ky plain_y) in
      let o' = rw (value-widen x kx, value-widen y ky) at o in
      rw (padded, compared) (compare_result-Ranks desc dest r _ _ o')
