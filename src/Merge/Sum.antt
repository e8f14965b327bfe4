-- ===== src/Merge/Sum.antt =====
-- What dispose_sign_add returns for every pair of numerals, and where it leaves its buffer.
use mathlib.Core.List.{reverse}
use cetus.Common.{
  ℕ, suc, ◌+◌, ◌≤◌, ◌<◌, ◌≡◌, refl, arith, Bool, true, false, none, List, [], ◌∷◌, length,
  Bool-cases, ◌⊎◌, inl, inr,
}
use cetus.Common.Int.{pos, sub_ℕ, ◌+ℤ◌}
use cetus.Merge.Digits.{tail, sub_both, str_int_sub}
use cetus.Merge.Aggregate.{dispose_sign_add}
use cetus.Merge.Value.{length-reverse}
use cetus.Merge.Numeral.{render}
use cetus.Merge.Signed.{
  Numeral, magnitude, value, spell, IsNumeral, Fits, Adds, both_positive, both_negative,
  negative_first, negative_second, order, is_minus-render,
}

sum_pp : (m n : ℕ) → pos m +ℤ pos n ≡ pos (m + n)
unfolding ◌+ℤ◌
sum_pp m n = ground arith

sum_nn : (m n : ℕ) → sub_ℕ 0 m +ℤ sub_ℕ 0 n ≡ sub_ℕ 0 (m + n)
unfolding ◌+ℤ◌
sum_nn m n = ground arith

sum_np : (m n : ℕ) → sub_ℕ 0 m +ℤ pos n ≡ sub_ℕ n m
unfolding ◌+ℤ◌
sum_np m n = ground arith

sum_pn : (m n : ℕ) → pos m +ℤ sub_ℕ 0 n ≡ sub_ℕ m n
unfolding ◌+ℤ◌
sum_pn m n = ground arith

-- For two numerals without leading zeros, with equally many digits behind their points and none if
-- they are integers, dispose_sign_add returns, with no failure, the numeral of their sum, of the same
-- scale unless it is the `0` that it returns for two numbers that cancel out. This holds for all signs
-- of decimals; for integers it does not cover a positive and a negative one in this order.
pub dispose_sign_add_lem :
    (is_integer : Bool) (x y : Numeral)
    → IsNumeral x
    → IsNumeral y
    → length x.frac ≡ length y.frac
    → Fits is_integer x.frac
    → (is_integer ≡ false) ⊎ ((x.minus ≡ true) ⊎ (y.minus ≡ false))
    → Adds is_integer x.frac (value x +ℤ value y) (spell x) (spell y)
dispose_sign_add_lem is_integer x y h k e fits covered = elim (Bool-cases x.minus) [
  | inl minus ↦ rw minus (elim (Bool-cases y.minus) [
    | inl minus' ↦
        rw (minus', sum_nn (magnitude x) (magnitude y))
          (both_negative is_integer _ _ _ _ h.parts k.parts e fits)
    | inr plus' ↦
        rw (plus', sum_np (magnitude x) (magnitude y))
          (negative_first is_integer _ _ _ _ h.parts k.parts e fits h.no_zero k.no_zero)
  ])
  | inr plus ↦ rw plus (elim (Bool-cases y.minus) [
    | inl minus' ↦
        let decimal : is_integer ≡ false = ground arith in
        rw (minus', decimal, sum_pn (magnitude x) (magnitude y))
          (negative_second _ _ _ _ h.parts k.parts e h.no_zero k.no_zero)
    | inr plus' ↦
        rw (plus', sum_pp (magnitude x) (magnitude y))
          (both_positive is_integer _ _ _ _ h.parts k.parts e fits)
  ])
]

sub_both-short :
    (p q : List ℕ) (borrow : ℕ) (dest : List ℕ)
    → length p < length q
    → sub_both p q borrow dest ≡ none
unfolding sub_both
sub_both-short p [] borrow dest h = absurd (omega arith)
sub_both-short [] (b ∷ q) borrow dest h = refl
sub_both-short (a ∷ p) (b ∷ q) borrow dest h = sub_both-short p q _ _ (omega arith)

str_int_sub-short :
    (s1 s2 : List ℕ) (borrow : ℕ) → length s1 < length s2 → str_int_sub s1 s2 borrow ≡ none
unfolding str_int_sub
str_int_sub-short s1 s2 borrow h =
    sub_both-short (reverse s1) (reverse s2) borrow []
      (omega (arith, length-reverse s1, length-reverse s2))

length-whole : (w f : List ℕ) → length f ≡ 0 → length (render w f) ≡ length w
unfolding render
length-whole w [] e = refl
length-whole w (c ∷ f) e = absurd (omega arith)

length-tail : (s : List ℕ) → 0 < length s → suc (length (tail s)) ≡ length s
length-tail [] h = absurd (omega arith)
length-tail (c ∷ s) h = refl

-- For a positive and a negative integer without leading zeros, the first larger and at most one digit
-- longer, dispose_sign_add subtracts the second with its sign from the first without its first digit,
-- and writes in front of the buffer.
pub dispose_sign_add_overrun :
    (x y : Numeral)
    → IsNumeral x
    → IsNumeral y
    → (length x.frac ≡ 0) × (length y.frac ≡ 0)
    → (x.minus ≡ false) × (y.minus ≡ true)
    → magnitude y < magnitude x
    → length x.whole ≤ length y.whole + 1
    → dispose_sign_add true (spell x) (spell y) ≡ (none, false)
unfolding dispose_sign_add
dispose_sign_add_overrun x y h k e (plus, minus) larger short =
    let (r, compared, o) =
      order true x.whole x.frac y.whole y.frac h.parts k.parts (omega arith) (inr e.0) in
    let s1 = render x.whole x.frac in
    let s2 = render y.whole y.frac in
    let len1 = length-whole x.whole x.frac e.0 in
    let len2 = length-whole y.whole y.frac e.1 in
    let left = length-tail s1 (omega (arith, h.parts.some_digit)) in
    let overrun = str_int_sub-short (tail s1) (45 ∷ s2) 0 (omega arith) in
    rw (plus, minus)
      (rw (is_minus-render x.whole x.frac h.parts, compared, overrun)
        (elim o [
          | inl (above, _) ↦ rw above refl
          | inr (inl (_, same)) ↦ absurd (omega arith)
          | inr (inr (_, below)) ↦ absurd (omega arith)
        ]))
