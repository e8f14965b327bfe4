-- ===== src/Merge/Difference.antt =====
-- Differences of numerals without a sign: str_decimal_sub and sub_abs.
use cetus.Common.{
  ℕ, ◌+◌, ◌≤◌, ◌≡◌, ◌≢◌, refl, sym, ap, arith, ◌∙◌, Bool, true, false, Option, none, some, List, [],
  ◌∷◌, ◌++◌, length, ltb, ltb→lt, Bool-cases, ◌⊎◌, inl, inr,
}
use cetus.Merge.Digits.{
  head, split_point, sub_points, with_frac, str_decimal_sub, str_int_sub, sub_frac,
}
use cetus.Merge.Aggregate.{sub_abs}
use cetus.Merge.Value.{horner, horner_mono, horner-append}
use cetus.Merge.Numeral.{render, render-point}
use cetus.Merge.Comparison.{Parts, longer_is_larger}
use cetus.Merge.Subtraction.{str_int_sub_lem, sub_frac_lem, sub_frac_borrow}
use cetus.Merge.Absolute.{split_point-digits, split_point-point, int_value, Yields}

-- No leading zeros, but for a number below one.
abbrev pub NoZero : List ℕ → Type 0
NoZero w = (length w ≡ 1) ⊎ (head w ≢ 48)

-- The larger number has at least as many digits in front of its point.
pub length-le :
    (w1 f1 w2 f2 : List ℕ)
    → Parts w1 f1
    → Parts w2 f2
    → length f1 ≡ length f2
    → NoZero w2
    → horner 0 (w2 ++ f2) ≤ horner 0 (w1 ++ f1)
    → length w2 ≤ length w1
length-le w1 f1 w2 f2 n1 n2 e z h = elim (Bool-cases (ltb (length w1) (length w2))) [
  | inl longer ↦ absurd (
      omega (
        arith,
        longer_is_larger w1 w2 f1 f2 n1.whole n2.whole n1.frac e (ltb→lt _ _ longer) z
            n1.some_digit,
      ))
  | inr not_longer ↦ ground arith
]

-- What a subtraction leaves: it stays inside the buffers, and yields the difference.
abbrev pub Difference : List ℕ → ℕ → ℕ → Option (List ℕ) → Type 0
Difference f v1 v2 r = (s : List ℕ) × (r ≡ some s) × (d : ℕ) × (d + v2 ≡ v1) × Yields f d s

str_int_sub-Difference :
    (w1 w2 : List ℕ)
    → Parts w1 []
    → Parts w2 []
    → length w2 ≤ length w1
    → horner 0 (w2 ++ []) ≤ horner 0 (w1 ++ [])
    → Difference [] (horner 0 (w1 ++ [])) (horner 0 (w2 ++ [])) (str_int_sub w1 w2 0)
unfolding render
str_int_sub-Difference w1 w2 n1 n2 l h =
    let (r, returned, digits, len, value) =
      str_int_sub_lem w1 w2 0 (omega arith) n1.whole n2.whole l
        (omega (arith, int_value w1, int_value w2)) in
    (
      r,
      returned,
      horner 0 r,
      omega (arith, int_value w1, int_value w2),
      record {
        whole = r;
        frac = [];
        spelled = refl;
        parts = record { some_digit = omega (arith, n1.some_digit); whole = digits; frac = tt };
        same_scale = refl;
        value = int_value r;
      },
    )

-- The fraction borrows one only where the number in front of the point is larger.
borrow_fits :
    (w1 f1 w2 f2 : List ℕ)
    → Parts w1 f1
    → Parts w2 f2
    → length f1 ≡ length f2
    → horner 0 (w2 ++ f2) ≤ horner 0 (w1 ++ f1)
    → horner 0 w2 + (sub_frac f1 f2).0 ≤ horner 0 w1
borrow_fits w1 f1 w2 f2 n1 n2 e h =
    let (small, _, _, _) = sub_frac_lem f1 f2 n1.frac n2.frac e in
    let v1 = horner 0 w1 in
    let v2 = horner 0 w2 in
    let h' : horner v2 f2 ≤ horner v1 f1 =
      rw (← horner-append w2 f2 0, ← horner-append w1 f1 0) h in
    ground (arith, horner_mono f1 f2 v1 v2 n1.frac e, sub_frac_borrow f1 f2 v1 n1.frac n2.frac e)

str_decimal_sub-Difference :
    (w1 f1 w2 f2 : List ℕ)
    → Parts w1 f1
    → Parts w2 f2
    → length f1 ≡ length f2
    → length w2 ≤ length w1
    → horner 0 (w2 ++ f2) ≤ horner 0 (w1 ++ f1)
    → Difference f1
        (horner 0 (w1 ++ f1))
        (horner 0 (w2 ++ f2))
        (str_decimal_sub (render w1 f1) (render w2 f2))
unfolding str_decimal_sub sub_points with_frac render
str_decimal_sub-Difference w1 [] w2 [] n1 n2 e l h =
    let p : split_point (render w1 []) ≡ none = split_point-digits w1 n1.whole in
    rw p (str_int_sub-Difference w1 w2 n1 n2 l h)
str_decimal_sub-Difference w1 (a ∷ f1) w2 (b ∷ f2) n1 n2 e l h =
    let (small, frac_digits, frac_len, frac_value) =
      sub_frac_lem (a ∷ f1) (b ∷ f2) n1.frac n2.frac e in
    let borrow = (sub_frac (a ∷ f1) (b ∷ f2)).0 in
    let frac = (sub_frac (a ∷ f1) (b ∷ f2)).1 in
    let (r, returned, digits, len, value) =
      str_int_sub_lem w1 w2 borrow small n1.whole n2.whole l
        (borrow_fits w1 (a ∷ f1) w2 (b ∷ f2) n1 n2 e h) in
    let p = split_point-point w1 (a ∷ f1) n1.whole in
    let q = split_point-point w2 (b ∷ f2) n2.whole in
    let front = ap (λ n. horner n (a ∷ f1)) value in
    rw (p, q, returned)
      (
        r ++ 46 ∷ frac,
        refl,
        horner 0 (r ++ frac),
        rw (horner-append r frac 0, horner-append w1 (a ∷ f1) 0, horner-append w2 (b ∷ f2) 0)
            (frac_value (horner 0 r) (horner 0 w2) ∙ front),
        record {
          whole = r;
          frac = frac;
          spelled = sym (render-point r frac (omega arith));
          parts = record {
            some_digit = omega (arith, n1.some_digit);
            whole = digits;
            frac = frac_digits;
          };
          same_scale = frac_len;
          value = refl;
        },
      )
str_decimal_sub-Difference w1 [] w2 (b ∷ f2) n1 n2 e l h = absurd (omega arith)
str_decimal_sub-Difference w1 (a ∷ f1) w2 [] n1 n2 e l h = absurd (omega arith)

pub sub_abs-Difference :
    (is_integer : Bool) (w1 f1 w2 f2 : List ℕ)
    → Parts w1 f1
    → Parts w2 f2
    → length f1 ≡ length f2
    → (is_integer ≡ false) ⊎ (length f1 ≡ 0)
    → NoZero w2
    → horner 0 (w2 ++ f2) ≤ horner 0 (w1 ++ f1)
    → Difference f1
        (horner 0 (w1 ++ f1))
        (horner 0 (w2 ++ f2))
        (sub_abs is_integer (render w1 f1) (render w2 f2))
unfolding sub_abs render
sub_abs-Difference false w1 f1 w2 f2 n1 n2 e i z h =
    str_decimal_sub-Difference w1 f1 w2 f2 n1 n2 e (length-le w1 f1 w2 f2 n1 n2 e z h) h
sub_abs-Difference true w1 [] w2 [] n1 n2 e i z h =
    str_int_sub-Difference w1 w2 n1 n2 (length-le w1 [] w2 [] n1 n2 e z h) h
sub_abs-Difference true w1 f1 w2 f2 n1 n2 e (inl decimal) z h = absurd (cc)
sub_abs-Difference true w1 (a ∷ f1) w2 f2 n1 n2 e (inr none_left) z h = absurd (omega arith)
sub_abs-Difference true w1 [] w2 (b ∷ f2) n1 n2 e i z h = absurd (omega arith)
