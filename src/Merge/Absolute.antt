-- ===== src/Merge/Absolute.antt =====
-- Sums of numerals without a sign: str_decimal_add, add_abs and trim_zero.
use cetus.Common.{
  ℕ, ◌+◌, ◌<◌, ◌≡◌, refl, sym, ap, arith, ◌∙◌, Bool, true, false, none, some, List, [], ◌∷◌, ◌++◌,
  All, length, ◌==◌, ◌⊎◌, inl, inr, append-nil,
}
use cetus.Common.Int.{pos}
use cetus.Merge.Digits.{trim_zero, split_point, add_points, str_decimal_add, str_int_add, add_frac}
use cetus.Merge.Compare.{skip_zeros, is_nil}
use cetus.Merge.Aggregate.{add_abs}
use cetus.Merge.Value.{IsDigit, horner, horner-append}
use cetus.Merge.Numeral.{render, render-point, suffix, render-suffix, skip_zeros-IsStripped}
use cetus.Merge.Comparison.{Parts}
use cetus.Merge.Addition.{str_int_add_lem, add_frac_lem}

pub split_point-digits : (s : List ℕ) → All IsDigit s → split_point s ≡ none
unfolding split_point
split_point-digits [] h = refl
split_point-digits (c ∷ s) h =
    let not_point : (c == 46) ≡ false = ground (arith, h.0) in
    rw (not_point, split_point-digits s h.1) refl

pub split_point-point : (s t : List ℕ) → All IsDigit s → split_point (s ++ 46 ∷ t) ≡ some (s, t)
unfolding split_point
split_point-point [] t h = refl
split_point-point (c ∷ s) t h =
    let not_point : (c == 46) ≡ false = ground (arith, h.0) in
    rw (not_point, split_point-point s t h.1) refl

trim_zero-suffix :
    (w f : List ℕ)
    → 0 < length w
    → All IsDigit w
    → trim_zero (w ++ suffix f) ≡ skip_zeros w ++ suffix f
unfolding trim_zero skip_zeros is_nil suffix
trim_zero-suffix [] f n h = absurd (omega arith)
trim_zero-suffix (c ∷ []) [] n h = ground arith
trim_zero-suffix (c ∷ []) (b ∷ f) n h = ground arith
trim_zero-suffix (c ∷ d ∷ w) f n h =
    let rest = trim_zero-suffix (d ∷ w) f (omega arith) h.1 in ground (arith, h.1.0)

-- Leading zeros do not count.
pub trim_zero_lem :
    (w f : List ℕ)
    → Parts w f
    → (u : List ℕ) × (trim_zero (render w f) ≡ render u f)
      × Parts u f
      × (horner 0 (u ++ f) ≡ horner 0 (w ++ f))
trim_zero_lem w f n =
    let u = skip_zeros-IsStripped w n.some_digit n.whole in
    (
      skip_zeros w,
      rw (render-suffix w f, render-suffix (skip_zeros w) f)
          (trim_zero-suffix w f n.some_digit n.whole),
      record { some_digit = u.some_digit; whole = u.digits; frac = n.frac },
      rw (horner-append (skip_zeros w) f 0, horner-append w f 0, u.same_value) refl,
    )

-- A numeral with as many digits behind the point as `f`, and of the value `v`.
pub record Yields (f : List ℕ) (v : ℕ) (s : List ℕ) : Type 0 where
  pub whole : List ℕ
  pub frac : List ℕ
  pub spelled : s ≡ render whole frac
  pub parts : Parts whole frac
  pub same_scale : length frac ≡ length f
  pub value : horner 0 (whole ++ frac) ≡ v

pub trim_zero-Yields : (f : List ℕ) (v : ℕ) (s : List ℕ) → Yields f v s → Yields f v (trim_zero s)
trim_zero-Yields f v s y =
    let (u, trimmed, parts, same) = trim_zero_lem y.whole y.frac y.parts in
    record {
      whole = u;
      frac = y.frac;
      spelled = rw y.spelled trimmed;
      parts = parts;
      same_scale = y.same_scale;
      value = same ∙ y.value;
    }

pub int_value : (w : List ℕ) → horner 0 (w ++ []) ≡ horner 0 w
int_value w = ap (horner 0) (append-nil w)

str_int_add-Yields :
    (w1 w2 : List ℕ)
    → Parts w1 []
    → Parts w2 []
    → Yields [] (horner 0 (w1 ++ []) + horner 0 (w2 ++ [])) (str_int_add w1 w2 (pos 0))
unfolding render
str_int_add-Yields w1 w2 n1 n2 =
    let (digits, some_digit, value) = str_int_add_lem w1 w2 0 (omega arith) n1.whole n2.whole in
    let sum = str_int_add w1 w2 (pos 0) in
    record {
      whole = sum;
      frac = [];
      spelled = refl;
      parts = record { some_digit = some_digit; whole = digits; frac = tt };
      same_scale = refl;
      value = omega (arith, int_value sum, int_value w1, int_value w2);
    }

str_decimal_add-Yields :
    (w1 f1 w2 f2 : List ℕ)
    → Parts w1 f1
    → Parts w2 f2
    → length f1 ≡ length f2
    → Yields f1
        (horner 0 (w1 ++ f1) + horner 0 (w2 ++ f2))
        (str_decimal_add (render w1 f1) (render w2 f2))
unfolding str_decimal_add add_points render
str_decimal_add-Yields w1 [] w2 [] n1 n2 e =
    let p : split_point (render w1 []) ≡ none = split_point-digits w1 n1.whole in
    rw p (str_int_add-Yields w1 w2 n1 n2)
str_decimal_add-Yields w1 (a ∷ f1) w2 (b ∷ f2) n1 n2 e =
    let (c, carry, small, frac_digits, len, frac_value) =
      add_frac_lem (a ∷ f1) (b ∷ f2) n1.frac n2.frac e in
    let (digits, some_digit, value) = str_int_add_lem w1 w2 c small n1.whole n2.whole in
    let whole = str_int_add w1 w2 (pos c) in
    let frac = (add_frac (a ∷ f1) (b ∷ f2)).1 in
    rw (split_point-point w1 (a ∷ f1) n1.whole, split_point-point w2 (b ∷ f2) n2.whole, carry)
      (record {
        whole = whole;
        frac = frac;
        spelled = sym (render-point whole frac (omega arith));
        parts = record { some_digit = some_digit; whole = digits; frac = frac_digits };
        same_scale = len;
        value =
            rw
              (
                horner-append whole frac 0,
                horner-append w1 (a ∷ f1) 0,
                horner-append w2 (b ∷ f2) 0,
                ← (frac_value (horner 0 w1) (horner 0 w2)),
              )
              (ap (λ n. horner n frac) (omega arith));
      })
str_decimal_add-Yields w1 [] w2 (b ∷ f2) n1 n2 e = absurd (omega arith)
str_decimal_add-Yields w1 (a ∷ f1) w2 [] n1 n2 e = absurd (omega arith)

-- Integers have no digits behind a point.
pub add_abs-Yields :
    (is_integer : Bool) (w1 f1 w2 f2 : List ℕ)
    → Parts w1 f1
    → Parts w2 f2
    → length f1 ≡ length f2
    → (is_integer ≡ false) ⊎ (length f1 ≡ 0)
    → Yields f1
        (horner 0 (w1 ++ f1) + horner 0 (w2 ++ f2))
        (add_abs is_integer (render w1 f1) (render w2 f2))
unfolding add_abs render
add_abs-Yields false w1 f1 w2 f2 n1 n2 e i = str_decimal_add-Yields w1 f1 w2 f2 n1 n2 e
add_abs-Yields true w1 [] w2 [] n1 n2 e i = str_int_add-Yields w1 w2 n1 n2
add_abs-Yields true w1 f1 w2 f2 n1 n2 e (inl decimal) = absurd (cc)
add_abs-Yields true w1 (a ∷ f1) w2 f2 n1 n2 e (inr none_left) = absurd (omega arith)
add_abs-Yields true w1 [] w2 (b ∷ f2) n1 n2 e i = absurd (omega arith)
