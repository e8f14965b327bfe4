-- ===== src/Merge/Numeral.antt =====
-- Decimal numerals without a sign, and what check_str_num_supported and the loops over leading zeros make
-- of them.
use cetus.Common.{
  ℕ, suc, ◌+◌, ◌-◌, ◌*◌, ◌≤◌, ◌<◌, ◌≡◌, refl, sym, ap, arith, ◌∙◌, Bool, true, false, ◌||◌, Option,
  none, some, List, [], ◌∷◌, ◌++◌, append-nil, length-append, drop, All, length, ◌==◌, ◌⊎◌, ◌≢◌,
  inl, inr, Bool-cases, ==_iff,
}
use cetus.Merge.Digits.{head, is_digit}
use cetus.Merge.Compare.{check_bytes, check_str_num_supported, is_nil, skip_zeros}
use cetus.Merge.Value.{IsDigit, horner}

-- The point is left out where no digit follows it.
unfoldable pub render : List ℕ → List ℕ → List ℕ
render whole [] = whole
render whole (c ∷ frac) = whole ++ 46 ∷ c ∷ frac

unfoldable pub point_of : List ℕ → List ℕ → Option ℕ
point_of whole [] = none
point_of whole (c ∷ frac) = some (length whole)

unfoldable pub suffix : List ℕ → List ℕ
suffix [] = []
suffix (c ∷ frac) = 46 ∷ c ∷ frac

pub render-suffix : (whole frac : List ℕ) → render whole frac ≡ whole ++ suffix frac
unfolding render suffix
render-suffix whole [] = sym (append-nil whole)
render-suffix whole (c ∷ frac) = refl

pub render-point : (whole frac : List ℕ) → 0 < length frac → render whole frac ≡ whole ++ 46 ∷ frac
unfolding render
render-point whole [] h = absurd (omega arith)
render-point whole (c ∷ frac) h = refl

pub length-render :
    (whole frac : List ℕ) → length (render whole frac) ≡ length whole + length (suffix frac)
length-render whole frac = rw (render-suffix whole frac) (length-append whole (suffix frac))

check_bytes-digits :
    (s : List ℕ) (sign i : ℕ) (dotted : Bool) (p : Option ℕ)
    → All IsDigit s
    → check_bytes sign s i dotted true p ≡ (true, p)
unfolding check_bytes
check_bytes-digits [] sign i dotted p h = refl
check_bytes-digits (c ∷ s) sign i dotted p h =
    let not_point : (c == 46) ≡ false = ground arith in
    let digit : is_digit c ≡ true = ground arith in
    rw (not_point, digit) (check_bytes-digits s sign (suc i) _ p h.1)

check_bytes-point :
    (whole : List ℕ) (c : ℕ) (frac : List ℕ) (i : ℕ)
    → All IsDigit whole
    → All IsDigit (c ∷ frac)
    → 0 < i + length whole
    → check_bytes 0 (whole ++ 46 ∷ c ∷ frac) i false true none ≡ (true, some (i + length whole))
unfolding check_bytes is_nil
check_bytes-point [] c frac i h k l =
    let placed : (i == 0) ≡ false = ground arith in
    rw (placed, check_bytes)
      (check_bytes-digits (c ∷ frac) 0 (suc i) true (some (0 + i)) k
        ∙ ap (λ n. (true, some n)) (omega arith))
check_bytes-point (d ∷ whole) c frac i h k l =
    let not_point : (d == 46) ≡ false = ground arith in
    let digit : is_digit d ≡ true = ground arith in
    rw (not_point, digit, check_bytes)
      (check_bytes-point whole c frac (suc i) h.1 k (omega arith)
        ∙ ap (λ n. (true, some n)) (omega arith))

pub check-render :
    (whole frac : List ℕ)
    → 0 < length whole
    → All IsDigit whole
    → All IsDigit frac
    → check_str_num_supported (render whole frac) ≡ (true, point_of whole frac)
unfolding check_str_num_supported render point_of
check-render [] frac n h k = absurd (omega arith)
check-render (d ∷ whole) [] n h k =
    let unsigned : (d == 43 || (d == 45)) ≡ false = ground arith in
    rw unsigned (check_bytes-digits (d ∷ whole) 0 0 false none h)
check-render (d ∷ whole) (c ∷ frac) n h k =
    let unsigned : (d == 43 || (d == 45)) ≡ false = ground arith in
    rw unsigned (
      check_bytes-point (d ∷ whole) c frac 0 h k (omega arith)
      ∙ ap (λ m. (true, some m)) (omega arith))

-- What is left of the digits in front of the point.
pub record IsStripped (whole t : List ℕ) : Type 0 where
  pub digits : All IsDigit t
  pub some_digit : 0 < length t
  pub same_value : horner 0 t ≡ horner 0 whole
  pub not_longer : length t ≤ length whole
  pub no_zero : (length t ≡ 1) ⊎ (head t ≢ 48)

pub skip_zeros-IsStripped :
    (whole : List ℕ) → 0 < length whole → All IsDigit whole → IsStripped whole (skip_zeros whole)
unfolding skip_zeros is_nil
skip_zeros-IsStripped [] n h = absurd (omega arith)
skip_zeros-IsStripped (c ∷ []) n h = ground arith
skip_zeros-IsStripped (c ∷ d ∷ whole) n h =
    let rest = skip_zeros-IsStripped (d ∷ whole) (omega arith) h.1 in
    let not_point : (d == 46) ≡ false = ground (arith, h.1.0) in
    let step : c ≡ 48 → ◌≡◌ {A = ℕ} 0 (0 * 10 + (c - 48)) = λ e. omega arith in
    elim (Bool-cases (c == 48)) [
      | inl zero_digit ↦
          rw (zero_digit, not_point)
            (record {
              digits = rest.digits;
              some_digit = rest.some_digit;
              same_value =
                  rest.same_value
                  ∙ ap (λ n. horner n (d ∷ whole)) (step ((==_iff c 48).0 zero_digit));
              not_longer = omega (arith, rest.not_longer);
              no_zero = rest.no_zero;
            })
      | inr other ↦ rw other (record {
        digits = h;
        some_digit = omega arith;
        same_value = refl;
        not_longer = omega arith;
        no_zero = inr (ground arith);
      })
    ]

pub skip_zeros-point :
    (whole frac : List ℕ)
    → 0 < length whole
    → All IsDigit whole
    → skip_zeros (whole ++ 46 ∷ frac) ≡ skip_zeros whole ++ 46 ∷ frac
unfolding skip_zeros is_nil
skip_zeros-point [] frac n h = absurd (omega arith)
skip_zeros-point (c ∷ []) frac n h = ground arith
skip_zeros-point (c ∷ d ∷ whole) frac n h =
    let rest = skip_zeros-point (d ∷ whole) frac (omega arith) h.1 in ground arith

pub skip_zeros-render :
    (whole frac : List ℕ)
    → 0 < length whole
    → All IsDigit whole
    → skip_zeros (render whole frac) ≡ render (skip_zeros whole) frac
unfolding render
skip_zeros-render whole [] n h = refl
skip_zeros-render whole (c ∷ frac) n h = skip_zeros-point whole (c ∷ frac) n h

pub drop-point : (whole frac : List ℕ) → drop (suc (length whole)) (whole ++ 46 ∷ frac) ≡ frac
drop-point [] frac = refl
drop-point (d ∷ whole) frac = drop-point whole frac
