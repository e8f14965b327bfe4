-- ===== src/Merge/Comparison.antt =====
-- cmp_str_pos_num compares the numbers that two numerals with equally many digits behind their points denote.
use cetus.Common.{
  ℕ, ◌+◌, ◌-◌, ◌*◌, ◌≤◌, ◌<◌, ◌≡◌, ◌≢◌, refl, sym, arith, false, not, List, [], ◌∷◌, ◌++◌,
  append-nil, All, All-append, length, length-append, if◌then◌else◌, ◌==◌, ltb, ltb→lt, ◌⊎◌, inl,
  inr, Bool-cases,
}
use cetus.Common.Int.{ℤ, pos, negsuc, pos_part, neg_part}
use cetus.Merge.Digits.{head}
use cetus.Merge.Compare.{cmp_bytes, cmp_frac, cmp_supported, cmp_str_pos_num, skip_zeros, or_len}
use cetus.Merge.Value.{IsDigit, horner, horner_mono, horner_longer, horner-append}
use cetus.Merge.Numeral.{
  render, point_of, check-render, IsStripped, skip_zeros-IsStripped, skip_zeros-render, drop-point,
  length-render, suffix, render-suffix,
}

-- The result of a comparison of two numbers.
abbrev pub Orders : ℤ → ℕ → ℕ → Type 0
Orders r m n = ((r ≡ pos 1) × (n < m)) ⊎ (((r ≡ pos 0) × (m ≡ n)) ⊎ ((r ≡ negsuc 0) × (m < n)))

-- Digit strings of one length, behind two numbers that are equal.
pub cmp_bytes-Orders :
    (u v r1 r2 : List ℕ) (n : ℕ)
    → All IsDigit u
    → All IsDigit v
    → length u ≡ length v
    → Orders (cmp_bytes (length u) (u ++ r1) (v ++ r2)) (horner n u) (horner n v)
unfolding cmp_bytes
cmp_bytes-Orders [] [] r1 r2 n h k e = inr (inl (refl, refl))
cmp_bytes-Orders [] (b ∷ v) r1 r2 n h k e = absurd (omega arith)
cmp_bytes-Orders (a ∷ u) [] r1 r2 n h k e = absurd (omega arith)
cmp_bytes-Orders (a ∷ u) (b ∷ v) r1 r2 n h k e = ground (
  arith,
  h.0,
  k.0,
  cmp_bytes-Orders u v r1 r2 (n * 10 + (a - 48)) h.1 k.1,
  horner_mono u v (n * 10 + (a - 48)) (n * 10 + (b - 48)) h.1,
  horner_mono v u (n * 10 + (b - 48)) (n * 10 + (a - 48)) k.1,
)

cmp_frac-Orders :
    (w1 w2 f1 f2 : List ℕ) (n short_len : ℕ)
    → All IsDigit f1
    → All IsDigit f2
    → length f1 ≡ length f2
    → (length f1 ≡ 0) ⊎ (short_len ≡ length f1)
    → Orders
        (cmp_frac (point_of w1 f1) (point_of w2 f2) (render w1 f1) (render w2 f2) short_len)
        (horner n f1)
        (horner n f2)
unfolding cmp_frac point_of render
cmp_frac-Orders w1 w2 [] [] n l h k e s = inr (inl (refl, refl))
cmp_frac-Orders w1 w2 [] (b ∷ f2) n l h k e s = absurd (omega arith)
cmp_frac-Orders w1 w2 (a ∷ f1) [] n l h k e s = absurd (omega arith)
cmp_frac-Orders w1 w2 (a ∷ f1) (b ∷ f2) n l h k e s =
    let enough : l ≡ length (a ∷ f1) = elim s [
      | inl none_left ↦ absurd (omega arith)
      | inr all ↦ all
    ] in
    rw (enough, drop-point w1 (a ∷ f1), drop-point w2 (b ∷ f2))
      (rw (append-nil (a ∷ f1), append-nil (b ∷ f2)) at
        (cmp_bytes-Orders (a ∷ f1) (b ∷ f2) [] [] n h k e))

-- Of two numbers without leading zeros, the longer one is the larger one.
pub longer_is_larger :
    (u v f1 f2 : List ℕ)
    → All IsDigit u
    → All IsDigit v
    → All IsDigit f1
    → length f1 ≡ length f2
    → length u < length v
    → (length v ≡ 1) ⊎ (head v ≢ 48)
    → 0 < length u
    → horner 0 (u ++ f1) < horner 0 (v ++ f2)
longer_is_larger u [] f1 f2 hu hv h e l z n = absurd (omega arith)
longer_is_larger u (b ∷ v) f1 f2 hu hv h e l (inl one_digit) n = absurd (omega arith)
longer_is_larger u (b ∷ v) f1 f2 hu hv h e l (inr no_zero) n =
    let positive : 48 < b = ground (arith, hv.0) in
    horner_longer (u ++ f1) (v ++ f2) (0 * 10 + (b - 48)) (All-append IsDigit u f1 hu h)
      (omega (arith, length-append u f1, length-append v f2)) (omega arith)

pub record Parts (w f : List ℕ) : Type 0 where
  pub some_digit : 0 < length w
  pub whole : All IsDigit w
  pub frac : All IsDigit f

-- How many digits of the number are in front of its point, behind the leading zeros.
pub int_len :
    (w f : List ℕ)
    → length (skip_zeros w) ≤ length w
    → or_len (point_of w f) (render w f) - (length (render w f) - length (render (skip_zeros w) f))
      ≡ length (skip_zeros w)
unfolding point_of render
int_len w [] h = omega arith
int_len w (c ∷ f) h =
    omega (arith, length-append w (46 ∷ c ∷ f), length-append (skip_zeros w) (46 ∷ c ∷ f))

behind_point : (u f : List ℕ) → (length f ≡ 0) ⊎ (length (render u f) - length u - 1 ≡ length f)
unfolding suffix
behind_point u [] = inl refl
behind_point u (c ∷ f) = inr (omega (arith, length-render u (c ∷ f)))

-- The lengths decide, then the digits in front of the points, then those behind them.
decide-Orders :
    (l1 l2 a b m n : ℕ) (whole frac : ℤ)
    → (l2 < l1 → n < m)
    → (l1 < l2 → m < n)
    → (l1 ≡ l2 → Orders whole a b)
    → (b < a → n < m)
    → (a < b → m < n)
    → (a ≡ b → Orders frac m n)
    → Orders
        (if ltb l2 l1
          then pos 1
          else if ltb l1 l2
          then negsuc 0
          else if not (pos_part whole + neg_part whole == 0)
          then whole
          else frac)
        m
        n
decide-Orders l1 l2 a b m n whole frac longer shorter order more less equal =
    elim (Bool-cases (ltb l2 l1)) [
      | inl above ↦ rw above (inl (refl, longer (ltb→lt l2 l1 above)))
      | inr not_above ↦ rw not_above (elim (Bool-cases (ltb l1 l2)) [
        | inl below ↦ rw below (inr (inr (refl, shorter (ltb→lt l1 l2 below))))
        | inr not_below ↦ rw not_below (elim (order (ground arith)) [
          | inl (e, above) ↦ rw e (inl (refl, more above))
          | inr (inl (e, same)) ↦ rw e (equal same)
          | inr (inr (e, below)) ↦ rw e (inr (inr (refl, less below)))
        ])
      ])
    ]

module _ (w1 f1 w2 f2 : List ℕ) (n1 : Parts w1 f1) (n2 : Parts w2 f2)
    (same_scale : length f1 ≡ length f2) where
  abbrev u1 : List ℕ
  u1 = skip_zeros w1

  abbrev u2 : List ℕ
  u2 = skip_zeros w2

  stripped1 : IsStripped w1 u1
  stripped1 = skip_zeros-IsStripped w1 n1.some_digit n1.whole

  stripped2 : IsStripped w2 u2
  stripped2 = skip_zeros-IsStripped w2 n2.some_digit n2.whole

  value1 : horner 0 (w1 ++ f1) ≡ horner (horner 0 u1) f1
  value1 = rw (horner-append w1 f1 0, stripped1.same_value) refl

  value2 : horner 0 (w2 ++ f2) ≡ horner (horner 0 u2) f2
  value2 = rw (horner-append w2 f2 0, stripped2.same_value) refl

  whole_order :
      length u1 ≡ length u2
      → Orders (cmp_bytes (length u1) (render u1 f1) (render u2 f2)) (horner 0 u1) (horner 0 u2)
  whole_order e =
      rw (render-suffix u1 f1, render-suffix u2 f2)
        (cmp_bytes-Orders u1 u2 (suffix f1) (suffix f2) 0 stripped1.digits stripped2.digits e)

  cmp_supported-Orders :
      Orders
        (cmp_supported (point_of w1 f1) (point_of w2 f2) (render w1 f1) (render w2 f2))
        (horner 0 (w1 ++ f1))
        (horner 0 (w2 ++ f2))
  unfolding cmp_supported
  cmp_supported-Orders =
      rw
        (
          skip_zeros-render w1 f1 n1.some_digit n1.whole,
          skip_zeros-render w2 f2 n2.some_digit n2.whole,
          int_len w1 f1 stripped1.not_longer,
          int_len w2 f2 stripped2.not_longer,
          value1,
          value2,
        )
        (decide-Orders (length u1) (length u2) (horner 0 u1) (horner 0 u2) _ _ _ _
          (λ above.
            rw (horner-append u2 f2 0, horner-append u1 f1 0) at
              (longer_is_larger u2 u1 f2 f1 stripped2.digits stripped1.digits n2.frac
                (sym same_scale) above stripped1.no_zero stripped2.some_digit))
          (λ below.
            rw (horner-append u1 f1 0, horner-append u2 f2 0) at
              (longer_is_larger u1 u2 f1 f2 stripped1.digits stripped2.digits n1.frac same_scale
                below stripped2.no_zero stripped1.some_digit))
          whole_order
          (λ above. horner_mono f2 f1 (horner 0 u2) (horner 0 u1) n2.frac (sym same_scale) above)
          (λ below. horner_mono f1 f2 (horner 0 u1) (horner 0 u2) n1.frac same_scale below)
          (λ same. rw (← same) (
            cmp_frac-Orders w1 w2 f1 f2 (horner 0 u1) _ n1.frac n2.frac same_scale
              (behind_point u1 f1))))

  pub cmp_str_pos_num_lem :
      (r : ℤ) × (cmp_str_pos_num (render w1 f1) (render w2 f2) ≡ (r, false))
      × Orders r (horner 0 (w1 ++ f1)) (horner 0 (w2 ++ f2))
  unfolding cmp_str_pos_num
  cmp_str_pos_num_lem =
      rw
        (
          check-render w1 f1 n1.some_digit n1.whole n1.frac,
          check-render w2 f2 n2.some_digit n2.whole n2.frac,
        )
        (_, refl, cmp_supported-Orders)
