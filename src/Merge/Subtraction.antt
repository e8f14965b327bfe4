-- ===== src/Merge/Subtraction.antt =====
-- str_int_sub and str_decimal_sub subtract a number that is not larger, and stay in the buffers if its string
-- is not longer.
use mathlib.Core.List.{reverse}
use cetus.Common.{
  ℕ, ◌+◌, ◌-◌, ◌*◌, ◌≤◌, ◌<◌, ◌≡◌, refl, ap, arith, ◌∙◌, some, List, [], ◌∷◌, All, length,
}
use cetus.Merge.Digits.{diff_digit, next_borrow, sub_large, sub_both, str_int_sub, sub_frac}
use cetus.Merge.Value.{IsDigit, horner, low, low-reverse, All-reverse, length-reverse, horner_mono}

module _ (a b borrow : ℕ) (ha : IsDigit a) (hb : IsDigit b) (c : borrow ≤ 1) where
  diff_digit-IsDigit : IsDigit (diff_digit a b borrow)
  unfolding diff_digit
  diff_digit-IsDigit = ground arith

  -- The digit and the borrow are those of the difference.
  diff_digit_lem :
      diff_digit a b borrow - 48 + (b - 48) + borrow ≡ a - 48 + 10 * next_borrow a b borrow
  unfolding diff_digit next_borrow
  diff_digit_lem = ground arith

  next_borrow-le : next_borrow a b borrow ≤ 1
  unfolding next_borrow
  next_borrow-le = ground arith

zero_digit : IsDigit 48
zero_digit = (omega arith, omega arith)

sub_large_lem :
    (p : List ℕ) (borrow : ℕ) (dest : List ℕ)
    → All IsDigit p
    → All IsDigit dest
    → borrow ≤ 1
    → borrow ≤ low p
    → All IsDigit (sub_large p borrow dest)
      × (horner 0 (sub_large p borrow dest) ≡ horner (low p - borrow) dest)
unfolding sub_large
sub_large_lem [] borrow dest h d c e = (d, ap (λ k. horner k dest) (omega arith))
sub_large_lem (a ∷ p) borrow dest h d c e =
    let b' = next_borrow a 48 borrow in
    let digit = diff_digit_lem a 48 borrow h.0 zero_digit c in
    let is_digit = diff_digit-IsDigit a 48 borrow h.0 zero_digit c in
    let small = next_borrow-le a 48 borrow h.0 zero_digit c in
    let (digits, value) =
      sub_large_lem p b' (diff_digit a 48 borrow ∷ dest) h.1 (is_digit, d) small
        (omega (arith, h.0)) in
    (digits, value ∙ ap (λ k. horner k dest) (omega (arith, h.0)))

-- The loops end with the digits of the difference.
sub_both_lem :
    (p q : List ℕ) (borrow : ℕ) (dest : List ℕ)
    → All IsDigit p
    → All IsDigit q
    → All IsDigit dest
    → borrow ≤ 1
    → length q ≤ length p
    → low q + borrow ≤ low p
    → (r : List ℕ) × (sub_both p q borrow dest ≡ some r)
      × All IsDigit r
      × (horner 0 r ≡ horner (low p - low q - borrow) dest)
unfolding sub_both
sub_both_lem p [] borrow dest h k d c l e =
    let (digits, value) = sub_large_lem p borrow dest h d c (omega arith) in
    (sub_large p borrow dest, refl, digits, value ∙ ap (λ n. horner n dest) (omega arith))
sub_both_lem [] (b ∷ q) borrow dest h k d c l e = absurd (omega arith)
sub_both_lem (a ∷ p) (b ∷ q) borrow dest h k d c l e =
    let b' = next_borrow a b borrow in
    let digit = diff_digit_lem a b borrow h.0 k.0 c in
    let is_digit = diff_digit-IsDigit a b borrow h.0 k.0 c in
    let small = next_borrow-le a b borrow h.0 k.0 c in
    let (r, returned, digits, value) =
      sub_both_lem p q b' (diff_digit a b borrow ∷ dest) h.1 k.1 (is_digit, d) small (omega arith)
        (omega (arith, h.0, k.0)) in
    (r, returned, digits, value ∙ ap (λ n. horner n dest) (omega (arith, h.0, k.0)))

sub_large-length :
    (p : List ℕ) (borrow : ℕ) (dest : List ℕ)
    → length (sub_large p borrow dest) ≡ length p + length dest
unfolding sub_large
sub_large-length [] borrow dest = omega arith
sub_large-length (a ∷ p) borrow dest =
    omega (arith, sub_large-length p (next_borrow a 48 borrow) (diff_digit a 48 borrow ∷ dest))

sub_both-length :
    (p q : List ℕ) (borrow : ℕ) (dest : List ℕ) {r : List ℕ}
    → sub_both p q borrow dest ≡ some r
    → length r ≡ length p + length dest
unfolding sub_both
sub_both-length p [] borrow dest h = ground (arith, sub_large-length p borrow dest)
sub_both-length [] (b ∷ q) borrow dest h = absurd (ground arith)
sub_both-length (a ∷ p) (b ∷ q) borrow dest h =
    omega (arith, sub_both-length p q (next_borrow a b borrow) (diff_digit a b borrow ∷ dest) h)

-- A difference of digit strings, where the second is neither the larger number nor the longer string.
pub str_int_sub_lem :
    (s1 s2 : List ℕ) (borrow : ℕ)
    → borrow ≤ 1
    → All IsDigit s1
    → All IsDigit s2
    → length s2 ≤ length s1
    → horner 0 s2 + borrow ≤ horner 0 s1
    → (r : List ℕ) × (str_int_sub s1 s2 borrow ≡ some r)
      × All IsDigit r
      × (length r ≡ length s1)
      × (horner 0 r + horner 0 s2 + borrow ≡ horner 0 s1)
unfolding str_int_sub
str_int_sub_lem s1 s2 borrow c h k l e =
    let low1 = low-reverse s1 in
    let low2 = low-reverse s2 in
    let (r, returned, digits, value) =
      sub_both_lem (reverse s1) (reverse s2) borrow [] (All-reverse IsDigit s1 h)
        (All-reverse IsDigit s2 k) tt c (omega (arith, length-reverse s1, length-reverse s2))
        (omega arith) in
    let len = sub_both-length (reverse s1) (reverse s2) borrow [] returned in
    (r, returned, digits, omega (arith, length-reverse s1), omega arith)

-- The digits behind the points, and the borrow out of them.
pub sub_frac_lem :
    (f1 f2 : List ℕ)
    → All IsDigit f1
    → All IsDigit f2
    → length f1 ≡ length f2
    → ((sub_frac f1 f2).0 ≤ 1)
      × All IsDigit (sub_frac f1 f2).1
      × (length (sub_frac f1 f2).1 ≡ length f1)
      × ((m n : ℕ)
          → horner m (sub_frac f1 f2).1 + horner n f2 ≡ horner (m + n + (sub_frac f1 f2).0) f1)
unfolding sub_frac
sub_frac_lem [] [] h k e = (omega arith, tt, refl, λ m n. omega arith)
sub_frac_lem [] (b ∷ f2) h k e = absurd (omega arith)
sub_frac_lem (a ∷ f1) [] h k e = absurd (omega arith)
sub_frac_lem (a ∷ f1) (b ∷ f2) h k e =
    let (small, digits, len, value) = sub_frac_lem f1 f2 h.1 k.1 (omega arith) in
    let borrow = (sub_frac f1 f2).0 in
    let d = diff_digit a b borrow in
    let digit = diff_digit_lem a b borrow h.0 k.0 small in
    (
      next_borrow-le a b borrow h.0 k.0 small,
      (diff_digit-IsDigit a b borrow h.0 k.0 small, digits),
      omega arith,
      λ m n. value (m * 10 + (d - 48)) (n * 10 + (b - 48)) ∙ ap (λ k. horner k f1) (omega arith),
    )

-- A borrow is left over only if the first fraction is the smaller one.
pub sub_frac_borrow :
    (f1 f2 : List ℕ) (n : ℕ)
    → All IsDigit f1
    → All IsDigit f2
    → length f1 ≡ length f2
    → (sub_frac f1 f2).0 ≡ 1
    → horner n f1 < horner n f2
unfolding sub_frac next_borrow
sub_frac_borrow [] [] n h k e c = absurd (omega arith)
sub_frac_borrow [] (b ∷ f2) n h k e c = absurd (omega arith)
sub_frac_borrow (a ∷ f1) [] n h k e c = absurd (omega arith)
sub_frac_borrow (a ∷ f1) (b ∷ f2) n h k e c =
    let (small, _, _, _) = sub_frac_lem f1 f2 h.1 k.1 (omega arith) in
    ground (
      arith,
      small,
      h.0,
      k.0,
      sub_frac_borrow f1 f2 (n * 10 + (a - 48)) h.1 k.1,
      horner_mono f1 f2 (n * 10 + (a - 48)) (n * 10 + (b - 48)) h.1,
    )
