-- ===== src/Merge/Addition.antt =====
-- str_int_add and str_decimal_add add: no digit and no carry is lost, whatever the lengths.
use mathlib.Core.List.{reverse}
use cetus.Common.{
  ℕ, ◌+◌, ◌-◌, ◌*◌, ◌/◌, ◌%◌, ◌≤◌, ◌<◌, ◌≡◌, refl, ap, arith, ◌∙◌, List, [], ◌∷◌, All, length,
}
use cetus.Common.Int.{ℤ, pos, ◌+ℤ◌}
use cetus.Merge.Digits.{
  tenth, last_digit, digit, plus_one, plus_two, add_large, add_both, str_int_add, add_frac,
}
use cetus.Merge.Value.{IsDigit, horner, low, low-reverse, All-reverse}

plus_one-digit : (t a : ℕ) → IsDigit a → plus_one (pos t) a ≡ pos (t + (a - 48))
unfolding plus_one ◌+ℤ◌
plus_one-digit t a h = ground arith

plus_two-digit :
    (t a b : ℕ) → IsDigit a → IsDigit b → plus_two (pos t) a b ≡ pos (t + (a - 48) + (b - 48))
unfolding plus_two ◌+ℤ◌
plus_two-digit t a b h k = ground arith

-- Digits in `dest` and behind, and the carry in front of them.
add_large-horner :
    (p : List ℕ) (t : ℕ) (dest : List ℕ)
    → All IsDigit p
    → horner 0 (add_large p (pos t) dest) ≡ horner (t + low p) dest
unfolding add_large digit tenth last_digit
add_large-horner [] t dest h = ap (λ k. horner k dest) (omega arith)
add_large-horner (a ∷ p) t dest h =
    let sum = t + (a - 48) in
    rw (plus_one-digit t a h.0) (
      add_large-horner p (sum / 10) ((sum % 10 + 48) ∷ dest) h.1
      ∙ ap (λ k. horner k dest) (omega arith))

add_both-horner :
    (p q : List ℕ) (t : ℕ) (dest : List ℕ)
    → All IsDigit p
    → All IsDigit q
    → horner 0 (add_both p q (pos t) dest) ≡ horner (t + low p + low q) dest
unfolding add_both tenth last_digit
add_both-horner [] q t dest h k =
    add_large-horner q t dest k ∙ ap (λ n. horner n dest) (omega arith)
add_both-horner (a ∷ p) [] t dest h k =
    add_large-horner (a ∷ p) t dest h ∙ ap (λ n. horner n dest) (omega arith)
add_both-horner (a ∷ p) (b ∷ q) t dest h k =
    let sum = t + (a - 48) + (b - 48) in
    rw (plus_two-digit t a b h.0 k.0) (
      add_both-horner p q (sum / 10) ((sum % 10 + 48) ∷ dest) h.1 k.1
      ∙ ap (λ n. horner n dest) (omega arith))

add_large-IsDigit :
    (p : List ℕ) (t : ℕ) (dest : List ℕ)
    → t ≤ 1
    → All IsDigit p
    → All IsDigit dest
    → All IsDigit (add_large p (pos t) dest)
unfolding add_large digit tenth last_digit
add_large-IsDigit [] t dest c h d = ((omega arith, omega arith), d)
add_large-IsDigit (a ∷ p) t dest c h d =
    let sum = t + (a - 48) in
    rw (plus_one-digit t a h.0) (
      add_large-IsDigit p (sum / 10) ((sum % 10 + 48) ∷ dest) (omega (arith, h.0)) h.1
        ((omega arith, omega arith), d))

add_both-IsDigit :
    (p q : List ℕ) (t : ℕ) (dest : List ℕ)
    → t ≤ 1
    → All IsDigit p
    → All IsDigit q
    → All IsDigit dest
    → All IsDigit (add_both p q (pos t) dest)
unfolding add_both tenth last_digit
add_both-IsDigit [] q t dest c h k d = add_large-IsDigit q t dest c k d
add_both-IsDigit (a ∷ p) [] t dest c h k d = add_large-IsDigit (a ∷ p) t dest c h d
add_both-IsDigit (a ∷ p) (b ∷ q) t dest c h k d =
    let sum = t + (a - 48) + (b - 48) in
    rw (plus_two-digit t a b h.0 k.0) (
      add_both-IsDigit p q (sum / 10) ((sum % 10 + 48) ∷ dest) (omega (arith, h.0, k.0)) h.1 k.1
        ((omega arith, omega arith), d))

add_large-length : (p : List ℕ) (t : ℤ) (dest : List ℕ) → 0 < length (add_large p t dest)
unfolding add_large
add_large-length [] t dest = omega arith
add_large-length (a ∷ p) t dest = add_large-length p _ _

add_both-length : (p q : List ℕ) (t : ℤ) (dest : List ℕ) → 0 < length (add_both p q t dest)
unfolding add_both
add_both-length [] q t dest = add_large-length q t dest
add_both-length (a ∷ p) [] t dest = add_large-length (a ∷ p) t dest
add_both-length (a ∷ p) (b ∷ q) t dest = add_both-length p q _ _

-- Digits and a carry give digits, of the sum.
pub str_int_add_lem :
    (s1 s2 : List ℕ) (carry : ℕ)
    → carry ≤ 1
    → All IsDigit s1
    → All IsDigit s2
    → All IsDigit (str_int_add s1 s2 (pos carry))
      × (0 < length (str_int_add s1 s2 (pos carry)))
      × (horner 0 (str_int_add s1 s2 (pos carry)) ≡ carry + horner 0 s1 + horner 0 s2)
unfolding str_int_add
str_int_add_lem s1 s2 carry c h k =
    let h' = All-reverse IsDigit s1 h in
    let k' = All-reverse IsDigit s2 k in
    (
      add_both-IsDigit (reverse s1) (reverse s2) carry [] c h' k' tt,
      add_both-length (reverse s1) (reverse s2) (pos carry) [],
      rw (add_both-horner (reverse s1) (reverse s2) carry [] h' k', low-reverse s1, low-reverse s2)
          refl,
    )

-- The digits behind the points, and the carry out of them.
pub add_frac_lem :
    (f1 f2 : List ℕ)
    → All IsDigit f1
    → All IsDigit f2
    → length f1 ≡ length f2
    → (c : ℕ) × ((add_frac f1 f2).0 ≡ pos c)
      × (c ≤ 1)
      × All IsDigit (add_frac f1 f2).1
      × (length (add_frac f1 f2).1 ≡ length f1)
      × ((n1 n2 : ℕ) → horner (n1 + n2 + c) (add_frac f1 f2).1 ≡ horner n1 f1 + horner n2 f2)
unfolding add_frac tenth last_digit
add_frac_lem [] [] h k e = (0, refl, omega arith, tt, refl, λ n1 n2. omega arith)
add_frac_lem [] (b ∷ f2) h k e = absurd (omega arith)
add_frac_lem (a ∷ f1) [] h k e = absurd (omega arith)
add_frac_lem (a ∷ f1) (b ∷ f2) h k e =
    let (c, out, small, digits, len, value) = add_frac_lem f1 f2 h.1 k.1 (omega arith) in
    let sum = c + (a - 48) + (b - 48) in
    let rest = (add_frac f1 f2).1 in
    rw (out, plus_two-digit c a b h.0 k.0)
      (
        sum / 10,
        refl,
        omega (arith, h.0, k.0),
        ((omega arith, omega arith), digits),
        omega arith,
        λ n1 n2.
            ap (λ n. horner n rest) (omega arith) ∙ value (n1 * 10 + (a - 48)) (n2 * 10 + (b - 48)),
      )
