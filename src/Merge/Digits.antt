-- ===== src/Merge/Digits.antt =====
-- src/resultset_merge.c, str_int_add to trim_zero: decimal arithmetic on strings of ASCII bytes. The buffers
-- for results are zero beforehand, so a result is the bytes that are written, up to the first NUL.
use mathlib.Core.List.{reverse}
use cetus.Common.{
  ℕ, suc, ◌+◌, ◌-◌, ◌/◌, ◌%◌, Bool, ◌&&◌, Option, none, some, List, [], ◌∷◌, ◌++◌, if◌then◌else◌,
  ◌==◌, ltb, leb,
}
use cetus.Common.Int.{ℤ, pos, negsuc, sub_ℕ, ◌+ℤ◌}

-- `/ 10` and the byte of `% 10 + '0'`, which round towards zero.
unfoldable pub tenth : ℤ → ℤ
tenth (pos n) = pos (n / 10)
tenth (negsuc n) = sub_ℕ 0 (suc n / 10)

unfoldable pub last_digit : ℤ → ℕ
last_digit (pos n) = n % 10 + 48
last_digit (negsuc n) = 48 - suc n % 10

-- `tmp + '0'`
unfoldable pub digit : ℤ → ℕ
digit (pos n) = n + 48
digit (negsuc n) = 48 - suc n

-- `tmp += *p - '0' + *q - '0'`, and the same for one byte.
unfoldable pub plus_two : ℤ → ℕ → ℕ → ℤ
plus_two tmp a b = tmp +ℤ sub_ℕ (a + b) 96

unfoldable pub plus_one : ℤ → ℕ → ℤ
plus_one tmp a = tmp +ℤ sub_ℕ a 48

-- Bytes are read and written from the right: the operands are reversed, and `dest` grows to the left.
unfoldable pub add_large : List ℕ → ℤ → List ℕ → List ℕ
add_large [] tmp dest = digit tmp ∷ dest
add_large (a ∷ large) tmp dest =
    let sum = plus_one tmp a in add_large large (tenth sum) (last_digit sum ∷ dest)

unfoldable pub add_both : List ℕ → List ℕ → ℤ → List ℕ → List ℕ
add_both [] q tmp dest = add_large q tmp dest
add_both (a ∷ p) [] tmp dest = add_large (a ∷ p) tmp dest
add_both (a ∷ p) (b ∷ q) tmp dest =
    let sum = plus_two tmp a b in add_both p q (tenth sum) (last_digit sum ∷ dest)

unfoldable pub str_int_add : List ℕ → List ℕ → ℤ → List ℕ
str_int_add s1 s2 carry = add_both (reverse s1) (reverse s2) carry []

-- The byte of `(a - '0') - (b - '0') - borrow`, ten added where that is negative, and the next borrow.
unfoldable pub diff_digit : ℕ → ℕ → ℕ → ℕ
diff_digit a b borrow =
    if ltb a (b + borrow) then (a + 314 - b - borrow) % 256 else (a + 48 - b - borrow) % 256

unfoldable pub next_borrow : ℕ → ℕ → ℕ → ℕ
next_borrow a b borrow = if ltb a (b + borrow) then 1 else 0

unfoldable pub sub_large : List ℕ → ℕ → List ℕ → List ℕ
sub_large [] borrow dest = dest
sub_large (a ∷ large) borrow dest =
    sub_large large (next_borrow a 48 borrow) (diff_digit a 48 borrow ∷ dest)

-- `none`: the second operand is longer, and the loop leaves the buffers on the left.
unfoldable pub sub_both : List ℕ → List ℕ → ℕ → List ℕ → Option (List ℕ)
sub_both p [] borrow dest = some (sub_large p borrow dest)
sub_both [] (b ∷ q) borrow dest = none
sub_both (a ∷ p) (b ∷ q) borrow dest =
    sub_both p q (next_borrow a b borrow) (diff_digit a b borrow ∷ dest)

unfoldable pub str_int_sub : List ℕ → List ℕ → ℕ → Option (List ℕ)
str_int_sub s1 s2 borrow = sub_both (reverse s1) (reverse s2) borrow []

-- `strchr (s, '.')`: the bytes on both sides of the first point.
unfoldable pub split_point : List ℕ → Option (List ℕ × List ℕ)
split_point [] = none
split_point (c ∷ s) =
    let rest = split_point s in
    if c == 46
    then some ([], s)
    else elim rest [ none ↦ none | some (whole, frac) ↦ some (c ∷ whole, frac) ]

-- A read at the end of a string gives its NUL.
abbrev pub head : List ℕ → ℕ
head [] = 0
head (c ∷ s) = c

abbrev pub tail : List ℕ → List ℕ
tail [] = []
tail (c ∷ s) = s

-- The loop over the fraction of the first operand, from its last digit on: the carry, and the digits.
unfoldable pub add_frac : List ℕ → List ℕ → ℤ × List ℕ
add_frac [] short2 = (pos 0, [])
add_frac (a ∷ short1) short2 =
    let (tmp, merged_short) = add_frac short1 (tail short2) in
    let sum = plus_two tmp a (head short2) in (tenth sum, last_digit sum ∷ merged_short)

unfoldable pub add_points :
    Option (List ℕ × List ℕ) → Option (List ℕ × List ℕ) → List ℕ → List ℕ → List ℕ
add_points (some (whole1, short1)) (some (whole2, short2)) s1 s2 =
    let (carry, merged_short) = add_frac short1 short2 in
    str_int_add whole1 whole2 carry ++ 46 ∷ merged_short
add_points p q s1 s2 = str_int_add s1 s2 (pos 0)

unfoldable pub str_decimal_add : List ℕ → List ℕ → List ℕ
str_decimal_add s1 s2 = add_points (split_point s1) (split_point s2) s1 s2

unfoldable pub sub_frac : List ℕ → List ℕ → ℕ × List ℕ
sub_frac [] short2 = (0, [])
sub_frac (a ∷ short1) short2 =
    let (borrow, merged_short) = sub_frac short1 (tail short2) in
    (next_borrow a (head short2) borrow, diff_digit a (head short2) borrow ∷ merged_short)

unfoldable pub with_frac : List ℕ → Option (List ℕ) → Option (List ℕ)
with_frac merged_short none = none
with_frac merged_short (some whole) = some (whole ++ 46 ∷ merged_short)

unfoldable pub sub_points :
    Option (List ℕ × List ℕ) → Option (List ℕ × List ℕ) → List ℕ → List ℕ → Option (List ℕ)
sub_points (some (whole1, short1)) (some (whole2, short2)) s1 s2 =
    let (borrow, merged_short) = sub_frac short1 short2 in
    with_frac merged_short (str_int_sub whole1 whole2 borrow)
sub_points p q s1 s2 = str_int_sub s1 s2 0

unfoldable pub str_decimal_sub : List ℕ → List ℕ → Option (List ℕ)
str_decimal_sub s1 s2 = sub_points (split_point s1) (split_point s2) s1 s2

abbrev pub is_digit : ℕ → Bool
is_digit c = leb 48 c && leb c 57

-- `q` ends where `p` does: behind every zero that has a digit behind it.
unfoldable pub trim_zero : List ℕ → List ℕ
trim_zero [] = []
trim_zero (c ∷ s) = let rest = trim_zero s in if c == 48 && is_digit (head s) then rest else c ∷ s
