-- ===== src/Merge/Compare.antt =====
-- src/resultset_merge.c, check_str_num_supported to compare_str_num_value: the order of decimal strings.
use cetus.Common.{
  ℕ, zero, suc, ◌+◌, ◌-◌, Bool, true, false, ◌&&◌, ◌||◌, not, Option, none, some, List, [], ◌∷◌,
  ◌++◌, length, drop, if◌then◌else◌, ◌==◌, ltb, leb,
}
use cetus.Common.Int.{ℤ, pos, negsuc, neg, pos_part, neg_part}
use cetus.Merge.Digits.{head, tail, is_digit, split_point}

unfoldable pub is_nil : List ℕ → Bool
is_nil [] = true
is_nil (c ∷ s) = false

-- The loop: the byte at `i`, whether there is a point already, `is_valid`, and the place of the point.
-- `sign` is the length of the sign in front.
unfoldable pub check_bytes : ℕ → List ℕ → ℕ → Bool → Bool → Option ℕ → Bool × Option ℕ
check_bytes sign [] i dotted is_valid p = (is_valid, p)
check_bytes sign (c ∷ s) i dotted is_valid p =
    let misplaced = i == 0 || is_nil s || dotted in
    check_bytes sign s (suc i) (dotted || (c == 46))
      (is_valid && (if c == 46 then not misplaced else is_digit c))
      (if c == 46 && not misplaced then some (sign + i) else p)

unfoldable pub check_str_num_supported : List ℕ → Bool × Option ℕ
check_str_num_supported [] = (true, none)
check_str_num_supported (c ∷ s) =
    if c == 43 || (c == 45)
    then check_bytes 1 s 0 false true none
    else check_bytes 0 (c ∷ s) 0 false true none

-- `while (s[0] == '0' && s[1] != '.' && s < end)`
unfoldable pub skip_zeros : List ℕ → List ℕ
skip_zeros [] = []
skip_zeros (c ∷ s) =
    let rest = skip_zeros s in
    if c == 48 && not (head s == 46) && not (is_nil s) then rest else c ∷ s

unfoldable pub cmp_bytes : ℕ → List ℕ → List ℕ → ℤ
cmp_bytes zero s1 s2 = pos 0
cmp_bytes (suc n) s1 s2 =
    let rest = cmp_bytes n (tail s1) (tail s2) in
    if ltb (head s2) (head s1) then pos 1 else if ltb (head s1) (head s2) then negsuc 0 else rest

-- `while (s[0] != '\0')`: whether every byte is `0`.
unfoldable pub all_zeros : List ℕ → Bool
all_zeros [] = true
all_zeros (c ∷ s) = c == 48 && all_zeros s

abbrev pub or_len : Option ℕ → List ℕ → ℕ
or_len none s = length s
or_len (some p) s = p

-- Behind the parts in front of the points, which are equal; `short_len` is left of `len1`.
unfoldable pub cmp_frac : Option ℕ → Option ℕ → List ℕ → List ℕ → ℕ → ℤ
cmp_frac none none s1 s2 short_len = pos 0
cmp_frac none (some q) s1 s2 short_len = if all_zeros (drop (suc q) s2) then pos 0 else negsuc 0
cmp_frac (some p) none s1 s2 short_len = if all_zeros (drop (suc p) s1) then pos 0 else pos 1
cmp_frac (some p) (some q) s1 s2 short_len = cmp_bytes short_len (drop (suc p) s1) (drop (suc q) s2)

unfoldable pub cmp_supported : Option ℕ → Option ℕ → List ℕ → List ℕ → ℤ
cmp_supported p q s1 s2 =
    let t1 = skip_zeros s1 in
    let t2 = skip_zeros s2 in
    let s1_int_len = or_len p s1 - (length s1 - length t1) in
    let s2_int_len = or_len q s2 - (length s2 - length t2) in
    let whole = cmp_bytes s1_int_len t1 t2 in
    if ltb s2_int_len s1_int_len
    then pos 1
    else if ltb s1_int_len s2_int_len
    then negsuc 0
    else if not (pos_part whole + neg_part whole == 0)
    then whole
    else cmp_frac p q s1 s2 (length t1 - s1_int_len - 1)

-- The result, and whether `compare_failed` is set.
unfoldable pub cmp_str_pos_num : List ℕ → List ℕ → ℤ × Bool
cmp_str_pos_num s1 s2 =
    let (ok1, p) = check_str_num_supported s1 in
    let (ok2, q) = check_str_num_supported s2 in
    if not ok1 || not ok2 then (negsuc 0, true) else (cmp_supported p q s1 s2, false)

abbrev pub is_minus : List ℕ → Bool
is_minus s = head s == 45

unfoldable pub unsigned : List ℕ → List ℕ
unsigned s = if is_minus s || (head s == 43) then tail s else s

unfoldable pub cmp_str_num : List ℕ → List ℕ → ℤ × Bool
cmp_str_num s1 s2 =
    let (result, failed) = cmp_str_pos_num (unsigned s1) (unsigned s2) in
    if is_minus s1 && is_minus s2
    then (neg result, failed)
    else if is_minus s1
    then (negsuc 0, false)
    else if is_minus s2
    then (pos 1, false)
    else (result, failed)

unfoldable pub zeros : ℕ → List ℕ
zeros zero = []
zeros (suc n) = 48 ∷ zeros n

abbrev pub or_zero : List ℕ → List ℕ
or_zero [] = 48 ∷ []
or_zero s = s

-- The bytes with their point, and how many digits are behind it.
unfoldable pub with_point : List ℕ → Option (List ℕ × List ℕ) → List ℕ × ℕ
with_point s none = (s ++ 46 ∷ [], 0)
with_point s (some (whole, frac)) = (s, length frac)

abbrev pub is_none : {A : Type 0} → Option A → Bool
is_none none = true
is_none (some a) = false

-- The string with fewer digits behind its point gets zeros. `none` is the result 0: they do not fit.
unfoldable pub pad_shorter : List ℕ → ℕ → ℕ → List ℕ → ℕ → ℕ → Option (List ℕ × List ℕ)
pad_shorter t1 short_len1 size1 t2 short_len2 size2 =
    let r1 = t1 ++ zeros (short_len2 - short_len1) in
    let r2 = t2 ++ zeros (short_len1 - short_len2) in
    if ltb short_len1 short_len2
    then if leb size1 (length r1) then none else some (r1, t2)
    else if leb size2 (length r2)
    then none
    else some (t1, r2)

unfoldable pub padding_zero : List ℕ → ℕ → List ℕ → ℕ → Option (List ℕ × List ℕ)
padding_zero s1 size1 s2 size2 =
    let u1 = or_zero s1 in
    let u2 = or_zero s2 in
    let p = split_point u1 in
    let q = split_point u2 in
    let (t1, short_len1) = with_point u1 p in
    let (t2, short_len2) = with_point u2 q in
    if is_none p && is_none q
    then some (u1, u2)
    else if short_len1 == short_len2
    then some (t1, t2)
    else pad_shorter t1 short_len1 size1 t2 short_len2 size2

pub data ComType : Type 0 where
  prior_to nor_rel : ComType

-- The returned test for equality, what is stored in `dest`, and whether `compare_failed` is set.
unfoldable pub compare_result : ComType → Bool → ℤ → ℤ × Bool → Bool × ℤ × Bool
compare_result com_type desc dest (result, failed) =
    if pos_part result + neg_part result == 0
    then (true, dest, failed)
    else if (if desc then ltb 0 (pos_part result) else ltb 0 (neg_part result))
    then (false, pos 1, failed)
    else (false, elim com_type [ prior_to ↦ pos 0 | _ ↦ negsuc 0 ], failed)

unfoldable pub compare_padded : ComType → Bool → ℤ → Option (List ℕ × List ℕ) → Bool × ℤ × Bool
compare_padded com_type desc dest none = (false, dest, true)
compare_padded com_type desc dest (some (s1, s2)) =
    compare_result com_type desc dest (cmp_str_num s1 s2)

unfoldable pub compare_str_num_value : List ℕ → List ℕ → ComType → Bool → ℤ → Bool × ℤ × Bool
compare_str_num_value str1 str2 com_type desc dest =
    compare_padded com_type desc dest (padding_zero str1 512 str2 512)
