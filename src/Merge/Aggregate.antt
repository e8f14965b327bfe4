-- ===== src/Merge/Aggregate.antt =====
-- src/resultset_merge.c, dispose_sign_add to modify_record: SUM, COUNT, MAX and MIN of two columns.
use cetus.Common.{
  ℕ, zero, suc, Bool, true, false, ◌&&◌, ◌||◌, not, Option, none, some, List, [], ◌∷◌,
  if◌then◌else◌,
}
use cetus.Common.Int.{ℤ, pos, negsuc}
use cetus.Merge.Digits.{tail, str_int_add, str_int_sub, str_decimal_add, str_decimal_sub, trim_zero}
use cetus.Merge.Compare.{is_minus, check_str_num_supported, cmp_str_num, padding_zero}

-- The field types of MySQL that the code tells apart.
pub data FieldType : Type 0 where
  tiny short long longlong int24 double float newdecimal decimal : FieldType
  time timestamp datetime year newdate date var_string string unordered other : FieldType

pub data SqlAggregateType : Type 0 where
  ft_unknown ft_count ft_sum ft_avg ft_max ft_min : SqlAggregateType

unfoldable pub add_abs : Bool → List ℕ → List ℕ → List ℕ
add_abs true s1 s2 = str_int_add s1 s2 (pos 0)
add_abs false s1 s2 = str_decimal_add s1 s2

unfoldable pub sub_abs : Bool → List ℕ → List ℕ → Option (List ℕ)
sub_abs true s1 s2 = str_int_sub s1 s2 0
sub_abs false s1 s2 = str_decimal_sub s1 s2

-- What the loops of a subtraction leave, with its sign; `none` is a write outside the buffer.
abbrev pub positive : Option (List ℕ) → Option (Bool × List ℕ)
positive none = none
positive (some s) = some (true, trim_zero s)

abbrev pub negative : Option (List ℕ) → Option (Bool × List ℕ)
negative none = none
negative (some s) = some (true, 45 ∷ trim_zero s)

-- `result > 0`, `result < 0`, and equality, where `merged_value` is `0`.
abbrev pub by_sign : ℤ → Option (Bool × List ℕ) → Option (Bool × List ℕ) → Option (Bool × List ℕ)
by_sign (pos zero) more less = some (false, 48 ∷ [])
by_sign (pos (suc n)) more less = more
by_sign (negsuc n) more less = less

-- The returned test and `merged_value`, and whether `supported` is set. For a positive and a negative integer
-- the code drops the first byte of the first operand, not the sign of the second.
unfoldable pub dispose_sign_add : Bool → List ℕ → List ℕ → Option (Bool × List ℕ) × Bool
dispose_sign_add is_integer s1 s2 =
    let (below, below_failed) = cmp_str_num (tail s1) s2 in
    let (above, above_failed) = cmp_str_num s1 (tail s2) in
    if not (is_minus s1) && not (is_minus s2)
    then (some (true, trim_zero (add_abs is_integer s1 s2)), false)
    else if is_minus s1 && is_minus s2
    then (some (true, 45 ∷ trim_zero (add_abs is_integer (tail s1) (tail s2))), false)
    else if is_minus s1
    then (
      by_sign below (negative (sub_abs is_integer (tail s1) s2))
          (positive (sub_abs is_integer s2 (tail s1))),
      below_failed,
    )
    else (
      by_sign above
          (positive
            (if is_integer then str_int_sub (tail s1) s2 0 else str_decimal_sub s1 (tail s2)))
          (negative (sub_abs is_integer (tail s2) s1)),
      above_failed,
    )

pub data SumResult : Type 0 where
  overrun : SumResult
  merge_failed : SumResult
  merged : List ℕ → SumResult

abbrev pub first_of : Option (List ℕ × List ℕ) → SumResult
first_of none = merge_failed
first_of (some (s, t)) = merged s

abbrev pub padded_result : Bool → List ℕ → Option (Bool × List ℕ) × Bool → SumResult
padded_result is_result_padding s2 (none, failed) = overrun
padded_result is_result_padding s2 (some (result, s), failed) =
    if failed
    then merge_failed
    else if not result && is_result_padding
    then first_of (padding_zero s 1024 s2 512)
    else merged s

unfoldable pub add_padded : Bool → Option (List ℕ × List ℕ) → SumResult
add_padded is_result_padding none = merge_failed
add_padded is_result_padding (some (s1, s2)) =
    padded_result is_result_padding s2 (dispose_sign_add false s1 s2)

unfoldable pub add_checked : List ℕ → List ℕ → SumResult
add_checked s1 s2 =
    let (ok1, _) = check_str_num_supported s1 in
    let (ok2, _) = check_str_num_supported s2 in
    if not ok1 || not ok2 then merge_failed else add_padded false (padding_zero s1 512 s2 512)

unfoldable pub str_add : FieldType → List ℕ → List ℕ → SumResult
str_add tiny s1 s2 = padded_result false s2 (dispose_sign_add true s1 s2)
str_add short s1 s2 = padded_result false s2 (dispose_sign_add true s1 s2)
str_add long s1 s2 = padded_result false s2 (dispose_sign_add true s1 s2)
str_add longlong s1 s2 = padded_result false s2 (dispose_sign_add true s1 s2)
str_add int24 s1 s2 = padded_result false s2 (dispose_sign_add true s1 s2)
str_add double s1 s2 = add_checked s1 s2
str_add float s1 s2 = add_checked s1 s2
str_add newdecimal s1 s2 = add_padded true (padding_zero s1 512 s2 512)
str_add decimal s1 s2 = add_padded true (padding_zero s1 512 s2 512)
str_add type s1 s2 = merge_failed
