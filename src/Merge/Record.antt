-- ===== src/Merge/Record.antt =====
-- src/resultset_merge.c, merge_aggr_value, and the digits that modify_record drops from a sum of floats.
use mathlib.Core.List.{reverse}
use cetus.Common.{ℕ, Bool, true, false, ◌&&◌, not, List, [], ◌∷◌, if◌then◌else◌, ◌==◌, ltb}
use cetus.Common.Int.{pos_part}
use cetus.Merge.Digits.{split_point}
use cetus.Merge.Compare.{cmp_str_num, is_nil, is_none}
use cetus.Merge.Aggregate.{
  FieldType, time, timestamp, datetime, year, newdate, date, var_string, string, SqlAggregateType,
  ft_count, ft_sum, ft_max, ft_min, SumResult, overrun, merge_failed, merged, str_add,
}

-- What merge_aggr_value returns and stores: 0, or 1 and `merged_value`, each with `merge_failed`.
pub data AggrValue : Type 0 where
  out_of_bounds : AggrValue
  kept : Bool → AggrValue
  modified : List ℕ → Bool → AggrValue

unfoldable pub is_str_type : FieldType → Bool
is_str_type time = true
is_str_type timestamp = true
is_str_type datetime = true
is_str_type year = true
is_str_type newdate = true
is_str_type date = true
is_str_type var_string = true
is_str_type string = true
is_str_type type = false

-- strcmp, as the test that the first string is not behind the second.
unfoldable pub strcmp_le : List ℕ → List ℕ → Bool
strcmp_le [] s2 = true
strcmp_le (a ∷ s1) [] = false
strcmp_le (a ∷ s1) (b ∷ s2) = let rest = strcmp_le s1 s2 in if a == b then rest else ltb a b

abbrev pub of_sum : SumResult → AggrValue
of_sum overrun = out_of_bounds
of_sum merge_failed = kept true
of_sum (merged s) = modified s false

unfoldable pub larger : Bool → List ℕ → List ℕ → AggrValue
larger true str1 str2 = if strcmp_le str2 str1 then kept false else modified str2 false
larger false str1 str2 =
    let (result, failed) = cmp_str_num str1 str2 in
    if ltb 0 (pos_part result) then kept failed else modified str2 failed

unfoldable pub smaller : Bool → List ℕ → List ℕ → AggrValue
smaller true str1 str2 = if strcmp_le str1 str2 then kept false else modified str2 false
smaller false str1 str2 =
    let (result, failed) = cmp_str_num str1 str2 in
    if ltb 0 (pos_part result) then modified str2 failed else kept failed

unfoldable pub merge_values : SqlAggregateType → FieldType → List ℕ → List ℕ → AggrValue
merge_values ft_sum type str1 str2 = of_sum (str_add type str1 str2)
merge_values ft_max type str1 str2 = larger (is_str_type type) str1 str2
merge_values ft_min type str1 str2 = smaller (is_str_type type) str1 str2
merge_values ft_count type str1 str2 = of_sum (str_add type str1 str2)
merge_values fun_type type str1 str2 = modified [] false

unfoldable pub merge_aggr_value : SqlAggregateType → FieldType → List ℕ → List ℕ → AggrValue
merge_aggr_value fun_type type [] [] = kept false
merge_aggr_value fun_type type [] (b ∷ str2) = modified (b ∷ str2) false
merge_aggr_value fun_type type (a ∷ str1) [] = modified (a ∷ str1) false
merge_aggr_value fun_type type (a ∷ str1) (b ∷ str2) =
    merge_values fun_type type (a ∷ str1) (b ∷ str2)

-- `while (i >= 1 && merged_value[i] == '0')`, from the last byte on; the first byte stays.
unfoldable pub drop_zeros : List ℕ → List ℕ
drop_zeros [] = []
drop_zeros (c ∷ s) = let rest = drop_zeros s in if c == 48 && not (is_nil s) then rest else c ∷ s

abbrev pub drop_point : List ℕ → List ℕ
drop_point [] = []
drop_point (c ∷ s) = if c == 46 then s else c ∷ s

unfoldable pub trim_fraction : List ℕ → List ℕ
trim_fraction merged_value =
    if is_none (split_point merged_value)
    then merged_value
    else reverse (drop_point (drop_zeros (reverse merged_value)))
