-- ===== src/Merge/Tests.antt =====
-- src/resultset_merge.c: sums and comparisons of short strings, and the theorems at numerals.
use cetus.Common.{◌≡◌, refl, arith, true, false, none, [], ◌∷◌, inl, inr}
use cetus.Common.Int.{pos, ◌+ℤ◌}
use cetus.Merge.Aggregate.{
  ft_sum, newdecimal, longlong, add_abs, sub_abs, dispose_sign_add, add_padded, add_checked,
  str_add, merged,
}
use cetus.Merge.Record.{merge_values, merge_aggr_value, drop_zeros, trim_fraction, modified}
use cetus.Merge.Compare.{
  prior_to, compare_str_num_value, is_nil, check_bytes, check_str_num_supported, skip_zeros,
  cmp_bytes, all_zeros, cmp_frac, cmp_supported, cmp_str_pos_num, unsigned, cmp_str_num, zeros,
  with_point, pad_shorter, padding_zero,
}
use cetus.Merge.Digits.{
  tenth, last_digit, digit, plus_two, plus_one, add_large, add_both, str_int_add, diff_digit,
  next_borrow, sub_large, sub_both, str_int_sub, split_point, add_frac, add_points, str_decimal_add,
  sub_frac, with_frac, sub_points, str_decimal_sub, trim_zero,
}
use cetus.Merge.Numeral.{render}
use cetus.Merge.Signed.{Numeral, IsNumeral, spell, value, Adds}
use cetus.Merge.Sum.{dispose_sign_add_lem, dispose_sign_add_overrun}
use cetus.Merge.Decimal.{IsSum, at_scale, str_add_lem}
use cetus.Merge.Having.{tk_lt, tk_eq, relates, fulfill_condi, fulfill_condi_lem}
use cetus.Merge.Prefix.{fulfill_condi_prefix}
use cetus.Merge.Prior.{Ranks, compare_str_num_value_lem}

-- 12.5, -3.75, 9, -3, 100
abbrev a_half : Numeral
a_half = record { minus = false; whole = 49 ∷ 50 ∷ []; frac = 53 ∷ [] }

abbrev less_than_nothing : Numeral
less_than_nothing = record { minus = true; whole = 51 ∷ []; frac = 55 ∷ 53 ∷ [] }

abbrev nine : Numeral
nine = record { minus = false; whole = 57 ∷ []; frac = [] }

abbrev minus_three : Numeral
minus_three = record { minus = true; whole = 51 ∷ []; frac = [] }

a_half-IsNumeral : IsNumeral a_half
a_half-IsNumeral = record {
  parts = record { some_digit = omega arith; whole = omega arith; frac = omega arith };
  no_zero = inr (ground arith);
}

less_than_nothing-IsNumeral : IsNumeral less_than_nothing
less_than_nothing-IsNumeral = record {
  parts = record { some_digit = omega arith; whole = omega arith; frac = omega arith };
  no_zero = inl refl;
}

nine-IsNumeral : IsNumeral nine
nine-IsNumeral = record {
  parts = record { some_digit = omega arith; whole = omega arith; frac = tt };
  no_zero = inl refl;
}

minus_three-IsNumeral : IsNumeral minus_three
minus_three-IsNumeral = record {
  parts = record { some_digit = omega arith; whole = omega arith; frac = tt };
  no_zero = inl refl;
}

str_add_lem_example :
    IsSum
      (at_scale a_half 1 +ℤ at_scale less_than_nothing 0)
      2
      (str_add newdecimal (spell a_half) (spell less_than_nothing))
unfolding render zeros
str_add_lem_example =
    str_add_lem newdecimal a_half less_than_nothing (inr refl) a_half-IsNumeral
      less_than_nothing-IsNumeral (omega arith) (omega arith)

dispose_sign_add_lem_example :
    Adds true [] (value minus_three +ℤ value nine) (spell minus_three) (spell nine)
dispose_sign_add_lem_example =
    dispose_sign_add_lem true minus_three nine minus_three-IsNumeral nine-IsNumeral refl (inr refl)
      (inr (inl refl))

dispose_sign_add_overrun_example :
    dispose_sign_add true (spell nine) (spell minus_three) ≡ (none, false)
dispose_sign_add_overrun_example =
    dispose_sign_add_overrun nine minus_three nine-IsNumeral minus_three-IsNumeral (refl, refl)
      (refl, refl) (omega arith) (omega arith)

compare_str_num_value_lem_example :
    Ranks true
      (pos 7)
      (at_scale a_half 1)
      (at_scale less_than_nothing 0)
      (compare_str_num_value (spell a_half) (spell less_than_nothing) prior_to true (pos 7))
unfolding render zeros
compare_str_num_value_lem_example =
    compare_str_num_value_lem a_half less_than_nothing true (pos 7) a_half-IsNumeral.parts
      less_than_nothing-IsNumeral.parts (inl refl) (inr (omega arith)) (omega arith) (omega arith)

-- 12.5 - 3.75 = 8.75
sum_runs :
    merge_aggr_value ft_sum newdecimal (49 ∷ 50 ∷ 46 ∷ 53 ∷ []) (45 ∷ 51 ∷ 46 ∷ 55 ∷ 53 ∷ [])
    ≡ modified (56 ∷ 46 ∷ 55 ∷ 53 ∷ []) false
unfolding tenth last_digit digit plus_two plus_one add_large add_both str_int_add diff_digit
    next_borrow sub_large sub_both str_int_sub split_point add_frac add_points str_decimal_add
    sub_frac with_frac sub_points str_decimal_sub trim_zero is_nil check_bytes
    check_str_num_supported skip_zeros cmp_bytes all_zeros cmp_frac cmp_supported cmp_str_pos_num
    unsigned cmp_str_num zeros with_point pad_shorter padding_zero add_abs sub_abs dispose_sign_add
    add_padded add_checked str_add merge_values merge_aggr_value drop_zeros trim_fraction ◌+ℤ◌
sum_runs = refl

-- 100 - 3, as integers, comes out as 27.
wrong_sum : str_add longlong (49 ∷ 48 ∷ 48 ∷ []) (45 ∷ 51 ∷ []) ≡ merged (50 ∷ 55 ∷ [])
unfolding tenth last_digit digit plus_two plus_one add_large add_both str_int_add diff_digit
    next_borrow sub_large sub_both str_int_sub split_point add_frac add_points str_decimal_add
    sub_frac with_frac sub_points str_decimal_sub trim_zero is_nil check_bytes
    check_str_num_supported skip_zeros cmp_bytes all_zeros cmp_frac cmp_supported cmp_str_pos_num
    unsigned cmp_str_num zeros with_point pad_shorter padding_zero add_abs sub_abs dispose_sign_add
    add_padded add_checked str_add merge_values merge_aggr_value drop_zeros trim_fraction ◌+ℤ◌
wrong_sum = refl

-- 1.500 as a float is printed as 1.5, and 2.00 as 2.
trims :
    (trim_fraction (49 ∷ 46 ∷ 53 ∷ 48 ∷ 48 ∷ []) ≡ 49 ∷ 46 ∷ 53 ∷ [])
    × (trim_fraction (50 ∷ 46 ∷ 48 ∷ 48 ∷ []) ≡ 50 ∷ [])
unfolding trim_fraction split_point drop_zeros is_nil
trims = (refl, refl)

fulfill_condi_lem_example :
    fulfill_condi
      (spell minus_three)
      (record { rel_type = tk_lt; is_num = true; condition_value = spell nine })
    ≡ (relates tk_lt (value minus_three) (value nine), false)
fulfill_condi_lem_example =
    fulfill_condi_lem tk_lt minus_three nine minus_three-IsNumeral.parts nine-IsNumeral.parts refl
      (inr (omega arith)) (inl refl)

-- 12.5 passes for 12.57.
fulfill_condi_prefix_example :
    fulfill_condi (spell a_half) (record {
      rel_type = tk_eq;
      is_num = true;
      condition_value = spell (record a_half { frac = 53 ∷ 55 ∷ [] });
    })
    ≡ (true, false)
fulfill_condi_prefix_example =
    fulfill_condi_prefix a_half (55 ∷ []) a_half-IsNumeral.parts (omega arith) (omega arith)
