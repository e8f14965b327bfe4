-- ===== src/Merge/Having.antt =====
-- src/resultset_merge.c, fulfill_condi: a HAVING condition on a merged aggregate.
use cetus.Common.{
  ℕ, ◌+◌, ◌<◌, ◌≡◌, refl, ap, arith, Bool, true, false, not, List, [], ◌∷◌, length, if◌then◌else◌,
  ltb, ◌==◌,
}
use cetus.Common.Int.{ℤ, pos, negsuc, pos_part, neg_part, leb_ℤ, ltb_ℤ, eqb_ℤ}
use cetus.Merge.Compare.{cmp_str_num, is_nil}
use cetus.Merge.Record.{strcmp_le}
use cetus.Merge.Numeral.{length-render}
use cetus.Merge.Comparison.{Parts}
use cetus.Merge.Signed.{Numeral, value, spell}
use cetus.Merge.Prior.{IsPlain, OrdersInt, cmp_str_num-OrdersInt}

pub data RelType : Type 0 where
  tk_le tk_ge tk_lt tk_gt tk_eq tk_ne tk_other : RelType

pub record HavingCondition : Type 0 where
  pub rel_type : RelType
  pub is_num : Bool
  pub condition_value : List ℕ

unfoldable pub fulfills : RelType → ℤ → Bool
fulfills tk_le result = pos_part result == 0
fulfills tk_ge result = neg_part result == 0
fulfills tk_lt result = ltb 0 (neg_part result)
fulfills tk_gt result = ltb 0 (pos_part result)
fulfills tk_eq result = pos_part result + neg_part result == 0
fulfills tk_ne result = not (pos_part result + neg_part result == 0)
fulfills tk_other result = false

-- The sign of strcmp.
unfoldable pub strcmp : List ℕ → List ℕ → ℤ
strcmp s1 s2 = if strcmp_le s1 s2 then if strcmp_le s2 s1 then pos 0 else negsuc 0 else pos 1

-- The answer, and whether the merge fails.
unfoldable pub fulfill_condi : List ℕ → HavingCondition → Bool × Bool
fulfill_condi aggr_value hav_condi =
    let (result, num_unsupported) = cmp_str_num aggr_value hav_condi.condition_value in
    if hav_condi.is_num
    then if is_nil hav_condi.condition_value
      then (true, false)
      else if is_nil aggr_value
      then (false, false)
      else if num_unsupported
      then (false, true)
      else (fulfills hav_condi.rel_type result, false)
    else (fulfills hav_condi.rel_type (strcmp aggr_value hav_condi.condition_value), false)

-- The condition on the numbers themselves.
abbrev pub relates : RelType → ℤ → ℤ → Bool
relates tk_le a b = leb_ℤ a b
relates tk_ge a b = leb_ℤ b a
relates tk_lt a b = ltb_ℤ a b
relates tk_gt a b = ltb_ℤ b a
relates tk_eq a b = eqb_ℤ a b
relates tk_ne a b = not (eqb_ℤ a b)
relates tk_other a b = false

fulfills-relates : (rel : RelType) (r a b : ℤ) → OrdersInt r a b → fulfills rel r ≡ relates rel a b
unfolding fulfills
fulfills-relates tk_le r a b o = ground arith
fulfills-relates tk_ge r a b o = ground arith
fulfills-relates tk_lt r a b o = ground arith
fulfills-relates tk_gt r a b o = ground arith
fulfills-relates tk_eq r a b o = ground arith
fulfills-relates tk_ne r a b o = ground arith
fulfills-relates tk_other r a b o = ground arith

pub is_nil-spell : (n : Numeral) → Parts n.whole n.frac → is_nil (spell n) ≡ false
unfolding is_nil
is_nil-spell n p = ground (arith, is_nil-length (spell n), length-render n.whole n.frac)
  where
    is_nil-length : (s : List ℕ) → 0 < length s → is_nil s ≡ false
    is_nil-length [] h = absurd (omega arith)
    is_nil-length (c ∷ s) h = refl

-- For two numerals with equally many digits behind their points, without a minus in front of zero,
-- fulfill_condi answers a condition on numbers as the numbers themselves do, whatever the relation,
-- and the merge does not fail.
pub fulfill_condi_lem :
    (rel : RelType) (x y : Numeral)
    → Parts x.whole x.frac
    → Parts y.whole y.frac
    → length x.frac ≡ length y.frac
    → IsPlain x
    → IsPlain y
    → fulfill_condi (spell x) (record { rel_type = rel; is_num = true; condition_value = spell y })
      ≡ (relates rel (value x) (value y), false)
unfolding fulfill_condi
fulfill_condi_lem rel x y px py same_scale plain_x plain_y =
    let (r, compared, o) = cmp_str_num-OrdersInt x y px py same_scale plain_x plain_y in
    rw (compared, is_nil-spell x px, is_nil-spell y py)
      (ap (λ answer. (answer, false)) (fulfills-relates rel r (value x) (value y) o))
