-- ===== src/Merge/Prefix.antt =====
-- src/resultset_merge.c, fulfill_condi: the condition is not padded, and a longer fraction is cut off.
use cetus.Common.{
  ℕ, ◌-◌, ◌<◌, ◌≡◌, refl, arith, true, false, List, [], ◌∷◌, ◌++◌, append-nil, All, All-append,
  length, length-append, ltb, Bool-cases, inl, inr,
}
use cetus.Common.Int.{pos, neg}
use cetus.Merge.Compare.{
  cmp_bytes, cmp_frac, cmp_supported, cmp_str_pos_num, cmp_str_num, skip_zeros, unsigned,
}
use cetus.Merge.Value.{IsDigit}
use cetus.Merge.Numeral.{
  render, render-point, render-suffix, suffix, point_of, check-render, skip_zeros-IsStripped,
  skip_zeros-render, drop-point,
}
use cetus.Merge.Comparison.{Parts, cmp_bytes-Orders, int_len}
use cetus.Merge.Signed.{Numeral, spell, is_minus-render, unsigned-render}
use cetus.Merge.Having.{tk_eq, fulfill_condi, fulfills, is_nil-spell}

cmp_bytes_self :
    (u r1 r2 : List ℕ) → All IsDigit u → cmp_bytes (length u) (u ++ r1) (u ++ r2) ≡ pos 0
cmp_bytes_self u r1 r2 h = elim (cmp_bytes-Orders u u r1 r2 0 h h refl) [
  | inl (_, above) ↦ absurd (omega arith)
  | inr (inl (e, _)) ↦ e
  | inr (inr (_, below)) ↦ absurd (omega arith)
]

cut_frac :
    (w f g : List ℕ) (short_len : ℕ)
    → 0 < length f
    → All IsDigit f
    → short_len ≡ length f
    → cmp_frac (point_of w f) (point_of w (f ++ g)) (render w f) (render w (f ++ g)) short_len
      ≡ pos 0
unfolding cmp_frac point_of render
cut_frac w [] g l n h e = absurd (omega arith)
cut_frac w (a ∷ f) g l n h e =
    rw (e, drop-point w (a ∷ f), drop-point w (a ∷ (f ++ g)))
      (rw (append-nil (a ∷ f)) at (cmp_bytes_self (a ∷ f) [] g h))

ltb_self : (n : ℕ) → ltb n n ≡ false
ltb_self n = ground arith

module _ (w f g : List ℕ) (p : Parts w f) (more : All IsDigit g) (some_frac : 0 < length f) where
  digits : All IsDigit (f ++ g)
  digits = All-append IsDigit f g p.frac more

  cmp_supported_prefix :
      cmp_supported (point_of w f) (point_of w (f ++ g)) (render w f) (render w (f ++ g)) ≡ pos 0
  unfolding cmp_supported
  cmp_supported_prefix =
      let u = skip_zeros w in
      let stripped = skip_zeros-IsStripped w p.some_digit p.whole in
      let whole : cmp_bytes (length u) (render u f) (render u (f ++ g)) ≡ pos 0 =
        rw (render-suffix u f, render-suffix u (f ++ g))
          (cmp_bytes_self u (suffix f) (suffix (f ++ g)) stripped.digits) in
      let behind : length (render u f) - length u - 1 ≡ length f =
        rw (render-point u f some_frac) (omega (arith, length-append u (46 ∷ f))) in
      rw
        (
          skip_zeros-render w f p.some_digit p.whole,
          skip_zeros-render w (f ++ g) p.some_digit p.whole,
          int_len w f stripped.not_longer,
          int_len w (f ++ g) stripped.not_longer,
          ltb_self (length u),
          whole,
        )
        (cut_frac w f g _ some_frac p.frac behind)

  cmp_str_pos_num_prefix : cmp_str_pos_num (render w f) (render w (f ++ g)) ≡ (pos 0, false)
  unfolding cmp_str_pos_num
  cmp_str_pos_num_prefix =
      rw
        (
          check-render w f p.some_digit p.whole p.frac,
          check-render w (f ++ g) p.some_digit p.whole digits,
          cmp_supported_prefix,
        )
        refl

-- A numeral with digits behind its point passes for equal to every number that has more digits behind
-- them, whatever these are.
pub fulfill_condi_prefix :
    (x : Numeral) (more : List ℕ)
    → Parts x.whole x.frac
    → All IsDigit more
    → 0 < length x.frac
    → fulfill_condi (spell x) (record {
      rel_type = tk_eq;
      is_num = true;
      condition_value = spell (record x { frac = x.frac ++ more });
    })
      ≡ (true, false)
unfolding fulfill_condi fulfills cmp_str_num unsigned neg
fulfill_condi_prefix x more p digits some_frac =
    let y : Numeral = record x { frac = x.frac ++ more } in
    let py : Parts y.whole y.frac = record {
      some_digit = p.some_digit;
      whole = p.whole;
      frac = All-append IsDigit x.frac more p.frac digits;
    } in
    let same = cmp_str_pos_num_prefix x.whole x.frac more p digits some_frac in
    let u1 = unsigned-render x.whole x.frac p in
    let u2 = unsigned-render y.whole y.frac py in
    let m1 = is_minus-render x.whole x.frac p in
    let m2 = is_minus-render y.whole y.frac py in
    let n1 = is_nil-spell x p in
    let n2 = is_nil-spell y py in
    elim (Bool-cases x.minus) [
      | inl minus ↦ rw (n1, n2) (rw (minus, same) refl)
      | inr plus ↦ rw (n1, n2) (rw (plus, u1, u2, m1, m2, same) refl)
    ]
