-- ===== src/Merge/Signed.antt =====
-- dispose_sign_add adds numerals with their signs.
use cetus.Common.{
  ℕ, ◌+◌, ◌≤◌, ◌≡◌, refl, sym, arith, Bool, true, false, Option, some, List, [], ◌∷◌, ◌++◌, length,
  if◌then◌else◌, ◌⊎◌, inl, inr,
}
use cetus.Common.Int.{ℤ, pos, sub_ℕ}
use cetus.Merge.Digits.{trim_zero}
use cetus.Merge.Compare.{is_minus, unsigned, cmp_str_num}
use cetus.Merge.Aggregate.{sub_abs, positive, negative, dispose_sign_add}
use cetus.Merge.Value.{horner}
use cetus.Merge.Numeral.{render}
use cetus.Merge.Comparison.{Parts, Orders, cmp_str_pos_num_lem}
use cetus.Merge.Absolute.{Yields, trim_zero-Yields, add_abs-Yields}
use cetus.Merge.Difference.{NoZero, Difference, sub_abs-Difference}

pub record Numeral : Type 0 where
  pub minus : Bool
  pub whole : List ℕ
  pub frac : List ℕ

abbrev pub magnitude : Numeral → ℕ
magnitude n = horner 0 (n.whole ++ n.frac)

-- The number, scaled by the digits behind its point.
abbrev pub value : Numeral → ℤ
value n = if n.minus then sub_ℕ 0 (magnitude n) else pos (magnitude n)

abbrev pub spell : Numeral → List ℕ
spell n = if n.minus then 45 ∷ render n.whole n.frac else render n.whole n.frac

-- Digits, at least one of them in front of the point, and no leading zeros.
pub record IsNumeral (n : Numeral) : Type 0 where
  pub parts : Parts n.whole n.frac
  pub no_zero : NoZero n.whole

-- A numeral of the value `v`, of the scale of `frac` unless it is the `0` that comes with the result 0.
pub record Returns (frac : List ℕ) (v : ℤ) (r : Option (Bool × List ℕ)) : Type 0 where
  pub result : Bool
  pub sum : Numeral
  pub spelled : r ≡ some (result, spell sum)
  pub parts : Parts sum.whole sum.frac
  pub exact : value sum ≡ v
  pub scale :
      ((result ≡ false) × (spell sum ≡ 48 ∷ []) × (magnitude sum ≡ 0) × (length sum.frac ≡ 0))
      ⊎ ((result ≡ true) × (length sum.frac ≡ length frac))

Yields-Returns :
    (minus : Bool) (frac : List ℕ) (v : ℕ) (s : List ℕ)
    → Yields frac v s
    → Returns frac
        (if minus then sub_ℕ 0 v else pos v)
        (some (true, if minus then 45 ∷ trim_zero s else trim_zero s))
Yields-Returns minus frac v s y =
    let t = trim_zero-Yields frac v s y in
    record {
      result = true;
      sum = record { minus = minus; whole = t.whole; frac = t.frac };
      spelled = rw t.spelled refl;
      parts = t.parts;
      exact = rw t.value refl;
      scale = inr (refl, t.same_scale);
    }

module _ (frac : List ℕ) (v1 v2 : ℕ) (r : Option (List ℕ)) (d : Difference frac v1 v2 r) where
  positive-Returns : Returns frac (sub_ℕ v1 v2) (positive r)
  positive-Returns =
      let (s, returned, n, sum, y) = d in
      let exact : sub_ℕ v1 v2 ≡ pos n = ground arith in
      rw (exact, returned) (Yields-Returns false frac n s y)

  negative-Returns : Returns frac (sub_ℕ v2 v1) (negative r)
  negative-Returns =
      let (s, returned, n, sum, y) = d in
      let exact : sub_ℕ v2 v1 ≡ sub_ℕ 0 n = ground arith in
      rw (exact, returned) (Yields-Returns true frac n s y)

rescale :
    (f g : List ℕ) {v : ℤ} {r : Option (Bool × List ℕ)}
    → length g ≡ length f
    → Returns f v r
    → Returns g v r
rescale f g e s = record {
  result = s.result;
  sum = s.sum;
  spelled = s.spelled;
  parts = s.parts;
  exact = s.exact;
  scale = elim s.scale [
    | inl zero_sum ↦ inl zero_sum
    | inr (returned, same) ↦ inr (returned, omega arith)
  ];
}

zero-Returns :
    (frac : List ℕ) (v1 v2 : ℕ) → v1 ≡ v2 → Returns frac (sub_ℕ v1 v2) (some (false, 48 ∷ []))
unfolding render
zero-Returns frac v1 v2 e = record {
  result = false;
  sum = record { minus = false; whole = 48 ∷ []; frac = [] };
  spelled = refl;
  parts = record { some_digit = omega arith; whole = ((omega arith, omega arith), tt); frac = tt };
  exact = ground arith;
  scale = inl (refl, refl, refl, refl);
}

pub is_minus-render : (w f : List ℕ) → Parts w f → is_minus (render w f) ≡ false
unfolding render
is_minus-render [] f n = absurd (omega (arith, n.some_digit))
is_minus-render (c ∷ w) [] n = ground (arith, n.whole.0)
is_minus-render (c ∷ w) (b ∷ f) n = ground (arith, n.whole.0)

pub unsigned-render : (w f : List ℕ) → Parts w f → unsigned (render w f) ≡ render w f
unfolding render unsigned
unsigned-render [] f n = absurd (omega (arith, n.some_digit))
unsigned-render (c ∷ w) [] n = ground (arith, n.whole.0)
unsigned-render (c ∷ w) (b ∷ f) n = ground (arith, n.whole.0)

-- What the code calls an integer has no digits behind a point.
abbrev pub Fits : Bool → List ℕ → Type 0
Fits is_integer frac = (is_integer ≡ false) ⊎ (length frac ≡ 0)

abbrev pub Adds : Bool → List ℕ → ℤ → List ℕ → List ℕ → Type 0
Adds is_integer frac v s1 s2 =
    (r : Option (Bool × List ℕ)) × (dispose_sign_add is_integer s1 s2 ≡ (r, false))
    × Returns frac v r

module _ (is_integer : Bool) (w1 f1 w2 f2 : List ℕ) (n1 : Parts w1 f1) (n2 : Parts w2 f2)
    (same_scale : length f1 ≡ length f2) (fits : Fits is_integer f1) where
  abbrev v1 : ℕ
  v1 = horner 0 (w1 ++ f1)

  abbrev v2 : ℕ
  v2 = horner 0 (w2 ++ f2)

  pub both_positive : Adds is_integer f1 (pos (v1 + v2)) (render w1 f1) (render w2 f2)
  unfolding dispose_sign_add
  both_positive =
      rw (is_minus-render w1 f1 n1, is_minus-render w2 f2 n2)
        (
          _,
          refl,
          Yields-Returns false f1 (v1 + v2) _
              (add_abs-Yields is_integer w1 f1 w2 f2 n1 n2 same_scale fits),
        )

  pub both_negative : Adds is_integer f1 (sub_ℕ 0 (v1 + v2)) (45 ∷ render w1 f1) (45 ∷ render w2 f2)
  unfolding dispose_sign_add
  both_negative = (
    _,
    refl,
    Yields-Returns true f1 (v1 + v2) _
        (add_abs-Yields is_integer w1 f1 w2 f2 n1 n2 same_scale fits),
  )

  pub order : (r : ℤ) × (cmp_str_num (render w1 f1) (render w2 f2) ≡ (r, false)) × Orders r v1 v2
  unfolding cmp_str_num
  order =
      let (r, compared, o) = cmp_str_pos_num_lem w1 f1 w2 f2 n1 n2 same_scale in
      rw
        (
          unsigned-render w1 f1 n1,
          unsigned-render w2 f2 n2,
          is_minus-render w1 f1 n1,
          is_minus-render w2 f2 n2,
          compared,
        )
        (r, refl, o)

  pub negative_first :
      NoZero w1 → NoZero w2 → Adds is_integer f1 (sub_ℕ v2 v1) (45 ∷ render w1 f1) (render w2 f2)
  unfolding dispose_sign_add
  negative_first z1 z2 =
      let (r, compared, o) = order in
      let more = λ (h : v2 ≤ v1).
        negative-Returns f1 v1 v2 _
          (sub_abs-Difference is_integer w1 f1 w2 f2 n1 n2 same_scale fits z2 h) in
      let less = λ (h : v1 ≤ v2). rescale f2 f1 same_scale (
        positive-Returns f2 v2 v1 _ (
          sub_abs-Difference is_integer w2 f2 w1 f1 n2 n1 (sym same_scale)
            (elim fits [ inl i ↦ inl i | inr i ↦ inr (omega arith) ]) z1 h)) in
      rw (is_minus-render w2 f2 n2, compared)
        (
          _,
          refl,
          elim o [
            | inl (e, above) ↦ rw e (more (omega arith))
            | inr (inl (e, same)) ↦ rw e (zero-Returns f1 v2 v1 (sym same))
            | inr (inr (e, below)) ↦ rw e (less (omega arith))
          ],
        )

-- A positive and a negative decimal; for integers the code takes other bytes.
pub negative_second :
    (w1 f1 w2 f2 : List ℕ)
    → Parts w1 f1
    → Parts w2 f2
    → length f1 ≡ length f2
    → NoZero w1
    → NoZero w2
    → Adds false f1
        (sub_ℕ (horner 0 (w1 ++ f1)) (horner 0 (w2 ++ f2)))
        (render w1 f1)
        (45 ∷ render w2 f2)
unfolding dispose_sign_add sub_abs
negative_second w1 f1 w2 f2 n1 n2 same_scale z1 z2 =
    let m = horner 0 (w1 ++ f1) in
    let n = horner 0 (w2 ++ f2) in
    let (r, compared, o) = order false w1 f1 w2 f2 n1 n2 same_scale (inl refl) in
    let more = λ (h : n ≤ m).
      positive-Returns f1 m n _
        (sub_abs-Difference false w1 f1 w2 f2 n1 n2 same_scale (inl refl) z2 h) in
    let less = λ (h : m ≤ n). rescale f2 f1 same_scale (
      negative-Returns f2 n m _
        (sub_abs-Difference false w2 f2 w1 f1 n2 n1 (sym same_scale) (inl refl) z1 h)) in
    rw (is_minus-render w1 f1 n1, compared)
      (
        _,
        refl,
        elim o [
          | inl (e, above) ↦ rw e (more (omega arith))
          | inr (inl (e, same)) ↦ rw e (zero-Returns f1 m n same)
          | inr (inr (e, below)) ↦ rw e (less (omega arith))
        ],
      )
