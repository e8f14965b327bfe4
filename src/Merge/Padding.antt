-- ===== src/Merge/Padding.antt =====
-- padding_zero gives two numerals equally many digits behind their points.
use native.Mathlib.Nat.{pow-succ', mul_assoc}
use cetus.Common.{
  ℕ, zero, suc, ◌+◌, ◌-◌, ◌*◌, ◌^◌, ◌<◌, ◌≡◌, refl, sym, ap, arith, ◌∙◌, Bool, true, false, ◌&&◌,
  Option, none, some, List, [], ◌∷◌, ◌++◌, append-nil, append_assoc, All, All-append, length,
  if◌then◌else◌, ◌==◌, ltb, leb, Bool-cases, inl, inr,
}
use cetus.Merge.Digits.{split_point}
use cetus.Merge.Compare.{zeros, or_zero, with_point, is_none, pad_shorter, padding_zero}
use cetus.Merge.Value.{IsDigit, horner, horner-append}
use cetus.Merge.Numeral.{render}
use cetus.Merge.Comparison.{Parts}
use cetus.Merge.Absolute.{split_point-digits, split_point-point}
use cetus.Merge.Signed.{Numeral, magnitude, spell}

-- The same number with `k` more digits behind its point.
abbrev pub widen : Numeral → ℕ → Numeral
widen n k = record n { frac = n.frac ++ zeros k }

zeros-IsDigit : (k : ℕ) → All IsDigit (zeros k)
unfolding zeros
zeros-IsDigit zero = tt
zeros-IsDigit (suc k) = ((omega arith, omega arith), zeros-IsDigit k)

pub length-zeros : (k : ℕ) → length (zeros k) ≡ k
unfolding zeros
length-zeros zero = refl
length-zeros (suc k) = ap suc (length-zeros k)

horner-zeros : (n k : ℕ) → horner n (zeros k) ≡ n * 10 ^ k
unfolding zeros
horner-zeros n zero = grind arith
horner-zeros n (suc k) =
    rw (pow-succ' 10 k, ← mul_assoc n 10 (10 ^ k))
      (horner-zeros (n * 10 + (48 - 48)) k ∙ ap (λ m. m * 10 ^ k) (omega arith))

pub magnitude-widen : (n : Numeral) (k : ℕ) → magnitude (widen n k) ≡ magnitude n * 10 ^ k
magnitude-widen n k =
    rw (← append_assoc n.whole n.frac (zeros k), horner-append (n.whole ++ n.frac) (zeros k) 0)
      (horner-zeros (magnitude n) k)

pub widen-Parts : (n : Numeral) (k : ℕ) → Parts n.whole n.frac → Parts n.whole (n.frac ++ zeros k)
widen-Parts n k p = record {
  some_digit = p.some_digit;
  whole = p.whole;
  frac = All-append IsDigit n.frac (zeros k) p.frac (zeros-IsDigit k);
}

abbrev text : Bool → List ℕ → List ℕ → List ℕ
text minus whole frac = if minus then 45 ∷ render whole frac else render whole frac

abbrev signed : Bool → List ℕ → List ℕ
signed true s = 45 ∷ s
signed false s = s

split_of : Bool → List ℕ → List ℕ → Option (List ℕ × List ℕ)
split_of minus whole [] = none
split_of minus whole (c ∷ frac) = some (signed minus whole, c ∷ frac)

split_point-text :
    (minus : Bool) (whole frac : List ℕ)
    → All IsDigit whole
    → split_point (text minus whole frac) ≡ split_of minus whole frac
unfolding split_point split_of render
split_point-text true whole [] h = rw (split_point-digits whole h) refl
split_point-text true whole (c ∷ frac) h = rw (split_point-point whole (c ∷ frac) h) refl
split_point-text false whole [] h = split_point-digits whole h
split_point-text false whole (c ∷ frac) h = split_point-point whole (c ∷ frac) h

abbrev pointed : Bool → List ℕ → List ℕ → List ℕ × ℕ
pointed minus whole frac = with_point (text minus whole frac) (split_of minus whole frac)

frac_len : (minus : Bool) (whole frac : List ℕ) → (pointed minus whole frac).1 ≡ length frac
unfolding with_point split_of
frac_len minus whole [] = refl
frac_len minus whole (c ∷ frac) = refl

pointed-frac :
    (minus : Bool) (whole frac : List ℕ)
    → 0 < length frac
    → (pointed minus whole frac).0 ≡ text minus whole frac
unfolding with_point split_of
pointed-frac minus whole [] h = absurd (omega arith)
pointed-frac minus whole (c ∷ frac) h = refl

pointed-zeros :
    (minus : Bool) (whole frac : List ℕ) (k : ℕ)
    → (pointed minus whole frac).0 ++ zeros (suc k) ≡ text minus whole (frac ++ zeros (suc k))
unfolding with_point split_of render zeros
pointed-zeros true whole [] k = ap (◌∷◌ 45) (append_assoc whole (46 ∷ []) (zeros (suc k)))
pointed-zeros false whole [] k = append_assoc whole (46 ∷ []) (zeros (suc k))
pointed-zeros true whole (c ∷ frac) k =
    ap (◌∷◌ 45) (append_assoc whole (46 ∷ c ∷ frac) (zeros (suc k)))
pointed-zeros false whole (c ∷ frac) k = append_assoc whole (46 ∷ c ∷ frac) (zeros (suc k))

or_zero-text :
    (minus : Bool) (whole frac : List ℕ)
    → 0 < length whole
    → or_zero (text minus whole frac) ≡ text minus whole frac
unfolding render
or_zero-text true whole frac h = refl
or_zero-text false [] frac h = absurd (omega arith)
or_zero-text false (d ∷ whole) [] h = refl
or_zero-text false (d ∷ whole) (c ∷ frac) h = refl

is_none-split_of :
    (minus : Bool) (whole frac : List ℕ) → is_none (split_of minus whole frac) ≡ (length frac == 0)
unfolding split_of
is_none-split_of minus whole [] = refl
is_none-split_of minus whole (c ∷ frac) = ground arith

widen-zero : (n : Numeral) → spell (widen n 0) ≡ spell n
unfolding zeros
widen-zero n = rw (append-nil n.frac) refl

pub widen_none : (n : Numeral) (k : ℕ) → k ≡ 0 → spell (widen n k) ≡ spell n
widen_none n k e = rw e (widen-zero n)

widen_some :
    (n : Numeral) (k : ℕ)
    → 0 < k
    → (pointed n.minus n.whole n.frac).0 ++ zeros k ≡ spell (widen n k)
widen_some n zero h = absurd (omega arith)
widen_some n (suc k) h = pointed-zeros n.minus n.whole n.frac k

pair :
    {s1 s2 t1 t2 : List ℕ}
    → s1 ≡ t1
    → s2 ≡ t2
    → ◌≡◌ {A = Option (List ℕ × List ℕ)} (some (s1, s2)) (some (t1, t2))
pair d e = rw (d, e) refl

-- The operand with fewer digits behind its point gets zeros.
uneven :
    (x y : Numeral) (size1 size2 : ℕ)
    → length (spell (widen x (length y.frac - length x.frac))) < size1
    → length (spell (widen y (length x.frac - length y.frac))) < size2
    → (length x.frac == length y.frac) ≡ false
    → pad_shorter
        (pointed x.minus x.whole x.frac).0
        (length x.frac)
        size1
        (pointed y.minus y.whole y.frac).0
        (length y.frac)
        size2
      ≡ some (
        spell (widen x (length y.frac - length x.frac)),
        spell (widen y (length x.frac - length y.frac)),
      )
unfolding pad_shorter
uneven x y size1 size2 fits1 fits2 differ =
    let a = length x.frac in
    let b = length y.frac in
    elim (Bool-cases (ltb a b)) [
      | inl less ↦
          let small : leb size1 (length (spell (widen x (b - a)))) ≡ false = ground arith in
          rw (less, widen_some x (b - a) (ground arith), small)
            (pair refl (
              pointed-frac y.minus y.whole y.frac (ground arith)
              ∙ sym (widen_none y (a - b) (ground arith))))
      | inr more ↦
          let small : leb size2 (length (spell (widen y (a - b)))) ≡ false = ground arith in
          rw (more, widen_some y (a - b) (ground arith), small)
            (pair
              (pointed-frac x.minus x.whole x.frac (ground arith)
                ∙ sym (widen_none x (b - a) (ground arith)))
              refl)
    ]

pub padding_zero_lem :
    (x y : Numeral) (size1 size2 : ℕ)
    → Parts x.whole x.frac
    → Parts y.whole y.frac
    → length (spell (widen x (length y.frac - length x.frac))) < size1
    → length (spell (widen y (length x.frac - length y.frac))) < size2
    → padding_zero (spell x) size1 (spell y) size2
      ≡ some (
        spell (widen x (length y.frac - length x.frac)),
        spell (widen y (length x.frac - length y.frac)),
      )
unfolding padding_zero
padding_zero_lem x y size1 size2 px py fits1 fits2 =
    let a = length x.frac in
    let b = length y.frac in
    rw
      (
        or_zero-text x.minus x.whole x.frac px.some_digit,
        or_zero-text y.minus y.whole y.frac py.some_digit,
        split_point-text x.minus x.whole x.frac px.whole,
        split_point-text y.minus y.whole y.frac py.whole,
        is_none-split_of x.minus x.whole x.frac,
        is_none-split_of y.minus y.whole y.frac,
        frac_len x.minus x.whole x.frac,
        frac_len y.minus y.whole y.frac,
      )
      (elim (Bool-cases (a == 0 && (b == 0))) [
        | inl bare ↦ rw bare (
            pair (sym (widen_none x (b - a) (ground arith)))
              (sym (widen_none y (a - b) (ground arith))))
        | inr pointed_one ↦ rw pointed_one (elim (Bool-cases (a == b)) [
          | inl same ↦ rw same (
              pair
                (pointed-frac x.minus x.whole x.frac (ground arith)
                  ∙ sym (widen_none x (b - a) (ground arith)))
                (pointed-frac y.minus y.whole y.frac (ground arith)
                  ∙ sym (widen_none y (a - b) (ground arith))))
          | inr differ ↦ rw differ (uneven x y size1 size2 fits1 fits2 differ)
        ])
      ])
