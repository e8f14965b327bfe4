-- ===== src/Merge/Value.antt =====
-- The number that a string of decimal digits denotes, read from the left and from the right.
use mathlib.Core.List.{reverse, reverse-cons, reverse-reverse}
use cetus.Common.{
  ℕ, ◌+◌, ◌-◌, ◌*◌, ◌≤◌, ◌<◌, ◌≡◌, refl, arith, List, [], ◌∷◌, ◌++◌, All, All-append, length,
  length-append, ltb, ltb→lt, Bool-cases, inl, inr,
}

abbrev pub IsDigit : ℕ → Type 0
IsDigit c = (48 ≤ c) × (c ≤ 57)

-- The digits behind the number `n`.
abbrev pub horner : ℕ → List ℕ → ℕ
horner n [] = n
horner n (c ∷ s) = horner (n * 10 + (c - 48)) s

-- The digits from the right.
abbrev pub low : List ℕ → ℕ
low [] = 0
low (c ∷ s) = c - 48 + 10 * low s

pub horner-append : (s t : List ℕ) (n : ℕ) → horner n (s ++ t) ≡ horner (horner n s) t
horner-append [] t n = refl
horner-append (c ∷ s) t n = horner-append s t (n * 10 + (c - 48))

low-horner : (s : List ℕ) → low s ≡ horner 0 (reverse s)
low-horner [] = refl
low-horner (c ∷ s) =
    rw (reverse-cons c s, horner-append (reverse s) (c ∷ []) 0) (omega (arith, low-horner s))

pub low-reverse : (s : List ℕ) → low (reverse s) ≡ horner 0 s
low-reverse s = rw (low-horner (reverse s), reverse-reverse s) refl

pub All-reverse : (P : ℕ → Type 0) (s : List ℕ) → All P s → All P (reverse s)
All-reverse P [] h = tt
All-reverse P (c ∷ s) h =
    rw (reverse-cons c s) (All-append P (reverse s) (c ∷ []) (All-reverse P s h.1) (h.0, tt))

pub length-reverse : (s : List ℕ) → length (reverse s) ≡ length s
length-reverse [] = refl
length-reverse (c ∷ s) =
    rw (reverse-cons c s, length-append (reverse s) (c ∷ [])) (omega (arith, length-reverse s))

-- Strings of one length keep the strict order of what stands in front of them.
pub horner_mono :
    (s t : List ℕ) (m n : ℕ) → All IsDigit s → length s ≡ length t → m < n → horner m s < horner n t
horner_mono [] [] m n d e h = h
horner_mono (a ∷ s) (b ∷ t) m n d e h =
    horner_mono s t (m * 10 + (a - 48)) (n * 10 + (b - 48)) d.1 (omega arith) (omega (arith, d.0))
horner_mono [] (b ∷ t) m n d e h = absurd (omega arith)
horner_mono (a ∷ s) [] m n d e h = absurd (omega arith)

-- A longer number is larger, if it does not start with a zero.
pub horner_longer :
    (s t : List ℕ) (n : ℕ) → All IsDigit s → length s ≤ length t → 0 < n → horner 0 s < horner n t
horner_longer [] [] n d e h = h
horner_longer [] (b ∷ t) n d e h =
    horner_longer [] t (n * 10 + (b - 48)) tt (omega arith) (omega arith)
horner_longer (a ∷ s) [] n d e h = absurd (omega arith)
horner_longer (a ∷ s) (b ∷ t) n d e h = ground (
  arith,
  horner_longer (a ∷ s) t (n * 10 + (b - 48)),
  horner_mono s t (a - 48) (n * 10 + (b - 48)),
)

pub horner-le :
    (s t : List ℕ) (m n : ℕ) → All IsDigit s → length s ≡ length t → horner n t < horner m s → n ≤ m
horner-le s t m n d e h = elim (Bool-cases (ltb m n)) [
  | inl less ↦ absurd (omega (arith, horner_mono s t m n d e (ltb→lt m n less)))
  | inr not_less ↦ ground arith
]
