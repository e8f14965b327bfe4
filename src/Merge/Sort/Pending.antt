-- ===== src/Merge/Sort/Pending.antt =====
-- How many packets do_sort_merge has before it.
use cetus.Common.{
  ℕ, zero, suc, ◌+◌, ◌≤◌, ◌<◌, ◌≡◌, ◌≢◌, refl, ap, arith, ◌∙◌, false, Option, some, List, ◌∷◌,
  length, if◌then◌else◌, ◌==◌, ==_iff, Bool-cases, inl, inr,
}

-- The packets that have been read of the first `n` servers.
abbrev pub pending : ℕ → (ℕ → List (Option (List ℕ))) → ℕ
pending zero candidates = 0
pending (suc n) candidates = length (candidates n) + pending n candidates

pending_same :
    (n t : ℕ) (taken : List ℕ) (c c' : ℕ → List (Option (List ℕ)))
    → n ≤ t
    → ((p : ℕ) → c p ≡ (if p == t then some taken ∷ c' p else c' p))
    → pending n c ≡ pending n c'
pending_same zero t taken c c' h drops = refl
pending_same (suc n) t taken c c' h drops =
    let miss : (n == t) ≡ false = ground arith in
    let same : c n ≡ c' n = drops n ∙ rw miss refl in
    let rest = pending_same n t taken c c' (omega arith) drops in
    omega (arith, ap (λ xs. length xs) same, rest)

pub pending_drops :
    (n t : ℕ) (taken : List ℕ) (c c' : ℕ → List (Option (List ℕ)))
    → t < n
    → ((p : ℕ) → c p ≡ (if p == t then some taken ∷ c' p else c' p))
    → pending n c ≡ suc (pending n c')
pending_drops zero t taken c c' h drops = absurd (omega arith)
pending_drops (suc n) t taken c c' h drops = elim (Bool-cases (n == t)) [
  | inl hit ↦
      let same : c n ≡ some taken ∷ c' n = drops n ∙ rw hit refl in
      let e : n ≡ t = (==_iff n t).0 hit in
      let rest = pending_same n t taken c c' (omega (arith, e)) drops in
      omega (arith, ap (λ xs. length xs) same, rest)
  | inr miss ↦
      let same : c n ≡ c' n = drops n ∙ rw miss refl in
      let ne : n ≢ t = λ e. absurd (ground arith) in
      let rest = pending_drops n t taken c c' (omega (arith, ne)) drops in
      omega (arith, ap (λ xs. length xs) same, rest)
]
