-- ===== src/Common/Lists.antt =====
-- Lists measured and indexed by native numbers, under the library's names.
use Prim.Native.Nat.{ℕ, zero, suc, ◌+◌, ◌-◌, min}
use mathlib.Core.Path.{◌≡◌, refl, ap}
use mathlib.Core.Logic.{◌⊎◌, inl, inr}
use mathlib.Core.List.{List, [], ◌∷◌, ◌++◌}
use native.Mathlib.Omega.{arith}

module _ {ℓ} {A : Type ℓ} where
  abbrev pub length : List A → ℕ
  length [] = 0
  length (x ∷ xs) = suc (length xs)

  abbrev pub get_or : List A → ℕ → A → A
  get_or [] i d = d
  get_or (x ∷ xs) zero d = x
  get_or (x ∷ xs) (suc i) d = get_or xs i d

  -- A write out of bounds changes nothing.
  abbrev pub set : List A → ℕ → A → List A
  set [] i v = []
  set (x ∷ xs) zero v = v ∷ xs
  set (x ∷ xs) (suc i) v = x ∷ set xs i v

  abbrev pub take : ℕ → List A → List A
  take zero xs = []
  take (suc n) [] = []
  take (suc n) (x ∷ xs) = x ∷ take n xs

  abbrev pub drop : ℕ → List A → List A
  drop zero xs = xs
  drop (suc n) [] = []
  drop (suc n) (x ∷ xs) = drop n xs

  -- A predicate on every element, by recursion.
  abbrev pub All {κ} : (A → Type κ) → List A → Type κ
  All P [] = Unit {κ}
  All P (x ∷ xs) = P x × All P xs

  pub length-append : (xs ys : List A) → length (xs ++ ys) ≡ length xs + length ys
  length-append [] ys = omega arith
  length-append (x ∷ xs) ys = omega (arith, length-append xs ys)

  pub length-take : (n : ℕ) (xs : List A) → length (take n xs) ≡ min n (length xs)
  length-take zero xs = omega arith
  length-take (suc n) [] = omega arith
  length-take (suc n) (x ∷ xs) = omega (arith, length-take n xs)

  pub length-drop : (n : ℕ) (xs : List A) → length (drop n xs) ≡ length xs - n
  length-drop zero xs = omega arith
  length-drop (suc n) [] = omega arith
  length-drop (suc n) (x ∷ xs) = omega (arith, length-drop n xs)

module _ {ℓ} {A : Type ℓ} where
  pub All-append {κ} : (P : A → Type κ) (xs ys : List A) → All P xs → All P ys → All P (xs ++ ys)
  All-append P [] ys hx hy = hy
  All-append P (x ∷ xs) ys hx hy = (hx.0, All-append P xs ys hx.1 hy)

  pub All-get_or {κ} :
      (P : A → Type κ) (d : A) (xs : List A) (i : ℕ) → P d → All P xs → P (get_or xs i d)
  All-get_or P d [] i hd h = hd
  All-get_or P d (x ∷ xs) zero hd h = h.0
  All-get_or P d (x ∷ xs) (suc i) hd h = All-get_or P d xs i hd h.1

  -- Reading, cutting and taking behind a prefix of known length.
  pub get_or-append :
      (xs ys : List A) (i : ℕ) (d : A) → get_or (xs ++ ys) (length xs + i) d ≡ get_or ys i d
  get_or-append [] ys i d = rw (zero-add i)
    where
      zero-add : (n : ℕ) → 0 + n ≡ n
      zero-add n = omega arith
  get_or-append (x ∷ xs) ys i d = rw (suc-add (length xs) i) (get_or-append xs ys i d)
    where
      suc-add : (n m : ℕ) → suc n + m ≡ suc (n + m)
      suc-add n m = omega arith

  pub drop-append : (xs ys : List A) → drop (length xs) (xs ++ ys) ≡ ys
  drop-append [] ys = refl
  drop-append (x ∷ xs) ys = drop-append xs ys

  pub take-append : (xs ys : List A) → take (length xs) (xs ++ ys) ≡ xs
  take-append [] ys = refl
  take-append (x ∷ xs) ys = ap (◌∷◌ x) (take-append xs ys)

-- Membership, by recursion.
abbrev pub Elem : {A : Type 0} → A → List A → Type 0
Elem a [] = ⊥
Elem a (x ∷ xs) = (a ≡ x) ⊎ Elem a xs

module _ {A : Type 0} (a : A) where
  pub Elem-append_left : (xs ys : List A) → Elem a xs → Elem a (xs ++ ys)
  Elem-append_left (x ∷ xs) ys (inl e) = inl e
  Elem-append_left (x ∷ xs) ys (inr m) = inr (Elem-append_left xs ys m)
  Elem-append_left [] ys m = absurd m

  pub Elem-append_right : (xs ys : List A) → Elem a ys → Elem a (xs ++ ys)
  Elem-append_right [] ys m = m
  Elem-append_right (x ∷ xs) ys m = inr (Elem-append_right xs ys m)

  pub Elem-split : (xs ys : List A) → Elem a (xs ++ ys) → Elem a xs ⊎ Elem a ys
  Elem-split [] ys m = inr m
  Elem-split (x ∷ xs) ys (inl e) = inl (inl e)
  Elem-split (x ∷ xs) ys (inr m) = elim (Elem-split xs ys m) [ inl l ↦ inl (inr l) | inr r ↦ inr r ]

  pub All-Elem : (P : A → Type 0) (xs : List A) → All P xs → Elem a xs → P a
  All-Elem P (x ∷ xs) h (inl e) = rw e h.0
  All-Elem P (x ∷ xs) h (inr m) = All-Elem P xs h.1 m
  All-Elem P [] h m = absurd m
