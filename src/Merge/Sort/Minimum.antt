-- ===== src/Merge/Sort/Minimum.antt =====
-- The element on top of a heap is in front of every other.
use cetus.Common.{
  ℕ, zero, suc, ◌<◌, ◌≡◌, refl, arith, Bool, true, List, [], ◌∷◌, length, get_or, ◌==◌, ==_iff,
  Bool-cases, inl, inr,
}
use cetus.Merge.Heap.{HeapElement}
use cetus.Merge.Heap.Order.{parent, le, le_trans, IsOrder, IsHeapFrom}
use cetus.Merge.Heap.Sift.{count, one_if}

pub find : (p : ℕ) (xs : List ℕ) → 0 < count p xs → (i : ℕ) × (i < length xs) × (get_or xs i 0 ≡ p)
find p [] h = absurd (omega arith)
find p (x ∷ xs) h = elim (Bool-cases (x == p)) [
  | inl hit ↦ (0, omega arith, (==_iff x p).0 hit)
  | inr miss ↦
      let elsewhere : one_if (x == p) ≡ 0 = rw miss refl in
      let (i, inside, there) = find p xs (omega (arith, elsewhere)) in (suc i, omega arith, there)
]

pub count_at : (xs : List ℕ) (i : ℕ) → i < length xs → 0 < count (get_or xs i 0) xs
count_at [] i h = absurd (omega arith)
count_at (x ∷ xs) zero h = let here : one_if (x == x) ≡ 1 = ground arith in omega (arith, here)
count_at (x ∷ xs) (suc i) h = omega (arith, count_at xs i (omega arith))

module _ (prior : HeapElement → HeapElement → Bool × Bool × Bool) (elem : ℕ → HeapElement)
    (o : IsOrder prior elem) (n : ℕ) (v : ℕ → ℕ) (order : IsHeapFrom prior elem 0 n v) where
  top_le_self : (p : ℕ) → le prior elem p p ≡ true
  top_le_self p = elim (Bool-cases (elem p).is_over) [
    | inl over ↦ rw over refl
    | inr live ↦ ground (arith, o.total p p live live)
  ]

  -- By way of its parents.
  pub top_least : (fuel i : ℕ) → i < fuel → i < n → le prior elem (v 0) (v i) ≡ true
  top_least zero i h k = absurd (omega arith)
  top_least (suc fuel) zero h k = top_le_self (v 0)
  top_least (suc fuel) (suc i) h k =
      le_trans prior elem o (v 0) (v (parent (suc i))) (v (suc i))
        (top_least fuel (parent (suc i)) (omega arith) (omega arith))
        (order (suc i) (omega arith) k (omega arith))
