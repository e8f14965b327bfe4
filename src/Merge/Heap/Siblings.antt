-- ===== src/Merge/Heap/Siblings.antt =====
-- A comparison of two siblings is remembered rightly, and it does not touch the other pairs.
use cetus.Common.{
  ℕ, suc, ◌+◌, ◌*◌, ◌≤◌, ◌<◌, ◌≡◌, ◌≢◌, refl, sym, ap, arith, ◌∙◌, Bool, true, false, ◌==◌, ==_iff,
  Bool-cases, inl, inr,
}
use cetus.Merge.Heap.{
  HeapElement, HeapFlags, HeapType, at, update, is_behind, over, compare_children,
}
use cetus.Merge.Heap.Order.{le, IsOrder, view, Cached, Apart}

module _ (prior : HeapElement → HeapElement → Bool × Bool × Bool) (elem : ℕ → HeapElement) where
  abbrev pub compared : HeapType → ℕ → ℕ → HeapFlags
  compared heap j = (compare_children prior elem heap j).0.flags

  -- What a comparison leaves of the flags.
  compared_other :
      (heap : HeapType) (j p : ℕ)
      → p ≢ at heap j
      → p ≢ at heap (suc j)
      → compared heap j p ≡ heap.flags p
  unfolding compare_children update
  compared_other heap j p ne1 ne2 = ground arith

  pub compared_element :
      (heap : HeapType) (j : ℕ) → (compare_children prior elem heap j).0.element ≡ heap.element
  unfolding compare_children
  compared_element heap j = refl

  pub compared_first :
      (heap : HeapType) (j : ℕ)
      → (prior (elem (at heap j)) (elem (at heap (suc j)))).0 ≡ true
      → (compare_children prior elem heap j).1 ≡ j
  unfolding compare_children
  compared_first heap j h = rw h refl

  pub compared_later :
      (heap : HeapType) (j : ℕ)
      → (prior (elem (at heap j)) (elem (at heap (suc j)))).0 ≡ false
      → (compare_children prior elem heap j).1 ≡ suc j
  unfolding compare_children
  compared_later heap j h = rw h refl

  module _ (heap : HeapType) (j : ℕ) (apart : at heap j ≢ at heap (suc j)) where
    compared_behind :
        is_behind (compared heap j (at heap j)) ≡ true
        → (prior (elem (at heap j)) (elem (at heap (suc j)))).0 ≡ false
    unfolding compare_children update
    compared_behind h = ground arith

  module _ (o : IsOrder prior elem) (m rc : ℕ) (heap : HeapType) (s : ℕ) (two : 2 * s + 1 ≤ m)
      (apart : Apart prior elem (suc m) (view prior elem rc heap s))
      (cached : Cached prior elem
        (suc m)
        (view prior elem rc heap s)
        heap.flags
        (λ i. i == s)) where
    apart_clash :
        (i j : ℕ)
        → i < suc m
        → j < suc m
        → i ≢ j
        → view prior elem rc heap s i ≡ view prior elem rc heap s j
        → ⊥
    apart_clash i j hi hj ne e = ne (apart i j hi hj e)

    pair_behind :
        at heap (2 * s + 1) ≢ at heap (suc (2 * s + 1))
        → over prior elem (at heap (2 * s + 1)) ≡ false
        → over prior elem (at heap (suc (2 * s + 1))) ≡ false
        → (x y : ℕ) → x ≡ at heap (2 * s + 1)
        → y ≡ at heap (suc (2 * s + 1))
        → is_behind (compared heap (2 * s + 1) x) ≡ true
        → le prior elem y x ≡ true
    pair_behind distinct live1 live2 x y ex ey behind =
        let a = at heap (2 * s + 1) in
        let b = at heap (suc (2 * s + 1)) in
        let later = compared_behind heap (2 * s + 1) distinct (rw ex at behind) in
        let first = o.total a b live1 live2 later in rw (ex, ey) (ground (arith, first))

    pub compared-Cached :
        2 * s + 1 < m
        → over prior elem (at heap (2 * s + 1)) ≡ false
        → over prior elem (at heap (suc (2 * s + 1))) ≡ false
        → Cached prior elem
            (suc m)
            (view prior elem rc heap s)
            (compared heap (2 * s + 1))
            (λ i. i == s)
    compared-Cached h live1 live2 q small skip1 skip2 l1 l2 r1 r2 behind =
        let j = 2 * s + 1 in
        let v = view prior elem rc heap s in
        let v1 : v (2 * q + 1) ≡ at heap (2 * q + 1) = rw skip1 refl in
        let v2 : v (2 * q + 2) ≡ at heap (2 * q + 2) = rw skip2 refl in
        let w1 : v j ≡ at heap j = ground arith in
        let w2 : v (suc j) ≡ at heap (suc j) = ground arith in
        elim (Bool-cases (q == s)) [
          | inl hit ↦
              let e : q ≡ s = (==_iff q s).0 hit in
              let distinct : at heap j ≢ at heap (suc j) = λ clash. absurd (
                apart_clash j (suc j) (omega arith) (omega arith) (omega arith)
                  (w1 ∙ clash ∙ sym w2)) in
              pair_behind distinct live1 live2 (v (2 * q + 1)) (v (2 * q + 2))
                (v1 ∙ ap (at heap) (omega arith)) (v2 ∙ ap (at heap) (omega arith)) behind
          | inr miss ↦
              let ne : q ≢ s = λ e. absurd (ground arith) in
              let same1 =
                compared_other heap j (v (2 * q + 1))
                  (λ e.
                    apart_clash (2 * q + 1) j (omega arith) (omega arith) (λ i. ne (omega arith))
                      (e ∙ sym w1))
                  (λ e.
                    apart_clash (2 * q + 1) (suc j) (omega arith) (omega arith)
                      (λ i. ne (omega arith)) (e ∙ sym w2)) in
              let same2 =
                compared_other heap j (v (2 * q + 2))
                  (λ e.
                    apart_clash (2 * q + 2) j (omega arith) (omega arith) (λ i. ne (omega arith))
                      (e ∙ sym w1))
                  (λ e.
                    apart_clash (2 * q + 2) (suc j) (omega arith) (omega arith)
                      (λ i. ne (omega arith)) (e ∙ sym w2)) in
              cached q small skip1 skip2 l1 l2 (rw same1 at r1) (rw same2 at r2)
                (rw same1 at behind)
        ]
