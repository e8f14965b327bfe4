-- ===== src/Merge/Heap/Pick.antt =====
-- pick_child goes to a child that is not over and not behind the other, and keeps the cached comparisons right.
use cetus.Common.{
  ℕ, suc, ◌+◌, ◌*◌, ◌≤◌, ◌<◌, ◌≡◌, refl, ap, arith, Bool, true, false, ◌&&◌, not, none, some, ◌==◌,
  ltb, ltb→lt, &&-true, Bool-cases, ◌⊎◌, inl, inr,
}
use cetus.Merge.Heap.{HeapElement, HeapType, at, is_behind, over, compare_children, pick_child}
use cetus.Merge.Heap.Order.{parent, le, IsOrder, view, Cached, Apart}
use cetus.Merge.Heap.Siblings.{compared_element, compared_first, compared_later, compared-Cached}

module _ (prior : HeapElement → HeapElement → Bool × Bool × Bool) (elem : ℕ → HeapElement) where
  -- What the picked child is, and what holds of the heap then.
  pub record Picks (n rc : ℕ) (heap : HeapType) (s : ℕ) (heap' : HeapType) (j : ℕ) : Type 0 where
    pub same : heap'.element ≡ heap.element
    pub child : parent j ≡ s
    pub positive : 0 < j
    pub inside : j < n
    pub live : over prior elem (at heap j) ≡ false
    pub least :
        (c : ℕ) → 0 < c → c < n → parent c ≡ s → le prior elem (at heap j) (at heap c) ≡ true
    pub cached : Cached prior elem n (view prior elem rc heap s) heap'.flags (λ i. i == s)

  -- Both children are over, or there is none.
  abbrev pub Settled : ℕ → HeapType → ℕ → Type 0
  Settled n heap s = (c : ℕ) → 0 < c → c < n → parent c ≡ s → over prior elem (at heap c) ≡ true

  module _ (o : IsOrder prior elem) (m rc : ℕ) (heap : HeapType) (s : ℕ) (two : 2 * s + 1 ≤ m)
      (apart : Apart prior elem (suc m) (view prior elem rc heap s))
      (cached : Cached prior elem
        (suc m)
        (view prior elem rc heap s)
        heap.flags
        (λ i. i == s)) where
    -- Of two live siblings the one that is not behind, and it is not behind itself.
    le_self : (p : ℕ) → le prior elem p p ≡ true
    le_self p = ground (arith, o.total p p)

    at_child : (c : ℕ) → c < suc m → parent c ≡ s → 0 < c → (c ≡ 2 * s + 1) ⊎ (c ≡ suc (2 * s + 1))
    at_child c h e p = ground arith

    picks :
        (heap' : HeapType) (j : ℕ)
        → heap'.element ≡ heap.element
        → (j ≡ 2 * s + 1) ⊎ (j ≡ suc (2 * s + 1))
        → j < suc m
        → over prior elem (at heap j) ≡ false
        → le prior elem (at heap j) (at heap (2 * s + 1)) ≡ true
        → (m < suc (2 * s + 1)) ⊎ (le prior elem (at heap j) (at heap (suc (2 * s + 1))) ≡ true)
        → Cached prior elem (suc m) (view prior elem rc heap s) heap'.flags (λ i. i == s)
        → Picks (suc m) rc heap s heap' j
    picks heap' j same which inside live first second cached' = record {
      same = same;
      child = ground arith;
      positive = omega arith;
      inside = inside;
      live = live;
      least = λ c p h e. elim (at_child c h e p) [
        | inl left ↦ rw left first
        | inr right ↦ elim second [
          | inl none_there ↦ absurd (omega arith)
          | inr second' ↦ rw right second'
        ]
      ];
      cached = cached';
    }

    both_live :
        2 * s + 1 < m
        → over prior elem (at heap (2 * s + 1)) ≡ false
        → over prior elem (at heap (suc (2 * s + 1))) ≡ false
        → Picks
            (suc m)
            rc
            heap
            s
            (compare_children prior elem heap (2 * s + 1)).0
            (compare_children prior elem heap (2 * s + 1)).1
    both_live two_children live1 live2 =
        let j = 2 * s + 1 in
        let a = at heap j in
        let b = at heap (suc j) in
        let kept =
          compared-Cached prior elem o m rc heap s two apart cached two_children live1 live2 in
        elim (Bool-cases (prior (elem a) (elem b)).0) [
          | inl first ↦
              let e = compared_first prior elem heap j first in
              rw e (
                picks _ j (compared_element prior elem heap j) (inl refl) (omega arith) live1
                  (le_self a) (inr (ground arith)) kept)
          | inr later ↦
              let e = compared_later prior elem heap j later in
              let other = o.total a b live1 live2 later in
              rw e (
                picks _ (suc j) (compared_element prior elem heap j) (inr refl) (omega arith) live2
                  (ground arith) (inr (le_self b)) kept)
        ]

    cached_pair :
        2 * s + 1 < m
        → over prior elem (at heap (2 * s + 1)) ≡ false
        → over prior elem (at heap (suc (2 * s + 1))) ≡ false
        → (not (heap.flags (at heap (2 * s + 1))).refreshed
            && not (heap.flags (at heap (suc (2 * s + 1)))).refreshed
            && is_behind (heap.flags (at heap (2 * s + 1))))
          ≡ true
        → le prior elem (at heap (suc (2 * s + 1))) (at heap (2 * s + 1)) ≡ true
    cached_pair two_children live1 live2 flags =
        let v = view prior elem rc heap s in
        let fa = heap.flags (at heap (2 * s + 1)) in
        let fb = heap.flags (at heap (suc (2 * s + 1))) in
        let skip1 : (2 * s + 1 == s) ≡ false = ground arith in
        let skip2 : (2 * s + 2 == s) ≡ false = ground arith in
        let w1 : v (2 * s + 1) ≡ at heap (2 * s + 1) = rw skip1 refl in
        let w2 : v (2 * s + 2) ≡ at heap (suc (2 * s + 1)) =
          rw skip2 (ap (at heap) (omega arith)) in
        let both = &&-true (not fa.refreshed && not fb.refreshed) (is_behind fa) flags in
        let unchanged = &&-true (not fa.refreshed) (not fb.refreshed) both.0 in
        let r1 : fa.refreshed ≡ false = ground arith in
        let r2 : fb.refreshed ≡ false = ground arith in
        let known =
          cached s (omega arith) skip1 skip2 (rw w1 live1) (rw w2 live2) (rw w1 r1) (rw w2 r2)
            (rw w1 both.1) in
        rw (w1, w2) at known

    pub pick_child_lem :
        ((pick_child prior elem heap (2 * s + 1) m ≡ none) × Settled (suc m) heap s)
        ⊎ ((heap' : HeapType) × (j : ℕ) × (pick_child prior elem heap (2 * s + 1) m
              ≡ some (heap', j))
            × Picks (suc m) rc heap s heap' j)
    unfolding pick_child
    pick_child_lem =
        let j = 2 * s + 1 in
        let a = at heap j in
        let b = at heap (suc j) in
        let settled = λ (c : ℕ) (p : 0 < c) (h : c < suc m) (e : parent c ≡ s). at_child c h e p in
        elim (Bool-cases (ltb j m)) [
          | inl two_children ↦ elim (Bool-cases (over prior elem a)) [
            | inl a_over ↦ elim (Bool-cases (over prior elem b)) [
              | inl b_over ↦
                  rw (two_children, a_over, b_over)
                    (inl (
                      refl,
                      λ c p h e. elim (settled c p h e) [
                        | inl left ↦ rw left a_over
                        | inr right ↦ rw right b_over
                      ],
                    ))
              | inr b_live ↦
                  rw (two_children, a_over, b_live)
                    (inr (
                      heap,
                      suc j,
                      refl,
                      picks heap (suc j) refl (inr refl) (ground arith) b_live (ground arith)
                          (inr (le_self b)) cached,
                    ))
            ]
            | inr a_live ↦ elim (Bool-cases (over prior elem b)) [
              | inl b_over ↦
                  rw (two_children, a_live, b_over)
                    (inr (
                      heap,
                      j,
                      refl,
                      picks heap j refl (inl refl) (ground arith) a_live (le_self a)
                          (inr (ground arith)) cached,
                    ))
              | inr b_live ↦
                  let small : j < m = ltb→lt j m two_children in
                  elim (Bool-cases (
                    not (heap.flags a).refreshed
                    && not (heap.flags b).refreshed
                    && is_behind (heap.flags a))) [
                      | inl known ↦
                          rw (two_children, a_live, b_live, known)
                            (inr (
                              heap,
                              suc j,
                              refl,
                              picks heap (suc j) refl (inr refl) (omega arith) b_live
                                  (cached_pair small a_live b_live known) (inr (le_self b)) cached,
                            ))
                      | inr unknown ↦
                          rw (two_children, a_live, b_live, unknown)
                            (inr (_, _, refl, both_live small a_live b_live))
                    ]
            ]
          ]
          | inr one_child ↦ elim (Bool-cases (over prior elem a)) [
            | inl a_over ↦
                rw (one_child, a_over)
                  (inl (
                    refl,
                    λ c p h e. elim (settled c p h e) [
                      | inl left ↦ rw left a_over
                      | inr right ↦ absurd (ground arith)
                    ],
                  ))
            | inr a_live ↦
                rw (one_child, a_live)
                  (inr (
                    heap,
                    j,
                    refl,
                    picks heap j refl (inl refl) (ground arith) a_live (le_self a)
                        (inl (ground arith)) cached,
                  ))
          ]
        ]
