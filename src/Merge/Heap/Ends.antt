-- ===== src/Merge/Heap/Ends.antt =====
-- heap_adjust ends on any heap, and fails only where a comparison of two rows fails.
use cetus.Common.{
  ℕ, zero, suc, ◌+◌, ◌-◌, ◌*◌, ◌≤◌, ◌<◌, ◌≡◌, refl, ap, arith, ◌∙◌, Bool, true, false, ◌&&◌, not,
  none, some, List, [], ◌∷◌, get_or, set, ltb, Bool-cases, ◌⊎◌, inl, inr,
}
use cetus.Merge.Heap.{
  HeapElement, HeapType, at, over, is_behind, compare_children, pick_child, mark_dup, place,
  place_by, with_failed, after_place, after_pick, sift, put_back, heap_adjust,
}

module _ (prior : HeapElement → HeapElement → Bool × Bool × Bool) (elem : ℕ → HeapElement) where
  -- No comparison of elements that are not over fails.
  abbrev pub Decides : Type 0
  Decides =
      (p q : ℕ)
      → (elem p).is_over ≡ false
      → (elem q).is_over ≡ false
      → (prior (elem p) (elem q)).2 ≡ false

  -- The second heap has not failed if the first has not, nor is the element on top over.
  abbrev Unfailed : HeapType → HeapType → Type 0
  Unfailed heap heap' =
      (Decides → heap.compare_failed ≡ false → heap'.compare_failed ≡ false)
      × ((elem (at heap 0)).is_over ≡ false → (elem (at heap' 0)).is_over ≡ false)

  set-live :
      (xs : List ℕ) (s c : ℕ)
      → (elem c).is_over ≡ false
      → (elem (get_or xs 0 0)).is_over ≡ false
      → (elem (get_or (set xs s c) 0 0)).is_over ≡ false
  set-live [] s c lc l = l
  set-live (x ∷ xs) zero c lc l = lc
  set-live (x ∷ xs) (suc s) c lc l = l

  -- The child is at `j` or behind it, up to `m`, and is not over.
  record Child (heap : HeapType) (j m : ℕ) (heap' : HeapType) (j' : ℕ) : Type 0 where
    behind : j ≤ j'
    inside : j' ≤ m
    live : (elem (at heap' j')).is_over ≡ false
    unfailed : Unfailed heap heap'

  same-Child :
      (heap : HeapType) (j m j' : ℕ)
      → j ≤ j'
      → j' ≤ m
      → (elem (at heap j')).is_over ≡ false
      → Child heap j m heap j'
  same-Child heap j m j' b i l = record {
    behind = b;
    inside = i;
    live = l;
    unfailed = (λ d h. h, λ l. l);
  }

  compared-Child :
      (heap : HeapType) (j m : ℕ)
      → j < m
      → (elem (at heap j)).is_over ≡ false
      → (elem (at heap (suc j))).is_over ≡ false
      → Child heap j m (compare_children prior elem heap j).0 (compare_children prior elem heap j).1
  unfolding compare_children
  compared-Child heap j m small live1 live2 =
      elim (Bool-cases (prior (elem (at heap j)) (elem (at heap (suc j)))).0) [
        | inl first ↦ rw first (record {
          behind = omega arith;
          inside = omega arith;
          live = live1;
          unfailed = (λ d h. ground (arith, d (at heap j) (at heap (suc j))), λ l. l);
        })
        | inr later ↦ rw later (record {
          behind = omega arith;
          inside = omega arith;
          live = live2;
          unfailed = (λ d h. ground (arith, d (at heap j) (at heap (suc j))), λ l. l);
        })
      ]

  pick_child-Child :
      (heap : HeapType) (j m : ℕ)
      → j ≤ m
      → (pick_child prior elem heap j m ≡ none)
        ⊎ ((heap' : HeapType) × (j' : ℕ) × (pick_child prior elem heap j m ≡ some (heap', j'))
            × Child heap j m heap' j')
  unfolding pick_child
  pick_child-Child heap j m below =
      let a = at heap j in
      let b = at heap (suc j) in
      elim (Bool-cases (ltb j m)) [
        | inl two ↦ elim (Bool-cases (over prior elem a)) [
          | inl a_over ↦ elim (Bool-cases (over prior elem b)) [
            | inl b_over ↦ rw (two, a_over, b_over) (inl refl)
            | inr b_live ↦
                rw (two, a_over, b_live)
                  (inr (
                    heap,
                    suc j,
                    refl,
                    same-Child heap j m (suc j) (omega arith) (ground arith) b_live,
                  ))
          ]
          | inr a_live ↦ elim (Bool-cases (over prior elem b)) [
            | inl b_over ↦
                rw (two, a_live, b_over)
                  (inr (heap, j, refl, same-Child heap j m j (omega arith) below a_live))
            | inr b_live ↦
                elim (Bool-cases (
                  not (heap.flags a).refreshed
                  && not (heap.flags b).refreshed
                  && is_behind (heap.flags a))) [
                    | inl known ↦
                        rw (two, a_live, b_live, known)
                          (inr (
                            heap,
                            suc j,
                            refl,
                            same-Child heap j m (suc j) (omega arith) (ground arith) b_live,
                          ))
                    | inr unknown ↦
                        rw (two, a_live, b_live, unknown)
                          (inr (_, _, refl, compared-Child heap j m (ground arith) a_live b_live))
                  ]
          ]
        ]
        | inr one ↦ elim (Bool-cases (over prior elem a)) [
          | inl a_over ↦ rw (one, a_over) (inl refl)
          | inr a_live ↦
              rw (one, a_live)
                (inr (heap, j, refl, same-Child heap j m j (omega arith) below a_live))
        ]
      ]

  mark_dup-Unfailed :
      (b : Bool) (heap : HeapType) (s c : ℕ)
      → (mark_dup b heap s c).compare_failed ≡ heap.compare_failed
  unfolding mark_dup
  mark_dup-Unfailed true heap s c = refl
  mark_dup-Unfailed false heap s c = refl

  mark_dup-same :
      (b : Bool) (heap : HeapType) (s c : ℕ) → (mark_dup b heap s c).element ≡ heap.element
  unfolding mark_dup
  mark_dup-same true heap s c = refl
  mark_dup-same false heap s c = refl

  placed-Unfailed :
      (rc : ℕ) (b : Bool) (r : Bool × Bool × Bool) (heap : HeapType) (s c : ℕ)
      → over prior elem rc ≡ b
      → (elem c).is_over ≡ false
      → prior (elem rc) (elem c) ≡ r
      → Unfailed heap (place_by b r heap s c).1
  unfolding place_by
  placed-Unfailed rc true r heap s c rc_over live e =
      (λ d h. h, λ l. set-live heap.element s c live l)
  placed-Unfailed rc false (true, is_dup, failed) heap s c rc_live live e = (
    λ d h.
        mark_dup-Unfailed is_dup (with_failed failed heap) s c
        ∙ ground (arith, ap (λ t. t.2) e, d rc c),
    λ l. rw (mark_dup-same is_dup (with_failed failed heap) s c) l,
  )
  placed-Unfailed rc false (false, is_dup, failed) heap s c rc_live live e =
      (λ d h. ground (arith, ap (λ t. t.2) e, d rc c), λ l. set-live heap.element s c live l)

  -- The hole goes down at least twice as far in each round.
  sift_ends :
      (fuel rc : ℕ) (heap : HeapType) (s m : ℕ)
      → m < fuel + s
      → s ≤ m
      → (heap' : HeapType) × (s' : ℕ) × (sift prior elem fuel rc heap s m ≡ some (heap', s'))
        × Unfailed heap heap'
  unfolding sift after_pick place after_place
  sift_ends zero rc heap s m f h = absurd (omega arith)
  sift_ends (suc fuel) rc heap s m f h = elim (Bool-cases (ltb m (2 * s + 1))) [
    | inl leaf ↦ rw leaf (heap, s, refl, (λ d h. h, λ l. l))
    | inr inner ↦
        let below : 2 * s + 1 ≤ m = ground arith in
        elim (pick_child-Child heap (2 * s + 1) m below) [
          | inl stop ↦ rw (inner, stop) (heap, s, refl, (λ d h. h, λ l. l))
          | inr (heap', j, go_on, child) ↦
              let c = at heap' j in
              let r = place_by (over prior elem rc) (prior (elem rc) (elem c)) heap' s c in
              let kept =
                placed-Unfailed rc (over prior elem rc) (prior (elem rc) (elem c)) heap' s c refl
                  child.live refl in
              let (heap2, s2, run, unfailed) =
                round r.0 r.1 s j
                  (sift_ends fuel rc r.1 j m (omega (arith, child.behind)) child.inside) in
              rw (inner, go_on)
                (
                  heap2,
                  s2,
                  run,
                  (
                    λ d h. unfailed.0 d (kept.0 d (child.unfailed.0 d h)),
                    λ l. unfailed.1 (kept.1 (child.unfailed.1 l)),
                  ),
                )
        ]
  ]
    where
      round :
          (stays : Bool) (heap : HeapType) (s j : ℕ)
          → ((heap' : HeapType) × (s' : ℕ) × (sift prior elem fuel rc heap j m ≡ some (heap', s'))
              × Unfailed heap heap')
          → (heap' : HeapType) × (s' : ℕ) × (after_place
                (λ h j. sift prior elem fuel rc h j m)
                s
                j
                (stays, heap)
              ≡ some (heap', s'))
            × Unfailed heap heap'
      round true heap s j rest = (heap, s, refl, (λ d h. h, λ l. l))
      round false heap s j rest = rest

  pub heap_adjust_ends :
      (heap : HeapType) (s m : ℕ)
      → 0 < s
      → s ≤ m
      → (heap' : HeapType) × (heap_adjust prior elem heap s m ≡ some heap')
        × (Decides → heap.compare_failed ≡ false → heap'.compare_failed ≡ false)
        × ((elem (at heap (s - 1))).is_over ≡ false
            → (elem (at heap 0)).is_over ≡ false
            → (elem (at heap' 0)).is_over ≡ false)
  unfolding heap_adjust
  heap_adjust_ends heap s m ps h =
      let rc = at heap (s - 1) in
      let (heap', s', run, unfailed) =
        sift_ends m rc heap (s - 1) (m - 1) (omega arith) (omega arith) in
      (_, ap (put_back rc) run, unfailed.0, λ l t. set-live heap'.element s' rc l (unfailed.1 t))
