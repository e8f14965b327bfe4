-- ===== src/Merge/Heap/Adjust.antt =====
-- heap_adjust restores the order of the heap, loses no element and keeps the cached comparisons right.
use cetus.Common.{
  subst, ℕ, zero, suc, ◌+◌, ◌-◌, ◌*◌, ◌≤◌, ◌<◌, ◌≡◌, ◌≢◌, refl, sym, ap, arith, ◌∙◌, Bool, true,
  false, some, List, [], ◌∷◌, get_or, set, ◌==◌, ==_iff, ltb, Bool-cases, inl, inr,
}
use cetus.Merge.Heap.{
  HeapElement, HeapType, at, update, set_refreshed, after_place, after_pick, sift, heap_adjust,
}
use cetus.Merge.Heap.Order.{IsOrder, view, Cached, Apart, Sinks, IsHeapFrom}
use cetus.Merge.Heap.Pick.{pick_child_lem}
use cetus.Merge.Heap.Sift.{IsSound, Sifting, count, length-set, get_or-set}
use cetus.Merge.Heap.Place.{picked-Sifting, Picks-settle, settled-IsHeapFrom, place_lem}

module _ (prior : HeapElement → HeapElement → Bool × Bool × Bool) (elem : ℕ → HeapElement)
    (o : IsOrder prior elem) (lo n : ℕ) where
  module _ (held : ℕ → ℕ) (rc : ℕ) where
    sift_lem :
        (fuel m : ℕ) (heap : HeapType) (s : ℕ)
        → n ≡ suc m
        → m < fuel + s
        → Sifting prior elem n held rc heap s
        → Sinks prior elem lo n (view prior elem rc heap s) s
        → (heap' : HeapType) × (s' : ℕ) × (sift prior elem fuel rc heap s m ≡ some (heap', s'))
          × Sifting prior elem n held rc heap' s'
          × IsHeapFrom prior elem lo n (view prior elem rc heap' s')
    unfolding sift after_pick after_place
    sift_lem zero m heap s size f inv k = absurd (omega (arith, inv.inside))
    sift_lem (suc fuel) m heap s size f inv k = elim (Bool-cases (ltb m (2 * s + 1))) [
      | inl leaf ↦ rw leaf (
        heap,
        s,
        refl,
        inv,
        settled-IsHeapFrom prior elem o lo n held rc heap s k (λ c p h e. absurd (ground arith)),
      )
      | inr inner ↦
          elim (pick_child_lem prior elem o m rc heap s (ground arith) (rw size at inv.apart)
            (rw size at inv.cached)) [
              | inl (stop, settled) ↦
                  rw (inner, stop)
                    (
                      heap,
                      s,
                      refl,
                      inv,
                      settled-IsHeapFrom prior elem o lo n held rc heap s k
                          (λ c p h e. ground (arith, settled c p (omega arith) e)),
                    )
              | inr (heap', j, go_on, picked) ↦
                  let picked' = rw (sym size) at picked in
                  let here = picked-Sifting prior elem n held rc heap heap' s j inv picked' in
                  elim (place_lem prior elem o lo n held rc heap' s j here (rw picked.same k)
                    (Picks-settle prior elem n rc heap heap' s j picked')) [
                      | inl (h, stay, inv', order) ↦
                          rw (inner, go_on, stay) (h, s, refl, inv', order)
                      | inr (h, down, inv', k') ↦
                          rw (inner, go_on, down)
                            (sift_lem fuel m h j size
                              (ground (arith, picked.child, picked.positive)) inv' k')
                    ]
            ]
    ]

  view_start :
      (heap : HeapType) (s : ℕ) → ◌≡◌ {A = ℕ → ℕ} (view prior elem (at heap s) heap s) (at heap)
  view_start heap s = λ j i. go i j
    where
      go : (i : ℕ) → view prior elem (at heap s) heap s i ≡ at heap i
      go i = elim (Bool-cases (i == s)) [
        | inl hit ↦ rw hit (ap (at heap) (sym ((==_iff i s).0 hit)))
        | inr miss ↦ rw miss refl
      ]

  set_same : (xs : List ℕ) (s : ℕ) → set xs s (get_or xs s 0) ≡ xs
  set_same [] zero = refl
  set_same [] (suc s) = refl
  set_same (x ∷ xs) zero = refl
  set_same (x ∷ xs) (suc s) = ap (◌∷◌ x) (set_same xs s)

  -- The heap where the hole is filled.
  abbrev pub filled : HeapType → ℕ → ℕ → HeapType
  filled heap rc s = record heap {
    element = set heap.element s rc;
    flags = set_refreshed true rc heap.flags;
  }

  module _ (held : ℕ → ℕ) (rc : ℕ) (heap : HeapType) (s : ℕ)
      (inv : Sifting prior elem n held rc heap s) where
    view_end : ◌≡◌ {A = ℕ → ℕ} (at (filled heap rc s)) (view prior elem rc heap s)
    view_end = λ j i. go i j
      where
        go : (i : ℕ) → at (filled heap rc s) i ≡ view prior elem rc heap s i
        go i = ground (arith, get_or-set heap.element s i rc (omega (arith, inv.inside, inv.long)))

    hole_there : (i : ℕ) → (i == s) ≡ true → view prior elem rc heap s i ≡ rc
    hole_there i hit = rw hit refl

    refreshed_rc : ((filled heap rc s).flags rc).refreshed ≡ true
    unfolding update
    refreshed_rc = ground arith

    flags_else : (p : ℕ) → p ≢ rc → (filled heap rc s).flags p ≡ heap.flags p
    unfolding update
    flags_else p h = ground arith

    not_filled :
        (i : ℕ)
        → ((filled heap rc s).flags (view prior elem rc heap s i)).refreshed ≡ false
        → (i == s) ≡ false
    not_filled i r = elim (Bool-cases (i == s)) [
      | inl hit ↦
          let fresh = ap (λ p. ((filled heap rc s).flags p).refreshed) (hole_there i hit) in
          let no_way : ◌≡◌ {A = Bool} false true = sym r ∙ fresh ∙ refreshed_rc in
          absurd (ground arith)
      | inr miss ↦ miss
    ]

    flags_kept :
        (i : ℕ)
        → i < n
        → (i == s) ≡ false
        → (filled heap rc s).flags (view prior elem rc heap s i)
          ≡ heap.flags (view prior elem rc heap s i)
    flags_kept i h miss = flags_else (view prior elem rc heap s i) (λ e.
        absurd (ground (arith, inv.apart i s h inv.inside (e ∙ sym (hole_there s (ground arith))))))

    filled-Cached :
        Cached prior elem n (view prior elem rc heap s) (filled heap rc s).flags (λ i. false)
    filled-Cached q small skip1 skip2 l1 l2 r1 r2 behind =
        let miss1 = not_filled (2 * q + 1) r1 in
        let miss2 = not_filled (2 * q + 2) r2 in
        let f1 = flags_kept (2 * q + 1) (omega arith) miss1 in
        let f2 = flags_kept (2 * q + 2) small miss2 in
        inv.cached q small miss1 miss2 l1 l2 (rw f1 at r1) (rw f2 at r2) (rw f1 at behind)

  -- Where the order of the elements that are not over is total and transitive, and those that are over
  -- come last: for a heap of `n` distinct elements in which only the edges at the element `s - 1` may be
  -- out of order, among those whose parent is at `lo` or behind it, and whose remembered comparisons
  -- hold but for the pair with that element, heap_adjust ends with these edges in order; each element is
  -- in the heap as often as before, and all remembered comparisons hold.
  pub heap_adjust_lem :
      (heap : HeapType) (s : ℕ)
      → 0 < s
      → s ≤ n
      → IsSound prior elem n heap (λ i. i == s - 1)
      → Sinks prior elem lo n (at heap) (s - 1)
      → (heap' : HeapType) × (heap_adjust prior elem heap s n ≡ some heap')
        × IsHeapFrom prior elem lo n (at heap')
        × IsSound prior elem n heap' (λ i. false)
        × ((p : ℕ) → count p heap'.element ≡ count p heap.element)
  unfolding heap_adjust
  heap_adjust_lem heap s ps sn sound k =
      let rc = at heap (s - 1) in
      let held = λ (p : ℕ). count p heap.element in
      let inv : Sifting prior elem n held rc heap (s - 1) = record {
        inside = omega arith;
        long = sound.long;
        apart = subst (λ v. Apart prior elem n v) (sym (view_start heap (s - 1))) sound.apart;
        cached =
            subst (λ v. Cached prior elem n v heap.flags (λ i. i == s - 1))
              (sym (view_start heap (s - 1))) sound.cached;
        counted = λ p. ap (count p) (set_same heap.element (s - 1));
      } in
      let (heap', s', run, inv', order) =
        sift_lem held rc n (n - 1) heap (s - 1) (omega arith) (omega arith) inv
          (subst (λ v. Sinks prior elem lo n v (s - 1)) (sym (view_start heap (s - 1))) k) in
      rw run (
        filled heap' rc s',
        refl,
        subst (IsHeapFrom prior elem lo n) (sym (view_end held rc heap' s' inv')) order,
        record {
          long = rw (length-set heap'.element s' rc) inv'.long;
          apart = subst (Apart prior elem n) (sym (view_end held rc heap' s' inv')) inv'.apart;
          cached =
              subst (λ v. Cached prior elem n v (filled heap' rc s').flags (λ i. false))
                (sym (view_end held rc heap' s' inv')) (filled-Cached held rc heap' s' inv');
        },
        inv'.counted,
      )
