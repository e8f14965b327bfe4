-- ===== src/Merge/Heap/Place.antt =====
-- One round of heap_adjust, with the child that pick_child has found.
use cetus.Common.{
  ℕ, ◌<◌, ◌≡◌, ◌≢◌, refl, ap, arith, Bool, true, false, ◌==◌, Bool-cases, ◌⊎◌, inl, inr,
}
use cetus.Merge.Heap.{
  HeapElement, HeapType, at, update, over, mark_dup, place, place_by, with_failed,
}
use cetus.Merge.Heap.Order.{parent, le, le_trans, IsOrder, view, Sinks, Sinks-step, IsHeapFrom}
use cetus.Merge.Heap.Pick.{Picks}
use cetus.Merge.Heap.Sift.{Sifting, moved, moved-Sifting, into}

module _ (prior : HeapElement → HeapElement → Bool × Bool × Bool) (elem : ℕ → HeapElement) where
  pub picked-Sifting :
      (n : ℕ) (held : ℕ → ℕ) (rc : ℕ) (heap heap' : HeapType) (s j : ℕ)
      → Sifting prior elem n held rc heap s
      → Picks prior elem n rc heap s heap' j
      → Sifting prior elem n held rc heap' s
  picked-Sifting n held rc heap heap' s j inv p = record {
    inside = inv.inside;
    long = rw p.same inv.long;
    apart = rw p.same inv.apart;
    cached = rw p.same p.cached;
    counted = rw p.same inv.counted;
  }

  -- After the comparison the elements are where they were.
  pub Picks-settle :
      (n rc : ℕ) (heap heap' : HeapType) (s j : ℕ)
      → Picks prior elem n rc heap s heap' j
      → Picks prior elem n rc heap' s heap' j
  Picks-settle n rc heap heap' s j p = record {
    same = refl;
    child = p.child;
    positive = p.positive;
    inside = p.inside;
    live = rw p.same p.live;
    least = rw p.same p.least;
    cached = rw p.same p.cached;
  }

  failing-Sifting :
      (b : Bool) (n : ℕ) (held : ℕ → ℕ) (rc : ℕ) (heap : HeapType) (s : ℕ)
      → Sifting prior elem n held rc heap s
      → Sifting prior elem n held rc (record heap { compare_failed = b }) s
  failing-Sifting b n held rc heap s inv = record {
    inside = inv.inside;
    long = inv.long;
    apart = inv.apart;
    cached = inv.cached;
    counted = inv.counted;
  }

  mark_dup-element :
      (b : Bool) (heap : HeapType) (s c : ℕ) → (mark_dup b heap s c).element ≡ heap.element
  unfolding mark_dup
  mark_dup-element true heap s c = refl
  mark_dup-element false heap s c = refl

  mark_dup-refreshed :
      (b : Bool) (heap : HeapType) (s c p : ℕ)
      → ((mark_dup b heap s c).flags p).refreshed ≡ (heap.flags p).refreshed
  unfolding mark_dup update
  mark_dup-refreshed true heap s c p = ground arith
  mark_dup-refreshed false heap s c p = refl

  mark_dup-prior :
      (b : Bool) (heap : HeapType) (s c p : ℕ)
      → ((mark_dup b heap s c).flags p).is_prior_to ≡ (heap.flags p).is_prior_to
  unfolding mark_dup update
  mark_dup-prior true heap s c p = ground arith
  mark_dup-prior false heap s c p = refl

  mark_dup-Sifting :
      (b : Bool) (c n : ℕ) (held : ℕ → ℕ) (rc : ℕ) (heap : HeapType) (s : ℕ)
      → Sifting prior elem n held rc heap s
      → Sifting prior elem n held rc (mark_dup b heap s c) s
  mark_dup-Sifting b c n held rc heap s inv = record {
    inside = inv.inside;
    long = rw (mark_dup-element b heap s c) inv.long;
    apart = rw (mark_dup-element b heap s c) inv.apart;
    cached = rw (mark_dup-element b heap s c) (λ q small skip1 skip2 l1 l2 r1 r2 behind.
        inv.cached q small skip1 skip2 l1 l2 (rw (mark_dup-refreshed b heap s c _) at r1)
          (rw (mark_dup-refreshed b heap s c _) at r2)
          (rw (mark_dup-prior b heap s c _) at behind));
    counted = rw (mark_dup-element b heap s c) inv.counted;
  }

  module _ (o : IsOrder prior elem) (lo n : ℕ) (held : ℕ → ℕ) (rc : ℕ) where
    pub settled-IsHeapFrom :
        (heap : HeapType) (s : ℕ)
        → Sinks prior elem lo n (view prior elem rc heap s) s
        → ((c : ℕ) → 0 < c → c < n → parent c ≡ s → le prior elem rc (at heap c) ≡ true)
        → IsHeapFrom prior elem lo n (view prior elem rc heap s)
    settled-IsHeapFrom heap s k below c p h l = elim (Bool-cases (parent c == s)) [
      | inl hit ↦ ground (arith, below c)
      | inr miss ↦ k.edges c p h l (λ e. absurd (ground arith))
    ]

    module _ (heap : HeapType) (s j : ℕ) (inv : Sifting prior elem n held rc heap s)
        (k : Sinks prior elem lo n (view prior elem rc heap s) s)
        (picked : Picks prior elem n rc heap s heap j) where
      not_hole : s ≢ j
      not_hole e = absurd (ground (arith, picked.child, picked.positive))

      child_view : (c : ℕ) → 0 < c → parent c ≡ s → view prior elem rc heap s c ≡ at heap c
      child_view c p e = ground arith

      hole_view : view prior elem rc heap s s ≡ rc
      hole_view = ground arith

      moved-Sinks :
          le prior elem (at heap j) rc ≡ true
          → Sinks prior elem lo n (view prior elem rc (moved prior elem heap s j) j) j
      moved-Sinks below =
          let there = child_view j picked.positive picked.child in
          Sinks-step prior elem o lo n (view prior elem rc heap s) _ s j k picked.positive
            picked.inside picked.child
            (λ c p h e. rw (there, child_view c p e) (picked.least c p h e))
            (rw (there, hole_view) below)
            (into prior elem n held rc heap s j inv picked.inside not_hole)

      -- `rc` is prior to the child.
      stays-IsHeapFrom :
          over prior elem rc ≡ false
          → (prior (elem rc) (elem (at heap j))).0 ≡ true
          → IsHeapFrom prior elem lo n (view prior elem rc heap s)
      stays-IsHeapFrom rc_live first =
          let here : le prior elem rc (at heap j) ≡ true = ground arith in
          settled-IsHeapFrom heap s k (λ c p h e.
            le_trans prior elem o rc (at heap j) (at heap c) here (picked.least c p h e))

      abbrev pub Placed : Bool × HeapType → Type 0
      Placed r =
          ((h : HeapType) × (r ≡ (true, h))
            × Sifting prior elem n held rc h s
            × IsHeapFrom prior elem lo n (view prior elem rc h s))
          ⊎ ((h : HeapType) × (r ≡ (false, h))
              × Sifting prior elem n held rc h j
              × Sinks prior elem lo n (view prior elem rc h j) j)

      placed :
          (b : Bool) (r : Bool × Bool × Bool)
          → over prior elem rc ≡ b
          → prior (elem rc) (elem (at heap j)) ≡ r
          → Placed (place_by b r heap s (at heap j))
      unfolding place_by
      placed true r rc_over e =
          let there = moved-Sifting prior elem n held rc heap s j inv picked.inside not_hole in
          inr (moved prior elem heap s j, refl, there, moved-Sinks (ground arith))
      placed false (true, is_dup, failed) rc_live e =
          let first : (prior (elem rc) (elem (at heap j))).0 ≡ true = ap (λ t. t.0) e in
          let compared = with_failed failed heap in
          inl (
            mark_dup is_dup compared s (at heap j),
            refl,
            mark_dup-Sifting is_dup (at heap j) n held rc compared s
                (failing-Sifting compared.compare_failed n held rc heap s inv),
            rw (mark_dup-element is_dup compared s (at heap j)) (stays-IsHeapFrom rc_live first),
          )
      placed false (false, is_dup, failed) rc_live e =
          let later : (prior (elem rc) (elem (at heap j))).0 ≡ false = ap (λ t. t.0) e in
          let compared = with_failed failed heap in
          let other = o.total rc (at heap j) rc_live picked.live later in
          let live = picked.live in
          let there = moved-Sifting prior elem n held rc heap s j inv picked.inside not_hole in
          inr (
            moved prior elem compared s j,
            refl,
            failing-Sifting compared.compare_failed n held rc (moved prior elem heap s j) j there,
            moved-Sinks (ground arith),
          )

      -- A round either ends the loop with the heap in order, or goes on below.
      pub place_lem : Placed (place prior elem rc heap s j)
      unfolding place
      place_lem = placed (over prior elem rc) (prior (elem rc) (elem (at heap j))) refl refl
