-- ===== src/Merge/Sort/Create.antt =====
-- create_heap_for_merge_sort makes a heap of the servers' next rows.
use cetus.Common.{
  subst, ℕ, zero, suc, ◌+◌, ◌-◌, ◌*◌, ◌/◌, ◌≤◌, ◌<◌, ◌≡◌, refl, sym, ap, arith, ◌∙◌, Bool, true,
  false, Option, some, List, length, get_or, ◌==◌, Bool-cases, ◌⊎◌, inl, inr,
}
use cetus.Merge.Columns.{OrderBy, TimeReaders}
use cetus.Merge.Heap.{HeapElement, HeapType, at, is_behind}
use cetus.Merge.Heap.Order.{IsOrder, Sinks, IsHeapFrom}
use cetus.Merge.Heap.Sift.{IsSound, count}
use cetus.Merge.Heap.Adjust.{heap_adjust_lem}
use cetus.Merge.Sort.{
  SortHeap, created, compare_failed, element_prior, adjust_all, after_adjust,
  create_heap_for_merge_sort, fill, no_flags,
}
use cetus.Merge.Sort.Fill.{Fronts, Filled, fill-Filled}

module _ (readers : TimeReaders) (order_array : List OrderBy) (elem : ℕ → HeapElement) where
  abbrev prior : HeapElement → HeapElement → Bool × Bool × Bool
  prior = element_prior readers order_array

  -- All the edges from `k` on are in order, so only the hole at `k` may be out of order.
  next-Sinks : (k n : ℕ) (v : ℕ → ℕ) → IsHeapFrom prior elem (suc k) n v → Sinks prior elem k n v k
  next-Sinks k n v h = record {
    edges = λ c pc cn l ne. h c pc cn (omega arith);
    bridged = λ c pc cn e pk l. absurd (omega arith);
  }

  leaves-IsHeapFrom : (n : ℕ) (v : ℕ → ℕ) → IsHeapFrom prior elem (n / 2) n v
  leaves-IsHeapFrom n v c pc cn l = absurd (omega arith)

  Adjusted : ℕ → HeapType → HeapType → Type 0
  Adjusted n heap heap' =
      (heap'.compare_failed ≡ true)
      ⊎ (IsHeapFrom prior elem 0 n (at heap')
          × IsSound prior elem n heap' (λ i. false)
          × ((p : ℕ) → count p heap'.element ≡ count p heap.element))

  weaker :
      (n : ℕ) (heap : HeapType) (skip : ℕ → Bool)
      → IsSound prior elem n heap (λ i. false)
      → IsSound prior elem n heap skip
  weaker n heap skip sound = record {
    long = sound.long;
    apart = sound.apart;
    cached = λ q small skip1 skip2. sound.cached q small refl refl;
  }

  module _ (o : IsOrder prior elem) (n : ℕ) where
    adjust_all_lem :
        (k : ℕ) (heap : HeapType)
        → k ≤ n
        → IsSound prior elem n heap (λ i. false)
        → IsHeapFrom prior elem k n (at heap)
        → (heap' : HeapType) × (adjust_all readers order_array elem n k heap ≡ some heap')
          × Adjusted n heap heap'
    unfolding adjust_all after_adjust Adjusted
    adjust_all_lem zero heap h sound order = (heap, refl, inr (order, sound, λ p. refl))
    adjust_all_lem (suc k) heap h sound order =
        let (heap1, run, order1, sound1, counts1) =
          heap_adjust_lem prior elem o k n heap (suc k) (omega arith) h
            (weaker n heap (λ i. i == suc k - 1) sound)
            (subst (Sinks prior elem k n (at heap)) (omega arith)
              (next-Sinks k n (at heap) order)) in
        elim (Bool-cases heap1.compare_failed) [
          | inl failed ↦ (heap1, rw (run, failed) refl, inl failed)
          | inr fine ↦
              let (heap2, run2, result) = adjust_all_lem k heap1 (omega arith) sound1 order1 in
              rw (run, fine)
                (
                  heap2,
                  run2,
                  elim result [
                    | inl failed ↦ inl failed
                    | inr (order2, sound2, counts2) ↦
                        inr (order2, sound2, λ p. counts2 p ∙ counts1 p)
                  ],
                )
        ]

module _ (readers : TimeReaders) (order_array : List OrderBy) where
  -- The elements with their own addresses and without remembered comparisons.
  fresh-IsSound :
      (candidates : ℕ → List (Option (List ℕ))) (elements : List ℕ) (n : ℕ) (state : SortHeap)
      → Filled candidates elements n state
      → length elements ≡ n
      → ((i : ℕ) → i < n → get_or elements i 0 ≡ i)
      → IsSound (element_prior readers order_array) state.elem n state.heap (λ i. false)
  fresh-IsSound candidates elements n state filled long own = record {
    long = rw filled.same long;
    apart = λ i j hi hj e. sym (own' i hi) ∙ e ∙ own' j hj;
    cached = λ q small skip1 skip2 l1 l2 r1 r2 behind.
        let untouched : state.heap.flags (at state.heap (2 * q + 1)) ≡ no_flags =
          ap state.heap.flags (own' (2 * q + 1) (omega arith))
          ∙ filled.flags (2 * q + 1) (omega arith) in
        let no_way : is_behind no_flags ≡ true = rw untouched at behind in absurd (ground arith);
  }
    where
      own' : (i : ℕ) → i < n → at state.heap i ≡ i
      own' i h = ap (λ xs. get_or xs i 0) filled.same ∙ own i h

  -- A heap in order with the next row of every server, in which every element is once.
  pub record IsCreated (candidates : ℕ → List (Option (List ℕ))) (n : ℕ) (elements : List ℕ)
      (state : SortHeap) : Type 0 where
    pub fronts : (i : ℕ) → i < n → Fronts (candidates i) i (state.elem i)
    pub order : IsHeapFrom (element_prior readers order_array) state.elem 0 n (at state.heap)
    pub sound : IsSound (element_prior readers order_array) state.elem n state.heap (λ i. false)
    pub counted : (p : ℕ) → count p state.heap.element ≡ count p elements

  -- For a heap of `n` elements, each at its own address, where no server has to be waited for, and
  -- is_prior_to is total and transitive on the rows that are filled in and not over:
  -- create_heap_for_merge_sort fails in a comparison, or makes a heap in order, in which every element
  -- stands once and has the first row of its server or is over with it, and whose remembered comparisons
  -- hold.
  pub create_heap_for_merge_sort_lem :
      (candidates : ℕ → List (Option (List ℕ))) (n : ℕ) (state state' : SortHeap)
      → length state.heap.element ≡ n
      → ((i : ℕ) → i < n → at state.heap i ≡ i)
      → fill candidates n 0 state ≡ inr state'
      → IsOrder (element_prior readers order_array) state'.elem
      → (create_heap_for_merge_sort readers order_array candidates n state ≡ some compare_failed)
        ⊎ ((state2 : SortHeap) × (create_heap_for_merge_sort readers order_array candidates n state
              ≡ some (created state2))
            × IsCreated candidates n state.heap.element state2)
  unfolding create_heap_for_merge_sort Adjusted
  create_heap_for_merge_sort_lem candidates n state state' long own run o =
      let filled = fill-Filled candidates n state state' own run in
      let sound = fresh-IsSound candidates state.heap.element n state' filled long own in
      let (heap, adjusted, result) =
        adjust_all_lem readers order_array state'.elem o n (n / 2) state'.heap (omega arith) sound
          (leaves-IsHeapFrom readers order_array state'.elem n (at state'.heap)) in
      elim (Bool-cases heap.compare_failed) [
        | inl failed ↦ inl (rw (run, adjusted, failed) refl)
        | inr fine ↦ elim result [
          | inl failed ↦ absurd (ground arith)
          | inr (order, sound', counts) ↦ inr (
            record state' { heap = heap },
            rw (run, adjusted, fine) refl,
            record {
              fronts = filled.fronts;
              order = order;
              sound = sound';
              counted = λ p. counts p ∙ ap (count p) filled.same;
            },
          )
        ]
      ]
