-- ===== src/Merge/Sort/Next.antt =====
-- What do_sort_merge changes of the element on top, where it goes on to the server's next packet.
use cetus.Common.{
  ℕ, ◌≡◌, ◌≢◌, refl, arith, true, false, Option, some, List, ◌∷◌, if◌then◌else◌, ◌==◌, Bool-cases,
  inl, inr,
}
use cetus.Merge.Heap.{HeapType, update}
use cetus.Merge.Sort.{is_end, with_end}
use cetus.Merge.Sort.Loop.{MergeState, top, top_element, advance_top, look_at}

abbrev pub with_heap : MergeState → HeapType → MergeState
with_heap state heap = record state { sort = record state.sort { heap = heap } }

-- Only the element on top, and what is remembered of it, differs.
pub record TopChanged (state state' : MergeState) : Type 0 where
  pub same : state'.sort.heap.element ≡ state.sort.heap.element
  pub elem : (q : ℕ) → q ≢ top state → state'.sort.elem q ≡ state.sort.elem q
  pub flags : (q : ℕ) → q ≢ top state → state'.sort.heap.flags q ≡ state.sort.heap.flags q

abbrev pub next_state : MergeState → List ℕ → List (Option (List ℕ)) → MergeState
next_state state item rest = look_at item (advance_top (some item ∷ rest) state)

pub next-TopChanged :
    (state : MergeState) (item : List ℕ) (rest : List (Option (List ℕ)))
    → TopChanged state (next_state state item rest)
unfolding look_at advance_top with_end update
next-TopChanged state item rest = elim (Bool-cases (is_end item)) [
  | inl end ↦
      rw end (record { same = refl; elem = λ q h. ground arith; flags = λ q h. ground arith })
  | inr going ↦
      rw going (record { same = refl; elem = λ q h. ground arith; flags = λ q h. ground arith })
]

pub next-candidates :
    (state : MergeState) (item : List ℕ) (rest : List (Option (List ℕ))) (p : ℕ)
    → (next_state state item rest).candidates p
      ≡ (if p == (top_element state).index then some item ∷ rest else state.candidates p)
unfolding look_at advance_top
next-candidates state item rest p = elim (Bool-cases (is_end item)) [
  | inl end ↦ rw end refl
  | inr going ↦ rw going refl
]

-- The element on top, unless its server's rows have ended.
pub next-top :
    (state : MergeState) (item : List ℕ) (rest : List (Option (List ℕ)))
    → ((next_state state item rest).sort.elem (top state)).is_over ≡ false
    → (is_end item ≡ false)
      × (((next_state state item rest).sort.elem (top state)).row ≡ some item)
      × (((next_state state item rest).sort.elem (top state)).index ≡ (top_element state).index)
unfolding look_at advance_top with_end
next-top state item rest live = elim (Bool-cases (is_end item)) [
  | inl end ↦ absurd (ground arith)
  | inr going ↦ (going, rw going (ground arith), rw going (ground arith))
]

pub next-failed :
    (state : MergeState) (item : List ℕ) (rest : List (Option (List ℕ)))
    → (next_state state item rest).sort.heap.compare_failed ≡ state.sort.heap.compare_failed
unfolding look_at advance_top with_end
next-failed state item rest = elim (Bool-cases (is_end item)) [
  | inl end ↦ rw end refl
  | inr going ↦ rw going refl
]

-- The element on top is over only with a packet that ends the rows.
pub next-over :
    (state : MergeState) (item : List ℕ) (rest : List (Option (List ℕ)))
    → ((next_state state item rest).sort.elem (top state)).is_over ≡ true
    → is_end item ≡ true
unfolding look_at advance_top with_end
next-over state item rest over = elim (Bool-cases (is_end item)) [
  | inl end ↦ end
  | inr going ↦ absurd (ground arith)
]
