-- ===== src/Merge/Sort.antt =====
-- src/resultset_merge.c, create_heap_for_merge_sort and do_sort_merge: the rows of the servers are merged in the
-- order of ORDER BY.
pub mod Loop
pub mod Next
pub mod Round
pub mod Changed
pub mod Minimum
pub mod Output
pub mod Settle
pub mod Step
pub mod Take
pub mod Refill
pub mod Taking
pub mod Merging
pub mod Linked
pub mod Pending
pub mod Rounds
pub mod Ends
pub mod Fill
pub mod Create
mod Tests
mod Runs
use cetus.Common.{
  ℕ, zero, suc, ◌+◌, ◌-◌, ◌*◌, ◌/◌, ◌%◌, ◌^◌, Bool, true, false, ◌&&◌, ◌||◌, not, Option, none,
  some, List, [], ◌∷◌, ◌++◌, get_or, set, ◌⊎◌, inl, inr, if◌then◌else◌, ◌==◌, ltb, leb,
}
use cetus.Common.Int.{ℤ, pos, negsuc}
use cetus.Merge.Columns.{OrderBy, TimeReaders}
use cetus.Merge.Order.{Cache, is_prior_to}
use cetus.Merge.Heap.{HeapElement, HeapFlags, HeapType, at, update, heap_adjust}

-- The result of is_prior_to, `is_dup` and whether `compare_failed` is set. It does not return on `none`.
abbrev pub verdict : Option ((Bool × Bool × Bool) × Cache) → Bool × Bool × Bool
verdict none = (true, false, true)
verdict (some (v, cache)) = v

-- is_prior_to on the rows of two elements, with an empty cache; a NULL record is not read by the code.
unfoldable pub row_prior :
    TimeReaders → List OrderBy → ℕ → ℕ → Option (List ℕ) → Option (List ℕ) → Bool × Bool × Bool
row_prior readers order_array i1 i2 (some row1) (some row2) =
    verdict (is_prior_to readers order_array i1 i2 row1 row2 (λ _. 0))
row_prior readers order_array i1 i2 none row2 = (true, false, true)
row_prior readers order_array i1 i2 (some row1) none = (true, false, true)

unfoldable pub element_prior :
    TimeReaders → List OrderBy → HeapElement → HeapElement → Bool × Bool × Bool
element_prior readers order_array p q = row_prior readers order_array p.index q.index p.row q.row

abbrev pub packet_eof : ℕ
packet_eof = 254

abbrev pub packet_err : ℕ
packet_err = 255

abbrev pub get_pkt_type : List ℕ → ℕ
get_pkt_type pkt = get_or pkt 4 0

-- The packet ends the rows of its server.
unfoldable pub is_end : List ℕ → Bool
is_end item = get_pkt_type item == packet_eof || (get_pkt_type item == packet_err)

-- A heap with its elements. `heap_is_err` is `heap->is_err`.
pub record SortHeap : Type 0 where
  pub heap : HeapType
  pub elem : ℕ → HeapElement
  pub heap_is_err : Bool
  pub err_pack : Option (List ℕ)

abbrev pub put : (ℕ → HeapElement) → ℕ → HeapElement → ℕ → HeapElement
put elem p e q = if p == q then e else elem q

-- `is_dup`, `refreshed` and `is_prior_to` of an element, which are zero.
abbrev pub no_flags : HeapFlags
no_flags = record { is_prior_to = pos 0; refreshed = false; is_dup = false }

-- The element `p` is over.
unfoldable pub with_end : ℕ → List ℕ → SortHeap → SortHeap
with_end p item state =
    let err = get_pkt_type item == packet_err in
    record state {
      elem = put state.elem p (record (state.elem p) { is_over = true; is_err = err });
      heap_is_err = state.heap_is_err || err;
      err_pack = if err then some item else state.err_pack;
    }

unfoldable pub with_row : ℕ → ℕ → List ℕ → SortHeap → SortHeap
with_row p index item state = record state {
  elem =
      put state.elem p (record { row = some item; index = index; is_over = false; is_err = false });
}

unfoldable pub reset : ℕ → SortHeap → SortHeap
reset p state = record state {
  heap = record state.heap { flags = update state.heap.flags p no_flags };
  elem = put state.elem p (record (state.elem p) { is_err = false });
}

-- `none` is a candidate without data, for which the code waits.
unfoldable pub fill_one : ℕ → ℕ → List (Option (List ℕ)) → SortHeap → Option SortHeap
fill_one p iter [] state = some (reset p state)
fill_one p iter (none ∷ candidates) state = none
fill_one p iter (some item ∷ candidates) state =
    some (
      if is_end item then with_end p item (reset p state) else with_row p iter item (reset p state))

-- What create_heap_for_merge_sort does: it is done, it waits for a server, or a comparison has failed.
pub data Created : Type 0 where
  created : SortHeap → Created
  waits_for : ℕ → Created
  compare_failed : Created

abbrev pub after_fill : (SortHeap → ℕ ⊎ SortHeap) → ℕ → Option SortHeap → ℕ ⊎ SortHeap
after_fill next iter none = inl iter
after_fill next iter (some state) = next state

-- The first loop. `inl` is the server it waits for.
unfoldable pub fill : (ℕ → List (Option (List ℕ))) → ℕ → ℕ → SortHeap → ℕ ⊎ SortHeap
fill candidates zero iter state = inr state
fill candidates (suc rounds) iter state =
    after_fill (fill candidates rounds (suc iter)) iter
      (fill_one (at state.heap iter) iter (candidates iter) state)

module _ (readers : TimeReaders) (order_array : List OrderBy) where
  -- `next` is the loop from the next round on. `none` is that a heap_adjust runs out of fuel.
  unfoldable pub after_adjust : (HeapType → Option HeapType) → Option HeapType → Option HeapType
  after_adjust next none = none
  after_adjust next (some heap) = if heap.compare_failed then some heap else next heap

  unfoldable pub adjust_all : (ℕ → HeapElement) → ℕ → ℕ → HeapType → Option HeapType
  adjust_all elem len zero heap = some heap
  adjust_all elem len (suc k) heap =
      after_adjust (adjust_all elem len k)
        (heap_adjust (element_prior readers order_array) elem heap (suc k) len)

  abbrev pub with_heap : SortHeap → Option HeapType → Option Created
  with_heap state none = none
  with_heap state (some heap) =
      some (if heap.compare_failed then compare_failed else created (record state { heap = heap }))

  abbrev pub then_adjust : ℕ → ℕ ⊎ SortHeap → Option Created
  then_adjust len (inl iter) = some (waits_for iter)
  then_adjust len (inr state) = with_heap state (adjust_all state.elem len (len / 2) state.heap)

  unfoldable pub create_heap_for_merge_sort :
      (ℕ → List (Option (List ℕ))) → ℕ → SortHeap → Option Created
  create_heap_for_merge_sort candidates len state = then_adjust len (fill candidates len 0 state)
