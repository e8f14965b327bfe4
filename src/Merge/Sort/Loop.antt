-- ===== src/Merge/Sort/Loop.antt =====
-- src/resultset_merge.c, do_sort_merge and check_after_limit: the rows are taken off the heap one by one.
use cetus.Common.{
  ℕ, zero, suc, ◌+◌, ◌%◌, Bool, true, false, ◌&&◌, ◌||◌, not, Option, none, some, List, [], ◌∷◌,
  ◌++◌, set, if◌then◌else◌, ◌==◌, ltb, leb, add32,
}
use cetus.Wire.Encode.{get_packet_len}
use cetus.Merge.Columns.{OrderBy, TimeReaders}
use cetus.Merge.Order.{Cache, cache_set}
use cetus.Merge.Heap.{HeapElement, HeapType, at, update, heap_adjust}
use cetus.Merge.Sort.{element_prior, is_end, SortHeap, put, no_flags, with_end}

-- What goes to the client: a row is appended to the send queue, or send_part_content_to_client is called.
pub data Output : Type 0 where
  row : List ℕ → Output
  part : Output

-- `candidates i` is what has been read of server `i` from its candidate on; NULL is the empty list. What
-- comparisons put into `field_offsets_cache` is left out: is_prior_to gives the same without it (Merge/Cache).
pub record MergeState : Type 0 where
  pub sort : SortHeap
  pub candidates : ℕ → List (Option (List ℕ))
  pub field_offsets_cache : Cache
  pub row_cnter : ℕ
  pub off_pos : ℕ
  pub pkt_count : ℕ
  pub aggr_output_len : ℕ
  pub is_pack_err : Bool
  pub output : List Output

-- The arguments that a merge keeps: ORDER BY, the number of servers, LIMIT, whether rows that are equal are
-- left out, and merged_output_size.
pub record MergeParameters : Type 0 where
  pub order_array : List OrderBy
  pub len : ℕ
  pub row_count : ℕ
  pub offset : ℕ
  pub is_distinct : Bool
  pub merged_output_size : ℕ

abbrev pub top : MergeState → ℕ
top state = at state.sort.heap 0

abbrev pub top_element : MergeState → HeapElement
top_element state = state.sort.elem (top state)

-- `if (data->aggr_output_len >= merged_output_size)`
unfoldable pub send_part : MergeParameters → MergeState → MergeState
send_part parameters state =
    if leb parameters.merged_output_size state.aggr_output_len
    then record state { output = state.output ++ part ∷ []; aggr_output_len = 0 }
    else state

-- The packet is numbered and appended.
unfoldable pub send_row : List ℕ → MergeState → MergeState
send_row packet state = record state {
  aggr_output_len = state.aggr_output_len + get_packet_len packet;
  pkt_count = add32 state.pkt_count 1;
  output = state.output ++ row (set packet 3 (add32 state.pkt_count 1 % 256)) ∷ [];
  row_cnter = suc state.row_cnter;
}

abbrev pub is_server : Option ℕ → ℕ → Bool
is_server none index = false
is_server (some last) index = last == index

-- What happens to the row on top; with last_output_index, `none` for -1.
unfoldable pub put_out : MergeParameters → List ℕ → MergeState → Option ℕ → MergeState × Option ℕ
put_out parameters packet state last =
    let index = (top_element state).index in
    if parameters.is_distinct
      && (state.sort.heap.flags (top state)).is_dup
      && not (is_server last index)
    then (state, last)
    else if ltb state.off_pos parameters.offset
    then (record state { off_pos = suc state.off_pos }, last)
    else (send_part parameters (send_row packet state), some index)

-- `field_offsets[cand_index] = 0`
unfoldable pub forget_offsets : MergeState → MergeState
forget_offsets state = record state {
  field_offsets_cache = cache_set state.field_offsets_cache (top_element state).index 0;
}

abbrev pub behind_head : List (Option (List ℕ)) → List (Option (List ℕ))
behind_head [] = []
behind_head (packet ∷ candidates) = candidates

abbrev pub head_data : List (Option (List ℕ)) → Option (List ℕ)
head_data [] = none
head_data (packet ∷ candidates) = packet

-- The element on top goes on to the next packet of its server; `rest` is what stands behind its row.
unfoldable pub advance_top : List (Option (List ℕ)) → MergeState → MergeState
advance_top rest state =
    let p = top state in
    let e = top_element state in
    record state {
      sort = record state.sort {
        heap = record state.sort.heap { flags = update state.sort.heap.flags p no_flags };
        elem = put state.sort.elem p (record e { row = head_data rest; is_err = false });
      };
      candidates = λ i. if i == e.index then rest else state.candidates i;
    }

-- The next packet of the server ends its rows or is a row.
unfoldable pub look_at : List ℕ → MergeState → MergeState
look_at item state =
    let p = top state in
    if is_end item then record state { sort = with_end p item state.sort } else record state {
      sort = record state.sort {
        elem = put state.sort.elem p (record (top_element state) { is_over = false });
      };
    }

-- One round of the loop: it goes on, leaves the loop, waits for a server, or a comparison has failed.
pub data Round : Type 0 where
  goes_on : MergeState → Option ℕ → Round
  leaves : MergeState → Round
  waits_read : ℕ → MergeState → Round
  fails : Round

module _ (readers : TimeReaders) (parameters : MergeParameters) where
  abbrev pub adjust_top : MergeState → Option HeapType
  adjust_top state =
      heap_adjust (element_prior readers parameters.order_array) state.sort.elem state.sort.heap 1
        parameters.len

  -- `next` is what follows. `none` is that heap_adjust runs out of fuel, or that a NULL packet is read.
  unfoldable pub with_adjusted :
      (MergeState → Option Round) → MergeState → Option HeapType → Option Round
  with_adjusted next state none = none
  with_adjusted next state (some heap) =
      if heap.compare_failed
      then some fails
      else next (record state { sort = record state.sort { heap = heap } })

  unfoldable pub go_on : Option ℕ → List (Option (List ℕ)) → MergeState → Option Round
  go_on last [] state = some (waits_read (top_element state).index (send_part parameters state))
  go_on last (none ∷ rest) state =
      some (waits_read (top_element state).index (send_part parameters state))
  go_on last (some item ∷ rest) state =
      let seen = look_at item state in
      with_adjusted (λ state. some (goes_on state last)) seen (adjust_top seen)

  -- From the candidate on, which is the record on top.
  unfoldable pub take_row :
      Option ℕ → Option (List ℕ) → List (Option (List ℕ)) → MergeState → Option Round
  take_row last none candidates state = none
  take_row last (some packet) candidates state =
      let (out, last') = put_out parameters packet (forget_offsets state) last in
      let rest = behind_head candidates in go_on last' rest (advance_top rest out)

  -- `heap->element[0]->record == NULL`
  unfoldable pub refill : Option ℕ → List (Option (List ℕ)) → MergeState → Option Round
  refill last [] state = some (waits_read (top_element state).index state)
  refill last (packet ∷ rest) state =
      let p = top state in
      let filled = record state {
        sort = record state.sort {
          elem = put state.sort.elem p (record (top_element state) { row = packet });
        };
      } in
      with_adjusted
        (λ state.
          take_row last (top_element state).row (state.candidates (top_element state).index) state)
        filled (adjust_top filled)

  unfoldable pub start_round : Option ℕ → Option (List ℕ) → MergeState → Option Round
  start_round last none state = refill last (state.candidates (top_element state).index) state
  start_round last (some packet) state =
      take_row last (some packet) (state.candidates (top_element state).index) state

  unfoldable pub merge_round : Option ℕ → MergeState → Option Round
  merge_round last state =
      if leb parameters.row_count state.row_cnter
      then some (leaves state)
      else if (top_element state).is_over
      then some
          (leaves (record state { is_pack_err = state.is_pack_err || state.sort.heap_is_err }))
      else start_round last (top_element state).row state

-- check_after_limit, for one server: its candidates are dropped up to the end of its rows, or all that are
-- there, and then there is more to read.
unfoldable pub drain : List (Option (List ℕ)) → List (Option (List ℕ)) × Bool
drain [] = ([], true)
drain (none ∷ candidates) = (none ∷ candidates, true)
drain (some item ∷ candidates) =
    let rest = drain candidates in if is_end item then (some item ∷ candidates, false) else rest

unfoldable pub more_to_read : ℕ → (ℕ → List (Option (List ℕ))) → Bool
more_to_read zero candidates = false
more_to_read (suc len) candidates = more_to_read len candidates || (drain (candidates len)).1

unfoldable pub check_after_limit : ℕ → MergeState → Bool × MergeState
check_after_limit len state = (
  not (more_to_read len state.candidates),
  record state {
    candidates = λ i. if ltb i len then (drain (state.candidates i)).0 else state.candidates i;
  },
)

-- What do_sort_merge returns, 1 as `true`, with the state; or a comparison has failed.
pub data Merged : Type 0 where
  returned : Bool → MergeState → Merged
  merge_fails : Merged

-- Behind the loop.
unfoldable pub after_loop : MergeParameters → MergeState → Merged
after_loop parameters state =
    let (enough, drained) = check_after_limit parameters.len state in
    if ltb 0 parameters.row_count && leb parameters.row_count state.row_cnter
    then returned enough drained
    else returned true state

module _ (readers : TimeReaders) (parameters : MergeParameters) where
  -- `next` is the loop from the next round on.
  unfoldable pub after_round :
      (Option ℕ → MergeState → Option Merged) → Option Round → Option Merged
  after_round next none = none
  after_round next (some (goes_on state last)) = next last state
  after_round next (some (leaves state)) = some (after_loop parameters state)
  after_round next (some (waits_read index state)) = some (returned false state)
  after_round next (some fails) = some merge_fails

  unfoldable pub merge_loop : ℕ → Option ℕ → MergeState → Option Merged
  merge_loop zero last state = none
  merge_loop (suc fuel) last state =
      after_round (merge_loop fuel) (merge_round readers parameters last state)

  unfoldable pub do_sort_merge : ℕ → MergeState → Option Merged
  do_sort_merge fuel state = merge_loop fuel none state
