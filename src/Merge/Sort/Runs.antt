-- ===== src/Merge/Sort/Runs.antt =====
-- src/resultset_merge.c: do_sort_merge on the rows of two servers.
use cetus.Common.{
  ℕ, zero, suc, ◌≡◌, ◌≢◌, refl, arith, Bool, true, false, inr, Option, if◌then◌else◌, none, some,
  List, [], ◌∷◌, ◌==◌,
}
use cetus.Merge.Heap.{HeapElement}
use cetus.Merge.Sort.{row_prior, no_flags}
use cetus.Merge.Sort.Loop.{MergeState, MergeParameters, Round, Merged, do_sort_merge}
use cetus.Merge.Sort.Linked.{RowAt, IsLinked}
use cetus.Merge.Sort.Ends.{do_sort_merge_ends}
use cetus.Merge.Sort.Tests.{no_times, by_number, row_of, eof}

abbrev two_servers : MergeParameters
two_servers = record {
  order_array = by_number;
  len = 2;
  row_count = 10;
  offset = 0;
  is_distinct = false;
  merged_output_size = 1000;
}

-- The merge waits for server 0.
abbrev elements : ℕ → HeapElement
elements zero = record { row = none; index = 0; is_over = false; is_err = false }
elements (suc zero) = record {
  row = some (row_of false);
  index = 1;
  is_over = false;
  is_err = false;
}
elements (suc (suc p)) = record { row = none; index = 0; is_over = true; is_err = false }

abbrev begun : (ℕ → List (Option (List ℕ))) → MergeState
begun candidates = record {
  sort = record {
    heap = record { element = 0 ∷ 1 ∷ []; flags = λ p. no_flags; compare_failed = false };
    elem = elements;
    heap_is_err = false;
    err_pack = none;
  };
  candidates = candidates;
  field_offsets_cache = λ i. 0;
  row_cnter = 1;
  off_pos = 0;
  pkt_count = 5;
  aggr_output_len = 0;
  is_pack_err = false;
  output = [];
}

-- Both servers have a row.
abbrev both_ready : MergeState
both_ready = begun (λ i. some (row_of false) ∷ some eof ∷ [])

-- The rows of server 0 end.
abbrev end_came : MergeState
end_came = begun (λ i. if i == 0 then some eof ∷ [] else some (row_of false) ∷ some eof ∷ [])

abbrev IsRow : List ℕ → Type 0
IsRow r = (b : Bool) × (r ≡ row_of b)

abbrev leq : List ℕ → List ℕ → Bool
leq a b = (row_prior no_times by_number 0 1 (some a) (some b)).0

end_came-RowAt : (p : ℕ) → p ≢ 0 → RowAt 2 end_came p
end_came-RowAt zero ne = absurd (ne refl)
end_came-RowAt (suc zero) ne = λ live. record {
  item = row_of false;
  rest = some eof ∷ [];
  here = refl;
  row = refl;
  index = refl;
  server = omega arith;
}
end_came-RowAt (suc (suc p)) ne = λ live. absurd (ground arith)

end_came-IsLinked : IsLinked 2 end_came
end_came-IsLinked = record {
  some_server = omega arith;
  others = end_came-RowAt;
  first = inr (record {
    live = refl;
    no_record = refl;
    index = refl;
    server = omega arith;
    next = inr (eof, [], refl);
  });
}

do_sort_merge_ends_example : (m : Merged) × (do_sort_merge no_times two_servers 4 end_came ≡ some m)
do_sort_merge_ends_example = do_sort_merge_ends no_times two_servers end_came end_came-IsLinked
