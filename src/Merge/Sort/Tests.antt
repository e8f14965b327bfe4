-- ===== src/Merge/Sort/Tests.antt =====
-- src/resultset_merge.c: the heap of three servers, of which the last has no row.
use cetus.Common.{
  ℕ, zero, suc, ◌<◌, ◌≡◌, refl, sym, arith, ◌∙◌, Bool, true, false, ◌||◌, not, Option, none, some,
  List, [], ◌∷◌, ◌==◌, ◌⊎◌, inl, inr,
}
use cetus.Common.Int.{pos}
use cetus.Merge.Aggregate.{long, var_string}
use cetus.Merge.Columns.{
  OrderBy, TimeReaders, compare_value_from_records, column, read_after, skip_field, column_of,
  compare_value, c_string,
}
use cetus.Merge.Order.{
  Cache, get_field_offsets, max_pos, map_at, with_offset, noted, offset_after, offsets_loop,
  is_prior_to, prior_loop, compare_field, comparison, after_field,
}
use cetus.Merge.Compare.{
  compare_str_num_value, compare_padded, padding_zero, is_nil, check_bytes, check_str_num_supported,
  skip_zeros, cmp_bytes, all_zeros, cmp_frac, cmp_supported, cmp_str_pos_num, unsigned, cmp_str_num,
  zeros, with_point, pad_shorter, compare_result,
}
use cetus.Merge.Digits.{split_point}
use cetus.Wire.Strings.{get_column, get_str_len2}
use cetus.Wire.Decode.{get_lenenc_int, peek_int8, peek_int_len, or_bytes, skip, skip_lenenc_str}
use cetus.Merge.Heap.{HeapElement, HeapType, at, update, heap_adjust}
use cetus.Merge.Heap.Sift.{IsSound, count}
use cetus.Merge.Heap.Adjust.{heap_adjust_lem}
use cetus.Merge.Cache.{IsCoherent, Same, is_prior_to-Same}
use cetus.Merge.Heap.Order.{IsOrder, IsHeapFrom}
use cetus.Merge.Sort.{
  row_prior, element_prior, SortHeap, no_flags, fill, fill_one, create_heap_for_merge_sort,
  with_end, with_row, reset, is_end, created, compare_failed,
}
use cetus.Merge.Sort.Create.{IsCreated, create_heap_for_merge_sort_lem}

abbrev pub no_times : TimeReaders
no_times = record {
  year_month_day = λ s. (0, 0, 0);
  hour_min_sec = λ s. (0, 0, 0);
  atol = λ s. pos 0;
}

-- ORDER BY the second column, a number.
abbrev pub by_number : List OrderBy
by_number = record { desc = false; type = long; pos = 1 } ∷ []

-- The rows with the numbers 1 and 2.
abbrev pub row_of : Bool → List ℕ
row_of true = 4 ∷ 0 ∷ 0 ∷ 1 ∷ 1 ∷ 97 ∷ 1 ∷ 49 ∷ []
row_of false = 4 ∷ 0 ∷ 0 ∷ 1 ∷ 1 ∷ 97 ∷ 1 ∷ 50 ∷ []

pub row_table :
    (i j : ℕ) (a b : Bool)
    → (row_prior no_times by_number i j (some (row_of a)) (some (row_of b))).0 ≡ (a || not b)
unfolding row_prior is_prior_to prior_loop compare_field comparison after_field
    compare_value_from_records column read_after skip_field column_of compare_value c_string
    compare_str_num_value compare_padded padding_zero is_nil check_bytes check_str_num_supported
    skip_zeros cmp_bytes all_zeros cmp_frac cmp_supported cmp_str_pos_num unsigned cmp_str_num zeros
    with_point pad_shorter compare_result split_point get_column get_lenenc_int get_str_len2
    peek_int8 peek_int_len or_bytes skip skip_lenenc_str
row_table i j true true = refl
row_table i j true false = refl
row_table i j false true = refl
row_table i j false false = refl

pub row_decides :
    (i j : ℕ) (a b : Bool)
    → (row_prior no_times by_number i j (some (row_of a)) (some (row_of b))).2 ≡ false
unfolding row_prior is_prior_to prior_loop compare_field comparison after_field
    compare_value_from_records column read_after skip_field column_of compare_value c_string
    compare_str_num_value compare_padded padding_zero is_nil check_bytes check_str_num_supported
    skip_zeros cmp_bytes all_zeros cmp_frac cmp_supported cmp_str_pos_num unsigned cmp_str_num zeros
    with_point pad_shorter compare_result split_point get_column get_lenenc_int get_str_len2
    peek_int8 peek_int_len or_bytes skip skip_lenenc_str
row_decides i j true true = refl
row_decides i j true false = refl
row_decides i j false true = refl
row_decides i j false false = refl

-- Elements whose rows are of these two.
module _ (elem : ℕ → HeapElement) (f : ℕ → Bool)
    (rows : (p : ℕ) → (elem p).row ≡ some (row_of (f p))) where
  entry : (p q : ℕ) → (element_prior no_times by_number (elem p) (elem q)).0 ≡ (f p || not (f q))
  unfolding element_prior
  entry p q = rw (rows p, rows q) (row_table (elem p).index (elem q).index (f p) (f q))

  rows-IsOrder : IsOrder (element_prior no_times by_number) elem
  rows-IsOrder = record {
    total = λ p q lp lq h. ground (arith, entry p q, entry q p);
    trans = λ p q r lp lq lr h k. ground (arith, entry p q, entry q r, entry p r);
  }

abbrev pub eof : List ℕ
eof = 5 ∷ 0 ∷ 0 ∷ 2 ∷ 254 ∷ 0 ∷ 0 ∷ 2 ∷ 0 ∷ []

abbrev servers : ℕ → List (Option (List ℕ))
servers zero = some (row_of false) ∷ some eof ∷ []
servers (suc zero) = some (row_of true) ∷ []
servers (suc (suc i)) = some eof ∷ []

abbrev start : SortHeap
start = record {
  heap = record { element = 0 ∷ 1 ∷ 2 ∷ []; flags = λ p. no_flags; compare_failed = false };
  elem = λ p. record { row = some (row_of false); index = p; is_over = false; is_err = false };
  heap_is_err = false;
  err_pack = none;
}

abbrev filled_start : SortHeap
filled_start =
    with_end 2 eof
      (reset 2 (with_row 1 1 (row_of true) (reset 1 (with_row 0 0 (row_of false) (reset 0 start)))))

started : fill servers 3 0 start ≡ inr filled_start
unfolding fill fill_one is_end reset with_row with_end update
started = refl

filled_rows : (p : ℕ) → (filled_start.elem p).row ≡ some (row_of (p == 1))
unfolding reset with_row with_end update
filled_rows zero = refl
filled_rows (suc zero) = refl
filled_rows (suc (suc zero)) = refl
filled_rows (suc (suc (suc p))) = ground arith

own_addresses : (i : ℕ) → i < 3 → at start.heap i ≡ i
own_addresses zero h = refl
own_addresses (suc zero) h = refl
own_addresses (suc (suc zero)) h = refl
own_addresses (suc (suc (suc i))) h = absurd (omega arith)

create_heap_for_merge_sort_lem_example :
    (create_heap_for_merge_sort no_times by_number servers 3 start ≡ some compare_failed)
    ⊎ ((state2 : SortHeap) × (create_heap_for_merge_sort no_times by_number servers 3 start
          ≡ some (created state2))
        × IsCreated no_times by_number servers 3 start.heap.element state2)
create_heap_for_merge_sort_lem_example =
    create_heap_for_merge_sort_lem no_times by_number servers 3 start filled_start (omega arith)
      own_addresses started (rows-IsOrder filled_start.elem (λ p. p == 1) filled_rows)

-- The greatest row is on top of a heap that is in order otherwise.
abbrev top_wrong : HeapType
top_wrong = start.heap

abbrev elements : ℕ → HeapElement
elements p = record {
  row = some (row_of (not (p == 0)));
  index = p;
  is_over = false;
  is_err = false;
}

heap_adjust_lem_example :
    (heap' : HeapType) × (heap_adjust (element_prior no_times by_number) elements top_wrong 1 3
      ≡ some heap')
    × IsHeapFrom (element_prior no_times by_number) elements 0 3 (at heap')
    × IsSound (element_prior no_times by_number) elements 3 heap' (λ i. false)
    × ((p : ℕ) → count p heap'.element ≡ count p top_wrong.element)
heap_adjust_lem_example =
    heap_adjust_lem (element_prior no_times by_number) elements
      (rows-IsOrder elements (λ p. not (p == 0)) (λ p. refl)) 0 3 top_wrong 1 (omega arith)
      (omega arith)
      (record {
        long = omega arith;
        apart = λ i j hi hj e. sym (own_addresses i hi) ∙ e ∙ own_addresses j hj;
        cached = λ q small skip1 skip2 l1 l2 r1 r2 behind. absurd (ground arith);
      })
      (record {
        edges = λ c pc cn l ne. absurd (omega arith);
        bridged = λ c pc cn e ps l. absurd (omega arith);
      })

-- ORDER BY the second column, a string, where the offsets of the first server's row are remembered.
abbrev by_string : List OrderBy
by_string = record { desc = true; type = var_string; pos = 1 } ∷ []

abbrev next_rows : ℕ → List ℕ
next_rows index = row_of (index == 1)

abbrev remembered : Cache
remembered zero = 6
remembered (suc index) = 0

remembered-IsCoherent : IsCoherent no_times by_string next_rows remembered
unfolding get_field_offsets max_pos map_at with_offset noted offset_after offsets_loop
    skip_lenenc_str get_lenenc_int
remembered-IsCoherent zero = inr refl
remembered-IsCoherent (suc index) = inl refl

is_prior_to-Same_example :
    Same no_times by_string next_rows
      (is_prior_to no_times by_string 0 1 (next_rows 0) (next_rows 1) remembered)
      (is_prior_to no_times by_string 0 1 (next_rows 0) (next_rows 1) (λ index. 0))
is_prior_to-Same_example =
    is_prior_to-Same no_times by_string next_rows 0 1 remembered remembered-IsCoherent
