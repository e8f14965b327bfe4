-- ===== src/Shard/Tests.antt =====
-- plugins/shard/sharding-parser.c and src/sharding-config.c: runs on small configurations.
use Prim.Native.Nat.{Ordering}
use cetus.Common.{
  All, ℕ, true, false, ◌≡◌, ◌≢◌, refl, arith, none, some, List, [], ◌∷◌, Elem, inl, inr, ◌⊎◌, ◌↔◌,
}
use cetus.Common.Int.{ℤ, pos, ◌<ℤ◌, ◌≤ℤ◌}
use cetus.Shard.Partition.{ShardingPartition, int, str, range, hash}
use cetus.Shard.Condition.{lt, le, gt, ge, Value, partition_satisfies, satisfies_num}
use cetus.Shard.Filter.{
  Readers, ok, stuck, Operand, partitions_filter, partitions_filter_inequation_expr,
  expr_parse_sharding_value, get_int, partitions_get,
}
use cetus.Shard.Where.{
  Expr, and, compare, Flags, filter_loop, filter_leaf, partitions_filter_expr, size,
}
use cetus.Shard.Setup.{
  record_low, ShardingVdb, Sort, setup_partitions, record_hash, sharding_vdb_is_valid, in_value_set,
  value_set_full, cmp_shard_range_groups_int, zero_words,
}
use cetus.Shard.Rows.{Row, InPartition, compare_num, key_meets, meets, literal, TimesFit}
use cetus.Shard.Satisfies.{partition_satisfies_sound, satisfies_num-exact}
use cetus.Shard.Sound.{partitions_filter_expr_sound}
use cetus.Shard.Ends.{partitions_filter_expr_ends}
use cetus.Shard.Lookup.{equal_to, partitions_get_lem}
use cetus.Shard.Ranges.{setup_partitions_one, IsSort, setup_partitions-covers}
use cetus.Shard.Buckets.{setup_partitions-hash_covers}

-- The keys of (low, high].
abbrev piece : ℤ → ℤ → ShardingPartition
piece low high = record {
  value = record { num = high; str = none };
  low_value = record { num = low; str = none };
  hash_count = 0;
  hash_set = zero_words 32;
  group_name = [];
  method = range;
  key_type = int;
}

abbrev low_piece : ShardingPartition
low_piece = piece (pos 0) (pos 100)

abbrev high_piece : ShardingPartition
high_piece = piece (pos 100) (pos 200)

abbrev key : ℕ → Value
key n = record { num = pos n; str = [] }

partition_satisfies_sound_example :
    partition_satisfies high_piece (record { op = ge; v = key 150 }) ≡ true
unfolding key_meets
partition_satisfies_sound_example =
    partition_satisfies_sound high_piece (key 160) (key 150) ge (omega arith, omega arith) refl

satisfies_num-exact_example :
    (satisfies_num (pos 0) (pos 100) lt (pos 1) ≡ true)
    ↔ ((x : ℤ) × (pos 0 <ℤ x) × (x ≤ℤ pos 100) × (compare_num lt x (pos 1) ≡ true))
satisfies_num-exact_example = satisfies_num-exact (pos 0) (pos 100) (pos 1) lt (omega arith)

-- A reader that refuses all strings.
abbrev no_readers : Readers
no_readers = record {
  strtoll = λ s. (pos 0, 0, false);
  strptime = λ f s. none;
  mktime = λ t. pos 0;
}

-- `id > 100 AND id <= 150`
abbrev on_key : Flags
on_key = record { shard_cond = true; join_link = false }

abbrev clause : Expr
clause =
    and (compare 0 on_key gt (Operand.integer (pos 100)))
      (compare 1 on_key le (Operand.integer (pos 150)))

abbrev a_row : Row
a_row = record { key = key 120; truth = λ id. false }

clause_kept :
    partitions_filter_expr no_readers (low_piece ∷ high_piece ∷ []) clause ≡ ok (high_piece ∷ [])
unfolding partitions_filter_expr filter_loop size filter_leaf partitions_filter_inequation_expr
    expr_parse_sharding_value get_int partitions_filter partition_satisfies satisfies_num
clause_kept = refl

clause_met : meets no_readers int a_row clause ≡ true
unfolding meets key_meets literal
clause_met = refl

clause_fits : TimesFit no_readers int clause
clause_fits = (λ v h e. absurd (ground arith), λ v h e. absurd (ground arith))

partitions_filter_expr_sound_example : Elem high_piece (high_piece ∷ [])
partitions_filter_expr_sound_example =
    partitions_filter_expr_sound no_readers int a_row high_piece (low_piece ∷ high_piece ∷ [])
      (high_piece ∷ []) clause (refl, (refl, tt)) (inr (inl refl)) (omega arith, omega arith)
      clause_fits clause_met clause_kept

partitions_filter_expr_ends_example :
    partitions_filter_expr no_readers (low_piece ∷ high_piece ∷ []) clause ≢ stuck
partitions_filter_expr_ends_example =
    partitions_filter_expr_ends no_readers (low_piece ∷ high_piece ∷ []) clause

partitions_get_lem_example :
    ((p : ShardingPartition) × (partitions_get (low_piece ∷ high_piece ∷ []) (equal_to (key 120))
        ≡ some p)
      × Elem p (low_piece ∷ high_piece ∷ [])
      × InPartition p (key 120))
    ⊎ ((partitions_get (low_piece ∷ high_piece ∷ []) (equal_to (key 120)) ≡ none)
        × All (λ p. ¬ InPartition p (key 120)) (low_piece ∷ high_piece ∷ []))
partitions_get_lem_example = partitions_get_lem (low_piece ∷ high_piece ∷ []) (key 120)

-- An insertion sort.
abbrev insert :
    (ShardingPartition → ShardingPartition → Ordering)
    → ShardingPartition
    → List ShardingPartition
    → List ShardingPartition
insert cmp p [] = p ∷ []
insert cmp p (q ∷ ps) =
    let rest = insert cmp p ps in elim (cmp p q) [ Ordering.gt ↦ q ∷ rest | _ ↦ p ∷ q ∷ ps ]

abbrev insertion_sort : Sort
insertion_sort cmp [] = []
insertion_sort cmp (p ∷ ps) = insert cmp p (insertion_sort cmp ps)

abbrev two_pieces : List ShardingPartition
two_pieces = high_piece ∷ low_piece ∷ []

insertion_sort-IsSort : IsSort insertion_sort two_pieces
unfolding cmp_shard_range_groups_int
insertion_sort-IsSort = ((λ e. cc, tt), λ p. (swap p, swap_back p))
  where
    swap : (p : ShardingPartition) → Elem p two_pieces → Elem p (low_piece ∷ high_piece ∷ [])
    swap p (inl e) = inr (inl e)
    swap p (inr (inl e)) = inl e
    swap p (inr (inr m)) = absurd m

    swap_back : (p : ShardingPartition) → Elem p (low_piece ∷ high_piece ∷ []) → Elem p two_pieces
    swap_back p (inl e) = inr (inl e)
    swap_back p (inr (inl e)) = inl e
    swap_back p (inr (inr m)) = absurd m

abbrev range_vdb : ShardingVdb
range_vdb = record {
  id = pos 1;
  method = range;
  key_type = int;
  logic_shard_num = 0;
  partitions = [];
}

setup_partitions-covers_example :
    (p : ShardingPartition) × Elem p (setup_partitions insertion_sort two_pieces range_vdb)
    × InPartition p (key 120)
setup_partitions-covers_example =
    setup_partitions-covers insertion_sort range_vdb two_pieces (key 120) insertion_sort-IsSort refl
      refl (refl, (refl, tt)) high_piece (omega arith) (inl refl) (omega arith)

-- The piece from 100 on is set up behind the other.
abbrev second_piece : ShardingPartition
second_piece = piece (pos 100) (pos 200)

second_piece_set_up : Elem second_piece (setup_partitions insertion_sort two_pieces range_vdb)
unfolding setup_partitions record_low cmp_shard_range_groups_int
second_piece_set_up = inr (inl refl)

setup_partitions_one_example : second_piece ≡ second_piece
setup_partitions_one_example =
    setup_partitions_one insertion_sort range_vdb two_pieces (key 120) insertion_sort-IsSort refl
      refl (refl, (refl, tt)) second_piece second_piece (omega arith, (omega arith, tt))
      second_piece_set_up second_piece_set_up (omega arith, omega arith) (omega arith, omega arith)

abbrev hash_vdb : ShardingVdb
hash_vdb = record {
  id = pos 1;
  method = hash;
  key_type = str;
  logic_shard_num = 2;
  partitions = [];
}

abbrev bucket : ℕ → ShardingPartition
bucket word = record low_piece { method = hash; hash_set = word ∷ [] }

abbrev buckets : List ShardingPartition
buckets = bucket 1 ∷ bucket 2 ∷ []

buckets_valid :
    sharding_vdb_is_valid true
      (record hash_vdb { partitions = setup_partitions insertion_sort buckets hash_vdb })
      2
    ≡ true
unfolding sharding_vdb_is_valid setup_partitions record_hash value_set_full in_value_set
buckets_valid = refl

setup_partitions-hash_covers_example :
    (p : ShardingPartition) × Elem p (setup_partitions insertion_sort buckets hash_vdb)
    × InPartition p (record { num = pos 0; str = 104 ∷ [] })
setup_partitions-hash_covers_example =
    setup_partitions-hash_covers insertion_sort true hash_vdb buckets 2
      (record { num = pos 0; str = 104 ∷ [] }) refl (refl, (refl, tt)) buckets_valid
