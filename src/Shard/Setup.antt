-- ===== src/Shard/Setup.antt =====
-- src/sharding-config.c: the partitions of a virtual database, read from the configuration and set up.
use Prim.Native.Nat.{Ordering}
use cetus.Common.{
  ℕ, zero, suc, ◌-◌, ◌^◌, Bool, true, false, ◌&&◌, ◌||◌, not, Option, none, some, List, [], ◌∷◌,
  length, if◌then◌else◌, ◌==◌, ltb, leb,
}
use cetus.Common.Int.{ℤ, pos, negsuc, ltb_ℤ, eqb_ℤ}
use cetus.Shard.Partition.{
  ShardingPartition, Bound, ShardKeyType, date, datetime, int, ShardingMethod, range, is_str,
  is_hash, test_bit,
}
use cetus.Shard.Condition.{strcmp}

-- `logic_shard_num` is an int; it is not negative here.
pub record ShardingVdb : Type 0 where
  pub id : ℤ
  pub method : ShardingMethod
  pub key_type : ShardKeyType
  pub logic_shard_num : ℕ
  pub partitions : List ShardingPartition

abbrev pub max_hash_value_count : ℕ
max_hash_value_count = 1024

abbrev pub int_max : ℤ
int_max = pos (2 ^ 31 - 1)

abbrev pub int_min : ℤ
int_min = negsuc (2 ^ 31 - 1)

abbrev pub zero_words : ℕ → List ℕ
zero_words zero = []
zero_words (suc n) = 0 ∷ zero_words n

abbrev pub no_bound : Bound
no_bound = record { num = pos 0; str = none }

unfoldable pub sharding_partition_new : List ℕ → ShardingVdb → ShardingPartition
sharding_partition_new group vdb = record {
  value = no_bound;
  low_value = no_bound;
  hash_count = vdb.logic_shard_num;
  hash_set = zero_words 32;
  group_name = group;
  method = vdb.method;
  key_type = vdb.key_type;
}

-- glib's sort of an array of pointers, for a comparison function.
abbrev pub Sort : Type 0
Sort =
    (ShardingPartition → ShardingPartition → Ordering)
    → List ShardingPartition
    → List ShardingPartition

unfoldable pub cmp_shard_range_groups_int : ShardingPartition → ShardingPartition → Ordering
cmp_shard_range_groups_int item1 item2 =
    if ltb_ℤ item2.value.num item1.value.num
    then Ordering.gt
    else if eqb_ℤ item1.value.num item2.value.num
    then Ordering.eq
    else Ordering.lt

abbrev cmp_str : Option (List ℕ) → Option (List ℕ) → Ordering
cmp_str none s2 = Ordering.gt
cmp_str (some s1) none = Ordering.lt
cmp_str (some s1) (some s2) = strcmp s1 s2

unfoldable pub cmp_shard_range_groups_str : ShardingPartition → ShardingPartition → Ordering
cmp_shard_range_groups_str item1 item2 = cmp_str item1.value.str item2.value.str

-- The loop that records the lower bounds; `low_value` holds a string or a number.
unfoldable pub record_low :
    ShardKeyType → ℤ → Option (List ℕ) → List ShardingPartition → List ShardingPartition
record_low key_type prev_value prev_str [] = []
record_low key_type prev_value prev_str (part ∷ partitions) =
    record part {
      key_type = key_type;
      low_value =
          if is_str key_type
          then record { num = pos 0; str = prev_str }
          else record { num = prev_value; str = none };
    }
    ∷ record_low key_type part.value.num part.value.str partitions

unfoldable pub record_hash : ShardingVdb → List ShardingPartition → List ShardingPartition
record_hash vdb [] = []
record_hash vdb (part ∷ partitions) =
    record part { key_type = vdb.key_type; hash_count = vdb.logic_shard_num }
    ∷ record_hash vdb partitions

abbrev pub is_range : ShardingMethod → Bool
is_range range = true
is_range _ = false

abbrev pub has_num : ShardKeyType → Bool
has_num int = true
has_num datetime = true
has_num date = true
has_num _ = false

module _ (sort : Sort) where
  unfoldable pub setup_partitions : List ShardingPartition → ShardingVdb → List ShardingPartition
  setup_partitions partitions vdb =
      if is_range vdb.method
      then record_low vdb.key_type int_min none (
          if has_num vdb.key_type
          then sort cmp_shard_range_groups_int partitions
          else sort cmp_shard_range_groups_str partitions)
      else record_hash vdb partitions

-- Some partition has the hash value `j`: `value_set[j]` in the source.
unfoldable pub in_value_set : List ShardingPartition → ℕ → Bool
in_value_set [] j = false
in_value_set (part ∷ partitions) j = test_bit part.hash_set j || in_value_set partitions j

-- `value_set` is filled with 1.
unfoldable pub value_set_full : List ShardingPartition → ℕ → Bool
value_set_full partitions zero = true
value_set_full partitions (suc n) = in_value_set partitions n && value_set_full partitions n

unfoldable pub sharding_vdb_is_valid : Bool → ShardingVdb → ℕ → Bool
sharding_vdb_is_valid is_partition_mode vdb num_groups =
    if not is_partition_mode && not (length vdb.partitions == num_groups)
    then false
    else if is_hash vdb.method
    then if leb vdb.logic_shard_num 0 || ltb max_hash_value_count vdb.logic_shard_num
      then false
      else value_set_full vdb.partitions vdb.logic_shard_num
    else true
