-- ===== src/Shard/Parse.antt =====
-- src/sharding-config.c: parse_partitions, from the object that the JSON reader has built.
use cetus.Common.{
  ℕ, Bool, true, false, ◌&&◌, Option, none, some, List, [], ◌∷◌, ◌++◌, if◌then◌else◌,
}
use cetus.Common.Int.{ℤ, pos, pos_part, ltb_ℤ, leb_ℤ}
use cetus.Shard.Partition.{ShardingPartition, Bound, ShardKeyType, date, datetime, is_str, set_bit}
use cetus.Shard.Filter.{Readers, chassis_epoch_from_string}
use cetus.Shard.Setup.{ShardingVdb, sharding_partition_new, int_max, no_bound}

-- The elements of an array; a number is whole.
pub data JsonElem : Type 0 where
  number : ℤ → JsonElem
  string : List ℕ → JsonElem
  other_elem : JsonElem

-- The value of a key of the object.
pub data JsonValue : Type 0 where
  null other_value : JsonValue
  number : ℤ → JsonValue
  string : List ℕ → JsonValue
  array : List JsonElem → JsonValue

abbrev is_date : ShardKeyType → Bool
is_date datetime = true
is_date date = true
is_date _ = false

-- If a date cannot be read the value stays as it was. A string
-- where the keys are numbers would leave its address as the bound; here it leaves 0.
module _ (readers : Readers) (vdb : ShardingVdb) where
  unfoldable pub string_bound : List ℕ → Bound
  string_bound s =
      if is_date vdb.key_type
      then elim (chassis_epoch_from_string readers s) [
        | none ↦ no_bound
        | some epoch ↦ record { num = epoch; str = none }
      ]
      else record { num = pos 0; str = some s }

  -- NULL stands for "unlimited" where the keys are strings.
  unfoldable pub null_bound : Bound
  null_bound = if is_str vdb.key_type then no_bound else record { num = int_max; str = none }

  -- Each number of the array that is in range sets its bit; other elements are passed over.
  unfoldable pub set_bits : List JsonElem → List ℕ → List ℕ
  set_bits [] hash_set = hash_set
  set_bits (JsonElem.number n ∷ elems) hash_set = set_bits elems (
      if leb_ℤ (pos 0) n && ltb_ℤ n (pos vdb.logic_shard_num)
      then set_bit hash_set (pos_part n)
      else hash_set)
  set_bits (_ ∷ elems) hash_set = set_bits elems hash_set

  -- The while loop over an array of strings; a node that is no string has no string to copy.
  unfoldable pub string_partitions : List ℕ → List JsonElem → List ShardingPartition
  string_partitions group [] = []
  string_partitions group (JsonElem.string s ∷ elems) =
      record (sharding_partition_new group vdb) { value = string_bound s }
      ∷ string_partitions group elems
  string_partitions group (_ ∷ elems) =
      sharding_partition_new group vdb ∷ string_partitions group elems

  -- The partitions of one key. `none` is the access through a NULL pointer that an empty array makes.
  unfoldable pub parse_value : List ℕ → JsonValue → Option (List ShardingPartition)
  parse_value group null =
      some (record (sharding_partition_new group vdb) { value = null_bound } ∷ [])
  parse_value group (JsonValue.number n) =
      some
        (record (sharding_partition_new group vdb) { value = record { num = n; str = none } } ∷ [])
  parse_value group (JsonValue.string s) =
      some (record (sharding_partition_new group vdb) { value = string_bound s } ∷ [])
  parse_value group (array []) = none
  parse_value group (array (JsonElem.number n ∷ elems)) =
      let item = sharding_partition_new group vdb in
      some (record item { hash_set = set_bits (JsonElem.number n ∷ elems) item.hash_set } ∷ [])
  parse_value group (array (JsonElem.string s ∷ elems)) =
      some (string_partitions group (JsonElem.string s ∷ elems))
  parse_value group (array (other_elem ∷ elems)) = some []
  parse_value group other_value = some []

  unfoldable pub parse_partitions :
      List (List ℕ × JsonValue) → List ShardingPartition → Option (List ShardingPartition)
  parse_partitions [] partitions = some partitions
  parse_partitions ((group, value) ∷ root) partitions = elim (parse_value group value) [
    | none ↦ none
    | some items ↦ parse_partitions root (partitions ++ items)
  ]
