-- ===== src/Shard/Partition.antt =====
-- src/sharding-config.h and .c, src/cetus-util.h: partitions of a virtual database, and the bit set of
-- hash values that a partition has.
use Prim.Native.Nat.{bit_or}
use cetus.Common.{
  ℕ, ◌/◌, ◌%◌, ◌^◌, Bool, true, false, Option, List, get_or, set, ◌==◌, if◌then◌else◌,
}
use cetus.Common.Int.{ℤ, pos, pos_part, leb_ℤ}

pub data ShardKeyType : Type 0 where
  unsupported int str date datetime : ShardKeyType

pub data ShardingMethod : Type 0 where
  unknown range hash list : ShardingMethod

abbrev pub is_str : ShardKeyType → Bool
is_str str = true
is_str _ = false

abbrev pub is_hash : ShardingMethod → Bool
is_hash hash = true
is_hash _ = false

-- The words of a BitArray.
abbrev pub test_bit : List ℕ → ℕ → Bool
test_bit a k = get_or a (k / 32) 0 / 2 ^ (k % 32) % 2 == 1

unfoldable pub set_bit : List ℕ → ℕ → List ℕ
set_bit a k = set a (k / 32) (bit_or (get_or a (k / 32) 0) (2 ^ (k % 32)))

-- `value` and `low_value` are pointers that hold an integer, unless the keys are strings: the integer is
-- `num` here, and the string `str`, where `none` is NULL.
pub record Bound : Type 0 where
  pub num : ℤ
  pub str : Option (List ℕ)

pub record ShardingPartition : Type 0 where
  pub value : Bound
  pub low_value : Bound
  pub hash_count : ℕ
  pub hash_set : List ℕ
  pub group_name : List ℕ
  pub method : ShardingMethod
  pub key_type : ShardKeyType

-- Called on partitions by hash only, as the source asserts. The result of `modulo` is never negative, so the position of its bit is `pos_part`.
unfoldable pub contain_hash : ShardingPartition → ℤ → Bool
contain_hash partition val =
    if leb_ℤ (pos partition.hash_count) val
    then false
    else test_bit partition.hash_set (pos_part val)
