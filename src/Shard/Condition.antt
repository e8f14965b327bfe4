-- ===== src/Shard/Condition.antt =====
-- plugins/shard/sharding-parser.c: the test whether a partition has a key that meets a condition.
use Prim.Native.Nat.{compare, Ordering}
use cetus.Common.{ℕ, Bool, true, false, ◌&&◌, not, Option, none, some, List, [], ◌∷◌, if◌then◌else◌}
use cetus.Common.Int.{ℤ, pos, ◌+ℤ◌, ltb_ℤ, leb_ℤ, eqb_ℤ}
use cetus.Shard.Hash.{cetus_str_hash, modulo}
use cetus.Shard.Partition.{ShardingPartition, contain_hash, is_str, is_hash}

-- TK_EQ, TK_NE, TK_LT, TK_LE, TK_GT, TK_GE.
pub data CompareOp : Type 0 where
  eq ne lt le gt ge : CompareOp

-- The union `v` of a condition, and a key: the member `str` is the one in use for string keys.
pub record Value : Type 0 where
  pub num : ℤ
  pub str : List ℕ

pub record Condition : Type 0 where
  pub op : CompareOp
  pub v : Value

-- libc's comparison of two strings, by their bytes.
unfoldable pub strcmp : List ℕ → List ℕ → Ordering
strcmp [] [] = Ordering.eq
strcmp [] (y ∷ t) = Ordering.lt
strcmp (x ∷ s) [] = Ordering.gt
strcmp (x ∷ s) (y ∷ t) = let rest = strcmp s t in elim (compare x y) [ Ordering.eq ↦ rest | o ↦ o ]

abbrev pub is_lt : Ordering → Bool
is_lt Ordering.lt = true
is_lt _ = false

abbrev pub is_gt : Ordering → Bool
is_gt Ordering.gt = true
is_gt _ = false

-- `low == NULL || strcmp (val, low) > 0`, and `high == NULL || strcmp (val, high) < 0` or `<= 0`.
abbrev pub above_low : List ℕ → Option (List ℕ) → Bool
above_low val none = true
above_low val (some low) = is_gt (strcmp val low)

abbrev pub below_high : List ℕ → Option (List ℕ) → Bool
below_high val none = true
below_high val (some high) = is_lt (strcmp val high)

abbrev pub upto_high : List ℕ → Option (List ℕ) → Bool
upto_high val none = true
upto_high val (some high) = not (is_gt (strcmp val high))

unfoldable pub hash_value : ShardingPartition → Value → ℤ
hash_value partition v = if is_str partition.key_type then pos (cetus_str_hash v.str) else v.num

unfoldable pub satisfies_hash : ShardingPartition → CompareOp → ℤ → Bool
satisfies_hash partition eq hash_mod = contain_hash partition hash_mod
satisfies_hash partition _ hash_mod = true

unfoldable pub satisfies_str : Option (List ℕ) → Option (List ℕ) → CompareOp → List ℕ → Bool
satisfies_str low high eq val = above_low val low && upto_high val high
satisfies_str low high gt val = below_high val high
satisfies_str low high lt val = above_low val low
satisfies_str low high ge val = upto_high val high
satisfies_str low high le val = above_low val low
satisfies_str low high ne val = true

unfoldable pub satisfies_num : ℤ → ℤ → CompareOp → ℤ → Bool
satisfies_num low high eq val = ltb_ℤ low val && leb_ℤ val high
satisfies_num low high gt val = ltb_ℤ val high
satisfies_num low high lt val = ltb_ℤ (low +ℤ pos 1) val
satisfies_num low high ge val = leb_ℤ val high
satisfies_num low high le val = ltb_ℤ low val
satisfies_num low high ne val = if eqb_ℤ val high && eqb_ℤ high (low +ℤ pos 1) then false else true

unfoldable pub partition_satisfies : ShardingPartition → Condition → Bool
partition_satisfies partition cond =
    if is_hash partition.method
    then satisfies_hash partition cond.op
        (modulo (hash_value partition cond.v) partition.hash_count)
    else if is_str partition.key_type
    then satisfies_str partition.low_value.str partition.value.str cond.op cond.v.str
    else satisfies_num partition.low_value.num partition.value.num cond.op cond.v.num
