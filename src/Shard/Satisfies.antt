-- ===== src/Shard/Satisfies.antt =====
-- plugins/shard/sharding-parser.c: partition_satisfies against the keys of the partition.
use cetus.Common.{
  if◌then◌else◌, ℕ, Bool, true, false, ◌≡◌, refl, ap, arith, Option, none, some, List, ◌↔◌,
}
use cetus.Common.Int.{eqb_ℤ, ℤ, pos, ◌+ℤ◌, ◌≤ℤ◌, ◌<ℤ◌, eq_of_parts}
use cetus.Shard.Hash.{modulo, cetus_str_hash}
use cetus.Shard.Partition.{ShardingPartition, is_str, is_hash, contain_hash}
use cetus.Shard.Condition.{
  CompareOp, eq, ne, lt, le, gt, ge, Value, satisfies_num, satisfies_str, satisfies_hash,
  partition_satisfies, above_low, upto_high, hash_value,
}
use cetus.Shard.Order.{strcmp-flip, strcmp-eq, strcmp_trans}
use cetus.Shard.Rows.{compare_num, compare_str, key_meets, InPartition, Holds}

-- On whole numbers the test is exact: some key of (low, high] meets the condition.
satisfies_num_sound :
    (low high x v : ℤ) (op : CompareOp)
    → low <ℤ x
    → x ≤ℤ high
    → compare_num op x v ≡ true
    → satisfies_num low high op v ≡ true
unfolding satisfies_num ◌+ℤ◌
satisfies_num_sound low high x v eq h k m = ground arith
satisfies_num_sound low high x v ne h k m = ground arith
satisfies_num_sound low high x v op h k m = ground arith

-- A key of (low, high] that meets the condition, where there is one.
abbrev num_witness : ℤ → ℤ → CompareOp → ℤ → ℤ
num_witness low high eq v = v
num_witness low high gt v = high
num_witness low high ge v = high
num_witness low high lt v = low +ℤ pos 1
num_witness low high le v = low +ℤ pos 1
num_witness low high ne v = if eqb_ℤ v high then low +ℤ pos 1 else high

num_witness-meets :
    (low high v : ℤ) (op : CompareOp)
    → low <ℤ high
    → satisfies_num low high op v ≡ true
    → let x = num_witness low high op v in (low <ℤ x) × (x ≤ℤ high) × (compare_num op x v ≡ true)
unfolding satisfies_num ◌+ℤ◌
num_witness-meets low high v eq h m = ground arith
num_witness-meets low high v ne h m = ground arith
num_witness-meets low high v op h m = ground arith

satisfies_str_sound :
    (low high : Option (List ℕ)) (x v : List ℕ) (op : CompareOp)
    → above_low x low ≡ true
    → upto_high x high ≡ true
    → compare_str op x v ≡ true
    → satisfies_str low high op v ≡ true
unfolding satisfies_str
satisfies_str_sound low high x v eq h k m =
    let same : x ≡ v = strcmp-eq x v (ground arith) in rw (← same) (ground arith)
satisfies_str_sound low high x v ne h k m = refl
satisfies_str_sound low none x v gt h k m = refl
satisfies_str_sound low (some high) x v gt h k m =
    ground (arith, strcmp-flip v high, strcmp_trans v x high)
satisfies_str_sound none high x v lt h k m = refl
satisfies_str_sound (some low) high x v lt h k m =
    ground (arith, strcmp-flip x v, strcmp_trans low x v)
satisfies_str_sound low none x v ge h k m = refl
satisfies_str_sound low (some high) x v ge h k m =
    ground (arith, strcmp-flip x v, strcmp_trans high v x)
satisfies_str_sound none high x v le h k m = refl
satisfies_str_sound (some low) high x v le h k m = ground (arith, strcmp_trans low x v)

-- Equal keys have the same hash.
same_hash :
    (s : Bool) (x v : Value)
    → key_meets s eq x v ≡ true
    → (if s then pos (cetus_str_hash x.str) else x.num)
      ≡ (if s then pos (cetus_str_hash v.str) else v.num)
unfolding key_meets
same_hash true x v m = ap (λ k. pos (cetus_str_hash k)) (strcmp-eq x.str v.str (ground arith))
same_hash false x v m = eq_of_parts x.num v.num (ground arith)

satisfies_hash_sound :
    (p : ShardingPartition) (x v : Value) (op : CompareOp)
    → contain_hash p (modulo (hash_value p x) p.hash_count) ≡ true
    → key_meets (is_str p.key_type) op x v ≡ true
    → satisfies_hash p op (modulo (hash_value p v) p.hash_count) ≡ true
unfolding satisfies_hash hash_value
satisfies_hash_sound p x v eq h m = rw (← same_hash (is_str p.key_type) x v m) h
satisfies_hash_sound p x v ne h m = refl
satisfies_hash_sound p x v op h m = refl

module _ (p : ShardingPartition) (x v : Value) (op : CompareOp) where
  -- The three branches of the test, for the partition's method and type of keys.
  branch_sound :
      (b s : Bool)
      → is_str p.key_type ≡ s
      → Holds b s p x
      → key_meets s op x v ≡ true
      → (if b
          then satisfies_hash p op (modulo (hash_value p v) p.hash_count)
          else if s
          then satisfies_str p.low_value.str p.value.str op v.str
          else satisfies_num p.low_value.num p.value.num op v.num)
        ≡ true
  unfolding key_meets
  branch_sound true s e h m = satisfies_hash_sound p x v op h (rw e m)
  branch_sound false true e h m = satisfies_str_sound _ _ x.str v.str op h.0 h.1 m
  branch_sound false false e h m = satisfies_num_sound _ _ x.num v.num op h.0 h.1 m

  -- A partition that holds a key which meets the condition passes the test; this is so for hash
  -- partitions, and for ranges of numbers and of strings.
  pub partition_satisfies_sound :
      InPartition p x
      → key_meets (is_str p.key_type) op x v ≡ true
      → partition_satisfies p (record { op = op; v = v }) ≡ true
  unfolding partition_satisfies
  partition_satisfies_sound h m = branch_sound (is_hash p.method) (is_str p.key_type) refl h m

-- On a range of whole numbers that is not empty the test is exact: it passes if and only if some key of
-- (low, high] meets the condition.
pub satisfies_num-exact :
    (low high v : ℤ) (op : CompareOp)
    → low <ℤ high
    → (satisfies_num low high op v ≡ true)
      ↔ ((x : ℤ) × (low <ℤ x) × (x ≤ℤ high) × (compare_num op x v ≡ true))
satisfies_num-exact low high v op h = (
  λ e. let w = num_witness-meets low high v op h e in (num_witness low high op v, w.0, w.1, w.2),
  λ (x, above, below, m). satisfies_num_sound low high x v op above below m,
)
