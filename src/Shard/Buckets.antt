-- ===== src/Shard/Buckets.antt =====
-- plugins/shard/sharding-parser.c and src/sharding-config.c: the bucket of a key, and a valid database has
-- a partition for every bucket.
use cetus.Common.{
  ℕ, zero, suc, ◌+◌, ◌-◌, ◌*◌, ◌/◌, ◌%◌, ◌<◌, Bool, true, false, ◌≡◌, refl, ap, arith, inl, inr,
  none, List, [], ◌∷◌, All, Elem, Bool-cases, &&-true, ||-true, if◌then◌else◌, ◌==◌,
}
use cetus.Common.Int.{ℤ, pos, negsuc, neg, leb_ℤ, ◌+ℤ◌}
use cetus.Shard.Hash.{modulo, cetus_str_hash}
use cetus.Shard.Partition.{ShardingPartition, hash, is_str, is_hash, test_bit, contain_hash}
use cetus.Shard.Condition.{Value, hash_value}
use cetus.Shard.Setup.{
  ShardingVdb, Sort, setup_partitions, record_hash, in_value_set, value_set_full,
  sharding_vdb_is_valid, is_range, has_num, int_min, record_low, cmp_shard_range_groups_int,
  cmp_shard_range_groups_str,
}
use cetus.Shard.Rows.{InPartition}

-- Two integers differ by a multiple of `b`.
abbrev pub Congruent : ℕ → ℤ → ℕ → Type 0
Congruent b (pos n) r = (q : ℕ) × (n ≡ b * q + r)
Congruent b (negsuc n) r = (q : ℕ) × (suc n + r ≡ b * q)

-- For a positive divisor `modulo` gives the one number from 0 up to the divisor that is congruent to its
-- argument, also for a negative argument.
pub modulo_lem :
    (a : ℤ) (b : ℕ) → 0 < b → (r : ℕ) × (modulo a b ≡ pos r) × (r < b) × Congruent b a r
unfolding modulo ◌+ℤ◌ neg
modulo_lem (pos n) b h = (n % b, ground arith, ground arith, (n / b, ground arith))
modulo_lem (negsuc n) b h = elim (Bool-cases (leb_ℤ (pos (suc n % b)) (pos 0))) [
  | inl whole ↦ (0, ground arith, ground arith, (suc n / b, ground arith))
  | inr part ↦ (b - suc n % b, ground arith, ground arith, (suc n / b + 1, ground arith))
]

false-true : {A : Type 0} → false ≡ true → A
false-true h = cc

value_set_full-in :
    (ps : List ShardingPartition) (n j : ℕ)
    → value_set_full ps n ≡ true
    → j < n
    → in_value_set ps j ≡ true
unfolding value_set_full
value_set_full-in ps zero j h below = absurd (omega arith)
value_set_full-in ps (suc n) j h below = elim (Bool-cases (j == n)) [
  | inl last ↦ let same : j ≡ n = ground arith in rw same (&&-true _ _ h).0
  | inr before ↦ value_set_full-in ps n j (&&-true _ _ h).1 (ground arith)
]

abbrev IsHash : ShardingPartition → Type 0
IsHash p = p.method ≡ hash

-- A valid database by hash has up to 1024 buckets, at least one.
valid_full :
    (mode : Bool) (vdb : ShardingVdb) (groups : ℕ)
    → is_hash vdb.method ≡ true
    → sharding_vdb_is_valid mode vdb groups ≡ true
    → (0 < vdb.logic_shard_num) × (value_set_full vdb.partitions vdb.logic_shard_num ≡ true)
unfolding sharding_vdb_is_valid
valid_full mode vdb groups by_hash h = (ground arith, ground arith)

module _ (vdb : ShardingVdb) (x : Value) where
  -- The number that the remainder is taken of, for partitions of the database.
  abbrev key_hash : ℤ
  key_hash = if is_str vdb.key_type then pos (cetus_str_hash x.str) else x.num

  holds :
      (p : ShardingPartition) (j : ℕ)
      → IsHash p
      → modulo key_hash vdb.logic_shard_num ≡ pos j
      → j < vdb.logic_shard_num
      → test_bit p.hash_set j ≡ true
      → InPartition (record p { key_type = vdb.key_type; hash_count = vdb.logic_shard_num }) x
  unfolding contain_hash hash_value
  holds p j m bucket below bit = rw (m, bucket) (ground (arith, bit))

  record_hash_some :
      (ps : List ShardingPartition) (j : ℕ)
      → All IsHash ps
      → modulo key_hash vdb.logic_shard_num ≡ pos j
      → j < vdb.logic_shard_num
      → in_value_set (record_hash vdb ps) j ≡ true
      → (p : ShardingPartition) × Elem p (record_hash vdb ps) × InPartition p x
  unfolding record_hash in_value_set
  record_hash_some [] j m bucket below h = absurd (false-true h)
  record_hash_some (p ∷ ps) j m bucket below h = elim (||-true _ _ h) [
    | inl here ↦ (
      record p { key_type = vdb.key_type; hash_count = vdb.logic_shard_num },
      inl refl,
      holds p j m.0 bucket below here,
    )
    | inr later ↦
        let rest = record_hash_some ps j m.1 bucket below later in (rest.0, inr rest.1, rest.2)
  ]

-- If a database by hash, with partitions that are all by hash, is valid after its partitions are set
-- up, then every key, a number or a string, is in one of them.
pub setup_partitions-hash_covers :
    (sort : Sort) (mode : Bool) (vdb : ShardingVdb) (ps : List ShardingPartition) (groups : ℕ)
    (x : Value)
    → vdb.method ≡ hash
    → All IsHash ps
    → sharding_vdb_is_valid mode (record vdb { partitions = setup_partitions sort ps vdb }) groups
      ≡ true
    → (p : ShardingPartition) × Elem p (setup_partitions sort ps vdb) × InPartition p x
unfolding setup_partitions
setup_partitions-hash_covers sort mode vdb ps groups x method m valid =
    let set_up = setup_partitions sort ps vdb in
    let full =
      valid_full mode (record vdb { partitions = set_up }) groups (ap is_hash method) valid in
    let (j, bucket, below, _) = modulo_lem (key_hash vdb x) vdb.logic_shard_num full.0 in
    let by_hash : setup_partitions sort ps vdb ≡ record_hash vdb ps = hash_branch in
    let bit : in_value_set (record_hash vdb ps) j ≡ true =
      rw by_hash at (value_set_full-in set_up vdb.logic_shard_num j full.1 below) in
    rw by_hash (record_hash_some vdb x ps j m bucket below bit)
  where
    hash_branch : setup_partitions sort ps vdb ≡ record_hash vdb ps
    hash_branch =
        ap
          (λ b.
            if b
            then record_low vdb.key_type int_min none (
                if has_num vdb.key_type
                then sort cmp_shard_range_groups_int ps
                else sort cmp_shard_range_groups_str ps)
            else record_hash vdb ps)
          (ap is_range method)
