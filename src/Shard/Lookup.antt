-- ===== src/Shard/Lookup.antt =====
-- plugins/shard/sharding-parser.c: partitions_get, which picks the partition of an inserted row.
use cetus.Common.{
  All, Bool, true, false, ◌≡◌, refl, arith, ◌↔◌, ◌⊎◌, inl, inr, none, some, List, [], ◌∷◌, Elem,
  Bool-cases, &&-true, if◌then◌else◌,
}
use cetus.Shard.Hash.{modulo}
use cetus.Shard.Partition.{ShardingPartition, is_str, is_hash}
use cetus.Shard.Condition.{
  eq, Value, Condition, partition_satisfies, satisfies_hash, satisfies_str, satisfies_num,
  hash_value,
}
use cetus.Shard.Filter.{partitions_get}
use cetus.Shard.Rows.{InPartition, Holds}

-- The condition `key = v`.
abbrev pub equal_to : Value → Condition
equal_to v = record { op = eq; v = v }

module _ (p : ShardingPartition) (v : Value) where
  branch_eq :
      (b s : Bool)
      → ((if b
            then satisfies_hash p eq (modulo (hash_value p v) p.hash_count)
            else if s
            then satisfies_str p.low_value.str p.value.str eq v.str
            else satisfies_num p.low_value.num p.value.num eq v.num)
          ≡ true)
        ↔ Holds b s p v
  unfolding satisfies_hash satisfies_str satisfies_num
  branch_eq true s = (λ h. h, λ h. h)
  branch_eq false true = (λ h. &&-true _ _ h, λ h. ground arith)
  branch_eq false false = (λ h. ground arith, λ h. ground arith)

  satisfies_eq : (partition_satisfies p (equal_to v) ≡ true) ↔ InPartition p v
  unfolding partition_satisfies
  satisfies_eq = branch_eq (is_hash p.method) (is_str p.key_type)

-- The lookup of a key gives a partition of the list that holds the key, and gives none only if no
-- partition of the list holds it.
pub partitions_get_lem :
    (partitions : List ShardingPartition) (v : Value)
    → ((p : ShardingPartition) × (partitions_get partitions (equal_to v) ≡ some p)
        × Elem p partitions
        × InPartition p v)
      ⊎ ((partitions_get partitions (equal_to v) ≡ none) × All (λ p. ¬ InPartition p v) partitions)
unfolding partitions_get
partitions_get_lem [] v = inr (refl, tt)
partitions_get_lem (gp ∷ ps) v = elim (Bool-cases (partition_satisfies gp (equal_to v))) [
  | inl hit ↦ inl (gp, rw hit, inl refl, (satisfies_eq gp v).0 hit)
  | inr miss ↦ elim (partitions_get_lem ps v) [
    | inl (p, e, at, h) ↦ inl (p, rw miss e, inr at, h)
    | inr (e, nowhere) ↦ inr (rw miss e, (missed miss, nowhere))
  ]
]
  where
    missed : partition_satisfies gp (equal_to v) ≡ false → InPartition gp v → ⊥
    missed miss h = cc ((satisfies_eq gp v).1 h)
