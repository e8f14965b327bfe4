-- ===== src/Shard/Ends.antt =====
-- plugins/shard/sharding-parser.c: the walk over a WHERE clause ends.
use cetus.Common.{ℕ, zero, suc, ◌+◌, ◌<◌, ◌≢◌, arith, List, [], ◌∷◌}
use cetus.Shard.Partition.{ShardingPartition, ShardKeyType}
use cetus.Shard.Condition.{CompareOp}
use cetus.Shard.Filter.{
  Readers, Parsed, ok, unrecognized, error, stuck, ◌>>=◌, Operand, expr_parse_sharding_value,
  string_to_sharding_value, partitions_filter_inequation_expr, partitions_filter_between_expr,
  partitions_collect_in_expr, collect_all,
}
use cetus.Shard.Where.{
  Expr, or, and, compare, between, in_list, filter_leaf, filter_loop, unless_empty,
  partitions_filter_expr, size,
}

-- The call did not run out of fuel.
abbrev Ends : {A : Type 0} → Parsed A → Type 0
Ends stuck = ⊥
Ends _ = Unit {0}

>>=-Ends :
    {A B : Type 0} (m : Parsed A) (f : A → Parsed B)
    → Ends m
    → ((a : A) → Ends (f a))
    → Ends (m >>= f)
>>=-Ends (ok a) f h k = k a
>>=-Ends unrecognized f h k = tt
>>=-Ends error f h k = tt
>>=-Ends stuck f h k = h

module _ (readers : Readers) where
  string-Ends : (s : List ℕ) (t : ShardKeyType) → Ends (string_to_sharding_value readers s t)
  unfolding string_to_sharding_value
  string-Ends s t = ground arith

  parse-Ends : (p : Operand) (t : ShardKeyType) → Ends (expr_parse_sharding_value readers p t)
  unfolding expr_parse_sharding_value
  parse-Ends (Operand.string s) t = ground (arith, string-Ends s t)
  parse-Ends p t = ground arith

  collect-Ends :
      (ps : List ShardingPartition) (t : ShardKeyType) (args : List Operand)
      (collected : List ShardingPartition)
      → Ends (collect_all readers ps t args collected)
  unfolding collect_all
  collect-Ends ps t [] collected = tt
  collect-Ends ps t (arg ∷ args) collected =
      >>=-Ends _ _ (parse-Ends arg t) λ v. collect-Ends ps t args _

  inequation-Ends :
      (ps : List ShardingPartition) (op : CompareOp) (right : Operand)
      → Ends (partitions_filter_inequation_expr readers ps op right)
  unfolding partitions_filter_inequation_expr
  inequation-Ends [] op right = tt
  inequation-Ends (gp ∷ ps) op right = >>=-Ends _ _ (parse-Ends right gp.key_type) λ v. tt

  between-Ends :
      (ps : List ShardingPartition) (btlist : List Operand)
      → Ends (partitions_filter_between_expr readers ps btlist)
  unfolding partitions_filter_between_expr
  between-Ends [] btlist = tt
  between-Ends (gp ∷ ps) (low ∷ high ∷ []) =
      >>=-Ends _ _ (parse-Ends low gp.key_type)
        λ v. >>=-Ends _ _ (parse-Ends high gp.key_type) λ w. tt
  between-Ends (gp ∷ ps) _ = tt

  in_list-Ends :
      (ps : List ShardingPartition) (args : List Operand)
      → Ends (partitions_collect_in_expr readers ps args)
  unfolding partitions_collect_in_expr
  in_list-Ends [] args = tt
  in_list-Ends (gp ∷ ps) [] = tt
  in_list-Ends (gp ∷ ps) (arg ∷ args) = collect-Ends (gp ∷ ps) gp.key_type (arg ∷ args) []

  leaf-Ends : (ps : List ShardingPartition) (e : Expr) → Ends (filter_leaf readers ps e)
  unfolding filter_leaf
  leaf-Ends ps (compare id flags op right) = ground (arith, inequation-Ends ps op right)
  leaf-Ends ps (between id flags btlist) = ground (arith, between-Ends ps btlist)
  leaf-Ends ps (in_list id flags args) = ground (arith, in_list-Ends ps args)
  leaf-Ends ps e = tt

  unless_empty-Ends :
      (ps : List ShardingPartition) (r : Parsed (List ShardingPartition))
      → Ends r
      → Ends (unless_empty readers ps r)
  unless_empty-Ends [] r h = tt
  unless_empty-Ends (p ∷ ps) r h = h

  abbrev total_size : List Expr → ℕ
  total_size [] = 0
  total_size (e ∷ st) = size e + total_size st

  -- More fuel than there are nodes on the stack is enough.
  loop-Ends :
      (f : ℕ) (st : List Expr) (ps : List ShardingPartition)
      → total_size st < f
      → Ends (filter_loop readers f st ps)
  unfolding filter_loop size
  loop-Ends zero st ps h = absurd (omega arith)
  loop-Ends (suc f) [] ps h = tt
  loop-Ends (suc f) (or l r ∷ st) ps h =
      >>=-Ends _ _ (unless_empty-Ends ps _ (loop-Ends f (l ∷ []) ps (omega arith))) λ kept.
        >>=-Ends _ _ (unless_empty-Ends ps _ (loop-Ends f (r ∷ []) ps (omega arith)))
          λ others. loop-Ends f st _ (omega arith)
  loop-Ends (suc f) (and l r ∷ st) ps h = loop-Ends f (l ∷ r ∷ st) ps (omega arith)
  loop-Ends (suc f) (e ∷ st) ps h =
      >>=-Ends _ _ (leaf-Ends ps e) λ kept. loop-Ends f st kept (omega arith)

Ends→ne : {A : Type 0} (r : Parsed A) → Ends r → r ≢ stuck
Ends→ne (ok a) h = λ e. cc
Ends→ne unrecognized h = λ e. cc
Ends→ne error h = λ e. cc
Ends→ne stuck h = absurd h

-- On any WHERE clause and any partitions the walk returns one of the codes of the source.
pub partitions_filter_expr_ends :
    (readers : Readers) (partitions : List ShardingPartition) (expr : Expr)
    → partitions_filter_expr readers partitions expr ≢ stuck
unfolding partitions_filter_expr
partitions_filter_expr_ends readers ps expr = Ends→ne _ (
    unless_empty-Ends readers ps _
      (loop-Ends readers (suc (size expr)) (expr ∷ []) ps (omega arith)))
