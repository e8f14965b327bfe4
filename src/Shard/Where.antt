-- ===== src/Shard/Where.antt =====
-- plugins/shard/sharding-parser.c: partitions_filter_expr, the walk over a WHERE clause.
use cetus.Common.{ℕ, zero, suc, ◌+◌, Bool, ◌&&◌, not, List, [], ◌∷◌, if◌then◌else◌}
use cetus.Shard.Partition.{ShardingPartition}
use cetus.Shard.Condition.{CompareOp}
use cetus.Shard.Filter.{
  Operand, Readers, Parsed, ok, stuck, ◌>>=◌, partitions_merge, partitions_filter_inequation_expr,
  partitions_filter_between_expr, partitions_collect_in_expr,
}

-- The flags EP_SHARD_COND and EP_JOIN_LINK of a node.
pub record Flags : Type 0 where
  pub shard_cond : Bool
  pub join_link : Bool

-- The nodes of a condition. The grammar gives OR and AND two operands. The left operand of the three
-- conditions that are looked at is a column, and is the sharding key if EP_SHARD_COND is set. `other` is
-- any other node, NOT among them. `id` tells nodes apart that are not looked into.
pub data Expr : Type 0 where
  or and : Expr → Expr → Expr
  compare : ℕ → Flags → CompareOp → Operand → Expr
  between in_list : ℕ → Flags → List Operand → Expr
  other : ℕ → Expr

-- The nodes of an expression.
unfoldable pub size : Expr → ℕ
size (or left right) = suc (size left + size right)
size (and left right) = suc (size left + size right)
size _ = 1

module _ (readers : Readers) where
  -- One node that is neither OR nor AND.
  unfoldable pub filter_leaf : List ShardingPartition → Expr → Parsed (List ShardingPartition)
  filter_leaf partitions (compare id flags op right) =
      if flags.shard_cond && not flags.join_link
      then partitions_filter_inequation_expr readers partitions op right
      else ok partitions
  filter_leaf partitions (between id flags btlist) =
      if flags.shard_cond
      then partitions_filter_between_expr readers partitions btlist
      else ok partitions
  filter_leaf partitions (in_list id flags args) =
      if flags.shard_cond then partitions_collect_in_expr readers partitions args else ok partitions
  filter_leaf partitions p = ok partitions

  -- A call on no partitions returns at once.
  abbrev pub unless_empty :
      List ShardingPartition → Parsed (List ShardingPartition) → Parsed (List ShardingPartition)
  unless_empty [] result = ok []
  unless_empty (gp ∷ partitions) result = result

  -- The loop over the stack. OR calls the whole function for each operand, with a stack of its own.
  unfoldable pub filter_loop :
      ℕ → List Expr → List ShardingPartition → Parsed (List ShardingPartition)
  filter_loop zero stack partitions = stuck
  filter_loop (suc fuel) [] partitions = ok partitions
  filter_loop (suc fuel) (or left right ∷ stack) partitions =
      unless_empty partitions (filter_loop fuel (left ∷ []) partitions) >>= λ kept.
      unless_empty partitions (filter_loop fuel (right ∷ []) partitions) >>= λ others.
      filter_loop fuel stack (partitions_merge kept others)
  filter_loop (suc fuel) (and left right ∷ stack) partitions =
      filter_loop fuel (left ∷ right ∷ stack) partitions
  filter_loop (suc fuel) (p ∷ stack) partitions =
      filter_leaf partitions p >>= λ kept. filter_loop fuel stack kept

  unfoldable pub partitions_filter_expr :
      List ShardingPartition → Expr → Parsed (List ShardingPartition)
  partitions_filter_expr partitions expr =
      unless_empty partitions (filter_loop (suc (size expr)) (expr ∷ []) partitions)
