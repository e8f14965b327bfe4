-- ===== src/Plan/State.antt =====
-- src/sharding-query-plan.c and .h. Strings that the plan only refers to are their contents here.
use cetus.Common.{
  ℕ, Bool, true, false, ◌||◌, Option, none, some, List, [], ◌∷◌, ◌++◌, same, if◌then◌else◌,
}

-- `sql` is NULL for a group that gets the statement of the plan.
pub record GroupSqlPair : Type 0 where
  pub gp_name : List ℕ
  pub sql : Option (List ℕ)

pub data TableType : Type 0 where
  global_table sharded_table single_table : TableType

pub record ShardingPlan : Type 0 where
  pub groups : List (List ℕ)
  pub sql_list : List (List ℕ)
  pub mapping : List GroupSqlPair
  pub orig_sql : List ℕ
  pub modified_sql : Option (List ℕ)
  pub table_type : TableType
  pub is_partition_mode : Bool
  pub is_modified : Bool
  pub is_sql_rewrite_completely : Bool

unfoldable pub sharding_plan_new : List ℕ → ShardingPlan
sharding_plan_new orig_sql = record {
  groups = [];
  sql_list = [];
  mapping = [];
  orig_sql = orig_sql;
  modified_sql = none;
  table_type = global_table;
  is_partition_mode = false;
  is_modified = false;
  is_sql_rewrite_completely = false;
}

unfoldable pub sharding_plan_free_map : ShardingPlan → ShardingPlan
sharding_plan_free_map plan = record plan {
  is_sql_rewrite_completely = false;
  sql_list = [];
  mapping = [];
}

-- The first pair of the group.
unfoldable pub get_mapping : List GroupSqlPair → List ℕ → Option GroupSqlPair
get_mapping [] gp = none
get_mapping (group ∷ mapping) gp =
    if same gp group.gp_name then some group else get_mapping mapping gp

unfoldable pub has_group : List (List ℕ) → List ℕ → Bool
has_group [] gp = false
has_group (group ∷ groups) gp = same gp group || has_group groups gp

abbrev pub sharding_plan_has_group : ShardingPlan → List ℕ → Bool
sharding_plan_has_group plan gp = has_group plan.groups gp

-- The pair that `get_mapping` finds gets the SQL.
unfoldable pub set_sql : List GroupSqlPair → List ℕ → Option (List ℕ) → List GroupSqlPair
set_sql [] gp sql = []
set_sql (group ∷ mapping) gp sql =
    let rest = set_sql mapping gp sql in
    if same gp group.gp_name then record group { sql = sql } ∷ mapping else group ∷ rest

unfoldable pub add_mapping : List GroupSqlPair → List ℕ → Option (List ℕ) → List GroupSqlPair
add_mapping mapping group sql = elim (get_mapping mapping group) [
  | some pair ↦ set_sql mapping group sql
  | none ↦ mapping ++ record { gp_name = group; sql = sql } ∷ []
]

abbrev pub with_group : List (List ℕ) → List ℕ → List (List ℕ)
with_group groups gp_name = if has_group groups gp_name then groups else groups ++ gp_name ∷ []

unfoldable pub sharding_plan_add_group : ShardingPlan → List ℕ → ShardingPlan
sharding_plan_add_group plan gp_name = record plan {
  groups = with_group plan.groups gp_name;
  mapping = add_mapping plan.mapping gp_name none;
}

abbrev pub add_all : ShardingPlan → List (List ℕ) → ShardingPlan
add_all plan [] = plan
add_all plan (gp ∷ groups) = add_all (sharding_plan_add_group plan gp) groups

-- `none` is a NULL array.
unfoldable pub sharding_plan_add_groups : ShardingPlan → Option (List (List ℕ)) → ShardingPlan
sharding_plan_add_groups plan none = plan
sharding_plan_add_groups plan (some groups) = add_all plan groups

-- The mapping stays.
unfoldable pub sharding_plan_clear_group : ShardingPlan → ShardingPlan
sharding_plan_clear_group plan = record plan { groups = [] }

unfoldable pub sharding_plan_add_group_sql : ShardingPlan → List ℕ → List ℕ → ShardingPlan
sharding_plan_add_group_sql plan gp_name sql = record plan {
  sql_list = plan.sql_list ++ sql ∷ [];
  groups = with_group plan.groups gp_name;
  mapping = add_mapping plan.mapping gp_name (some sql);
}

abbrev pub statement : ShardingPlan → Option (List ℕ)
statement plan = if plan.is_modified then plan.modified_sql else some plan.orig_sql

abbrev pub sql_of : ShardingPlan → Option GroupSqlPair → Option (List ℕ)
sql_of plan none = statement plan
sql_of plan (some pair) = elim pair.sql [ none ↦ statement plan | some sql ↦ some sql ]

unfoldable pub sharding_plan_get_sql : ShardingPlan → List ℕ → Option (List ℕ)
sharding_plan_get_sql plan group = sql_of plan (get_mapping plan.mapping group)

unfoldable pub sharding_plan_set_modified_sql : ShardingPlan → List ℕ → ShardingPlan
sharding_plan_set_modified_sql plan sql = record plan {
  is_modified = true;
  modified_sql = some sql;
}

-- `sort` is glib's sort of an array, by `strcmp`.
unfoldable pub sharding_plan_sort_groups :
    (List (List ℕ) → List (List ℕ)) → ShardingPlan → ShardingPlan
sharding_plan_sort_groups sort plan = record plan { groups = sort plan.groups }
