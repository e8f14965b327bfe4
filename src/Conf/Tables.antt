-- ===== src/Conf/Tables.antt =====
-- src/sharding-config.c and .h: sharded tables, single tables, and the groups of the configuration.
use cetus.Common.{
  ℕ, ◌+◌, Bool, true, false, ◌&&◌, ◌||◌, not, Option, none, some, List, [], ◌∷◌, ◌++◌, map, same,
  if◌then◌else◌, leb,
}
use cetus.Common.Int.{ℤ, eqb_ℤ}
use cetus.Shard.Partition.{ShardingPartition, ShardKeyType}
use cetus.Shard.Setup.{ShardingVdb, sharding_vdb_is_valid}

pub record ShardingTable : Type 0 where
  pub schema : List ℕ
  pub name : List ℕ
  pub pkey : List ℕ
  pub shard_key_type : ShardKeyType
  pub vdb_id : ℤ
  pub vdb_ref : Option ShardingVdb

pub record SingleTable : Type 0 where
  pub name : List ℕ
  pub schema : List ℕ
  pub group : List ℕ

-- The static variables of the file.
pub record ShardConf : Type 0 where
  pub vdbs : List ShardingVdb
  pub tables : List ShardingTable
  pub single_tables : List SingleTable
  pub all_groups : List (List ℕ)

-- libc's strcasecmp, in the C locale.
abbrev lower : ℕ → ℕ
lower c = if leb 65 c && leb c 90 then c + 32 else c

abbrev pub strcasecmp_eq : List ℕ → List ℕ → Bool
strcasecmp_eq s t = same (map lower s) (map lower t)

-- A hash table keeps one value for a key; the key is the exact schema and table name.
unfoldable pub insert_table : List ShardingTable → ShardingTable → List ShardingTable
insert_table [] t = t ∷ []
insert_table (x ∷ tables) t =
    let rest = insert_table tables t in
    if same x.schema t.schema && same x.name t.name then t ∷ tables else x ∷ rest

-- `tables` is in the order in which the hash table visits its entries.
unfoldable pub find_table : List ShardingTable → List ℕ → List ℕ → Option ShardingTable
find_table [] schema table = none
find_table (x ∷ tables) schema table =
    if strcasecmp_eq x.schema schema && strcasecmp_eq x.name table
    then some x
    else find_table tables schema table

-- `visit` is the order in which the hash table visits its entries.
module _ (visit : List ShardingTable → List ShardingTable) where
  unfoldable pub sharding_tables_get : ShardConf → List ℕ → List ℕ → Option ShardingTable
  sharding_tables_get conf schema table = find_table (visit conf.tables) schema table

  unfoldable pub sharding_tables_add : ShardConf → ShardingTable → ShardConf × Bool
  sharding_tables_add conf table = elim (sharding_tables_get conf table.schema table.name) [
    | some there ↦ (conf, false)
    | none ↦ (record conf { tables = insert_table conf.tables table }, true)
  ]

  unfoldable pub sharding_vdbs_get_by_table : ShardConf → List ℕ → List ℕ → Option ShardingVdb
  sharding_vdbs_get_by_table conf schema table = elim (sharding_tables_get conf schema table) [
    | some tinfo ↦ tinfo.vdb_ref
    | none ↦ none
  ]

  unfoldable pub shard_conf_is_shard_table : ShardConf → List ℕ → List ℕ → Bool
  shard_conf_is_shard_table conf db table = elim (sharding_tables_get conf db table) [
    | some tinfo ↦ true
    | none ↦ false
  ]

unfoldable pub group_contains : List (List ℕ) → List ℕ → Bool
group_contains [] match = false
group_contains (gp ∷ groups) match = same gp match || group_contains groups match

-- Appended unless it is there: `string_list_distinct_append`, and the body of the loop over partitions in
-- `shard_conf_get_table_groups`.
unfoldable pub distinct_append : List (List ℕ) → List ℕ → List (List ℕ)
distinct_append strlist str = if group_contains strlist str then strlist else strlist ++ str ∷ []

unfoldable pub add_partition_groups : List (List ℕ) → List ShardingPartition → List (List ℕ)
add_partition_groups groups [] = groups
add_partition_groups groups (part ∷ partitions) =
    add_partition_groups (distinct_append groups part.group_name) partitions

-- The first `none` is a NULL name, and the result `none` is NULL.
unfoldable pub shard_conf_get_table_groups :
    (List ShardingTable → List ShardingTable)
    → ShardConf
    → List (List ℕ)
    → Option (List ℕ)
    → Option (List ℕ)
    → Option (List (List ℕ))
shard_conf_get_table_groups visit conf visited_groups (some db) (some table) =
    elim (sharding_vdbs_get_by_table visit conf db table) [
      | none ↦ none
      | some vdb ↦ some (add_partition_groups visited_groups vdb.partitions)
    ]
shard_conf_get_table_groups visit conf visited_groups _ _ = none

unfoldable pub shard_conf_table_partitions :
    (List ShardingTable → List ShardingTable)
    → ShardConf
    → List ShardingPartition
    → Option (List ℕ)
    → Option (List ℕ)
    → Option (List ShardingPartition)
shard_conf_table_partitions visit conf partitions (some db) (some table) =
    elim (sharding_vdbs_get_by_table visit conf db table) [
      | none ↦ none
      | some vdb ↦ some (partitions ++ vdb.partitions)
    ]
shard_conf_table_partitions visit conf partitions _ _ = none

unfoldable pub shard_conf_get_all_groups : ShardConf → List (List ℕ) → List (List ℕ)
shard_conf_get_all_groups conf all_groups = all_groups ++ conf.all_groups

unfoldable pub shard_conf_get_single_table : List SingleTable → List ℕ → List ℕ → Option SingleTable
shard_conf_get_single_table [] db name = none
shard_conf_get_single_table (t ∷ tables) db name =
    if strcasecmp_eq t.name name && strcasecmp_eq t.schema db
    then some t
    else shard_conf_get_single_table tables db name

unfoldable pub shard_conf_get_single_table_distinct_group :
    ShardConf → List (List ℕ) → List ℕ → List ℕ → List (List ℕ)
shard_conf_get_single_table_distinct_group conf groups db name =
    elim (shard_conf_get_single_table conf.single_tables db name) [
      | none ↦ groups
      | some t ↦ distinct_append groups t.group
    ]

unfoldable pub shard_vdbs_get_by_id : List ShardingVdb → ℤ → Option ShardingVdb
shard_vdbs_get_by_id [] id = none
shard_vdbs_get_by_id (vdb ∷ vdbs) id =
    if eqb_ℤ vdb.id id then some vdb else shard_vdbs_get_by_id vdbs id

unfoldable pub all_valid : Bool → List ShardingVdb → ℕ → Bool
all_valid is_partition_mode [] num_groups = true
all_valid is_partition_mode (vdb ∷ vdbs) num_groups =
    sharding_vdb_is_valid is_partition_mode vdb num_groups
    && all_valid is_partition_mode vdbs num_groups

-- The loop over the tables: the hash table and the groups so far.
unfoldable pub link_tables :
    List ShardingVdb
    → List ShardingTable
    → List ShardingTable
    → List (List ℕ)
    → Option (List ShardingTable × List (List ℕ))
link_tables vdbs [] table_dict all_groups = some (table_dict, all_groups)
link_tables vdbs (table ∷ tables) table_dict all_groups =
    elim (shard_vdbs_get_by_id vdbs table.vdb_id) [
      | none ↦ none
      | some vdb ↦
          link_tables vdbs tables
            (insert_table table_dict
              (record table { vdb_ref = some vdb; shard_key_type = vdb.key_type }))
            (add_partition_groups all_groups vdb.partitions)
    ]

abbrev pub is_empty : {A : Type 0} → List A → Bool
is_empty [] = true
is_empty (x ∷ xs) = false

-- `none` is FALSE, and leaves the configuration as it was.
unfoldable pub shard_conf_try_setup :
    Bool → List ShardingVdb → List ShardingTable → List SingleTable → ℕ → Option ShardConf
shard_conf_try_setup is_partition_mode vdbs tables single_tables num_groups =
    if is_empty vdbs || is_empty tables
    then none
    else if not (all_valid is_partition_mode vdbs num_groups)
    then none
    else elim (link_tables vdbs tables [] []) [
      | none ↦ none
      | some (table_dict, all_groups) ↦ some (record {
        vdbs = vdbs;
        tables = table_dict;
        single_tables = single_tables;
        all_groups = all_groups;
      })
    ]
