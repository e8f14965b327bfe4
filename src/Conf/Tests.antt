-- ===== src/Conf/Tests.antt =====
-- src/sharding-config.c: runs on a configuration of one table.
use cetus.Common.{ℕ, All, true, ◌≡◌, refl, none, some, List, [], ◌∷◌, Elem, same, ◌||◌}
use cetus.Common.Int.{pos}
use cetus.Shard.Partition.{int, range}
use cetus.Shard.Setup.{ShardingVdb, sharding_vdb_is_valid, sharding_partition_new}
use cetus.Conf.Tables.{
  ShardingTable, ShardConf, sharding_tables_get, find_table, insert_table,
  sharding_vdbs_get_by_table, shard_conf_is_shard_table, group_contains, distinct_append,
  add_partition_groups, shard_vdbs_get_by_id, all_valid, link_tables, shard_conf_try_setup,
  shard_conf_get_table_groups,
}
use cetus.Conf.Loaded.{in_partitions, shard_conf_get_table_groups_lem, shard_conf_try_setup_lem}

abbrev empty_vdb : ShardingVdb
empty_vdb = record {
  id = pos 1;
  method = range;
  key_type = int;
  logic_shard_num = 0;
  partitions = [];
}

-- Two partitions of the group `g`, and one of the group `h`.
abbrev a_vdb : ShardingVdb
a_vdb = record empty_vdb {
  partitions =
      sharding_partition_new (103 ∷ []) empty_vdb
      ∷ sharding_partition_new (103 ∷ []) empty_vdb
      ∷ sharding_partition_new (104 ∷ []) empty_vdb
      ∷ [];
}

abbrev a_table : ShardingTable
a_table = record {
  schema = 100 ∷ [];
  name = 116 ∷ [];
  pkey = 107 ∷ [];
  shard_key_type = int;
  vdb_id = pos 1;
  vdb_ref = none;
}

abbrev a_conf : ShardConf
a_conf = record {
  vdbs = a_vdb ∷ [];
  tables = record a_table { vdb_ref = some a_vdb } ∷ [];
  single_tables = [];
  all_groups = (103 ∷ []) ∷ (104 ∷ []) ∷ [];
}

abbrev in_order : List ShardingTable → List ShardingTable
in_order tables = tables

set_up : shard_conf_try_setup true (a_vdb ∷ []) (a_table ∷ []) [] 2 ≡ some a_conf
unfolding shard_conf_try_setup all_valid sharding_vdb_is_valid link_tables shard_vdbs_get_by_id
    insert_table add_partition_groups distinct_append group_contains sharding_partition_new same
set_up = refl

-- The table is `d.t`; `D.T` finds it.
found_vdb : sharding_vdbs_get_by_table in_order a_conf (68 ∷ []) (84 ∷ []) ≡ some a_vdb
unfolding sharding_vdbs_get_by_table sharding_tables_get find_table same
found_vdb = refl

known_table : shard_conf_is_shard_table in_order a_conf (68 ∷ []) (84 ∷ []) ≡ true
unfolding shard_conf_is_shard_table sharding_tables_get find_table same
known_table = refl

shard_conf_try_setup_lem_example :
    (vdb : ShardingVdb) × (sharding_vdbs_get_by_table in_order a_conf (68 ∷ []) (84 ∷ [])
      ≡ some vdb)
    × Elem vdb (a_vdb ∷ [])
    × (sharding_vdb_is_valid true vdb 2 ≡ true)
    × All (λ p. group_contains a_conf.all_groups p.group_name ≡ true) vdb.partitions
shard_conf_try_setup_lem_example =
    shard_conf_try_setup_lem in_order true (a_vdb ∷ []) (a_table ∷ []) [] 2 a_conf (68 ∷ [])
      (84 ∷ []) (λ t ts at. at) set_up known_table

shard_conf_get_table_groups_lem_example :
    (groups : List (List ℕ)) × (shard_conf_get_table_groups in_order a_conf []
        (some (68 ∷ []))
        (some (84 ∷ []))
      ≡ some groups)
    × ((g : List ℕ)
        → group_contains groups g ≡ group_contains [] g || in_partitions a_vdb.partitions g)
shard_conf_get_table_groups_lem_example =
    shard_conf_get_table_groups_lem in_order a_conf [] (68 ∷ []) (84 ∷ []) a_vdb found_vdb
