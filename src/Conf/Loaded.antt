-- ===== src/Conf/Loaded.antt =====
-- src/sharding-config.c: what holds of a configuration that was set up, and the groups of a table.
use cetus.Common.{
  same_refl, ℕ, Bool, true, false, ◌&&◌, ◌||◌, ◌≡◌, refl, ◌∙◌, arith, none, some, List, [], ◌∷◌,
  ◌++◌, inl, inr, All, Elem, All-Elem, same, same→≡, Bool-cases, Option-cases, &&-true,
}
use cetus.Common.Int.{ℤ, eqb_ℤ}
use cetus.Shard.Partition.{ShardingPartition}
use cetus.Shard.Setup.{ShardingVdb, sharding_vdb_is_valid}
use cetus.Conf.Tables.{
  ShardingTable, SingleTable, ShardConf, strcasecmp_eq, insert_table, find_table,
  sharding_tables_get, sharding_vdbs_get_by_table, shard_conf_is_shard_table, group_contains,
  distinct_append, add_partition_groups, shard_conf_get_table_groups, shard_vdbs_get_by_id,
  all_valid, link_tables, is_empty, shard_conf_try_setup,
}

abbrev pub in_partitions : List ShardingPartition → List ℕ → Bool
in_partitions [] g = false
in_partitions (p ∷ ps) g = same p.group_name g || in_partitions ps g

group_contains-append :
    (gs : List (List ℕ)) (s g : List ℕ)
    → group_contains (gs ++ s ∷ []) g ≡ group_contains gs g || same s g
unfolding group_contains
group_contains-append [] s g = ground arith
group_contains-append (x ∷ gs) s g = ground (arith, group_contains-append gs s g)

group_contains-distinct_append :
    (gs : List (List ℕ)) (s g : List ℕ)
    → group_contains (distinct_append gs s) g ≡ group_contains gs g || same s g
unfolding distinct_append
group_contains-distinct_append gs s g = elim (Bool-cases (group_contains gs s)) [
  | inl there ↦ rw there (elim (Bool-cases (same s g)) [
    | inl hit ↦ let e : group_contains gs g ≡ true = rw (← same→≡ s g hit) there in rw (hit, e) refl
    | inr miss ↦ rw miss (or_false (group_contains gs g))
  ])
  | inr absent ↦ rw absent (group_contains-append gs s g)
]
  where
    or_false : (b : Bool) → b ≡ b || false
    or_false true = refl
    or_false false = refl

group_contains-add_partition_groups :
    (ps : List ShardingPartition) (gs : List (List ℕ)) (g : List ℕ)
    → group_contains (add_partition_groups gs ps) g ≡ group_contains gs g || in_partitions ps g
unfolding add_partition_groups
group_contains-add_partition_groups [] gs g = ground arith
group_contains-add_partition_groups (p ∷ ps) gs g =
    group_contains-add_partition_groups ps (distinct_append gs p.group_name) g
    ∙ rw (group_contains-distinct_append gs p.group_name g)
        (or_assoc (group_contains gs g) (same p.group_name g) (in_partitions ps g))
  where
    or_assoc : (a b c : Bool) → (a || b) || c ≡ a || (b || c)
    or_assoc true b c = refl
    or_assoc false b c = refl

-- The groups of a table that is known are exactly those that were visited before and those of the partitions of
-- its database.
pub shard_conf_get_table_groups_lem :
    (visit : List ShardingTable → List ShardingTable) (conf : ShardConf) (visited : List (List ℕ))
    (db table : List ℕ) (vdb : ShardingVdb)
    → sharding_vdbs_get_by_table visit conf db table ≡ some vdb
    → (groups : List (List ℕ)) × (shard_conf_get_table_groups visit conf visited
          (some db)
          (some table)
        ≡ some groups)
      × ((g : List ℕ)
          → group_contains groups g ≡ group_contains visited g || in_partitions vdb.partitions g)
unfolding shard_conf_get_table_groups
shard_conf_get_table_groups_lem visit conf visited db table vdb e = (
  add_partition_groups visited vdb.partitions,
  rw (e, shard_conf_get_table_groups) refl,
  group_contains-add_partition_groups vdb.partitions visited,
)

-- All groups of the table's database are among `groups`.
abbrev HasGroups : List (List ℕ) → ShardingVdb → Type 0
HasGroups groups vdb =
    (g : List ℕ) → in_partitions vdb.partitions g ≡ true → group_contains groups g ≡ true

abbrev Linked : List ShardingVdb → List (List ℕ) → ShardingTable → Type 0
Linked vdbs groups t =
    (vdb : ShardingVdb) × (t.vdb_ref ≡ some vdb) × Elem vdb vdbs × HasGroups groups vdb

insert_table-All :
    (P : ShardingTable → Type 0) (dict : List ShardingTable) (t : ShardingTable)
    → All P dict
    → P t
    → All P (insert_table dict t)
unfolding insert_table
insert_table-All P [] t h p = (p, tt)
insert_table-All P (x ∷ dict) t h p =
    elim (Bool-cases (same x.schema t.schema && same x.name t.name)) [
      | inl hit ↦ rw hit (p, h.1)
      | inr miss ↦ rw miss (h.0, insert_table-All P dict t h.1 p)
    ]

get_by_id-Elem :
    (vdbs : List ShardingVdb) (id : ℤ) (vdb : ShardingVdb)
    → shard_vdbs_get_by_id vdbs id ≡ some vdb
    → Elem vdb vdbs
unfolding shard_vdbs_get_by_id
get_by_id-Elem [] id vdb e = cc
get_by_id-Elem (x ∷ vdbs) id vdb e = elim (Bool-cases (eqb_ℤ x.id id)) [
  | inl hit ↦
      let found : some x ≡ some vdb = rw (hit, shard_vdbs_get_by_id) at e in inl (unsome found)
  | inr miss ↦
      let found : shard_vdbs_get_by_id vdbs id ≡ some vdb = rw (miss, shard_vdbs_get_by_id) at e in
      inr (get_by_id-Elem vdbs id vdb found)
]
  where
    unsome : some x ≡ some vdb → vdb ≡ x
    unsome found = cc

module _ (vdbs : List ShardingVdb) where
  Linked-add :
      (dict : List ShardingTable) (groups : List (List ℕ)) (ps : List ShardingPartition)
      → All (Linked vdbs groups) dict
      → All (Linked vdbs (add_partition_groups groups ps)) dict
  Linked-add [] groups ps h = tt
  Linked-add (t ∷ dict) groups ps h =
      let (vdb, ref, at, has) = h.0 in
      (
        (
          vdb,
          ref,
          at,
          λ g i. rw (group_contains-add_partition_groups ps groups g) (rw (has g i) refl),
        ),
        Linked-add dict groups ps h.1,
      )

  add-HasGroups :
      (groups : List (List ℕ)) (vdb : ShardingVdb)
      → HasGroups (add_partition_groups groups vdb.partitions) vdb
  add-HasGroups groups vdb g i =
      rw (group_contains-add_partition_groups vdb.partitions groups g, i)
        (or_true (group_contains groups g))
    where
      or_true : (b : Bool) → b || true ≡ true
      or_true true = refl
      or_true false = refl

  link_tables-Linked :
      (tables dict after : List ShardingTable) (groups all : List (List ℕ))
      → All (Linked vdbs groups) dict
      → link_tables vdbs tables dict groups ≡ some (after, all)
      → All (Linked vdbs all) after
  unfolding link_tables
  link_tables-Linked [] dict after groups all h e =
      let same_dict : dict ≡ after = cc in
      let same_groups : groups ≡ all = cc in rw (← same_dict, ← same_groups) h
  link_tables-Linked (t ∷ tables) dict after groups all h e =
      elim (Option-cases (shard_vdbs_get_by_id vdbs t.vdb_id)) [
        | inl unknown ↦ nothing (rw (unknown, link_tables) at e)
        | inr (vdb, found) ↦
            link_tables-Linked tables _ after _ all
              (insert_table-All (Linked vdbs (add_partition_groups groups vdb.partitions)) dict _
                (Linked-add dict groups vdb.partitions h)
                (vdb, refl, get_by_id-Elem vdbs t.vdb_id vdb found, add-HasGroups groups vdb))
              (rw (found, link_tables) at e)
      ]
    where
      nothing :
          {b : List ShardingTable × List (List ℕ)} → none ≡ some b → All (Linked vdbs all) after
      nothing e = cc

all_valid-Elem :
    (mode : Bool) (vdbs : List ShardingVdb) (n : ℕ) (vdb : ShardingVdb)
    → all_valid mode vdbs n ≡ true
    → Elem vdb vdbs
    → sharding_vdb_is_valid mode vdb n ≡ true
unfolding all_valid
all_valid-Elem mode [] n vdb h at = absurd at
all_valid-Elem mode (x ∷ vdbs) n vdb h (inl here) =
    let both = &&-true (sharding_vdb_is_valid mode x n) (all_valid mode vdbs n) h in rw here both.0
all_valid-Elem mode (x ∷ vdbs) n vdb h (inr later) =
    all_valid-Elem mode vdbs n vdb
      (&&-true (sharding_vdb_is_valid mode x n) (all_valid mode vdbs n) h).1 later

find_table-Elem :
    (tables : List ShardingTable) (schema table : List ℕ) (t : ShardingTable)
    → find_table tables schema table ≡ some t
    → Elem t tables
unfolding find_table
find_table-Elem [] schema table t e = cc
find_table-Elem (x ∷ tables) schema table t e =
    elim (Bool-cases (strcasecmp_eq x.schema schema && strcasecmp_eq x.name table)) [
      | inl hit ↦ let found : some x ≡ some t = rw (hit, find_table) at e in inl (unsome found)
      | inr miss ↦
          let found : find_table tables schema table ≡ some t = rw (miss, find_table) at e in
          inr (find_table-Elem tables schema table t found)
    ]
  where
    unsome : some x ≡ some t → t ≡ x
    unsome found = cc

abbrev loaded_conf :
    List ShardingVdb → List ShardingTable → List SingleTable → List (List ℕ) → ShardConf
loaded_conf vdbs tables single groups = record {
  vdbs = vdbs;
  tables = tables;
  single_tables = single;
  all_groups = groups;
}

HasGroups-All :
    (groups : List (List ℕ)) (ps : List ShardingPartition)
    → ((g : List ℕ) → in_partitions ps g ≡ true → group_contains groups g ≡ true)
    → All (λ p. group_contains groups p.group_name ≡ true) ps
HasGroups-All groups [] h = tt
HasGroups-All groups (p ∷ ps) h = (
  h p.group_name (rw (same_refl p.group_name) refl),
  HasGroups-All groups ps (λ g i. h g (rw i (or_true (same p.group_name g)))),
)
  where
    or_true : (b : Bool) → b || true ≡ true
    or_true true = refl
    or_true false = refl

-- What a successful set-up gives: the databases are valid, and the tables linked to them.
setup_parts :
    (mode : Bool) (vdbs : List ShardingVdb) (tables : List ShardingTable)
    (single : List SingleTable) (n : ℕ) (conf : ShardConf)
    → shard_conf_try_setup mode vdbs tables single n ≡ some conf
    → (all_valid mode vdbs n ≡ true) × All (Linked vdbs conf.all_groups) conf.tables
unfolding shard_conf_try_setup
setup_parts mode vdbs tables single n conf e =
    elim (Bool-cases (is_empty vdbs || is_empty tables)) [
      | inl empty ↦ refused (rw (empty, shard_conf_try_setup) at e)
      | inr listed ↦ elim (Bool-cases (all_valid mode vdbs n)) [
        | inr bad ↦ refused (rw (listed, bad, shard_conf_try_setup) at e)
        | inl valid ↦ elim (Option-cases (link_tables vdbs tables [] [])) [
          | inl unlinked ↦ refused (rw (listed, valid, unlinked, shard_conf_try_setup) at e)
          | inr ((dict, groups), linked) ↦ (
            valid,
            made dict groups (link_tables-Linked vdbs tables [] dict [] groups tt linked)
                (rw (listed, valid, linked, shard_conf_try_setup) at e),
          )
        ]
      ]
    ]
  where
    refused :
        none ≡ some conf
        → (all_valid mode vdbs n ≡ true) × All (Linked vdbs conf.all_groups) conf.tables
    refused failed = cc

    made :
        (dict : List ShardingTable) (groups : List (List ℕ))
        → All (Linked vdbs groups) dict
        → some (loaded_conf vdbs dict single groups) ≡ some conf
        → All (Linked vdbs conf.all_groups) conf.tables
    made dict groups h same_conf =
        let loaded : loaded_conf vdbs dict single groups ≡ conf = cc in rw (← loaded) h

-- In a configuration that was set up, a table that is found, in any order in which the hash table may
-- visit its entries, has a database. It is one of those of the configuration, it is valid, and the
-- groups of its partitions are all among the groups of the configuration.
pub shard_conf_try_setup_lem :
    (visit : List ShardingTable → List ShardingTable) (mode : Bool) (vdbs : List ShardingVdb)
    (tables : List ShardingTable) (single : List SingleTable) (n : ℕ) (conf : ShardConf)
    (db table : List ℕ)
    → ((t : ShardingTable) (ts : List ShardingTable) → Elem t (visit ts) → Elem t ts)
    → shard_conf_try_setup mode vdbs tables single n ≡ some conf
    → shard_conf_is_shard_table visit conf db table ≡ true
    → (vdb : ShardingVdb) × (sharding_vdbs_get_by_table visit conf db table ≡ some vdb)
      × Elem vdb vdbs
      × (sharding_vdb_is_valid mode vdb n ≡ true)
      × All (λ p. group_contains conf.all_groups p.group_name ≡ true) vdb.partitions
unfolding sharding_tables_get sharding_vdbs_get_by_table shard_conf_is_shard_table
shard_conf_try_setup_lem visit mode vdbs tables single n conf db table visits setup known =
    let parts = setup_parts mode vdbs tables single n conf setup in
    elim (Option-cases (find_table (visit conf.tables) db table)) [
      | inl absent ↦ unknown (rw (absent, shard_conf_is_shard_table, sharding_tables_get) at known)
      | inr (t, found) ↦
          let (vdb, ref, at, has) =
            All-Elem t (Linked vdbs conf.all_groups) conf.tables parts.1
              (visits t conf.tables (find_table-Elem (visit conf.tables) db table t found)) in
          (
            vdb,
            rw (found, sharding_vdbs_get_by_table, sharding_tables_get) ref,
            at,
            all_valid-Elem mode vdbs n vdb parts.0 at,
            HasGroups-All conf.all_groups vdb.partitions has,
          )
    ]
  where
    unknown : {A : Type 0} → false ≡ true → A
    unknown h = cc
