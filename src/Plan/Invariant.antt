-- ===== src/Plan/Invariant.antt =====
-- src/sharding-query-plan.c: the calls on a plan, in any order, keep its groups distinct and its SQL in reach.
use cetus.Common.{
  ℕ, suc, ◌+◌, ◌≤◌, Bool, true, false, ◌≡◌, refl, arith, Option, none, some, List, [], ◌∷◌, ◌++◌,
  ◌⊎◌, inl, inr, All, Elem, Elem-append_left, Elem-append_right, same, same_refl, same→≡,
  Bool-cases, Option-cases, if◌then◌else◌,
}
use cetus.Plan.State.{
  GroupSqlPair, ShardingPlan, sharding_plan_new, sharding_plan_free_map, get_mapping, has_group,
  add_mapping, with_group, sharding_plan_add_group, add_all, sharding_plan_add_groups,
  sharding_plan_clear_group, sharding_plan_add_group_sql, sharding_plan_get_sql, statement, sql_of,
  sharding_plan_set_modified_sql, sharding_plan_sort_groups,
}
use cetus.Plan.Mapping.{add_mapping-hit, add_mapping-miss}

abbrev pub occurrences : List ℕ → List (List ℕ) → ℕ
occurrences g [] = 0
occurrences g (x ∷ xs) = if same g x then suc (occurrences g xs) else occurrences g xs

abbrev names : List GroupSqlPair → List (List ℕ)
names [] = []
names (p ∷ mapping) = p.gp_name ∷ names mapping

-- SQL that a pair refers to is in `sql_list`, which owns it.
abbrev Owned : List (List ℕ) → GroupSqlPair → Type 0
Owned sql_list p = (sql : List ℕ) → p.sql ≡ some sql → Elem sql sql_list

pub record IsValid (plan : ShardingPlan) : Type 0 where
  pub distinct : (g : List ℕ) → occurrences g plan.groups ≤ 1
  pub mapped_once : (g : List ℕ) → occurrences g (names plan.mapping) ≤ 1
  pub owned : All (Owned plan.sql_list) plan.mapping
  pub modified : plan.is_modified ≡ true → (sql : List ℕ) × (plan.modified_sql ≡ some sql)

occurrences-absent :
    (gs : List (List ℕ)) (g : List ℕ) → has_group gs g ≡ false → occurrences g gs ≡ 0
unfolding has_group
occurrences-absent [] g h = refl
occurrences-absent (x ∷ gs) g h = ground (arith, occurrences-absent gs g)

occurrences-append :
    (gs : List (List ℕ)) (x g : List ℕ)
    → occurrences g (gs ++ x ∷ []) ≡ occurrences g gs + occurrences g (x ∷ [])
occurrences-append [] x g = omega arith
occurrences-append (y ∷ gs) x g = ground (arith, occurrences-append gs x g)

with_group-distinct :
    (gs : List (List ℕ)) (gp : List ℕ)
    → ((g : List ℕ) → occurrences g gs ≤ 1)
    → (g : List ℕ) → occurrences g (with_group gs gp) ≤ 1
with_group-distinct gs gp h g = elim (Bool-cases (has_group gs gp)) [
  | inl there ↦ rw there (h g)
  | inr absent ↦
      rw (absent, occurrences-append gs gp g)
        (elim (Bool-cases (same g gp)) [
          | inl hit ↦
              let e = occurrences-absent gs gp absent in
              rw (same→≡ g gp hit, e) (rw (same_refl gp) (omega arith))
          | inr miss ↦ rw miss (let once = h g in omega arith)
        ])
]

names-add_mapping :
    (mapping : List GroupSqlPair) (gp : List ℕ) (sql : Option (List ℕ))
    → names (add_mapping mapping gp sql) ≡ with_group (names mapping) gp
unfolding has_group add_mapping get_mapping
names-add_mapping [] gp sql = refl
names-add_mapping (p ∷ mapping) gp sql = elim (Bool-cases (same gp p.gp_name)) [
  | inl hit ↦ rw (add_mapping-hit p mapping gp sql hit, hit) refl
  | inr miss ↦
      rw (add_mapping-miss p mapping gp sql miss, miss, names-add_mapping mapping gp sql)
        (cons_if (has_group (names mapping) gp))
]
  where
    cons_if :
        (b : Bool)
        → p.gp_name ∷ (if b then names mapping else names mapping ++ gp ∷ [])
          ≡ (if b then p.gp_name ∷ names mapping else p.gp_name ∷ (names mapping ++ gp ∷ []))
    cons_if true = refl
    cons_if false = refl

add_mapping-Owned :
    (sql_list : List (List ℕ)) (mapping : List GroupSqlPair) (gp : List ℕ) (sql : Option (List ℕ))
    → Owned sql_list (record { gp_name = gp; sql = sql })
    → All (Owned sql_list) mapping
    → All (Owned sql_list) (add_mapping mapping gp sql)
unfolding add_mapping get_mapping
add_mapping-Owned sql_list [] gp sql own h = (own, tt)
add_mapping-Owned sql_list (p ∷ mapping) gp sql own h = elim (Bool-cases (same gp p.gp_name)) [
  | inl hit ↦ rw (add_mapping-hit p mapping gp sql hit) (own, h.1)
  | inr miss ↦
      rw (add_mapping-miss p mapping gp sql miss)
        (h.0, add_mapping-Owned sql_list mapping gp sql own h.1)
]

Owned-append :
    (sql_list more : List (List ℕ)) (mapping : List GroupSqlPair)
    → All (Owned sql_list) mapping
    → All (Owned (sql_list ++ more)) mapping
Owned-append sql_list more [] h = tt
Owned-append sql_list more (p ∷ mapping) h = (
  λ sql e. Elem-append_left sql sql_list more (h.0 sql e),
  Owned-append sql_list more mapping h.1,
)

no_sql : {sql : List ℕ} → none ≡ some sql → ⊥
no_sql e = cc

same_sql : {s sql : List ℕ} → some sql ≡ some s → s ≡ sql
same_sql e = cc

not_modified : false ≡ true → ⊥
not_modified e = cc

get_mapping-Owned :
    (sql_list : List (List ℕ)) (mapping : List GroupSqlPair) (gp : List ℕ) (pair : GroupSqlPair)
    → All (Owned sql_list) mapping
    → get_mapping mapping gp ≡ some pair
    → Owned sql_list pair
unfolding get_mapping
get_mapping-Owned sql_list [] gp pair h e = cc
get_mapping-Owned sql_list (p ∷ mapping) gp pair h e = elim (Bool-cases (same gp p.gp_name)) [
  | inl hit ↦ let found : p ≡ pair = first hit e in rw (← found) h.0
  | inr miss ↦ get_mapping-Owned sql_list mapping gp pair h.1 (rest miss e)
]
  where
    first :
        same gp p.gp_name ≡ true
        → (if same gp p.gp_name then some p else get_mapping mapping gp) ≡ some pair
        → p ≡ pair
    first hit e = let found : some p ≡ some pair = rw hit at e in cc

    rest :
        same gp p.gp_name ≡ false
        → (if same gp p.gp_name then some p else get_mapping mapping gp) ≡ some pair
        → get_mapping mapping gp ≡ some pair
    rest miss e = rw miss at e

statement-some : (plan : ShardingPlan) → IsValid plan → (sql : List ℕ) × (statement plan ≡ some sql)
statement-some plan v = elim (Bool-cases plan.is_modified) [
  | inl on ↦ let (sql, e) = v.modified on in (sql, rw on e)
  | inr off ↦ (plan.orig_sql, rw off refl)
]

sql_of-Owned :
    (plan : ShardingPlan) (m : Option GroupSqlPair)
    → IsValid plan
    → ((pair : GroupSqlPair) → m ≡ some pair → Owned plan.sql_list pair)
    → (sql : List ℕ) × (sql_of plan m ≡ some sql)
      × (Elem sql plan.sql_list ⊎ (statement plan ≡ some sql))
sql_of-Owned plan none v owned = let (sql, e) = statement-some plan v in (sql, e, inr e)
sql_of-Owned plan (some pair) v owned = elim (Option-cases pair.sql) [
  | inl shared ↦ let (sql, e) = statement-some plan v in (sql, rw shared e, inr e)
  | inr (sql, own) ↦ (sql, rw own refl, inl (owned pair refl sql own))
]

-- A call on a plan.
pub data Op : Type 0 where
  add_group : List ℕ → Op
  add_groups : Option (List (List ℕ)) → Op
  clear_group free_map sort_groups : Op
  add_group_sql : List ℕ → List ℕ → Op
  set_modified_sql : List ℕ → Op

module _ (sort : List (List ℕ) → List (List ℕ)) where
  abbrev pub run : Op → ShardingPlan → ShardingPlan
  run (add_group gp) plan = sharding_plan_add_group plan gp
  run (add_groups groups) plan = sharding_plan_add_groups plan groups
  run clear_group plan = sharding_plan_clear_group plan
  run free_map plan = sharding_plan_free_map plan
  run sort_groups plan = sharding_plan_sort_groups sort plan
  run (add_group_sql gp sql) plan = sharding_plan_add_group_sql plan gp sql
  run (set_modified_sql sql) plan = sharding_plan_set_modified_sql plan sql

  -- The plans that calls make of a new one.
  pub data Reachable : ShardingPlan → Type 0 where
    fresh : (sql : List ℕ) → Reachable (sharding_plan_new sql)
    call : (op : Op) (plan : ShardingPlan) → Reachable plan → Reachable (run op plan)

  -- glib's sort keeps how often each string is there.
  module _
      (sorts : (g : List ℕ) (gs : List (List ℕ)) → occurrences g (sort gs) ≡ occurrences g gs) where
    add_group-IsValid :
        (plan : ShardingPlan) (gp : List ℕ)
        → IsValid plan
        → IsValid (sharding_plan_add_group plan gp)
    unfolding sharding_plan_add_group
    add_group-IsValid plan gp v = record {
      distinct = with_group-distinct plan.groups gp v.distinct;
      mapped_once =
          rw (names-add_mapping plan.mapping gp none)
            (with_group-distinct (names plan.mapping) gp v.mapped_once);
      owned =
          add_mapping-Owned plan.sql_list plan.mapping gp none (λ sql e. absurd (no_sql e)) v.owned;
      modified = v.modified;
    }

    add_all-IsValid :
        (plan : ShardingPlan) (gs : List (List ℕ)) → IsValid plan → IsValid (add_all plan gs)
    add_all-IsValid plan [] v = v
    add_all-IsValid plan (gp ∷ gs) v =
        add_all-IsValid (sharding_plan_add_group plan gp) gs (add_group-IsValid plan gp v)

    run-IsValid : (op : Op) (plan : ShardingPlan) → IsValid plan → IsValid (run op plan)
    unfolding sharding_plan_add_groups sharding_plan_clear_group sharding_plan_free_map
        sharding_plan_sort_groups sharding_plan_add_group_sql sharding_plan_set_modified_sql
    run-IsValid (add_group gp) plan v = add_group-IsValid plan gp v
    run-IsValid (add_groups none) plan v = v
    run-IsValid (add_groups (some gs)) plan v = add_all-IsValid plan gs v
    run-IsValid clear_group plan v = record {
      distinct = λ g. omega arith;
      mapped_once = v.mapped_once;
      owned = v.owned;
      modified = v.modified;
    }
    run-IsValid free_map plan v = record {
      distinct = v.distinct;
      mapped_once = λ g. omega arith;
      owned = tt;
      modified = v.modified;
    }
    run-IsValid sort_groups plan v = record {
      distinct = λ g. rw (sorts g plan.groups) (v.distinct g);
      mapped_once = v.mapped_once;
      owned = v.owned;
      modified = v.modified;
    }
    run-IsValid (add_group_sql gp sql) plan v = record {
      distinct = with_group-distinct plan.groups gp v.distinct;
      mapped_once =
          rw (names-add_mapping plan.mapping gp (some sql))
            (with_group-distinct (names plan.mapping) gp v.mapped_once);
      owned =
          add_mapping-Owned (plan.sql_list ++ sql ∷ []) plan.mapping gp (some sql)
            (λ s e. Elem-append_right s plan.sql_list (sql ∷ []) (inl (same_sql e)))
            (Owned-append plan.sql_list (sql ∷ []) plan.mapping v.owned);
      modified = v.modified;
    }
    run-IsValid (set_modified_sql sql) plan v = record {
      distinct = v.distinct;
      mapped_once = v.mapped_once;
      owned = v.owned;
      modified = λ on. (sql, refl);
    }

    -- Whatever calls are made on a new plan, with a sort of the groups that keeps how often each string is
    -- there, its groups stay distinct, its mapping has no group twice, the SQL that the mapping refers to
    -- is in the list that owns it, and a modified plan has its modified SQL.
    pub Reachable-IsValid : (plan : ShardingPlan) → Reachable plan → IsValid plan
    unfolding sharding_plan_new
    Reachable-IsValid _ (fresh sql) = record {
      distinct = λ g. omega arith;
      mapped_once = λ g. omega arith;
      owned = tt;
      modified = λ e. absurd (not_modified e);
    }
    Reachable-IsValid _ (call op plan r) = run-IsValid op plan (Reachable-IsValid plan r)

    -- On any plan that calls have made of a new one, with a sort of the groups that keeps how often each
    -- string is there, the SQL of a group is not NULL: it is the statement of the plan, or SQL that the
    -- plan owns.
    pub get_sql-Owned :
        (plan : ShardingPlan) (gp : List ℕ)
        → Reachable plan
        → (sql : List ℕ) × (sharding_plan_get_sql plan gp ≡ some sql)
          × (Elem sql plan.sql_list ⊎ (statement plan ≡ some sql))
    unfolding sharding_plan_get_sql
    get_sql-Owned plan gp r =
        let v = Reachable-IsValid plan r in
        sql_of-Owned plan (get_mapping plan.mapping gp) v
          (λ pair e. get_mapping-Owned plan.sql_list plan.mapping gp pair v.owned e)
