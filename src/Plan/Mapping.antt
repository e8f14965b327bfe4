-- ===== src/Plan/Mapping.antt =====
-- src/sharding-query-plan.c: which SQL a group gets after a call.
use cetus.Common.{
  ℕ, true, false, ◌≡◌, refl, sym, ◌∙◌, ap, arith, Option, none, some, List, [], ◌∷◌, ◌++◌, inl, inr,
  same, same_refl, same→≡, Bool-cases, Option-cases,
}
use cetus.Plan.State.{
  GroupSqlPair, ShardingPlan, get_mapping, has_group, set_sql, add_mapping, with_group,
  sharding_plan_add_group, sharding_plan_add_group_sql, sharding_plan_get_sql, statement, sql_of,
  sharding_plan_has_group,
}

-- What the mapping says of a group: nothing, or a pair's SQL.
abbrev entry : List GroupSqlPair → List ℕ → Option (Option (List ℕ))
entry mapping gp = elim (get_mapping mapping gp) [ none ↦ none | some pair ↦ some pair.sql ]

-- Adding for a group changes its first pair, or adds a pair at the end.
pub add_mapping-hit :
    (p : GroupSqlPair) (mapping : List GroupSqlPair) (gp : List ℕ) (sql : Option (List ℕ))
    → same gp p.gp_name ≡ true
    → add_mapping (p ∷ mapping) gp sql ≡ record p { sql = sql } ∷ mapping
unfolding add_mapping set_sql get_mapping
add_mapping-hit p mapping gp sql h = rw (h, add_mapping, get_mapping) (rw (h, set_sql) refl)

pub add_mapping-miss :
    (p : GroupSqlPair) (mapping : List GroupSqlPair) (gp : List ℕ) (sql : Option (List ℕ))
    → same gp p.gp_name ≡ false
    → add_mapping (p ∷ mapping) gp sql ≡ p ∷ add_mapping mapping gp sql
unfolding add_mapping set_sql get_mapping
add_mapping-miss p mapping gp sql h = elim (Option-cases (get_mapping mapping gp)) [
  | inl absent ↦ rw (h, absent, add_mapping, get_mapping) refl
  | inr (pair, found) ↦ rw (h, found, add_mapping, get_mapping) (rw (h, set_sql) refl)
]

entry-hit :
    (p : GroupSqlPair) (mapping : List GroupSqlPair) (gp : List ℕ)
    → same gp p.gp_name ≡ true
    → entry (p ∷ mapping) gp ≡ some p.sql
unfolding get_mapping
entry-hit p mapping gp h = rw (h, entry, get_mapping) refl

entry-miss :
    (p : GroupSqlPair) (mapping : List GroupSqlPair) (gp : List ℕ)
    → same gp p.gp_name ≡ false
    → entry (p ∷ mapping) gp ≡ entry mapping gp
unfolding get_mapping
entry-miss p mapping gp h = rw (h, entry, get_mapping) refl

add_mapping-entry :
    (mapping : List GroupSqlPair) (gp : List ℕ) (sql : Option (List ℕ))
    → entry (add_mapping mapping gp sql) gp ≡ some sql
unfolding add_mapping get_mapping
add_mapping-entry [] gp sql = entry-hit (record { gp_name = gp; sql = sql }) [] gp (same_refl gp)
add_mapping-entry (p ∷ mapping) gp sql = elim (Bool-cases (same gp p.gp_name)) [
  | inl hit ↦
      rw (add_mapping-hit p mapping gp sql hit) (entry-hit (record p { sql = sql }) mapping gp hit)
  | inr miss ↦
      rw (add_mapping-miss p mapping gp sql miss)
        (entry-miss p _ gp miss ∙ add_mapping-entry mapping gp sql)
]

-- Two names that are not the same differ from each other, whatever they are compared to.
both_same :
    (gp other name : List ℕ) → same other gp ≡ false → same gp name ≡ true → same other name ≡ false
both_same gp other name differ hit = rw (← same→≡ gp name hit) differ

add_mapping-other :
    (mapping : List GroupSqlPair) (gp other : List ℕ) (sql : Option (List ℕ))
    → same other gp ≡ false
    → entry (add_mapping mapping gp sql) other ≡ entry mapping other
unfolding add_mapping get_mapping
add_mapping-other [] gp other sql h = entry-miss (record { gp_name = gp; sql = sql }) [] other h
add_mapping-other (p ∷ mapping) gp other sql h = elim (Bool-cases (same gp p.gp_name)) [
  | inl hit ↦ rw (add_mapping-hit p mapping gp sql hit) (
      let aside = both_same gp other p.gp_name h hit in
      entry-miss (record p { sql = sql }) mapping other aside
      ∙ sym (entry-miss p mapping other aside))
  | inr miss ↦
      rw (add_mapping-miss p mapping gp sql miss) (elim (Bool-cases (same other p.gp_name)) [
        | inl first ↦ entry-hit p _ other first ∙ sym (entry-hit p mapping other first)
        | inr later ↦
            entry-miss p _ other later
            ∙ add_mapping-other mapping gp other sql h
            ∙ sym (entry-miss p mapping other later)
      ])
]

abbrev sql_at : ShardingPlan → Option (Option (List ℕ)) → Option (List ℕ)
sql_at plan none = statement plan
sql_at plan (some none) = statement plan
sql_at plan (some (some sql)) = some sql

get_sql-entry :
    (plan : ShardingPlan) (gp : List ℕ)
    → sharding_plan_get_sql plan gp ≡ sql_at plan (entry plan.mapping gp)
unfolding sharding_plan_get_sql
get_sql-entry plan gp = go (get_mapping plan.mapping gp)
  where
    go :
        (m : Option GroupSqlPair)
        → sql_of plan m ≡ sql_at plan (elim m [ none ↦ none | some pair ↦ some pair.sql ])
    go none = refl
    go (some pair) = by_sql pair pair.sql refl
      where
        by_sql :
            (pair : GroupSqlPair) (s : Option (List ℕ))
            → pair.sql ≡ s
            → sql_of plan (some pair) ≡ sql_at plan (some pair.sql)
        by_sql pair none e = rw e refl
        by_sql pair (some sql) e = rw e refl

has_group-with : (groups : List (List ℕ)) (gp : List ℕ) → has_group (with_group groups gp) gp ≡ true
unfolding has_group
has_group-with groups gp = elim (Bool-cases (has_group groups gp)) [
  | inl there ↦ rw there there
  | inr absent ↦ rw absent (at_end groups)
]
  where
    at_end : (groups : List (List ℕ)) → has_group (groups ++ gp ∷ []) gp ≡ true
    at_end [] = ground (arith, same_refl gp)
    at_end (g ∷ groups) = ground (arith, at_end groups)

-- After a group is added with SQL of its own, the plan has the group and gives that SQL for it; added
-- without, the plan gives its statement, modified or not. In both cases a group of another name gets
-- what it got before.
pub get_sql-add :
    (plan : ShardingPlan) (gp sql other : List ℕ)
    → same other gp ≡ false
    → (let own = sharding_plan_add_group_sql plan gp sql in
        (sharding_plan_has_group own gp ≡ true)
        × (sharding_plan_get_sql own gp ≡ some sql)
        × (sharding_plan_get_sql own other ≡ sharding_plan_get_sql plan other))
      × (let plain = sharding_plan_add_group plan gp in
          (sharding_plan_has_group plain gp ≡ true)
          × (sharding_plan_get_sql plain gp ≡ statement plan)
          × (sharding_plan_get_sql plain other ≡ sharding_plan_get_sql plan other))
unfolding sharding_plan_add_group_sql sharding_plan_add_group
get_sql-add plan gp sql other h =
    let own = sharding_plan_add_group_sql plan gp sql in
    let plain = sharding_plan_add_group plan gp in
    let here = λ (s : Option (List ℕ)). add_mapping-entry plan.mapping gp s in
    let aside = λ (s : Option (List ℕ)). add_mapping-other plan.mapping gp other s h in
    (
      (
        has_group-with plan.groups gp,
        get_sql-entry own gp ∙ ap (sql_at own) (here (some sql)),
        get_sql-entry own other
            ∙ ap (sql_at own) (aside (some sql))
            ∙ sym (get_sql-entry plan other),
      ),
      (
        has_group-with plan.groups gp,
        get_sql-entry plain gp ∙ ap (sql_at plain) (here none),
        get_sql-entry plain other ∙ ap (sql_at plain) (aside none) ∙ sym (get_sql-entry plan other),
      ),
    )
