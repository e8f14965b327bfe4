-- ===== src/Plan/Tests.antt =====
-- src/sharding-query-plan.c: runs on small plans.
use cetus.Common.{ℕ, true, false, ◌≡◌, refl, some, List, [], ◌∷◌, ◌⊎◌, Elem, same}
use cetus.Plan.State.{
  ShardingPlan, sharding_plan_new, sharding_plan_add_group, sharding_plan_add_group_sql,
  sharding_plan_get_sql, sharding_plan_has_group, statement,
}
use cetus.Plan.Mapping.{get_sql-add}
use cetus.Plan.Invariant.{
  IsValid, Reachable, fresh, call, add_group_sql, clear_group, run, Reachable-IsValid,
  get_sql-Owned,
}

abbrev new_plan : ShardingPlan
new_plan = sharding_plan_new (115 ∷ [])

different : same (98 ∷ []) (97 ∷ []) ≡ false
unfolding same
different = refl

get_sql-add_example :
    (let own = sharding_plan_add_group_sql new_plan (97 ∷ []) (116 ∷ []) in
      (sharding_plan_has_group own (97 ∷ []) ≡ true)
      × (sharding_plan_get_sql own (97 ∷ []) ≡ some (116 ∷ []))
      × (sharding_plan_get_sql own (98 ∷ []) ≡ sharding_plan_get_sql new_plan (98 ∷ [])))
    × (let plain = sharding_plan_add_group new_plan (97 ∷ []) in
        (sharding_plan_has_group plain (97 ∷ []) ≡ true)
        × (sharding_plan_get_sql plain (97 ∷ []) ≡ statement new_plan)
        × (sharding_plan_get_sql plain (98 ∷ []) ≡ sharding_plan_get_sql new_plan (98 ∷ [])))
get_sql-add_example = get_sql-add new_plan (97 ∷ []) (116 ∷ []) (98 ∷ []) different

-- The sort of short arrays that are in order.
abbrev keep_order : List (List ℕ) → List (List ℕ)
keep_order gs = gs

abbrev used_plan : ShardingPlan
used_plan =
    run keep_order clear_group (run keep_order (add_group_sql (97 ∷ []) (116 ∷ [])) new_plan)

used_plan-Reachable : Reachable keep_order used_plan
used_plan-Reachable =
    call clear_group _ (call (add_group_sql (97 ∷ []) (116 ∷ [])) _ (fresh (115 ∷ [])))

Reachable-IsValid_example : IsValid used_plan
Reachable-IsValid_example =
    Reachable-IsValid keep_order (λ g gs. refl) used_plan used_plan-Reachable

get_sql-Owned_example :
    (sql : List ℕ) × (sharding_plan_get_sql used_plan (97 ∷ []) ≡ some sql)
    × (Elem sql used_plan.sql_list ⊎ (statement used_plan ≡ some sql))
get_sql-Owned_example =
    get_sql-Owned keep_order (λ g gs. refl) used_plan (97 ∷ []) used_plan-Reachable
