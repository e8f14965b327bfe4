-- ===== src/Acl/Tests.antt =====
-- src/cetus-acl.c: runs on a list with one rule.
use cetus.Common.{ℕ, zero, suc, ◌&&◌, Bool, true, false, ◌≡◌, refl, some, List, [], ◌∷◌, same}
use cetus.Acl.Rules.{
  whitelist, blacklist, CetusAcl, has_entry, acl_add_to_list, acl_ip_contains, acl_list_contains,
  before_star, cetus_acl_verify, cetus_acl_add_rule, cetus_acl_delete_rule, cetus_acl_add_rule_str,
  is_ip_address, scan_ip, split_rule, add_each, cetus_acl_add_rules,
}
use cetus.Acl.Lists.{entry_of, cetus_acl_delete_rule-add}
use cetus.Acl.Verify.{cetus_acl_verify-add}

-- `10.*`
abbrev ten : List ℕ
ten = 49 ∷ 48 ∷ 46 ∷ 42 ∷ []

abbrev bob : List ℕ
bob = 98 ∷ []

abbrev one_rule : CetusAcl
one_rule = record { whitelist = entry_of (97 ∷ []) ten ∷ []; blacklist = [] }

bob_added : (cetus_acl_add_rule one_rule whitelist bob ten).1 ≡ true
unfolding cetus_acl_add_rule acl_add_to_list has_entry same
bob_added = refl

cetus_acl_delete_rule-add_example :
    cetus_acl_delete_rule (cetus_acl_add_rule one_rule whitelist bob ten).0 whitelist bob ten
    ≡ (one_rule, 1)
cetus_acl_delete_rule-add_example =
    cetus_acl_delete_rule-add one_rule whitelist bob ten bob_added refl

-- A comparison that is exact.
abbrev exact : List ℕ → List ℕ → ℕ → Bool
exact s t zero = true
exact (x ∷ s) (y ∷ t) (suc n) = let rest = exact s t n in same (x ∷ []) (y ∷ []) && rest
exact _ _ (suc n) = false

-- `10.7` is in `10.*`.
covered : acl_ip_contains exact (49 ∷ 48 ∷ 46 ∷ 55 ∷ []) ten ≡ true
unfolding acl_ip_contains before_star same
covered = refl

cetus_acl_verify-add_example :
    (cetus_acl_verify exact
        (cetus_acl_add_rule one_rule whitelist bob ten).0
        bob
        (49 ∷ 48 ∷ 46 ∷ 55 ∷ [])
      ≡ true)
    × (cetus_acl_verify exact
          (cetus_acl_add_rule one_rule blacklist bob ten).0
          bob
          (49 ∷ 48 ∷ 46 ∷ 55 ∷ [])
        ≡ acl_list_contains exact one_rule.whitelist bob (49 ∷ 48 ∷ 46 ∷ 55 ∷ []))
cetus_acl_verify-add_example =
    cetus_acl_verify-add exact bob ten (49 ∷ 48 ∷ 46 ∷ 55 ∷ []) covered one_rule

-- One rule, `b@10.*`, is the whole string.
abbrev whole : List ℕ → List (List ℕ)
whole s = s ∷ []

bob_counted :
    cetus_acl_add_rules whole one_rule whitelist (some (98 ∷ 64 ∷ ten))
    ≡ some
        (record { whitelist = entry_of (97 ∷ []) ten ∷ entry_of bob ten ∷ []; blacklist = [] }, 1)
unfolding cetus_acl_add_rules add_each cetus_acl_add_rule_str split_rule is_ip_address scan_ip
    before_star cetus_acl_add_rule acl_add_to_list has_entry same
bob_counted = refl
