-- ===== src/Acl/Verify.antt =====
-- src/cetus-acl.c: who may connect after a rule is added, and how many rules a list of rules adds.
use cetus.Common.{
  ℕ, ◌+◌, Bool, true, false, ◌&&◌, not, ◌≡◌, refl, sym, arith, Option, none, some, List, [], ◌∷◌,
  ◌++◌, length, length-append, same, same_refl, same→≡, Bool-cases, Option-cases, &&-true, ||-true,
  inl, inr, if◌then◌else◌,
}
use cetus.Acl.Rules.{
  CetusAclCategory, whitelist, blacklist, CetusAclEntry, CetusAcl, is_entry, has_entry,
  acl_add_to_list, acl_ip_contains, acl_list_contains, cetus_acl_verify, cetus_acl_add_rule,
  cetus_acl_add_rule_str, is_ip_address, if_address, split_rule, add_each, one_if,
  cetus_acl_add_rules, is_null,
}
use cetus.Acl.Lists.{entry_of, rules}

module _ (ncasecmp : List ℕ → List ℕ → ℕ → Bool) (user host client : List ℕ)
    (within : acl_ip_contains ncasecmp client host ≡ true) where
  contains-there :
      (entries : List CetusAclEntry)
      → has_entry entries user host ≡ true
      → acl_list_contains ncasecmp entries user client ≡ true
  unfolding has_entry acl_list_contains
  contains-there [] h = h
  contains-there (e ∷ entries) h =
      elim (||-true (is_entry e user host) (has_entry entries user host) h) [
        | inl here ↦
            let both = &&-true (same user e.username) (same host e.host) here in
            let at_host : acl_ip_contains ncasecmp client e.host ≡ true =
              rw (← same→≡ host e.host both.1) within in
            let at_user : same e.username user ≡ true =
              rw (← same→≡ user e.username both.0) (same_refl user) in
            rw (at_host, at_user) refl
        | inr later ↦ ground (arith, contains-there entries later)
      ]

  contains-append :
      (entries : List CetusAclEntry)
      → acl_list_contains ncasecmp (entries ++ entry_of user host ∷ []) user client ≡ true
  unfolding acl_list_contains
  contains-append [] = rw (within, same_refl user) refl
  contains-append (e ∷ entries) = ground (arith, contains-append entries)

  contains-not_null :
      (entries : List CetusAclEntry)
      → acl_list_contains ncasecmp entries user client ≡ true
      → is_null entries ≡ false
  unfolding acl_list_contains
  contains-not_null [] h = sym h
  contains-not_null (e ∷ entries) h = refl

  contains-add :
      (entries : List CetusAclEntry)
      → acl_list_contains ncasecmp (acl_add_to_list entries user host).0 user client ≡ true
  unfolding acl_add_to_list
  contains-add entries = elim (Bool-cases (has_entry entries user host)) [
    | inl there ↦ rw there (contains-there entries there)
    | inr absent ↦ rw absent (contains-append entries)
  ]

  -- After a rule for a user and an address that covers the client is in the whitelist, the user may connect,
  -- whatever the blacklist says. After it is in the blacklist, the user may connect only if a rule of the
  -- whitelist covers the client. Both hold too if the rule was there before.
  pub cetus_acl_verify-add :
      (acl : CetusAcl)
      → (cetus_acl_verify ncasecmp (cetus_acl_add_rule acl whitelist user host).0 user client
          ≡ true)
        × (cetus_acl_verify ncasecmp (cetus_acl_add_rule acl blacklist user host).0 user client
            ≡ acl_list_contains ncasecmp acl.whitelist user client)
  unfolding cetus_acl_verify cetus_acl_add_rule
  cetus_acl_verify-add acl =
      let white = contains-add acl.whitelist in
      let black = contains-add acl.blacklist in
      (
        rw (contains-not_null _ white, white) refl,
        elim (Bool-cases (acl_list_contains ncasecmp acl.whitelist user client)) [
          | inl listed ↦
              rw (contains-not_null _ black, black, contains-not_null acl.whitelist listed, listed)
                refl
          | inr not_listed ↦
              rw (contains-not_null _ black, black, not_listed) (decided (is_null acl.whitelist))
        ],
      )
    where
      decided :
          (w : Bool)
          → (if w && false
              then true
              else if not w && false
              then true
              else if true && true
              then false
              else if not w && false
              then false
              else true)
            ≡ false
      decided true = refl
      decided false = refl

length-add :
    (entries : List CetusAclEntry) (user host : List ℕ)
    → length (acl_add_to_list entries user host).0
      ≡ length entries + one_if (acl_add_to_list entries user host).1
unfolding acl_add_to_list
length-add entries user host = elim (Bool-cases (has_entry entries user host)) [
  | inl there ↦ rw there (omega arith)
  | inr absent ↦ rw absent (length-append entries (entry_of user host ∷ []))
]

add_rule-counts :
    (acl : CetusAcl) (cate : CetusAclCategory) (user host : List ℕ)
    → length (rules (cetus_acl_add_rule acl cate user host).0 cate)
      ≡ length (rules acl cate) + one_if (cetus_acl_add_rule acl cate user host).1
unfolding cetus_acl_add_rule
add_rule-counts acl whitelist user host = length-add acl.whitelist user host
add_rule-counts acl blacklist user host = length-add acl.blacklist user host

add_rule_str-counts :
    (acl after : CetusAcl) (cate : CetusAclCategory) (rule : List ℕ) (ok : Bool)
    → cetus_acl_add_rule_str acl cate rule ≡ some (after, ok)
    → length (rules after cate) ≡ length (rules acl cate) + one_if ok
unfolding cetus_acl_add_rule_str
add_rule_str-counts acl after cate rule ok e = go (is_ip_address (split_rule rule).1) e
  where
    unsome : {r : CetusAcl × Bool} → some r ≡ some (after, ok) → r ≡ (after, ok)
    unsome e = cc

    counts_of :
        (r : CetusAcl × Bool)
        → some r ≡ some (after, ok)
        → length (rules r.0 cate) ≡ length (rules acl cate) + one_if r.1
        → length (rules after cate) ≡ length (rules acl cate) + one_if ok
    counts_of r e h = rw (unsome e) at h

    go :
        (m : Option Bool)
        → if_address m
            (cetus_acl_add_rule acl cate (split_rule rule).0 (split_rule rule).1)
            (acl, false)
          ≡ some (after, ok)
        → length (rules after cate) ≡ length (rules acl cate) + one_if ok
    go none e = cc
    go (some false) e = counts_of (acl, false) e (omega arith)
    go (some true) e =
        counts_of (cetus_acl_add_rule acl cate (split_rule rule).0 (split_rule rule).1) e
          (add_rule-counts acl cate (split_rule rule).0 (split_rule rule).1)

nothing : {A : Type 0} {B : Type 0} {b : B} → none ≡ some b → A
nothing e = cc

add_each-counts :
    (acl after : CetusAcl) (cate : CetusAclCategory) (strs : List (List ℕ)) (count n : ℕ)
    → add_each acl cate strs count ≡ some (after, n)
    → length (rules after cate) + count ≡ length (rules acl cate) + n
unfolding add_each
add_each-counts acl after cate [] count n e =
    let same_acl : acl ≡ after = cc in
    let same_count : count ≡ n = cc in rw (same_acl, same_count) refl
add_each-counts acl after cate (rule ∷ strs) count n e =
    elim (Option-cases (cetus_acl_add_rule_str acl cate rule)) [
      | inl stuck ↦ nothing (rw (stuck, add_each) at e)
      | inr ((next, ok), added) ↦
          let rest : add_each next cate strs (count + one_if ok) ≡ some (after, n) =
            rw (added, add_each) at e in
          omega (
            arith,
            add_each-counts next after cate strs (count + one_if ok) n rest,
            add_rule_str-counts acl next cate rule ok added,
          )
    ]

-- The count that adding a list of rules returns, if no test of an address overruns its buffer, is by
-- how many rules the list of the category grew: rules that were there already and rules whose host is
-- no address are not counted.
pub cetus_acl_add_rules_lem :
    (strsplit : List ℕ → List (List ℕ)) (acl after : CetusAcl) (cate : CetusAclCategory)
    (str : Option (List ℕ)) (n : ℕ)
    → cetus_acl_add_rules strsplit acl cate str ≡ some (after, n)
    → length (rules after cate) ≡ length (rules acl cate) + n
unfolding cetus_acl_add_rules
cetus_acl_add_rules_lem strsplit acl after cate none n e =
    let same_acl : acl ≡ after = cc in
    let same_count : 0 ≡ n = cc in rw (← same_acl, ← same_count) (omega arith)
cetus_acl_add_rules_lem strsplit acl after cate (some str) n e =
    omega (arith, add_each-counts acl after cate (strsplit str) 0 n e)
