-- ===== src/Acl/Rules.antt =====
-- src/cetus-acl.c and .h. Strings are their bytes, without the NUL.
use cetus.Common.{
  ℕ, suc, ◌+◌, ◌-◌, ◌*◌, Bool, true, false, ◌&&◌, ◌||◌, not, Option, none, some, List, [], ◌∷◌,
  ◌++◌, length, same, if◌then◌else◌, ◌==◌, ltb, leb,
}

pub data CetusAclCategory : Type 0 where
  whitelist blacklist : CetusAclCategory

pub record CetusAclEntry : Type 0 where
  pub username : List ℕ
  pub host : List ℕ

pub record CetusAcl : Type 0 where
  pub whitelist : List CetusAclEntry
  pub blacklist : List CetusAclEntry

abbrev pub is_entry : CetusAclEntry → List ℕ → List ℕ → Bool
is_entry entry user host = same user entry.username && same host entry.host

unfoldable pub has_entry : List CetusAclEntry → List ℕ → List ℕ → Bool
has_entry [] user host = false
has_entry (entry ∷ entries) user host = is_entry entry user host || has_entry entries user host

-- The list, and `ok`.
unfoldable pub acl_add_to_list : List CetusAclEntry → List ℕ → List ℕ → List CetusAclEntry × Bool
acl_add_to_list entries user host =
    if has_entry entries user host
    then (entries, false)
    else (entries ++ record { username = user; host = host } ∷ [], true)

-- `*` or `%` as the first byte.
abbrev pub is_wildcard : List ℕ → Bool
is_wildcard [] = false
is_wildcard (x ∷ s) = x == 42 || (x == 37)

abbrev pub deletes : List ℕ → List ℕ → CetusAclEntry → Bool
deletes user host entry = same entry.host host && (is_wildcard user || same user entry.username)

-- The list, and by how much `count` grows.
unfoldable pub acl_delete_from_list : List CetusAclEntry → List ℕ → List ℕ → List CetusAclEntry × ℕ
acl_delete_from_list [] user host = ([], 0)
acl_delete_from_list (entry ∷ entries) user host =
    let (kept, count) = acl_delete_from_list entries user host in
    if deletes user host entry then (kept, suc count) else (entry ∷ kept, count)

-- The bytes in front of the first `*`.
unfoldable pub before_star : List ℕ → List ℕ
before_star [] = []
before_star (c ∷ s) = let rest = before_star s in if c == 42 then [] else c ∷ rest

abbrev is_digit : ℕ → Bool
is_digit c = leb 48 c && leb c 57

abbrev atoi : ℕ → List ℕ → ℕ
atoi n [] = n
atoi n (c ∷ s) = atoi (n * 10 + (c - 48)) s

-- The loop, with the bytes from `start` on, and `dot_num`. `none` is a part of more than three digits, which
-- overruns `num` or its NUL.
unfoldable pub scan_ip : List ℕ → List ℕ → ℕ → Option Bool
scan_ip [] part dot_num = some true
scan_ip (c ∷ s) part dot_num =
    let next = scan_ip s [] (suc dot_num) in
    let longer = scan_ip s (part ++ c ∷ []) dot_num in
    if not (is_digit c) && not (c == 46)
    then some false
    else if c == 46
    then if ltb 3 (suc dot_num)
      then some false
      else if ltb 3 (length part)
      then none
      else if ltb 255 (atoi 0 part)
      then some false
      else next
    else longer

unfoldable pub is_ip_address : List ℕ → Option Bool
is_ip_address ip = scan_ip (before_star ip) [] 0

-- `user@host`, split at the first `@`; without one the user is `*`.
unfoldable pub split_rule : List ℕ → List ℕ × List ℕ
split_rule rule = elim (at_sign rule) [ none ↦ (42 ∷ [], rule) | some both ↦ both ]
  where
    at_sign : List ℕ → Option (List ℕ × List ℕ)
    at_sign [] = none
    at_sign (c ∷ s) =
        let rest = at_sign s in
        if c == 64
        then some ([], s)
        else elim rest [ none ↦ none | some (user, host) ↦ some (c ∷ user, host) ]

abbrev pub is_null : List CetusAclEntry → Bool
is_null [] = true
is_null _ = false

-- `ncasecmp client host n` is glib's test that the first `n` bytes are equal, but for ASCII case.
module _ (ncasecmp : List ℕ → List ℕ → ℕ → Bool) where
  unfoldable pub acl_ip_contains : List ℕ → List ℕ → Bool
  acl_ip_contains client_ip host_ip =
      let cmp_size = length (before_star host_ip) in
      if same host_ip (42 ∷ [])
      then true
      else if ltb 0 cmp_size
      then ncasecmp client_ip host_ip cmp_size
      else false

  unfoldable pub acl_list_contains : List CetusAclEntry → List ℕ → List ℕ → Bool
  acl_list_contains [] user host = false
  acl_list_contains (entry ∷ entries) user host =
      (acl_ip_contains host entry.host && (same entry.username user || is_wildcard entry.username))
      || acl_list_contains entries user host

  unfoldable pub cetus_acl_verify : CetusAcl → List ℕ → List ℕ → Bool
  cetus_acl_verify acl user host =
      if is_null acl.whitelist && is_null acl.blacklist
      then true
      else if not (is_null acl.whitelist) && acl_list_contains acl.whitelist user host
      then true
      else if not (is_null acl.blacklist) && acl_list_contains acl.blacklist user host
      then false
      else if not (is_null acl.whitelist) && is_null acl.blacklist
      then false
      else true

unfoldable pub cetus_acl_add_rule : CetusAcl → CetusAclCategory → List ℕ → List ℕ → CetusAcl × Bool
cetus_acl_add_rule acl whitelist user host =
    let (entries, ok) = acl_add_to_list acl.whitelist user host in
    (record acl { whitelist = entries }, ok)
cetus_acl_add_rule acl blacklist user host =
    let (entries, ok) = acl_add_to_list acl.blacklist user host in
    (record acl { blacklist = entries }, ok)

unfoldable pub cetus_acl_delete_rule : CetusAcl → CetusAclCategory → List ℕ → List ℕ → CetusAcl × ℕ
cetus_acl_delete_rule acl whitelist user host =
    let (entries, count) = acl_delete_from_list acl.whitelist user host in
    (record acl { whitelist = entries }, count)
cetus_acl_delete_rule acl blacklist user host =
    let (entries, count) = acl_delete_from_list acl.blacklist user host in
    (record acl { blacklist = entries }, count)

-- `none`: the test of the address overruns its buffer.
abbrev pub if_address : {A : Type 0} → Option Bool → A → A → Option A
if_address none passed refused = none
if_address (some true) passed refused = some passed
if_address (some false) passed refused = some refused

unfoldable pub cetus_acl_add_rule_str :
    CetusAcl → CetusAclCategory → List ℕ → Option (CetusAcl × Bool)
cetus_acl_add_rule_str acl cate the_rule =
    let (user, host) = split_rule the_rule in
    if_address (is_ip_address host) (cetus_acl_add_rule acl cate user host) (acl, false)

unfoldable pub cetus_acl_delete_rule_str :
    CetusAcl → CetusAclCategory → List ℕ → Option (CetusAcl × ℕ)
cetus_acl_delete_rule_str acl cate the_rule =
    let (user, host) = split_rule the_rule in
    if_address (is_ip_address host) (cetus_acl_delete_rule acl cate user host) (acl, 0)

abbrev pub one_if : Bool → ℕ
one_if true = 1
one_if false = 0

-- The rules are split already; the count is that of the rules that were added.
unfoldable pub add_each : CetusAcl → CetusAclCategory → List (List ℕ) → ℕ → Option (CetusAcl × ℕ)
add_each acl cate [] count = some (acl, count)
add_each acl cate (rule ∷ rules) count = elim (cetus_acl_add_rule_str acl cate rule) [
  | none ↦ none
  | some (acl', ok) ↦ add_each acl' cate rules (count + one_if ok)
]

-- `strsplit` is glib's split at commas; a NULL string is `none`.
unfoldable pub cetus_acl_add_rules :
    (List ℕ → List (List ℕ)) → CetusAcl → CetusAclCategory → Option (List ℕ) → Option (CetusAcl × ℕ)
cetus_acl_add_rules strsplit acl cate none = some (acl, 0)
cetus_acl_add_rules strsplit acl cate (some rules) = add_each acl cate (strsplit rules) 0
