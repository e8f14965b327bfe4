-- ===== src/Acl/Lists.antt =====
-- src/cetus-acl.c: what adding and deleting rules does to a list, and to who may connect.
use cetus.Common.{
  ℕ, ◌+◌, true, false, ◌||◌, ◌≡◌, refl, ap, arith, ◌↔◌, inl, inr, List, [], ◌∷◌, ◌++◌, length, Elem,
  same, same_refl, same→≡, Bool-cases,
}
use cetus.Acl.Rules.{
  CetusAclCategory, whitelist, blacklist, CetusAclEntry, CetusAcl, is_entry, has_entry,
  acl_add_to_list, is_wildcard, deletes, acl_delete_from_list, cetus_acl_add_rule,
  cetus_acl_delete_rule,
}

abbrev pub entry_of : List ℕ → List ℕ → CetusAclEntry
entry_of user host = record { username = user; host = host }

same_comm : (s t : List ℕ) → same s t ≡ same t s
same_comm s t = elim (Bool-cases (same s t)) [
  | inl hit ↦ let e = same→≡ s t hit in rw (hit, e, same_refl t) refl
  | inr miss ↦ elim (Bool-cases (same t s)) [
    | inl hit ↦ let e = same→≡ t s hit in rw (e) refl
    | inr miss' ↦ rw (miss, miss') refl
  ]
]

module _ (user host : List ℕ) where
  has_entry-append :
      (entries : List CetusAclEntry) (e : CetusAclEntry)
      → has_entry (entries ++ e ∷ []) user host
        ≡ has_entry entries user host || is_entry e user host
  unfolding has_entry
  has_entry-append [] e = ground arith
  has_entry-append (x ∷ entries) e = ground (arith, has_entry-append entries e)

  not_deleted :
      (x : CetusAclEntry)
      → is_entry x user host ≡ false
      → is_wildcard user ≡ false
      → deletes user host x ≡ false
  not_deleted x h w = ground (arith, same_comm host x.host)

  first_absent :
      (x : CetusAclEntry) (entries : List CetusAclEntry)
      → has_entry (x ∷ entries) user host ≡ false
      → (is_entry x user host ≡ false) × (has_entry entries user host ≡ false)
  unfolding has_entry
  first_absent x entries h = (ground arith, ground arith)

  -- A rule that is not there, for a user that is no wildcard, deletes nothing.
  delete-absent :
      (entries : List CetusAclEntry)
      → has_entry entries user host ≡ false
      → is_wildcard user ≡ false
      → acl_delete_from_list entries user host ≡ (entries, 0)
  unfolding has_entry acl_delete_from_list
  delete-absent [] h w = refl
  delete-absent (x ∷ entries) h w =
      let absent = first_absent x entries h in
      rw (not_deleted x absent.0 w, delete-absent entries absent.1 w) refl

  delete-append :
      (entries : List CetusAclEntry)
      → has_entry entries user host ≡ false
      → is_wildcard user ≡ false
      → acl_delete_from_list (entries ++ entry_of user host ∷ []) user host ≡ (entries, 1)
  unfolding has_entry acl_delete_from_list
  delete-append [] h w = ground (arith, same_refl user, same_refl host)
  delete-append (x ∷ entries) h w =
      let absent = first_absent x entries h in
      rw (not_deleted x absent.0 w, delete-append entries absent.1 w) refl

  clash :
      {e x : CetusAclEntry} → e ≡ x → deletes user host x ≡ true → deletes user host e ≡ false → ⊥
  clash {e} {x} here gone stays = cc (ap (deletes user host) here, gone, stays)

  -- What is left, and how much was deleted.
  delete_lem :
      (entries : List CetusAclEntry) (e : CetusAclEntry)
      → let (kept, count) = acl_delete_from_list entries user host in
        (count + length kept ≡ length entries)
        × (Elem e kept ↔ (Elem e entries × (deletes user host e ≡ false)))
  unfolding acl_delete_from_list
  delete_lem [] e = (refl, (λ m. absurd m, λ m. m.0))
  delete_lem (x ∷ entries) e =
      let rest = delete_lem entries e in
      elim (Bool-cases (deletes user host x)) [
        | inl gone ↦ rw gone (
          omega (arith, rest.0),
          (
            λ m. let r = rest.1.0 m in (inr r.0, r.1),
            λ m. elim m.0 [
              | inl here ↦ absurd (clash here gone m.1)
              | inr later ↦ rest.1.1 (later, m.1)
            ],
          ),
        )
        | inr stays ↦ rw stays (
          omega (arith, rest.0),
          (
            λ m. elim m [
              | inl here ↦ (inl here, rw here stays)
              | inr later ↦ let r = rest.1.0 later in (inr r.0, r.1)
            ],
            λ m. elim m.0 [ inl here ↦ inl here | inr later ↦ inr (rest.1.1 (later, m.1)) ],
          ),
        )
      ]

added-absent :
    (entries : List CetusAclEntry) (user host : List ℕ)
    → (acl_add_to_list entries user host).1 ≡ true
    → has_entry entries user host ≡ false
unfolding acl_add_to_list
added-absent entries user host ok = elim (Bool-cases (has_entry entries user host)) [
  | inl there ↦ let no : false ≡ true = rw (there, acl_add_to_list) at ok in cc
  | inr absent ↦ absent
]

-- Adding a rule that is new and deleting it again, for a user that is no wildcard, gives back the list of rules
-- as it was, and the count is one.
pub cetus_acl_delete_rule-add :
    (acl : CetusAcl) (cate : CetusAclCategory) (user host : List ℕ)
    → (cetus_acl_add_rule acl cate user host).1 ≡ true
    → is_wildcard user ≡ false
    → cetus_acl_delete_rule (cetus_acl_add_rule acl cate user host).0 cate user host ≡ (acl, 1)
unfolding cetus_acl_add_rule cetus_acl_delete_rule acl_add_to_list
cetus_acl_delete_rule-add acl whitelist user host ok w =
    let absent = added-absent acl.whitelist user host ok in
    rw (absent, delete-append user host acl.whitelist absent w) refl
cetus_acl_delete_rule-add acl blacklist user host ok w =
    let absent = added-absent acl.blacklist user host ok in
    rw (absent, delete-append user host acl.blacklist absent w) refl

-- The rules of a category.
abbrev pub rules : CetusAcl → CetusAclCategory → List CetusAclEntry
rules acl whitelist = acl.whitelist
rules acl blacklist = acl.blacklist

-- Deleting by user and host leaves exactly the rules of the category with another host, or with another user if
-- the given user is no wildcard; the count and the number of rules that are left make the number that was there.
pub cetus_acl_delete_rule_lem :
    (acl : CetusAcl) (cate : CetusAclCategory) (user host : List ℕ) (e : CetusAclEntry)
    → let (after, count) = cetus_acl_delete_rule acl cate user host in
      (count + length (rules after cate) ≡ length (rules acl cate))
      × (Elem e (rules after cate) ↔ (Elem e (rules acl cate) × (deletes user host e ≡ false)))
unfolding cetus_acl_delete_rule
cetus_acl_delete_rule_lem acl whitelist user host e = delete_lem user host acl.whitelist e
cetus_acl_delete_rule_lem acl blacklist user host e = delete_lem user host acl.blacklist e
