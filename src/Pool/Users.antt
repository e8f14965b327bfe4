-- ===== src/Pool/Users.antt =====
-- The table of users under a change of one queue.
use cetus.Common.{
  ℕ, ◌+◌, ◌≡◌, refl, arith, Bool, true, false, Option, none, some, List, [], ◌∷◌, length, All, Elem,
  same, same_refl, same→≡, if◌then◌else◌, Bool-cases, inl, inr,
}
use cetus.Pool.State.{PoolEntry, PoolUser, lookup, set_conns, total_conns}

-- No key twice.
abbrev pub Distinct : List PoolUser → Type 0
Distinct [] = Unit {0}
Distinct (user ∷ users) = (lookup user.name users ≡ none) × Distinct users

same_other : (a n j : List ℕ) → same a n ≡ false → same a j ≡ true → same n j ≡ false
same_other a n j miss here = elim (Bool-cases (same n j)) [
  | inl hit ↦
      let e : same a n ≡ true = rw (same→≡ a j here, same→≡ n j hit) (same_refl j) in
      absurd (ground arith)
  | inr other ↦ other
]

unsome : {xs ys : List PoolEntry} → ◌≡◌ {A = Option (List PoolEntry)} (some xs) (some ys) → xs ≡ ys
unsome e = cc

pub lookup-set_conns :
    (name j : List ℕ) (conns : List PoolEntry) (users : List PoolUser) {old : List PoolEntry}
    → lookup name users ≡ some old
    → lookup j (set_conns name conns users) ≡ (if same name j then some conns else lookup j users)
unfolding lookup set_conns
lookup-set_conns name j conns [] h = absurd (ground arith)
lookup-set_conns name j conns (user ∷ users) h = elim (Bool-cases (same user.name name)) [
  | inl hit ↦ rw (hit, same→≡ user.name name hit) (split_if (same name j))
  | inr miss ↦ rw miss (elim (Bool-cases (same user.name j)) [
    | inl here ↦ rw (here, same_other user.name name j miss here) refl
    | inr there ↦ rw there (lookup-set_conns name j conns users (rw miss at h))
  ])
]
  where
    split_if :
        (b : Bool)
        → (if b then some conns else lookup j users)
          ≡ (if b then some conns else if b then some user.conns else lookup j users)
    split_if true = refl
    split_if false = refl

pub lookup-set_conns-none :
    (name j : List ℕ) (conns : List PoolEntry) (users : List PoolUser)
    → lookup j users ≡ none
    → lookup j (set_conns name conns users) ≡ none
unfolding lookup set_conns
lookup-set_conns-none name j conns [] h = refl
lookup-set_conns-none name j conns (user ∷ users) h =
    ground (arith, lookup-set_conns-none name j conns users)

pub set_conns-Distinct :
    (name : List ℕ) (conns : List PoolEntry) (users : List PoolUser)
    → Distinct users
    → Distinct (set_conns name conns users)
unfolding set_conns
set_conns-Distinct name conns [] d = tt
set_conns-Distinct name conns (user ∷ users) d = elim (Bool-cases (same user.name name)) [
  | inl hit ↦ rw hit d
  | inr miss ↦ rw miss (
    lookup-set_conns-none name user.name conns users d.0,
    set_conns-Distinct name conns users d.1,
  )
]

-- The total changes by what the queue changes.
pub total-set_conns :
    (name : List ℕ) (conns : List PoolEntry) (users : List PoolUser) {old : List PoolEntry}
    → lookup name users ≡ some old
    → total_conns (set_conns name conns users) + length old ≡ total_conns users + length conns
unfolding lookup set_conns total_conns
total-set_conns name conns [] h = absurd (ground arith)
total-set_conns name conns (user ∷ users) {old} h =
    ground (arith, total-set_conns name conns users {old = old})

-- A property of every queue, under its key.
pub All-set_conns :
    (P : PoolUser → Type 0) (name : List ℕ) (conns : List PoolEntry) (users : List PoolUser)
    → All P users
    → P (record { name = name; conns = conns })
    → All P (set_conns name conns users)
unfolding set_conns
All-set_conns P name conns [] h p = tt
All-set_conns P name conns (user ∷ users) h p = elim (Bool-cases (same user.name name)) [
  | inl hit ↦ rw (hit, same→≡ user.name name hit) (p, h.1)
  | inr miss ↦ rw miss (h.0, All-set_conns P name conns users h.1 p)
]

pub All-lookup :
    (P : PoolUser → Type 0) (name : List ℕ) (users : List PoolUser) {conns : List PoolEntry}
    → All P users
    → lookup name users ≡ some conns
    → P (record { name = name; conns = conns })
unfolding lookup
All-lookup P name [] h e = absurd (ground arith)
All-lookup P name (user ∷ users) {conns} h e = elim (Bool-cases (same user.name name)) [
  | inl hit ↦
      let found : user.conns ≡ conns = unsome (rw hit at e) in
      rw (← same→≡ user.name name hit, ← found) h.0
  | inr miss ↦ All-lookup P name users h.1 (rw miss at e)
]

-- With distinct keys, a user in the table is the one that its key finds.
pub lookup-Elem :
    (user : PoolUser) (users : List PoolUser)
    → Distinct users
    → Elem user users
    → lookup user.name users ≡ some user.conns
unfolding lookup
lookup-Elem user [] d m = absurd m
lookup-Elem user (first ∷ users) d (inl e) = rw (e, same_refl first.name) refl
lookup-Elem user (first ∷ users) d (inr m) = elim (Bool-cases (same first.name user.name)) [
  | inl hit ↦
      let found = lookup-Elem user users d.1 m in
      let missing = rw (same→≡ first.name user.name hit) at d.0 in absurd (ground arith)
  | inr miss ↦ rw miss (lookup-Elem user users d.1 m)
]
