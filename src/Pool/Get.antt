-- ===== src/Pool/Get.antt =====
-- network_connection_pool_get: whose connection it hands out, and when it has none.
use cetus.Common.{
  ℕ, ◌≤◌, ◌<◌, ◌≡◌, refl, sym, arith, Bool, true, Option, none, some, List, [], ◌∷◌, length, All,
  Elem, ltb, ltb→lt, Bool-cases, Option-cases, ◌⊎◌, inl, inr, ◌↔◌,
}
use cetus.Pool.State.{
  NetworkSocket, PoolEntry, PoolUser, NetworkConnectionPool, lookup, set_conns, decrement,
  find_idle_conns, own_conns, own_or, pop_head, pop_entry, network_connection_pool_get_conns,
  network_connection_pool_get,
}
use cetus.Pool.Users.{Distinct, lookup-Elem}

-- There is no idle connection of that user.
abbrev pub HasNone : List ℕ → List PoolUser → Type 0
HasNone username users =
    (username ≡ []) ⊎ ((lookup username users ≡ none) ⊎ (lookup username users ≡ some []))

-- The pool without the head of one queue.
abbrev pub without_head : NetworkConnectionPool → List ℕ → List PoolEntry → NetworkConnectionPool
without_head pool name conns = record pool {
  users = set_conns name conns pool.users;
  cur_idle_connections = decrement pool.cur_idle_connections;
}

-- The outcomes: a connection of the user's own, one of a user with more than `min_idle_connections`, or none.
pub data Gets (pool : NetworkConnectionPool) (username : List ℕ) (is_robbed : Bool)
    (result : NetworkConnectionPool × Option NetworkSocket × Bool) : Type 0 where
  own :
      (entry : PoolEntry) (conns : List PoolEntry)
      → lookup username pool.users ≡ some (entry ∷ conns)
      → result ≡ (without_head pool username conns, some entry.sock, is_robbed)
      → Gets pool username is_robbed result
  robs :
      (name : List ℕ) (entry : PoolEntry) (conns : List PoolEntry)
      → HasNone username pool.users
      → lookup name pool.users ≡ some (entry ∷ conns)
      → pool.min_idle_connections < length (entry ∷ conns)
      → result ≡ (without_head pool name conns, some entry.sock, true)
      → Gets pool username is_robbed result
  starves :
      HasNone username pool.users
      → All (λ (user : PoolUser). length user.conns ≤ pool.min_idle_connections) pool.users
      → result ≡ (pool, none, is_robbed)
      → Gets pool username is_robbed result

find_idle_conns-Elem :
    (threshold : ℕ) (users : List PoolUser) {user : PoolUser}
    → find_idle_conns threshold users ≡ some user
    → Elem user users × (threshold < length user.conns)
unfolding find_idle_conns
find_idle_conns-Elem threshold [] h = absurd (ground arith)
find_idle_conns-Elem threshold (first ∷ users) {user} h =
    elim (Bool-cases (ltb threshold (length first.conns))) [
      | inl many ↦
          let found : first ≡ user = unsome (rw many at h) in
          (inl (sym found), rw (← found) (ltb→lt threshold (length first.conns) many))
      | inr few ↦
          let (m, many) = find_idle_conns-Elem threshold users (rw few at h) in (inr m, many)
    ]
  where
    unsome : {x y : PoolUser} → ◌≡◌ {A = Option PoolUser} (some x) (some y) → x ≡ y
    unsome e = cc

find_idle_conns-none :
    (threshold : ℕ) (users : List PoolUser) (user : PoolUser)
    → find_idle_conns threshold users ≡ none
    → Elem user users
    → length user.conns ≤ threshold
unfolding find_idle_conns
find_idle_conns-none threshold [] user h m = absurd m
find_idle_conns-none threshold (first ∷ users) user h m =
    elim (Bool-cases (ltb threshold (length first.conns))) [
      | inl many ↦ absurd (nothing (rw many at h))
      | inr few ↦ elim m [
        | inl here ↦ rw here (ground arith)
        | inr there ↦ find_idle_conns-none threshold users user (rw few at h) there
      ]
    ]
  where
    nothing : {x : PoolUser} → ◌≡◌ {A = Option PoolUser} (some x) none → ⊥
    nothing e = cc

own_conns-none :
    (username : List ℕ) (conns : Option (List PoolEntry))
    → own_conns username conns ≡ none
    → (username ≡ []) ⊎ ((conns ≡ none) ⊎ (conns ≡ some []))
unfolding own_conns
own_conns-none [] conns h = inl refl
own_conns-none (c ∷ username) none h = inr (inl refl)
own_conns-none (c ∷ username) (some []) h = inr (inr refl)
own_conns-none (c ∷ username) (some (entry ∷ conns)) h = cc

own_conns-some :
    (username : List ℕ) (conns : Option (List PoolEntry)) {user : PoolUser}
    → own_conns username conns ≡ some user
    → (entry : PoolEntry) × (rest : List PoolEntry) × (conns ≡ some (entry ∷ rest))
      × (user ≡ record { name = username; conns = entry ∷ rest })
unfolding own_conns
own_conns-some [] conns h = cc
own_conns-some (c ∷ username) none h = cc
own_conns-some (c ∷ username) (some []) h = cc
own_conns-some (c ∷ username) (some (entry ∷ conns)) h = (entry, conns, refl, cc)

All-each :
    (P : PoolUser → Type 0) (users : List PoolUser)
    → ((user : PoolUser) → Elem user users → P user)
    → All P users
All-each P [] h = tt
All-each P (user ∷ users) h = (h user (inl refl), All-each P users (λ u m. h u (inr m)))

-- Above a threshold there is at least one connection.
some_head :
    (conns : List PoolEntry) (n : ℕ)
    → n < length conns
    → (entry : PoolEntry) × (rest : List PoolEntry) × (conns ≡ entry ∷ rest)
some_head [] n h = absurd (omega arith)
some_head (entry ∷ conns) n h = (entry, conns, refl)

module _ (visit : List PoolUser → List PoolUser)
    (visits : (users : List PoolUser) (user : PoolUser) → Elem user (visit users) ↔ Elem user users)
    (pool : NetworkConnectionPool) (username : List ℕ) (is_robbed : Bool)
    (d : Distinct pool.users) where
  robs_or_starves :
      HasNone username pool.users
      → own_conns username (lookup username pool.users) ≡ none
      → Gets pool username is_robbed (network_connection_pool_get visit pool username is_robbed)
  unfolding network_connection_pool_get network_connection_pool_get_conns own_or pop_entry pop_head
  robs_or_starves lacks none_own =
      let threshold = pool.min_idle_connections in
      elim (Option-cases (find_idle_conns threshold (visit pool.users))) [
        | inl none_idle ↦
            let few = λ (user : PoolUser) (m : Elem user pool.users).
              find_idle_conns-none threshold (visit pool.users) user none_idle
                ((visits pool.users user).1 m) in
            Gets.starves lacks (All-each (λ user. length user.conns ≤ threshold) pool.users few)
              (rw (none_own, none_idle) refl)
        | inr (user, found) ↦
            let (m, many) = find_idle_conns-Elem threshold (visit pool.users) found in
            let looked_up = lookup-Elem user pool.users d ((visits pool.users user).0 m) in
            let (entry, conns, e) = some_head user.conns threshold many in
            Gets.robs user.name entry conns lacks (rw e at looked_up) (rw e at many)
              (rw (none_own, found) (rw (pop_head, e) refl))
      ]

  -- For a table that has no key twice, and is visited entry by entry in any order,
  -- network_connection_pool_get hands out the head of the user's own queue and leaves `is_robbed` alone;
  -- if the user has no idle connection, the head of the queue of some user with more than
  -- `min_idle_connections`, and sets `is_robbed`; and NULL, with the pool unchanged, only if no queue is
  -- longer than that. In the first two cases the count falls by one, and only that queue changes.
  pub network_connection_pool_get_lem :
      Gets pool username is_robbed (network_connection_pool_get visit pool username is_robbed)
  unfolding network_connection_pool_get network_connection_pool_get_conns own_or pop_entry pop_head
  network_connection_pool_get_lem =
      elim (Option-cases (own_conns username (lookup username pool.users))) [
        | inl none_own ↦
            robs_or_starves (own_conns-none username (lookup username pool.users) none_own) none_own
        | inr (user, found) ↦
            let (entry, conns, looked_up, same_user) =
              own_conns-some username (lookup username pool.users) found in
            Gets.own entry conns looked_up (rw (found, same_user) refl)
      ]
