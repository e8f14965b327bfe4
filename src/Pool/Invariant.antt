-- ===== src/Pool/Invariant.antt =====
-- The calls on a pool, in any order, keep its count right and every connection in the queue of its user.
use cetus.Common.{
  ℕ, suc, ◌+◌, ◌≡◌, refl, ap, arith, Bool, true, false, some, List, [], ◌∷◌, length, All, Elem,
  Bool-cases, Option-cases, ◌⊎◌, inl, inr, ◌==◌, ==_iff, ◌↔◌,
}
use cetus.Common.Int.{ℤ, pos, ◌+ℤ◌, eqb_ℤ}
use cetus.Pool.State.{
  NetworkSocket, PoolEntry, PoolUser, NetworkConnectionPool, lookup, set_conns, push_onto,
  total_conns, delete_link, delete_from, decrement, network_connection_pool_new,
  network_connection_pool_get, network_connection_pool_add, network_connection_pool_remove,
  network_connection_pool_total_conns_count,
}
use cetus.Pool.Get.{own, robs, starves, without_head, network_connection_pool_get_lem}
use cetus.Pool.Users.{Distinct, set_conns-Distinct, total-set_conns, All-set_conns, All-lookup}

-- An entry of a user's queue: its connection is authenticated, for that user.
abbrev pub Holds : List ℕ → PoolEntry → Type 0
Holds name entry =
    (entry.conns ≡ name) × (entry.sock.username ≡ name) × (entry.sock.is_authed ≡ true)

abbrev pub Keeps : PoolUser → Type 0
Keeps user = All (Holds user.name) user.conns

pub record IsValid (pool : NetworkConnectionPool) : Type 0 where
  pub distinct : Distinct pool.users
  pub held : All Keeps pool.users
  pub counted : pool.cur_idle_connections ≡ pos (total_conns pool.users)

-- One queue is replaced, and the count follows.
with_queue-IsValid :
    (pool : NetworkConnectionPool) (name : List ℕ) (old new : List PoolEntry) (count : ℤ)
    → IsValid pool
    → lookup name pool.users ≡ some old
    → All (Holds name) new
    → ((n : ℕ) → n + length old ≡ total_conns pool.users + length new → count ≡ pos n)
    → IsValid (record pool { users = set_conns name new pool.users; cur_idle_connections = count })
with_queue-IsValid pool name old new count v found held counted = record {
  distinct = set_conns-Distinct name new pool.users v.distinct;
  held = All-set_conns Keeps name new pool.users v.held held;
  counted = counted _ (total-set_conns name new pool.users found);
}

decremented : (t n : ℕ) (c : ℤ) (l : ℕ) → c ≡ pos t → n + suc l ≡ t + l → decrement c ≡ pos n
unfolding ◌+ℤ◌
decremented t n c l e h = rw e (ground arith)

incremented : (t n : ℕ) (c : ℤ) (l : ℕ) → c ≡ pos t → n + l ≡ t + suc l → c +ℤ pos 1 ≡ pos n
unfolding ◌+ℤ◌
incremented t n c l e h = rw e (ground arith)

new-IsValid : IsValid network_connection_pool_new
unfolding network_connection_pool_new total_conns
new-IsValid = record { distinct = tt; held = tt; counted = refl }

add-IsValid :
    (pool : NetworkConnectionPool) (sock : NetworkSocket) (link : ℕ)
    → IsValid pool
    → IsValid (network_connection_pool_add pool sock link).0
unfolding network_connection_pool_add push_onto total_conns
add-IsValid pool sock link v = elim (Option-cases (lookup sock.username pool.users)) [
  | inl missing ↦ rw missing (record {
    distinct = (missing, v.distinct);
    held = (((refl, refl, refl), tt), v.held);
    counted = incremented _ _ _ 0 v.counted (omega arith);
  })
  | inr (conns, found) ↦ rw found (
      with_queue-IsValid pool sock.username conns _ _ v found
        ((refl, refl, refl), All-lookup Keeps sock.username pool.users v.held found)
        (λ n e. incremented _ n _ (length conns) v.counted e))
]

-- An entry that a removal finds is taken out, and the others stay.
delete_link-All :
    (P : PoolEntry → Type 0) (link : ℕ) (conns : List PoolEntry)
    → All P conns
    → All P (delete_link link conns)
unfolding delete_link
delete_link-All P link [] h = tt
delete_link-All P link (entry ∷ conns) h = elim (Bool-cases (entry.link == link)) [
  | inl hit ↦ rw hit h.1
  | inr miss ↦ rw miss (h.0, delete_link-All P link conns h.1)
]

length-delete_link :
    (entry : PoolEntry) (conns : List PoolEntry)
    → Elem entry conns
    → suc (length (delete_link entry.link conns)) ≡ length conns
unfolding delete_link
length-delete_link entry [] m = absurd m
length-delete_link entry (first ∷ conns) (inl e) =
    rw (e, (==_iff first.link first.link).1 refl) refl
length-delete_link entry (first ∷ conns) (inr m) = elim (Bool-cases (first.link == entry.link)) [
  | inl hit ↦ rw hit refl
  | inr miss ↦ rw miss (ap suc (length-delete_link entry conns m))
]

remove-IsValid :
    (pool : NetworkConnectionPool) (entry : PoolEntry) (conns : List PoolEntry)
    → IsValid pool
    → lookup entry.conns pool.users ≡ some conns
    → Elem entry conns
    → IsValid (network_connection_pool_remove pool entry)
unfolding network_connection_pool_remove delete_from
remove-IsValid pool entry conns v found m =
    let held = All-lookup Keeps entry.conns pool.users v.held found in
    rw found (
      with_queue-IsValid pool entry.conns conns (delete_link entry.link conns) _ v found
        (delete_link-All (Holds entry.conns) entry.link conns held)
        (λ n e.
          decremented _ n _ (length (delete_link entry.link conns)) v.counted
            (omega (arith, length-delete_link entry conns m))))

pop-IsValid :
    (pool : NetworkConnectionPool) (name : List ℕ) (entry : PoolEntry) (conns : List PoolEntry)
    → IsValid pool
    → lookup name pool.users ≡ some (entry ∷ conns)
    → IsValid (without_head pool name conns)
pop-IsValid pool name entry conns v found =
    with_queue-IsValid pool name (entry ∷ conns) conns _ v found
      (All-lookup Keeps name pool.users v.held found).1
      (λ n e. decremented _ n _ (length conns) v.counted e)

count-IsValid :
    (pool : NetworkConnectionPool)
    → IsValid pool
    → IsValid (network_connection_pool_total_conns_count pool).0
unfolding network_connection_pool_total_conns_count
count-IsValid pool v =
    let same : eqb_ℤ pool.cur_idle_connections (pos (total_conns pool.users)) ≡ true =
      rw v.counted (ground arith) in
    rw same v

module _ (visit : List PoolUser → List PoolUser)
    (visits : (users : List PoolUser) (user : PoolUser)
      → Elem user (visit users) ↔ Elem user users) where
  get-IsValid :
      (pool : NetworkConnectionPool) (username : List ℕ) (is_robbed : Bool)
      → IsValid pool
      → IsValid (network_connection_pool_get visit pool username is_robbed).0
  get-IsValid pool username is_robbed v =
      elim (network_connection_pool_get_lem visit visits pool username is_robbed v.distinct) [
        | own entry conns found e ↦ rw e (pop-IsValid pool username entry conns v found)
        | robs name entry conns lacks found many e ↦
            rw e (pop-IsValid pool name entry conns v found)
        | starves lacks few e ↦ rw e v
      ]

  -- The calls, in any order; an entry is removed while it is in the pool.
  pub data Calls : NetworkConnectionPool → Type 0 where
    fresh : (pool : NetworkConnectionPool) → pool ≡ network_connection_pool_new → Calls pool
    added :
        (pool next : NetworkConnectionPool) (sock : NetworkSocket) (link : ℕ)
        → Calls pool
        → next ≡ (network_connection_pool_add pool sock link).0
        → Calls next
    got :
        (pool next : NetworkConnectionPool) (username : List ℕ) (is_robbed : Bool)
        → Calls pool
        → next ≡ (network_connection_pool_get visit pool username is_robbed).0
        → Calls next
    removed :
        (pool next : NetworkConnectionPool) (entry : PoolEntry) (conns : List PoolEntry)
        → Calls pool
        → lookup entry.conns pool.users ≡ some conns
        → Elem entry conns
        → next ≡ network_connection_pool_remove pool entry
        → Calls next
    total :
        (pool next : NetworkConnectionPool)
        → Calls pool
        → next ≡ (network_connection_pool_total_conns_count pool).0
        → Calls next

  -- Whatever calls are made on a new pool, where an entry is removed only while it is in the pool, no
  -- key is there twice, every connection is authenticated and stands in the queue of its own user, and
  -- `cur_idle_connections` is the number of the connections. This holds for every order in which the
  -- table may be visited.
  pub Calls-IsValid : {pool : NetworkConnectionPool} → Calls pool → IsValid pool
  Calls-IsValid (fresh pool e) = rw e new-IsValid
  Calls-IsValid (added pool next sock link c e) =
      rw e (add-IsValid pool sock link (Calls-IsValid c))
  Calls-IsValid (got pool next username is_robbed c e) =
      rw e (get-IsValid pool username is_robbed (Calls-IsValid c))
  Calls-IsValid (removed pool next entry conns c found m e) =
      rw e (remove-IsValid pool entry conns (Calls-IsValid c) found m)
  Calls-IsValid (total pool next c e) = rw e (count-IsValid pool (Calls-IsValid c))

  -- On any pool that calls have made of a new one, a connection that network_connection_pool_get hands
  -- out is authenticated, and it is one of the user's own unless `is_robbed` is set. This holds for
  -- every order in which the table may be visited.
  pub get-Holds :
      {pool : NetworkConnectionPool} (username : List ℕ)
      → Calls pool
      → (next : NetworkConnectionPool) (sock : NetworkSocket) (is_robbed : Bool)
      → network_connection_pool_get visit pool username false ≡ (next, some sock, is_robbed)
      → (sock.is_authed ≡ true) × ((is_robbed ≡ true) ⊎ (sock.username ≡ username))
  get-Holds {pool} username c next sock is_robbed answer =
      let v = Calls-IsValid c in
      elim (network_connection_pool_get_lem visit visits pool username false v.distinct) [
        | own entry conns found e ↦
            let held = (All-lookup Keeps username pool.users v.held found).0 in
            let same : entry.sock ≡ sock = cc in rw (← same) (held.2, inr held.1)
        | robs name entry conns lacks found many e ↦
            let held = (All-lookup Keeps name pool.users v.held found).0 in
            let same : entry.sock ≡ sock = cc in
            let marked : is_robbed ≡ true = cc in rw (← same) (held.2, inl marked)
        | starves lacks few e ↦ cc
      ]
