-- ===== src/Pool/RoundTrip.antt =====
-- A connection that is added is the one that its user gets next, and the pool is as before.
use cetus.Common.{
  ℕ, ◌≡◌, ◌≢◌, refl, ap, arith, Bool, true, false, Option, none, some, List, [], ◌∷◌, same,
  same_refl, same→≡, if◌then◌else◌, Bool-cases, Option-cases, inl, inr,
}
use cetus.Common.Int.{ℤ, pos, ◌+ℤ◌}
use cetus.Pool.State.{
  NetworkSocket, PoolEntry, PoolUser, NetworkConnectionPool, lookup, set_conns, push_onto,
  own_conns, own_or, decrement, pop_head, pop_entry, network_connection_pool_get_conns,
  network_connection_pool_get, network_connection_pool_add,
}
use cetus.Pool.Users.{lookup-set_conns}

-- The queue of a user; without one it is as good as empty.
abbrev pub or_empty : Option (List PoolEntry) → List PoolEntry
or_empty none = []
or_empty (some conns) = conns

abbrev pub conns_of : List ℕ → NetworkConnectionPool → List PoolEntry
conns_of name pool = or_empty (lookup name pool.users)

-- As add leaves it.
abbrev pub added : NetworkSocket → NetworkSocket
added sock = record sock { is_authed = true; recv_queue_raw = [] }

entry_of : NetworkSocket → ℕ → PoolEntry
entry_of sock link = record { sock = added sock; conns = sock.username; link = link }

or_empty-if :
    (b : Bool) (conns : List PoolEntry) (other : Option (List PoolEntry))
    → or_empty (if b then some conns else other) ≡ (if b then conns else or_empty other)
or_empty-if true conns other = refl
or_empty-if false conns other = refl

or_empty-cons :
    (found : Option (List PoolEntry)) (entry : PoolEntry) (conns : List PoolEntry)
    → or_empty found ≡ entry ∷ conns
    → found ≡ some (entry ∷ conns)
or_empty-cons none entry conns e = cc
or_empty-cons (some queue) entry conns e = ap some e

lookup-push_onto :
    (name j : List ℕ) (entry : PoolEntry) (users : List PoolUser)
    → or_empty (lookup j (push_onto (lookup name users) name entry users))
      ≡ (if same name j then entry ∷ or_empty (lookup name users) else or_empty (lookup j users))
unfolding push_onto lookup
lookup-push_onto name j entry users = elim (Option-cases (lookup name users)) [
  | inl missing ↦ rw missing (or_empty-if (same name j) (entry ∷ []) (lookup j users))
  | inr (conns, found) ↦
      rw (found, lookup-set_conns name j (entry ∷ conns) users found)
        (or_empty-if (same name j) (entry ∷ conns) (lookup j users))
]

own_conns-cons :
    (username : List ℕ) (entry : PoolEntry) (conns : List PoolEntry)
    → username ≢ []
    → own_conns username (some (entry ∷ conns))
      ≡ some (record { name = username; conns = entry ∷ conns })
unfolding own_conns
own_conns-cons [] entry conns h = absurd (h refl)
own_conns-cons (c ∷ username) entry conns h = refl

back_and_forth : (n : ℤ) → decrement (n +ℤ pos 1) ≡ n
unfolding ◌+ℤ◌
back_and_forth n = ground arith

module _ (visit : List PoolUser → List PoolUser) (pool : NetworkConnectionPool)
    (sock : NetworkSocket) (link : ℕ) (is_robbed : Bool) (named : sock.username ≢ []) where
  abbrev more : NetworkConnectionPool
  more = (network_connection_pool_add pool sock link).0

  abbrev name : List ℕ
  name = sock.username

  queue : lookup name more.users ≡ some (entry_of sock link ∷ conns_of name pool)
  unfolding network_connection_pool_add entry_of
  queue =
      or_empty-cons (lookup name more.users) (entry_of sock link) (conns_of name pool)
        (rw (same_refl name) at (lookup-push_onto name name (entry_of sock link) pool.users))

  others : (j : List ℕ) → same name j ≡ false → conns_of j more ≡ conns_of j pool
  unfolding network_connection_pool_add entry_of
  others j miss = rw miss at (lookup-push_onto name j (entry_of sock link) pool.users)

  restored :
      (j : List ℕ)
      → or_empty (lookup j (set_conns name (conns_of name pool) more.users)) ≡ conns_of j pool
  restored j =
      rw
        (
          lookup-set_conns name j (conns_of name pool) more.users queue,
          or_empty-if (same name j) (conns_of name pool) (lookup j more.users),
        )
        (elim (Bool-cases (same name j)) [
          | inl hit ↦ rw hit (ap (λ n. conns_of n pool) (same→≡ name j hit))
          | inr miss ↦ rw miss (others j miss)
        ])

  -- After a connection of a named user is added to any pool, that user gets this connection,
  -- authenticated and with nothing in its raw receive queue, with `is_robbed` unchanged; and then the
  -- count and every user's queue are as before.
  pub get-add :
      ((network_connection_pool_get visit more name is_robbed).1 ≡ some (added sock))
      × ((network_connection_pool_get visit more name is_robbed).2 ≡ is_robbed)
      × ((network_connection_pool_get visit more name is_robbed).0.cur_idle_connections
          ≡ pool.cur_idle_connections)
      × ((j : List ℕ)
          → conns_of j (network_connection_pool_get visit more name is_robbed).0 ≡ conns_of j pool)
  unfolding network_connection_pool_get network_connection_pool_get_conns own_or pop_entry pop_head
      entry_of network_connection_pool_add
  get-add =
      let own = own_conns-cons name (entry_of sock link) (conns_of name pool) named in
      rw (queue, own) (refl, refl, back_and_forth pool.cur_idle_connections, restored)
