-- ===== src/Pool/Tests.antt =====
-- Runs of the pool on small inputs, and the theorems at inputs that meet their hypotheses.
use cetus.Common.{same, ℕ, ◌≡◌, refl, true, false, some, List, [], ◌∷◌, ◌⊎◌, ◌↔◌, Elem}
use cetus.Pool.State.{
  NetworkSocket, PoolUser, NetworkConnectionPool, network_connection_pool_new,
  network_connection_pool_add, network_connection_pool_get, network_connection_pool_get_conns,
  push_onto, lookup, set_conns, own_conns, own_or, pop_entry, pop_head, find_idle_conns,
}
use cetus.Pool.Get.{Gets, network_connection_pool_get_lem}
use cetus.Pool.Invariant.{IsValid, Calls, fresh, added, Calls-IsValid, get-Holds}
use cetus.Pool.RoundTrip
use cetus.Pool.RoundTrip.{conns_of, get-add}

abbrev alice : List ℕ
alice = 97 ∷ []

abbrev bob : List ℕ
bob = 98 ∷ []

abbrev socket : ℕ → NetworkSocket
socket fd = record { fd = fd; username = alice; is_authed = false; recv_queue_raw = [] }

abbrev as_listed : List PoolUser → List PoolUser
as_listed users = users

as_listed_visits :
    (users : List PoolUser) (user : PoolUser) → Elem user (as_listed users) ↔ Elem user users
as_listed_visits users user = (λ m. m, λ m. m)

abbrev one : NetworkConnectionPool
one = (network_connection_pool_add network_connection_pool_new (socket 5) 1000).0

abbrev two : NetworkConnectionPool
two = (network_connection_pool_add one (socket 6) 1016).0

Calls-two : Calls as_listed as_listed_visits two
Calls-two =
    added one two (socket 6) 1016
      (added network_connection_pool_new one (socket 5) 1000
        (fresh network_connection_pool_new refl) refl)
      refl

-- The connection that was added last is handed out first.
last_first :
    (network_connection_pool_get as_listed two alice false).1 ≡ some (RoundTrip.added (socket 6))
unfolding network_connection_pool_get network_connection_pool_get_conns network_connection_pool_add
    network_connection_pool_new push_onto lookup set_conns own_conns own_or pop_entry pop_head same
last_first = refl

-- Another user takes one of two, and marks it.
bob_robs : (network_connection_pool_get as_listed two bob false) ≡ (
  (network_connection_pool_get as_listed two alice false).0,
  some (RoundTrip.added (socket 6)),
  true,
)
unfolding network_connection_pool_get network_connection_pool_get_conns network_connection_pool_add
    network_connection_pool_new push_onto lookup set_conns own_conns own_or pop_entry pop_head same
    find_idle_conns
bob_robs = refl

network_connection_pool_get_lem_example :
    Gets two bob false (network_connection_pool_get as_listed two bob false)
network_connection_pool_get_lem_example =
    network_connection_pool_get_lem as_listed as_listed_visits two bob false
      (IsValid.distinct (Calls-IsValid as_listed as_listed_visits Calls-two))

Calls-IsValid_example : IsValid two
Calls-IsValid_example = Calls-IsValid as_listed as_listed_visits Calls-two

get-Holds_example : (true ≡ true) × ((true ≡ true) ⊎ (alice ≡ bob))
get-Holds_example =
    get-Holds as_listed as_listed_visits bob Calls-two
      (network_connection_pool_get as_listed two alice false).0 (RoundTrip.added (socket 6)) true
      bob_robs

get-add_example :
    ((network_connection_pool_get as_listed two alice false).1 ≡ some (RoundTrip.added (socket 6)))
    × ((network_connection_pool_get as_listed two alice false).2 ≡ false)
    × ((network_connection_pool_get as_listed two alice false).0.cur_idle_connections
        ≡ one.cur_idle_connections)
    × ((j : List ℕ)
        → conns_of j (network_connection_pool_get as_listed two alice false).0 ≡ conns_of j one)
get-add_example = get-add as_listed one (socket 6) 1016 false (cc)
