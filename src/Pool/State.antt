-- ===== src/Pool/State.antt =====
-- src/network-conn-pool.c and .h. A user's queue of entries is named by its key in the hash table: keys are
-- never removed while the pool lives.
use cetus.Common.{
  ℕ, suc, ◌+◌, ◌-◌, ◌^◌, Bool, true, ◌&&◌, Option, none, some, List, [], ◌∷◌, length, same,
  if◌then◌else◌, ◌==◌, ltb,
}
use cetus.Common.Int.{ℤ, pos, negsuc, ◌+ℤ◌, ltb_ℤ, eqb_ℤ}

-- Of a socket: its identity, `response->username`, `is_authed`, and the chunks of `recv_queue_raw`.
pub record NetworkSocket : Type 0 where
  pub fd : ℕ
  pub username : List ℕ
  pub is_authed : Bool
  pub recv_queue_raw : List (List ℕ)

-- `link` is the address of the entry's link, `conns` the key of its queue.
pub record PoolEntry : Type 0 where
  pub sock : NetworkSocket
  pub conns : List ℕ
  pub link : ℕ

pub record PoolUser : Type 0 where
  pub name : List ℕ
  pub conns : List PoolEntry

pub record NetworkConnectionPool : Type 0 where
  pub users : List PoolUser
  pub cur_idle_connections : ℤ
  pub max_idle_connections : ℕ
  pub mid_idle_connections : ℕ
  pub min_idle_connections : ℕ

unfoldable pub network_connection_pool_new : NetworkConnectionPool
network_connection_pool_new = record {
  users = [];
  cur_idle_connections = pos 0;
  max_idle_connections = 20;
  mid_idle_connections = 10;
  min_idle_connections = 1;
}

-- g_hash_table_lookup, and the effect of a change of the queue that it returns.
unfoldable pub lookup : List ℕ → List PoolUser → Option (List PoolEntry)
lookup name [] = none
lookup name (user ∷ users) = if same user.name name then some user.conns else lookup name users

unfoldable pub set_conns : List ℕ → List PoolEntry → List PoolUser → List PoolUser
set_conns name conns [] = []
set_conns name conns (user ∷ users) =
    if same user.name name
    then record user { conns = conns } ∷ users
    else user ∷ set_conns name conns users

unfoldable pub find_idle_conns : ℕ → List PoolUser → Option PoolUser
find_idle_conns threshold [] = none
find_idle_conns threshold (user ∷ users) =
    if ltb threshold (length user.conns) then some user else find_idle_conns threshold users

unfoldable pub own_conns : List ℕ → Option (List PoolEntry) → Option PoolUser
own_conns [] conns = none
own_conns (c ∷ name) none = none
own_conns (c ∷ name) (some []) = none
own_conns (c ∷ name) (some (entry ∷ conns)) =
    some (record { name = c ∷ name; conns = entry ∷ conns })

abbrev pub robbed : Bool → Option PoolUser → Option PoolUser × Bool
robbed is_robbed none = (none, is_robbed)
robbed is_robbed (some user) = (some user, true)

unfoldable pub own_or : Option PoolUser → Bool → Option PoolUser → Option PoolUser × Bool
own_or none is_robbed other = robbed is_robbed other
own_or (some user) is_robbed other = (some user, is_robbed)

abbrev pub decrement : ℤ → ℤ
decrement n = n +ℤ negsuc 0

unfoldable pub pop_head :
    NetworkConnectionPool
    → List ℕ
    → List PoolEntry
    → Bool
    → NetworkConnectionPool × Option NetworkSocket × Bool
pop_head pool name [] is_robbed = (pool, none, is_robbed)
pop_head pool name (entry ∷ conns) is_robbed = (
  record pool {
    users = set_conns name conns pool.users;
    cur_idle_connections = decrement pool.cur_idle_connections;
  },
  some entry.sock,
  is_robbed,
)

unfoldable pub pop_entry :
    NetworkConnectionPool
    → Option PoolUser × Bool
    → NetworkConnectionPool × Option NetworkSocket × Bool
pop_entry pool (none, is_robbed) = (pool, none, is_robbed)
pop_entry pool (some user, is_robbed) = pop_head pool user.name user.conns is_robbed

-- A NULL `username` is the empty one. `visit` is the order in which glib's hash table visits its entries.
module _ (visit : List PoolUser → List PoolUser) where
  unfoldable pub network_connection_pool_get_conns :
      NetworkConnectionPool → List ℕ → Bool → Option PoolUser × Bool
  network_connection_pool_get_conns pool username is_robbed =
      own_or (own_conns username (lookup username pool.users)) is_robbed
        (find_idle_conns pool.min_idle_connections (visit pool.users))

  -- The pool, the socket or NULL, and `is_robbed`.
  unfoldable pub network_connection_pool_get :
      NetworkConnectionPool → List ℕ → Bool → NetworkConnectionPool × Option NetworkSocket × Bool
  network_connection_pool_get pool username is_robbed =
      pop_entry pool (network_connection_pool_get_conns pool username is_robbed)

-- Pushed in front of the user's queue, which is made where it is missing: glib's table takes a new entry at
-- any place, and `visit` decides when it is visited.
unfoldable pub push_onto :
    Option (List PoolEntry) → List ℕ → PoolEntry → List PoolUser → List PoolUser
push_onto none name entry users = record { name = name; conns = entry ∷ [] } ∷ users
push_onto (some conns) name entry users = set_conns name (entry ∷ conns) users

-- `link` is the address of the new link.
unfoldable pub network_connection_pool_add :
    NetworkConnectionPool → NetworkSocket → ℕ → NetworkConnectionPool × PoolEntry
network_connection_pool_add pool sock link =
    let entry : PoolEntry = record {
      sock = record sock { is_authed = true; recv_queue_raw = [] };
      conns = sock.username;
      link = link;
    } in
    (
      record pool {
        users = push_onto (lookup sock.username pool.users) sock.username entry pool.users;
        cur_idle_connections = pool.cur_idle_connections +ℤ pos 1;
      },
      entry,
    )

unfoldable pub delete_link : ℕ → List PoolEntry → List PoolEntry
delete_link link [] = []
delete_link link (entry ∷ conns) =
    let rest = delete_link link conns in if entry.link == link then conns else entry ∷ rest

unfoldable pub delete_from : Option (List PoolEntry) → PoolEntry → List PoolUser → List PoolUser
delete_from none entry users = users
delete_from (some conns) entry users = set_conns entry.conns (delete_link entry.link conns) users

unfoldable pub network_connection_pool_remove :
    NetworkConnectionPool → PoolEntry → NetworkConnectionPool
network_connection_pool_remove pool entry = record pool {
  users = delete_from (lookup entry.conns pool.users) entry pool.users;
  cur_idle_connections = decrement pool.cur_idle_connections;
}

-- The comparison with `mid_idle_connections` is unsigned.
abbrev as_guint : ℤ → ℕ
as_guint (pos n) = n
as_guint (negsuc n) = 2 ^ 32 - suc n

unfoldable pub network_conn_pool_do_reduce_conns_verdict : NetworkConnectionPool → ℤ → Bool
network_conn_pool_do_reduce_conns_verdict pool connected_clients =
    ltb pool.mid_idle_connections (as_guint pool.cur_idle_connections)
    && ltb_ℤ connected_clients pool.cur_idle_connections

unfoldable pub total_conns : List PoolUser → ℕ
total_conns [] = 0
total_conns (user ∷ users) = length user.conns + total_conns users

-- The corrected pool, and the total.
unfoldable pub network_connection_pool_total_conns_count :
    NetworkConnectionPool → NetworkConnectionPool × ℤ
network_connection_pool_total_conns_count pool =
    let total = pos (total_conns pool.users) in
    if eqb_ℤ pool.cur_idle_connections total
    then (pool, total)
    else (record pool { cur_idle_connections = total }, total)
