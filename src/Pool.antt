-- ===== src/Pool.antt =====
-- src/network-conn-pool.c and .h: the pool of idle connections of one backend.
pub mod State
pub mod Users
pub mod Get
pub mod Invariant
pub mod RoundTrip
mod Tests
