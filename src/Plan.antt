-- ===== src/Plan.antt =====
-- The query plan: the groups that a statement goes to, and the SQL that each gets: src/sharding-query-plan.c.
pub mod State
pub mod Mapping
pub mod Invariant
mod Tests
