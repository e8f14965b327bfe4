-- ===== src/Shard.antt =====
-- Sharding: which backend groups a statement goes to. src/sharding-config.c and .h,
-- plugins/shard/sharding-parser.c, src/sharding-query-plan.c.
pub mod Hash
pub mod Partition
pub mod Condition
pub mod Filter
pub mod Setup
pub mod Parse
pub mod Where
pub mod Order
pub mod Rows
pub mod Satisfies
pub mod Literal
pub mod Sound
pub mod Ends
pub mod Lookup
pub mod Ranges
pub mod Buckets
mod Tests
