-- ===== src/Conf.antt =====
-- The tables of the sharding configuration: src/sharding-config.c.
pub mod Tables
pub mod Loaded
mod Tests
