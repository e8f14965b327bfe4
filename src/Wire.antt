-- ===== src/Wire.antt =====
-- The wire format of the MySQL protocol: src/network-mysqld-proto.c and .h.
pub mod Packet
pub mod Decode
pub mod Strings
pub mod Encode
pub mod Auth
pub mod Words
pub mod Lenenc
pub mod Fixed
pub mod Integers
pub mod Typed
pub mod Text
pub mod Header
pub mod Bounds
pub mod Login
mod Tests
