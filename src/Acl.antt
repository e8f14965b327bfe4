-- ===== src/Acl.antt =====
-- Who may connect: the whitelist and the blacklist of src/cetus-acl.c.
pub mod Rules
pub mod Lists
pub mod Verify
mod Tests
