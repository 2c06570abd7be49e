-- ===== src/Identity.antt =====
-- identity/: what a host is on the link rail.
pub mod Sign
pub mod Ids
pub mod Uuid
pub mod State
