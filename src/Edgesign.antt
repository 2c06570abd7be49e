-- ===== src/Edgesign.antt =====
-- edgesign/: the authenticity layer of the edge protocol.
pub mod Canonical
pub mod Envelope
pub mod Grant
pub mod Seed
