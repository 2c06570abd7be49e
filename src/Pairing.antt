-- ===== src/Pairing.antt =====
-- pairing/: the enrollment ceremony.
pub mod Window
pub mod Query
pub mod Qr
