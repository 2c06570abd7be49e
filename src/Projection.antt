-- ===== src/Projection.antt =====
-- projection/: the bounded vocabulary that every rail speaks.
pub mod Text
pub mod Command
pub mod Status
pub mod Pane
pub mod Digest
