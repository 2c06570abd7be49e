-- ===== src/Link.antt =====
-- link/: the host side of the link rail.
pub mod Wire
pub mod Errors
pub mod Server
pub mod Service
pub mod Stream
pub mod Hub
pub mod PaneHub
pub mod Tokens
pub mod Nonces
pub mod Convert
