-- ===== src/Crypto.antt =====
-- What the packages use of Go's crypto libraries, as an interface: Ed25519 and SHA-256. The laws
-- are the documented ones: a signature verifies under the key's public half, and the lengths of
-- keys, signatures and digests. No law says that a signature cannot be forged or that digests
-- do not collide.
pub mod Toy
pub use Toy.{toy_crypto}
pub mod Interface
pub use Interface.{Crypto}
