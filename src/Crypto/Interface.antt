-- ===== src/Crypto/Interface.antt =====
-- The interface that stands for crypto/ed25519 and crypto/sha256.
use rook_host.Base.{◌≡◌, Bool, true, length}
use rook_host.Base.Bytes.{Bytes}

pub record Crypto : Type 0 where
  -- ed25519.Sign(priv, message)
  pub sign : Bytes → Bytes → Bytes
  -- ed25519.Verify(pub, message, sig)
  pub verify : Bytes → Bytes → Bytes → Bool
  -- priv.Public()
  pub public_key : Bytes → Bytes
  -- sha256.Sum256(data)
  pub sha256 : Bytes → Bytes
  pub verify-sign :
      (priv message : Bytes) → verify (public_key priv) message (sign priv message) ≡ true
  pub length-sign : (priv message : Bytes) → length (sign priv message) ≡ 64
  pub length-sha256 : (message : Bytes) → length (sha256 message) ≡ 32
