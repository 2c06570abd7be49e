-- ===== src/Identity/Ids.antt =====
-- identity/identity.go: the printable ids, base32 of the first 16 bytes of a key's SHA-256.
use rook_host.Base.{take}
use rook_host.Base.Bytes.{Bytes}
use rook_host.Base.Base32.{encode32}
use rook_host.Crypto.{Crypto}

module _ (crypto : Crypto) where
  unfoldable pub fingerprint : Bytes → Bytes
  unfolding encode32
  fingerprint key = encode32 (take 16 (crypto.sha256 key))

  -- HostIDFor
  unfoldable pub host_id_for : Bytes → Bytes
  unfolding fingerprint
  host_id_for key = fingerprint key

  -- DeviceIDFor
  unfoldable pub device_id_for : Bytes → Bytes
  unfolding fingerprint
  device_id_for key = fingerprint key
