-- ===== src/Link/Nonces.antt =====
-- link/tokens.go: the challenge nonces. The 32 bytes that rand.Read fills are an argument.
pub mod Once
use rook_host.Base.{ℕ, ◌+◌, ◌*◌, Option, none, some, Bool, true, false, not, ◌&&◌, if◌then◌else◌}
use rook_host.Base.Bytes.{Bytes, str_eq}
use rook_host.Base.Base64.{encode}
use rook_host.Base.Map.{Map, empty, insert, delete, sweep}
use rook_host.Base.Time.{Time, before, second}

pub record Nonce : Type 0 where
  pub device_id : Bytes
  pub expires : Time

-- 60 seconds.
abbrev pub nonce_ttl : ℕ
nonce_ttl = 60 * second

abbrev pub Nonces : Type 0
Nonces = Map Nonce

-- newNonces
abbrev pub new_nonces : Nonces
new_nonces = empty

-- mint sweeps what has expired, and issues the nonce.
unfoldable pub mint : Nonces → Option Bytes → Bytes → Time → Option (Bytes × Time) × Nonces
mint n none device_id now = (none, n)
mint n (some raw) device_id now =
    let exp = now + nonce_ttl in
    (
      some (raw, exp),
      insert (encode raw) (record { device_id = device_id; expires = exp })
          (sweep (λ v. not (before now v.expires)) n),
    )

-- consume: whether the nonce was live and minted for the device; it is gone either way.
unfoldable pub consume : Nonces → Bytes → Bytes → Time → Bool × Nonces
consume n raw device_id now = elim (n (encode raw)) [
  | none ↦ (false, n)
  | some v ↦ (before now v.expires && str_eq v.device_id device_id, delete (encode raw) n)
]
