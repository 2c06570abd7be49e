-- ===== src/Link/Tokens.antt =====
-- link/tokens.go: the session tokens. The 32 bytes that rand.Read fills are an argument.
use rook_host.Base.{ℕ, ◌+◌, ◌*◌, Option, none, some, not, [], if◌then◌else◌}
use rook_host.Base.Bytes.{Bytes, str_eq}
use rook_host.Base.Base64.{encode}
use rook_host.Base.Map.{Map, empty, insert, delete, sweep}
use rook_host.Base.Time.{Time, before, second}

pub record Session : Type 0 where
  pub device_id : Bytes
  pub expires : Time

-- 24 hours.
abbrev pub token_ttl : ℕ
token_ttl = 86400 * second

abbrev pub Tokens : Type 0
Tokens = Map Session

-- newTokens
abbrev pub new_tokens : Tokens
new_tokens = empty

-- mint: the token and its expiry, or nothing where the random source fails.
unfoldable pub mint : Tokens → Option Bytes → Bytes → Time → Option (Bytes × Time) × Tokens
mint t none device_id now = (none, t)
mint t (some raw) device_id now =
    let exp = now + token_ttl in
    (
      some (encode raw, exp),
      insert (encode raw) (record { device_id = device_id; expires = exp }) t,
    )

-- resolve: the device of a token, or "" if the token is unknown or expired.
unfoldable pub resolve : Tokens → Bytes → Time → Bytes × Tokens
resolve t tok now = elim (t tok) [
  | none ↦ ([], t)
  | some s ↦ if not (before now s.expires) then ([], delete tok t) else (s.device_id, t)
]

-- dropDevice
unfoldable pub drop_device : Tokens → Bytes → Tokens
drop_device t device_id = sweep (λ s. str_eq s.device_id device_id) t
