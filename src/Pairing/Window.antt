-- ===== src/Pairing/Window.antt =====
-- pairing/pairing.go: Manager, the pairing window. The 16 bytes that rand.Read fills, if it
-- succeeds, are an argument.
pub mod Once
use rook_host.Base.{
  ℕ, ◌+◌, ◌*◌, Option, none, some, Bool, true, false, not, ◌&&◌, ◌||◌, [], if◌then◌else◌,
}
use rook_host.Base.Bytes.{Bytes, str_eq, is_empty}
use rook_host.Base.Base64.{encode}
use rook_host.Base.Time.{Time, before, second}

-- Two minutes.
abbrev pub ttl : ℕ
ttl = 120 * second

pub record Manager : Type 0 where
  pub secret : Bytes
  pub expires : Time

abbrev pub no_window : Manager
no_window = record { secret = []; expires = 0 }

-- Open; `none` where the random source fails.
unfoldable pub open_window : Manager → Option Bytes → Time → Option Bytes × Manager
open_window m none now = (none, m)
open_window m (some b) now = (some (encode b), record m { secret = encode b; expires = now + ttl })

-- Close
unfoldable pub close_window : Manager → Manager
close_window m = record m { secret = [] }

-- OpenNow
unfoldable pub open_now : Manager → Time → Bool
open_now m now = not (is_empty m.secret) && before now m.expires

-- Redeem
unfoldable pub redeem : Manager → Bytes → Time → Bool × Manager
redeem m secret now =
    if is_empty m.secret || not (before now m.expires)
    then (false, m)
    else if str_eq m.secret secret
    then (true, record m { secret = [] })
    else (false, m)
