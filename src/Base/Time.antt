-- ===== src/Base/Time.antt =====
-- time.Time as the nanoseconds since Go's zero time, January 1 of year 1, UTC; time.Duration as
-- nanoseconds. The location and the monotonic reading are not modelled, so UTC() is the identity.
use Prim.Native.Nat.{ℕ}
use mathlib.Core.Bool.{Bool}
use rook_host.Base.Tests.{ltb, ◌==◌}

abbrev pub Time : Type 0
Time = ℕ

abbrev pub second : ℕ
second = 1000000000

-- t.Before(u)
abbrev pub before : Time → Time → Bool
before t u = ltb t u

-- t.After(u)
abbrev pub after : Time → Time → Bool
after t u = ltb u t

-- t.IsZero()
abbrev pub is_zero : Time → Bool
is_zero t = t == 0

-- The seconds from Go's zero time to the Unix epoch.
abbrev pub epoch_seconds : ℕ
epoch_seconds = 62135596800
