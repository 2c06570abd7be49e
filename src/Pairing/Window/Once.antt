-- ===== src/Pairing/Window/Once.antt =====
-- A pairing secret is redeemed at most once, and only while its window is live.
use rook_host.Base.{
  ℕ, ◌+◌, ◌≤◌, ◌≡◌, ◌↔◌, Option, none, some, true, false, List, [], ◌∷◌, if◌then◌else◌, arith,
}
use rook_host.Base.Bytes.{Bytes, str_eq_iff, is_empty}
use rook_host.Base.Time.{Time}
use rook_host.Pairing.Window.{Manager, open_window, close_window, open_now, redeem}

pub data Event : Type 0 where
  opens : Option Bytes → Time → Event
  closes : Event
  redeems : Bytes → Time → Event

unfoldable pub next : Manager → Event → Manager
unfolding open_window close_window redeem
next m (opens b now) = (open_window m b now).1
next m closes = close_window m
next m (redeems s now) = (redeem m s now).1

-- 1 for a redemption that succeeds.
unfoldable pub success : Manager → Event → ℕ
unfolding redeem
success m (redeems s now) = if (redeem m s now).0 then 1 else 0
success m _ = 0

unfoldable pub successes : Manager → List Event → ℕ
unfolding next success
successes m [] = 0
successes m (e ∷ es) = success m e + successes (next m e) es

-- The windows that a history opens.
unfoldable pub opened : List Event → ℕ
opened [] = 0
opened (opens (some b) now ∷ es) = 1 + opened es
opened (_ ∷ es) = opened es

-- The window that stands, if any.
abbrev pub standing : Manager → ℕ
standing m = if is_empty m.secret then 0 else 1

abbrev opens_one : Event → ℕ
opens_one (opens (some b) now) = 1
opens_one _ = 0

opened-cons : (e : Event) (es : List Event) → opened (e ∷ es) ≡ opens_one e + opened es
unfolding opened
opened-cons (opens none now) es = omega arith
opened-cons (opens (some b) now) es = omega arith
opened-cons closes es = omega arith
opened-cons (redeems s now) es = omega arith

success-standing :
    (m : Manager) (e : Event) → success m e + standing (next m e) ≤ standing m + opens_one e
unfolding success next
success-standing m (opens none now) = omega arith
success-standing m (opens (some b) now) = ground arith
success-standing m closes = ground arith
success-standing m (redeems s now) = ground arith

-- No history has more successful redemptions than windows: those opened and the one standing.
pub successes-le-opened : (m : Manager) (es : List Event) → successes m es ≤ standing m + opened es
unfolding successes opened
successes-le-opened m [] = omega arith
successes-le-opened m (e ∷ es) =
    omega (arith, opened-cons e es, success-standing m e, successes-le-opened (next m e) es)

-- A redemption succeeds exactly if the window is open and the secret is the window's; it then
-- closes the window, and otherwise changes nothing.
pub redeem-exact :
    (m : Manager) (s : Bytes) (now : Time)
    → (((redeem m s now).0 ≡ true) ↔ ((open_now m now ≡ true) × (m.secret ≡ s)))
      × (((redeem m s now).0 ≡ true) → open_now (redeem m s now).1 now ≡ false)
      × (((redeem m s now).0 ≡ false) → (redeem m s now).1 ≡ m)
unfolding redeem open_now
redeem-exact m s now = (
  (
    λ h. (ground arith, ground (arith, str_eq_iff m.secret s)),
    λ h. ground (arith, str_eq_iff m.secret s),
  ),
  λ h. ground arith,
  λ h. ground arith,
)
