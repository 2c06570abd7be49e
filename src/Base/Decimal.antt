-- ===== src/Base/Decimal.antt =====
-- strconv: numbers in decimal. Twenty digits hold every 64-bit number.
pub mod RoundTrip
use Prim.Native.Nat.{ℕ, zero, suc, ◌+◌, ◌-◌, ◌*◌, ◌/◌, ◌%◌}
use mathlib.Core.Bool.{Bool, ◌&&◌}
use mathlib.Core.Option.{Option, none, some}
use mathlib.Core.List.{[], ◌∷◌, ◌++◌}
use rook_host.Base.Tests.{ltb, leb, ◌==◌, if◌then◌else◌}
use rook_host.Base.Bytes.{Bytes}
use rook_host.Base.Int.{ℤ, pos, negsuc}
use rook_host.Base.Time.{Time, second, epoch_seconds}

unfoldable pub decimal_digits : ℕ → ℕ → Bytes
decimal_digits zero n = []
decimal_digits (suc fuel) n =
    let more = decimal_digits fuel (n / 10) ++ (48 + n % 10) ∷ [] in
    if ltb n 10 then (48 + n) ∷ [] else more

-- strconv.Itoa of a number that is not negative
unfoldable pub decimal : ℕ → Bytes
unfolding decimal_digits
decimal n = decimal_digits 20 n

-- strconv.Itoa
abbrev pub itoa : ℤ → Bytes
itoa (pos n) = decimal n
itoa (negsuc n) = b'-' ∷ decimal (n + 1)

abbrev pub is_digit : ℕ → Bool
is_digit c = leb 48 c && leb c 57

-- The digits of a number, after those that were read into `acc`.
unfoldable pub scan : Bytes → ℕ → Option ℕ
scan [] acc = some acc
scan (c ∷ s) acc = let rest = scan s (acc * 10 + (c - 48)) in if is_digit c then rest else none

-- An unsigned number that is at most the bound; a number needs a digit.
unfoldable pub scan_to : ℕ → Bytes → Option ℕ
unfolding scan
scan_to bound [] = none
scan_to bound (c ∷ s) = elim (scan (c ∷ s) 0) [
  | none ↦ none
  | some n ↦ if leb n bound then some n else none
]

abbrev pub negated : ℕ → ℤ
negated zero = pos 0
negated (suc n) = negsuc n

abbrev over : (ℕ → ℤ) → Option ℕ → Option ℤ
over f none = none
over f (some n) = some (f n)

-- strconv.Atoi; `none` is an error of syntax or of range.
unfoldable pub atoi : Bytes → Option ℤ
unfolding scan_to
atoi [] = none
atoi (c ∷ s) =
    if c == b'-'
    then over negated (scan_to 9223372036854775808 s)
    else over pos (scan_to 9223372036854775807 (if c == b'+' then s else c ∷ s))

-- strconv.FormatInt(t.Unix() / 60, 10): Unix is negative before 1970, and the division is
-- truncated towards zero.
unfoldable pub unix_minute : Time → Bytes
unfolding decimal
unix_minute t =
    let s = t / second in
    if leb epoch_seconds s
    then decimal ((s - epoch_seconds) / 60)
    else let m = (epoch_seconds - s) / 60 in if ltb 0 m then b'-' ∷ decimal m else decimal 0
