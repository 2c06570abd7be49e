-- ===== src/Base/Base32.antt =====
-- encoding/base32, StdEncoding without padding, and lower-cased: a to z, 2 to 7.
use Prim.Native.Nat.{ℕ, ◌+◌, ◌*◌, ◌/◌, ◌%◌}
use mathlib.Core.List.{[], ◌∷◌}
use rook_host.Base.Tests.{ltb, if◌then◌else◌}
use rook_host.Base.Bytes.{Bytes}

unfoldable pub digit32 : ℕ → ℕ
digit32 v = if ltb v 26 then 97 + v else 24 + v

-- Five bytes give eight digits.
unfoldable pub encode32 : Bytes → Bytes
unfolding digit32
encode32 [] = []
encode32 (a ∷ []) = digit32 (a / 8) ∷ digit32 (a % 8 * 4) ∷ []
encode32 (a ∷ b ∷ []) =
    digit32 (a / 8)
    ∷ digit32 (a % 8 * 4 + b / 64)
    ∷ digit32 (b / 2 % 32)
    ∷ digit32 (b % 2 * 16)
    ∷ []
encode32 (a ∷ b ∷ c ∷ []) =
    digit32 (a / 8)
    ∷ digit32 (a % 8 * 4 + b / 64)
    ∷ digit32 (b / 2 % 32)
    ∷ digit32 (b % 2 * 16 + c / 16)
    ∷ digit32 (c % 16 * 2)
    ∷ []
encode32 (a ∷ b ∷ c ∷ d ∷ []) =
    digit32 (a / 8)
    ∷ digit32 (a % 8 * 4 + b / 64)
    ∷ digit32 (b / 2 % 32)
    ∷ digit32 (b % 2 * 16 + c / 16)
    ∷ digit32 (c % 16 * 2 + d / 128)
    ∷ digit32 (d / 4 % 32)
    ∷ digit32 (d % 4 * 8)
    ∷ []
encode32 (a ∷ b ∷ c ∷ d ∷ e ∷ s) =
    digit32 (a / 8)
    ∷ digit32 (a % 8 * 4 + b / 64)
    ∷ digit32 (b / 2 % 32)
    ∷ digit32 (b % 2 * 16 + c / 16)
    ∷ digit32 (c % 16 * 2 + d / 128)
    ∷ digit32 (d / 4 % 32)
    ∷ digit32 (d % 4 * 8 + e / 32)
    ∷ digit32 (e % 32)
    ∷ encode32 s
