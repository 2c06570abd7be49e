-- ===== src/Identity/Uuid.antt =====
-- identity/identity.go: randomUUID, a version 4 UUID of sixteen random bytes.
use rook_host.Base.{ℕ, ◌+◌, ◌/◌, ◌%◌, [], ◌∷◌, ◌++◌, if◌then◌else◌, ltb}
use rook_host.Base.Bytes.{Bytes, codes}

-- The sixteen bytes that crypto/rand fills.
pub record Bytes16 : Type 0 where
  pub b0 : ℕ
  pub b1 : ℕ
  pub b2 : ℕ
  pub b3 : ℕ
  pub b4 : ℕ
  pub b5 : ℕ
  pub b6 : ℕ
  pub b7 : ℕ
  pub b8 : ℕ
  pub b9 : ℕ
  pub b10 : ℕ
  pub b11 : ℕ
  pub b12 : ℕ
  pub b13 : ℕ
  pub b14 : ℕ
  pub b15 : ℕ

unfoldable pub hex_digit : ℕ → ℕ
hex_digit v = if ltb v 10 then 48 + v else 87 + v

-- %x
unfoldable pub hex : Bytes → Bytes
unfolding hex_digit
hex [] = []
hex (b ∷ s) = hex_digit (b / 16) ∷ hex_digit (b % 16) ∷ hex s

-- randomUUID
unfoldable pub random_uuid : Bytes16 → Bytes
unfolding hex
random_uuid b =
    let b6 = b.b6 % 16 + 64 in
    let b8 = b.b8 % 64 + 128 in
    hex (b.b0 ∷ b.b1 ∷ b.b2 ∷ b.b3 ∷ [])
    ++ codes "-"
    ++ hex (b.b4 ∷ b.b5 ∷ [])
    ++ codes "-"
    ++ hex (b6 ∷ b.b7 ∷ [])
    ++ codes "-"
    ++ hex (b8 ∷ b.b9 ∷ [])
    ++ codes "-"
    ++ hex (b.b10 ∷ b.b11 ∷ b.b12 ∷ b.b13 ∷ b.b14 ∷ b.b15 ∷ [])
