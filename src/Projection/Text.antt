-- ===== src/Projection/Text.antt =====
-- The text routines under projection/projection.go: strings.TrimSpace, clip and fnv8.
pub mod Clip
pub mod Trim
pub mod Cap
use Prim.Native.Nat.{bit_and, bit_xor}
use rook_host.Base.{
  ℕ, zero, suc, ◌+◌, ◌*◌, ◌/◌, ◌%◌, Bool, true, false, ◌&&◌, ◌||◌, List, [], ◌∷◌, ◌++◌, reverse,
  length, take, get_or, leb, ltb, ◌==◌, if◌then◌else◌,
}
use rook_host.Base.Bytes.{Bytes}

-- `b & 0xC0 == 0x80`: b continues a UTF-8 encoding.
unfoldable pub is_continuation : ℕ → Bool
is_continuation b = bit_and b 0xC0 == 0x80

-- The loop of clip: from n down to a byte that starts an encoding.
unfoldable pub boundary : Bytes → ℕ → ℕ
boundary s zero = zero
boundary s (suc n) = elim (is_continuation (get_or s (suc n) 0)) [
  | true ↦ boundary s n
  | false ↦ suc n
]

unfoldable pub clip : Bytes → ℕ → Bytes
unfolding boundary
clip s n = if leb (length s) n then s else take (boundary s n) s

-- `if len(l) > n { l = l[:n] }`
abbrev pub cap {ℓ} : {A : Type ℓ} → ℕ → List A → List A
cap n l = if ltb n (length l) then take n l else l

-- unicode.IsSpace below 128
unfoldable pub is_ascii_space : ℕ → Bool
is_ascii_space b = (leb 9 b && leb b 13) || (b == 32)

-- unicode.IsSpace of the code point with this encoding of two bytes: U+0085 and U+00A0.
unfoldable pub is_space2 : ℕ → ℕ → Bool
is_space2 a b = (a == 0xC2) && ((b == 0x85) || (b == 0xA0))

-- And of three bytes: U+1680, U+2000 to U+200A, U+2028, U+2029, U+202F, U+205F and U+3000.
unfoldable pub is_space3 : ℕ → ℕ → ℕ → Bool
is_space3 a b c =
    ((a == 0xE1) && (b == 0x9A) && (c == 0x80))
    || ((a == 0xE2)
        && (((b == 0x80)
              && ((leb 0x80 c && leb c 0x8A) || (c == 0xA8) || (c == 0xA9) || (c == 0xAF)))
            || ((b == 0x81) && (c == 0x9F))))
    || ((a == 0xE3) && (b == 0x80) && (c == 0x80))

-- The length of the space that a text begins with, 0 if it begins with none.
unfoldable pub leading_space : Bytes → ℕ
unfolding is_ascii_space is_space2 is_space3
leading_space [] = 0
leading_space (a ∷ []) = if is_ascii_space a then 1 else 0
leading_space (a ∷ b ∷ []) = if is_ascii_space a then 1 else if is_space2 a b then 2 else 0
leading_space (a ∷ b ∷ c ∷ s) =
    if is_ascii_space a then 1 else if is_space2 a b then 2 else if is_space3 a b c then 3 else 0

-- The same at the end of a text, which is given reversed.
unfoldable pub trailing_space : Bytes → ℕ
unfolding is_ascii_space is_space2 is_space3
trailing_space [] = 0
trailing_space (a ∷ []) = if is_ascii_space a then 1 else 0
trailing_space (b ∷ a ∷ []) = if is_ascii_space b then 1 else if is_space2 a b then 2 else 0
trailing_space (c ∷ b ∷ a ∷ s) =
    if is_ascii_space c then 1 else if is_space2 b c then 2 else if is_space3 a b c then 3 else 0

-- Drops `skip` bytes, and then spaces as `space` measures them.
unfoldable pub strip : (Bytes → ℕ) → ℕ → Bytes → Bytes
strip space skip [] = []
strip space (suc skip) (a ∷ s) = strip space skip s
strip space zero (a ∷ s) = elim (space (a ∷ s)) [ zero ↦ a ∷ s | suc more ↦ strip space more s ]

unfoldable pub trim_left : Bytes → Bytes
unfolding strip leading_space
trim_left s = strip leading_space 0 s

unfoldable pub trim_right : Bytes → Bytes
unfolding strip trailing_space
trim_right s = reverse (strip trailing_space 0 (reverse s))

-- strings.TrimSpace
unfoldable pub trim_space : Bytes → Bytes
unfolding trim_left trim_right
trim_space s = trim_right (trim_left s)

-- fnv8 folds a text to the low 32 bits of h ^ (h >> 32).
unfoldable pub fnv_loop : ℕ → Bytes → ℕ
fnv_loop h [] = h
fnv_loop h (b ∷ s) = fnv_loop (bit_xor h b * 1099511628211 % 18446744073709551616) s

-- A lower-case hexadecimal digit.
unfoldable pub hex_digit : ℕ → ℕ
hex_digit d = if ltb d 10 then 48 + d else 87 + d

unfoldable pub hex_digits : ℕ → ℕ → Bytes
unfolding hex_digit
hex_digits zero v = []
hex_digits (suc n) v = hex_digits n (v / 16) ++ hex_digit (v % 16) ∷ []

-- `%08x` of a value below 2^32
unfoldable pub fnv8 : Bytes → Bytes
unfolding fnv_loop hex_digits
fnv8 s =
    let h = fnv_loop 14695981039346656037 s in
    hex_digits 8 (bit_xor h (h / 4294967296) % 4294967296)
