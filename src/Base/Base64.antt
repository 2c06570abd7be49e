-- ===== src/Base/Base64.antt =====
-- encoding/base64, RawURLEncoding.EncodeToString: the URL alphabet, no padding.
use Prim.Native.Nat.{ℕ, ◌+◌, ◌-◌, ◌*◌, ◌/◌, ◌%◌, ◌<◌}
use mathlib.Core.Path.{◌≡◌, refl, ap}
use mathlib.Core.List.{[], ◌∷◌}
use native.Mathlib.Omega.{arith}
use rook_host.Base.Tests.{ltb, ◌==◌, if◌then◌else◌}
use rook_host.Base.Lists.{All, get_or, drop}
use rook_host.Base.Bytes.{Bytes}

-- The alphabet: A to Z, a to z, 0 to 9, - and _.
unfoldable pub digit : ℕ → ℕ
digit v =
    if ltb v 26
    then 65 + v
    else if ltb v 52
    then 71 + v
    else if ltb v 62
    then v - 4
    else if v == 62
    then b'-'
    else b'_'

-- Three bytes give four digits; one or two bytes at the end give two or three.
unfoldable pub encode : Bytes → Bytes
unfolding digit
encode [] = []
encode (a ∷ []) = digit (a / 4) ∷ digit (a % 4 * 16) ∷ []
encode (a ∷ b ∷ []) = digit (a / 4) ∷ digit (a % 4 * 16 + b / 16) ∷ digit (b % 16 * 4) ∷ []
encode (a ∷ b ∷ c ∷ s) =
    digit (a / 4)
    ∷ digit (a % 4 * 16 + b / 16)
    ∷ digit (b % 16 * 4 + c / 64)
    ∷ digit (c % 64)
    ∷ encode s

-- The value of a digit.
undigit : ℕ → ℕ
undigit c =
    if c == b'-'
    then 62
    else if c == b'_'
    then 63
    else if ltb c 58
    then c + 4
    else if ltb c 91
    then c - 65
    else c - 71

undigit-digit : (v : ℕ) → v < 64 → undigit (digit v) ≡ v
unfolding undigit digit
undigit-digit v h = ground arith

digit_inj : (v w : ℕ) → v < 64 → w < 64 → digit v ≡ digit w → v ≡ w
digit_inj v w hv hw e = omega (arith, undigit-digit v hv, undigit-digit w hw, ap undigit e)

abbrev pub AreBytes : Bytes → Type 0
AreBytes s = All (λ b. b < 256) s

-- The digits of two texts agree in value.
one_inj :
    (a x : ℕ)
    → a < 256
    → x < 256
    → digit (a / 4) ≡ digit (x / 4)
    → digit (a % 4 * 16) ≡ digit (x % 4 * 16)
    → a ≡ x
one_inj a x ha hx e f = omega (
  arith,
  digit_inj (a / 4) (x / 4) (omega arith) (omega arith) e,
  digit_inj (a % 4 * 16) (x % 4 * 16) (omega arith) (omega arith) f,
)

two_inj :
    (a b x y : ℕ)
    → a < 256
    → b < 256
    → x < 256
    → y < 256
    → digit (a / 4) ≡ digit (x / 4)
    → digit (a % 4 * 16 + b / 16) ≡ digit (x % 4 * 16 + y / 16)
    → (a ≡ x) × (b / 16 ≡ y / 16)
two_inj a b x y ha hb hx hy e f =
    let p = digit_inj (a / 4) (x / 4) (omega arith) (omega arith) e in
    let q = digit_inj (a % 4 * 16 + b / 16) (x % 4 * 16 + y / 16) (omega arith) (omega arith) f in
    (omega arith, omega arith)

-- Different byte strings have different encodings.
pub encode_inj : (s t : Bytes) → AreBytes s → AreBytes t → encode s ≡ encode t → s ≡ t
unfolding encode
encode_inj [] [] hs ht e = refl
encode_inj (a ∷ []) (x ∷ []) hs ht e =
    cc (one_inj a x hs.0 ht.0 (ap (λ l. get_or l 0 0) e) (ap (λ l. get_or l 1 0) e))
encode_inj (a ∷ b ∷ []) (x ∷ y ∷ []) hs ht e =
    let first =
      two_inj a b x y hs.0 hs.1.0 ht.0 ht.1.0 (ap (λ l. get_or l 0 0) e)
        (ap (λ l. get_or l 1 0) e) in
    let r =
      digit_inj (b % 16 * 4) (y % 16 * 4) (omega arith) (omega arith) (ap (λ l. get_or l 2 0) e) in
    let second : b ≡ y = omega (arith, first.1, r) in cc (first.0, second)
encode_inj (a ∷ b ∷ c ∷ s) (x ∷ y ∷ z ∷ t) hs ht e =
    let first =
      two_inj a b x y hs.0 hs.1.0 ht.0 ht.1.0 (ap (λ l. get_or l 0 0) e)
        (ap (λ l. get_or l 1 0) e) in
    let r =
      digit_inj (b % 16 * 4 + c / 64) (y % 16 * 4 + z / 64) (omega (arith, hs.1.1.0))
        (omega (arith, ht.1.1.0)) (ap (λ l. get_or l 2 0) e) in
    let u = digit_inj (c % 64) (z % 64) (omega arith) (omega arith) (ap (λ l. get_or l 3 0) e) in
    let second : b ≡ y = omega (arith, first.1, r, hs.1.1.0, ht.1.1.0) in
    let third : c ≡ z = omega (arith, r, u, hs.1.1.0, ht.1.1.0) in
    let rest = encode_inj s t hs.1.1.1 ht.1.1.1 (ap (drop 4) e) in cc (first.0, second, third, rest)
encode_inj [] (x ∷ []) hs ht e = cc
encode_inj [] (x ∷ y ∷ []) hs ht e = cc
encode_inj [] (x ∷ y ∷ z ∷ t) hs ht e = cc
encode_inj (a ∷ []) [] hs ht e = cc
encode_inj (a ∷ []) (x ∷ y ∷ []) hs ht e = cc
encode_inj (a ∷ []) (x ∷ y ∷ z ∷ t) hs ht e = cc
encode_inj (a ∷ b ∷ []) [] hs ht e = cc
encode_inj (a ∷ b ∷ []) (x ∷ []) hs ht e = cc
encode_inj (a ∷ b ∷ []) (x ∷ y ∷ z ∷ t) hs ht e = cc
encode_inj (a ∷ b ∷ c ∷ s) [] hs ht e = cc
encode_inj (a ∷ b ∷ c ∷ s) (x ∷ []) hs ht e = cc
encode_inj (a ∷ b ∷ c ∷ s) (x ∷ y ∷ []) hs ht e = cc
