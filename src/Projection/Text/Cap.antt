-- ===== src/Projection/Text/Cap.antt =====
-- Slices cut to a cap, and texts clipped to one.
use rook_host.Base.{
  ℕ, ◌≤◌, ◌<◌, ◌≡◌, refl, false, List, [], ◌∷◌, map, length, All, All-map, map_fixed, arith,
  length-take-le, length-map,
}
use rook_host.Base.Bytes.{Bytes, is_empty}
use rook_host.Projection.Text.{clip, cap}
use rook_host.Projection.Text.Clip.{length-clip-le}

-- At most n bytes.
abbrev pub Within : ℕ → Bytes → Type 0
Within n s = length s ≤ n

pub length-cap {ℓ} : {A : Type ℓ} (n : ℕ) (l : List A) → length (cap n l) ≤ n
length-cap n l = ground (arith, length-take-le n l)

pub cap_short {ℓ} : {A : Type ℓ} (n : ℕ) (l : List A) → length l ≤ n → cap n l ≡ l
cap_short n l h = ground arith

pub length-map-cap {ℓ κ} :
    {A : Type ℓ} {B : Type κ} (f : A → B) (n : ℕ) (l : List A) → length (map f (cap n l)) ≤ n
length-map-cap f n l = omega (arith, length-map f (cap n l), length-cap n l)

pub map-cap_fixed {ℓ κ} :
    {A : Type ℓ} (P : A → Type κ) (f : A → A) (n : ℕ) (l : List A)
    → ((x : A) → P x → f x ≡ x)
    → length l ≤ n
    → All P l
    → map f (cap n l) ≡ l
map-cap_fixed P f n l h k a = rw (cap_short n l k) (map_fixed P f l h a)

pub nonempty : (s : Bytes) → is_empty s ≡ false → 0 < length s
nonempty [] h = cc
nonempty (b ∷ s) h = omega arith

pub not_empty : (s : Bytes) → 0 < length s → is_empty s ≡ false
not_empty [] h = absurd (omega arith)
not_empty (b ∷ s) h = refl

pub clips-Within : (n : ℕ) (l : List Bytes) → All (Within n) (map (λ b. clip b n) l)
clips-Within n l = All-map (Within n) (λ b. clip b n) l (λ b. length-clip-le b n)
