-- ===== src/Projection/Text/Clip.antt =====
-- What clip keeps: a prefix within the bound, cut at the last boundary between encodings.
use rook_host.Base.{
  ℕ, zero, suc, ◌≤◌, ◌<◌, ◌≡◌, refl, ◌⊎◌, inl, inr, true, false, [], ◌∷◌, length, take, get_or, leb,
  arith, length-take-le, Bool-cases, leb→le,
}
use rook_host.Base.Bytes.{Bytes}
use rook_host.Projection.Text.{is_continuation, boundary, clip}

boundary-le : (s : Bytes) (n : ℕ) → boundary s n ≤ n
unfolding boundary
boundary-le s zero = omega arith
boundary-le s (suc n) = ground (arith, boundary-le s n)

-- The cut k is the largest one up to n that is 0 or at a byte that starts an encoding.
pub record IsCut (s : Bytes) (n k : ℕ) : Type 0 where
  pub within : k ≤ n
  pub starts : (k ≡ 0) ⊎ (is_continuation (get_or s k 0) ≡ false)
  pub largest : (i : ℕ) → k < i → i ≤ n → is_continuation (get_or s i 0) ≡ true

boundary-IsCut : (s : Bytes) (n : ℕ) → IsCut s n (boundary s n)
unfolding boundary
boundary-IsCut s zero = record {
  within = omega arith;
  starts = inl refl;
  largest = λ i h k. absurd (omega arith);
}
boundary-IsCut s (suc n) = elim (Bool-cases (is_continuation (get_or s (suc n) 0))) [
  | inl more ↦
      let ih = boundary-IsCut s n in
      rw (more, boundary)
        (record {
          within = omega (arith, ih.within);
          starts = ih.starts;
          largest = λ i h k. elim (Bool-cases (leb i n)) [
            | inl below ↦ ih.largest i h (leb→le i n below)
            | inr above ↦ let top : i ≡ suc n = ground arith in rw top more
          ];
        })
  | inr done ↦
      rw (done, boundary)
        (record {
          within = omega arith;
          starts = inr done;
          largest = λ i h k. absurd (omega arith);
        })
]

-- A text within the bound is kept whole; a longer one is cut at the largest boundary up to n.
pub clip-IsCut :
    (s : Bytes) (n : ℕ)
    → ((length s ≤ n) × (clip s n ≡ s))
      ⊎ ((n < length s) × (k : ℕ) × IsCut s n k × (clip s n ≡ take k s))
unfolding clip
clip-IsCut s n = elim (Bool-cases (leb (length s) n)) [
  | inl short ↦ inl (leb→le _ _ short, rw short)
  | inr long ↦ inr (ground arith, boundary s n, boundary-IsCut s n, rw long)
]

pub length-clip-le : (s : Bytes) (n : ℕ) → length (clip s n) ≤ n
unfolding clip
length-clip-le s n = ground (arith, length-take-le (boundary s n) s, boundary-le s n)

pub clip_short : (s : Bytes) (n : ℕ) → length s ≤ n → clip s n ≡ s
unfolding clip
clip_short s n h = ground arith

pub clip_idem : (s : Bytes) (n : ℕ) → clip (clip s n) n ≡ clip s n
clip_idem s n = clip_short (clip s n) n (length-clip-le s n)

-- The second bytes that rule out overlong forms, surrogates and what lies past U+10FFFF.
abbrev pub IsSecond3 : ℕ → ℕ → Type 0
IsSecond3 a b = (a ≡ 0xE0 → 0xA0 ≤ b) × (a ≡ 0xED → b ≤ 0x9F)

abbrev pub IsSecond4 : ℕ → ℕ → Type 0
IsSecond4 a b = (a ≡ 0xF0 → 0x90 ≤ b) × (a ≡ 0xF4 → b ≤ 0x8F)

-- Well-formed UTF-8: each constructor is an encoding of one code point, with the ranges of the
-- Unicode standard (table 3-7).
pub data IsUtf8 : Bytes → Type 0 where
  nil : IsUtf8 []
  one : (a : ℕ) {s : Bytes} → a < 0x80 → IsUtf8 s → IsUtf8 (a ∷ s)
  two :
      (a b : ℕ) {s : Bytes}
      → 0xC2 ≤ a
      → a ≤ 0xDF
      → is_continuation b ≡ true
      → IsUtf8 s
      → IsUtf8 (a ∷ b ∷ s)
  three :
      (a b c : ℕ) {s : Bytes}
      → 0xE0 ≤ a
      → a ≤ 0xEF
      → IsSecond3 a b
      → is_continuation b ≡ true
      → is_continuation c ≡ true
      → IsUtf8 s
      → IsUtf8 (a ∷ b ∷ c ∷ s)
  four :
      (a b c d : ℕ) {s : Bytes}
      → 0xF0 ≤ a
      → a ≤ 0xF4
      → IsSecond4 a b
      → is_continuation b ≡ true
      → is_continuation c ≡ true
      → is_continuation d ≡ true
      → IsUtf8 s
      → IsUtf8 (a ∷ b ∷ c ∷ d ∷ s)

abbrev Starts : Bytes → ℕ → Type 0
Starts s k = (k ≡ 0) ⊎ (is_continuation (get_or s k 0) ≡ false)

past : (a : ℕ) (s : Bytes) (k : ℕ) → Starts (a ∷ s) (suc k) → is_continuation (get_or s k 0) ≡ false
past a s k (inl e) = absurd (omega arith)
past a s k (inr h) = h

-- A prefix of well-formed text that ends at a boundary is well-formed.
take-IsUtf8 : {s : Bytes} (k : ℕ) → Starts s k → IsUtf8 s → IsUtf8 (take k s)
take-IsUtf8 zero h u = nil
take-IsUtf8 (suc k) h nil = nil
take-IsUtf8 (suc k) h (one a {s = s} p u) = one a p (take-IsUtf8 k (inr (past a s k h)) u)
take-IsUtf8 (suc zero) h (two a b p q cb u) = absurd (ground arith)
take-IsUtf8 (suc (suc k)) h (two a b {s = s} p q cb u) =
    two a b p q cb (take-IsUtf8 k (inr (past a (b ∷ s) (suc k) h)) u)
take-IsUtf8 (suc zero) h (three a b c p q r cb cc' u) = absurd (ground arith)
take-IsUtf8 (suc (suc zero)) h (three a b c p q r cb cc' u) = absurd (ground arith)
take-IsUtf8 (suc (suc (suc k))) h (three a b c {s = s} p q r cb cc' u) =
    three a b c p q r cb cc' (take-IsUtf8 k (inr (past a (b ∷ c ∷ s) (suc (suc k)) h)) u)
take-IsUtf8 (suc zero) h (four a b c d p q r cb cc' cd u) = absurd (ground arith)
take-IsUtf8 (suc (suc zero)) h (four a b c d p q r cb cc' cd u) = absurd (ground arith)
take-IsUtf8 (suc (suc (suc zero))) h (four a b c d p q r cb cc' cd u) = absurd (ground arith)
take-IsUtf8 (suc (suc (suc (suc k)))) h (four a b c d {s = s} p q r cb cc' cd u) =
    four a b c d p q r cb cc' cd
      (take-IsUtf8 k (inr (past a (b ∷ c ∷ d ∷ s) (suc (suc (suc k))) h)) u)

-- A clipped text stays valid UTF-8.
pub clip-IsUtf8 : (s : Bytes) (n : ℕ) → IsUtf8 s → IsUtf8 (clip s n)
clip-IsUtf8 s n u = elim (clip-IsCut s n) [
  | inl (short, e) ↦ rw e u
  | inr (long, k, cut, e) ↦ rw e (take-IsUtf8 k cut.starts u)
]
