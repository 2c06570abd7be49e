-- ===== src/Projection/Text/Trim.antt =====
-- strings.TrimSpace leaves nothing to trim.
use mathlib.Core.List.{reverse-append, reverse-reverse}
use rook_host.Base.{
  ℕ, zero, suc, ◌≡◌, refl, ap, sym, ◌∙◌, ◌⊎◌, inl, inr, [], ◌∷◌, ◌++◌, reverse, arith,
}
use rook_host.Base.Bytes.{Bytes}
use rook_host.Projection.Text.{
  strip, leading_space, trailing_space, trim_left, trim_right, trim_space,
}

ℕ-cases : (n : ℕ) → (n ≡ 0) ⊎ ((m : ℕ) × (n ≡ suc m))
ℕ-cases zero = inl refl
ℕ-cases (suc m) = inr (m, refl)

module _ (space : Bytes → ℕ) (at_end : space [] ≡ 0) where
  space-strip : (skip : ℕ) (s : Bytes) → space (strip space skip s) ≡ 0
  unfolding strip
  space-strip skip [] = at_end
  space-strip (suc skip) (a ∷ s) = space-strip skip s
  space-strip zero (a ∷ s) = elim (ℕ-cases (space (a ∷ s))) [
    | inl e ↦ rw (e, strip) e
    | inr (m, e) ↦ rw (e, strip) (space-strip m s)
  ]

  strip_fixed : (s : Bytes) → space s ≡ 0 → strip space 0 s ≡ s
  unfolding strip
  strip_fixed [] h = refl
  strip_fixed (a ∷ s) h = rw (h, strip)

  -- What is stripped is a prefix.
  strip_suffix : (skip : ℕ) (s : Bytes) → (u : Bytes) × (s ≡ u ++ strip space skip s)
  unfolding strip
  strip_suffix skip [] = ([], refl)
  strip_suffix (suc skip) (a ∷ s) = let (u, e) = strip_suffix skip s in (a ∷ u, ap (λ t. a ∷ t) e)
  strip_suffix zero (a ∷ s) = elim (ℕ-cases (space (a ∷ s))) [
    | inl e ↦ ([], rw (e, strip))
    | inr (m, e) ↦ let (u, q) = strip_suffix m s in (a ∷ u, rw (e, strip) (ap (λ t. a ∷ t) q))
  ]

-- A text that begins with no space has no prefix that does.
leading_space_prefix : (r u : Bytes) → leading_space (r ++ u) ≡ 0 → leading_space r ≡ 0
unfolding leading_space
leading_space_prefix [] u h = refl
leading_space_prefix (a ∷ []) [] h = h
leading_space_prefix (a ∷ []) (b ∷ []) h = ground arith
leading_space_prefix (a ∷ []) (b ∷ c ∷ u) h = ground arith
leading_space_prefix (a ∷ b ∷ []) [] h = h
leading_space_prefix (a ∷ b ∷ []) (c ∷ u) h = ground arith
leading_space_prefix (a ∷ b ∷ c ∷ r) u h = h

trim_right_prefix : (t : Bytes) → (u : Bytes) × (t ≡ trim_right t ++ u)
unfolding trim_right
trim_right_prefix t =
    let (u, e) = strip_suffix trailing_space refl 0 (reverse t) in
    (
      reverse u,
      sym (reverse-reverse t)
          ∙ ap reverse e
          ∙ reverse-append u (strip trailing_space 0 (reverse t)),
    )

leading-trim_right : (t : Bytes) → leading_space t ≡ 0 → leading_space (trim_right t) ≡ 0
leading-trim_right t h =
    let (u, e) = trim_right_prefix t in
    leading_space_prefix (trim_right t) u (ap leading_space (sym e) ∙ h)

trim_left_fixed : (s : Bytes) → leading_space s ≡ 0 → trim_left s ≡ s
unfolding trim_left
trim_left_fixed s h = strip_fixed leading_space refl s h

leading-trim_left : (s : Bytes) → leading_space (trim_left s) ≡ 0
unfolding trim_left
leading-trim_left s = space-strip leading_space refl 0 s

trim_right_idem : (s : Bytes) → trim_right (trim_right s) ≡ trim_right s
unfolding trim_right
trim_right_idem s = rw (reverse-reverse (strip trailing_space 0 (reverse s))) (
    ap reverse
      (strip_fixed trailing_space refl kept (space-strip trailing_space refl 0 (reverse s))))
  where
    kept : Bytes
    kept = strip trailing_space 0 (reverse s)

trim_step : (s : Bytes) → trim_space s ≡ trim_right (trim_left s)
unfolding trim_space
trim_step s = refl

-- Trimming twice is trimming once.
pub trim_space_idem : (s : Bytes) → trim_space (trim_space s) ≡ trim_space s
trim_space_idem s =
    let t = trim_right (trim_left s) in
    ap trim_space (trim_step s)
    ∙ trim_step t
    ∙ ap trim_right (trim_left_fixed t (leading-trim_right (trim_left s) (leading-trim_left s)))
    ∙ trim_right_idem (trim_left s)
    ∙ sym (trim_step s)
