-- ===== src/Base/Split.antt =====
-- strings.Join and strings.Split at a single byte.
use Prim.Native.Nat.{ℕ}
use mathlib.Core.Path.{◌≡◌, refl, ap, ◌∙◌}
use mathlib.Core.Bool.{true, false}
use mathlib.Core.List.{List, [], ◌∷◌, ◌++◌}
use native.Mathlib.Omega.{arith}
use rook_host.Base.Tests.{◌==◌, if◌then◌else◌}
use rook_host.Base.Lists.{All}
use rook_host.Base.Bytes.{Bytes}

-- strings.Join
unfoldable pub join : ℕ → List Bytes → Bytes
join c [] = []
join c (s ∷ []) = s
join c (s ∷ t ∷ ts) = s ++ c ∷ join c (t ∷ ts)

-- A byte in front of the first piece.
unfoldable pub grow : ℕ → List Bytes → List Bytes
grow b [] = (b ∷ []) ∷ []
grow b (s ∷ ss) = (b ∷ s) ∷ ss

-- strings.Split
unfoldable pub split : ℕ → Bytes → List Bytes
unfolding grow
split c [] = [] ∷ []
split c (b ∷ s) = let rest = split c s in if b == c then [] ∷ rest else grow b rest

-- The byte is not in the text.
abbrev pub Lacks : ℕ → Bytes → Type 0
Lacks c s = All (λ b. (b == c) ≡ false) s

split-piece : (c : ℕ) (s : Bytes) → Lacks c s → split c s ≡ s ∷ []
unfolding split grow
split-piece c [] l = refl
split-piece c (b ∷ s) l = rw (l.0, split-piece c s l.1) refl

split-append : (c : ℕ) (s t : Bytes) → Lacks c s → split c (s ++ c ∷ t) ≡ s ∷ split c t
unfolding split grow
split-append c [] t l = let e : (c == c) ≡ true = ground arith in rw (e) refl
split-append c (b ∷ s) t l = rw (l.0, split-append c s t l.1) refl

-- Pieces without the separator are split as they were joined.
pub split-join :
    (c : ℕ) (s : Bytes) (ss : List Bytes)
    → All (Lacks c) (s ∷ ss)
    → split c (join c (s ∷ ss)) ≡ s ∷ ss
unfolding join
split-join c s [] a = split-piece c s a.0
split-join c s (t ∷ ts) a =
    split-append c s (join c (t ∷ ts)) a.0 ∙ ap (λ r. s ∷ r) (split-join c t ts a.1)

-- Two texts cut at their first separator have the same parts.
pub Lacks-split :
    (c : ℕ) (s s' t t' : Bytes)
    → Lacks c s
    → Lacks c s'
    → s ++ c ∷ t ≡ s' ++ c ∷ t'
    → (s ≡ s') × (t ≡ t')
Lacks-split c [] [] t t' l m e = (refl, cc)
Lacks-split c [] (b ∷ s') t t' l m e = let same : c ≡ b = cc in absurd (ground (arith, m.0, same))
Lacks-split c (b ∷ s) [] t t' l m e = let same : b ≡ c = cc in absurd (ground (arith, l.0, same))
Lacks-split c (b ∷ s) (b' ∷ s') t t' l m e =
    let (x, y) = Lacks-split c s s' t t' l.1 m.1 (cc) in (cc, y)
