-- ===== src/Edgesign/Canonical.antt =====
-- The canonical encoding of edgesign/edgesign.go: u64 and canonical.
use rook_host.Base.{
  ℕ, ◌/◌, ◌%◌, ◌<◌, ◌≡◌, List, [], ◌∷◌, ◌++◌, length, All, arith, append_inj, refl,
}
use rook_host.Base.Bytes.{Bytes}

abbrev byte_at : ℕ → ℕ → ℕ
byte_at v p = v / p % 256

-- Eight bytes, most significant first.
unfoldable pub u64 : ℕ → Bytes
u64 v =
    byte_at v 72057594037927936
    ∷ byte_at v 281474976710656
    ∷ byte_at v 1099511627776
    ∷ byte_at v 4294967296
    ∷ byte_at v 16777216
    ∷ byte_at v 65536
    ∷ byte_at v 256
    ∷ byte_at v 1
    ∷ []

-- The loop over the fields.
unfoldable pub encode_fields : List Bytes → Bytes
encode_fields [] = []
encode_fields (f ∷ fs) = u64 (length f) ++ (f ++ encode_fields fs)

unfoldable pub canonical : Bytes → List Bytes → Bytes
unfolding encode_fields
canonical domain fields = u64 (length domain) ++ (domain ++ encode_fields fields)

-- What fits a Go length: every string in memory does.
abbrev pub Fits : Bytes → Type 0
Fits s = length s < 18446744073709551616

pub u64_inj :
    (v w : ℕ) → v < 18446744073709551616 → w < 18446744073709551616 → u64 v ≡ u64 w → v ≡ w
unfolding u64
u64_inj v w hv hw e = ground arith

pub length-u64 : (v w : ℕ) → length (u64 v) ≡ length (u64 w)
unfolding u64
length-u64 v w = refl

pub u64-Fits : (v : ℕ) → Fits (u64 v)
unfolding u64
u64-Fits v = omega arith

-- A length-prefixed field splits off a text in one way only.
field_inj :
    (f g rest rest' : Bytes)
    → Fits f
    → Fits g
    → u64 (length f) ++ (f ++ rest) ≡ u64 (length g) ++ (g ++ rest')
    → (f ≡ g) × (rest ≡ rest')
field_inj f g rest rest' hf hg e =
    let split = append_inj (u64 (length f)) (u64 (length g)) _ _ (length-u64 _ _) e in
    append_inj f g rest rest' (u64_inj _ _ hf hg split.0) split.1

encode_fields_inj :
    (fs gs : List Bytes) → All Fits fs → All Fits gs → encode_fields fs ≡ encode_fields gs → fs ≡ gs
unfolding encode_fields
encode_fields_inj [] [] hf hg e = refl
encode_fields_inj [] (g ∷ gs) hf hg e = unfold u64 in cc
encode_fields_inj (f ∷ fs) [] hf hg e = unfold u64 in cc
encode_fields_inj (f ∷ fs) (g ∷ gs) hf hg e =
    let split = field_inj f g _ _ hf.0 hg.0 e in
    cc (split.0, encode_fields_inj fs gs hf.1 hg.1 split.1)

-- The encoding is injective: the domain label and every field can be read back.
pub canonical_inj :
    (d d' : Bytes) (fs gs : List Bytes)
    → Fits d
    → Fits d'
    → All Fits fs
    → All Fits gs
    → canonical d fs ≡ canonical d' gs
    → (d ≡ d') × (fs ≡ gs)
unfolding canonical
canonical_inj d d' fs gs hd hd' hf hg e =
    let split = field_inj d d' _ _ hd hd' e in (split.0, encode_fields_inj fs gs hf hg split.1)
