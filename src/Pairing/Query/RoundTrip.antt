-- ===== src/Pairing/Query/RoundTrip.antt =====
-- What is encoded as a query is parsed back.
use rook_host.Base.{
  ℕ, ◌≡◌, refl, ◌+◌, ◌*◌, ◌/◌, ◌%◌, ◌<◌, some, Bool, true, false, ◌||◌, List, [], ◌∷◌, ◌++◌, map,
  ◌==◌, if◌then◌else◌, All, All-append, All-mono, arith, Bool-cases, inl, inr,
}
use rook_host.Base.Bytes.{Bytes, str_eq, str_eq_iff, is_empty}
use rook_host.Base.Split.{join, split, Lacks, split-join}
use rook_host.Pairing.Query.{
  unreserved, upper_hex, escape, is_hex, unhex, unescape_from, unescape, Values, str_lt, set, get,
  pair_text, encode_values, cut, has_byte, parse_piece, parse_pieces, parse_query,
}

-- The bytes that an escaped text can have.
abbrev pub escaped : ℕ → Bool
escaped b = unreserved b || (b == b'%') || (b == b'+')

abbrev pub IsBytes : Bytes → Type 0
IsBytes s = All (λ b. b < 256) s

upper_hex-escaped : (v : ℕ) → v < 16 → escaped (upper_hex v) ≡ true
upper_hex-escaped v h = ground arith

is_hex-upper_hex : (v : ℕ) → v < 16 → is_hex (upper_hex v) ≡ true
is_hex-upper_hex v h = ground arith

unhex-upper_hex : (v : ℕ) → v < 16 → unhex (upper_hex v) ≡ v
unhex-upper_hex v h = ground arith

escape-escaped : (s : Bytes) → IsBytes s → All (λ b. escaped b ≡ true) (escape s)
unfolding escape
escape-escaped [] h = tt
escape-escaped (b ∷ s) h = elim (Bool-cases (unreserved b)) [
  | inl e ↦ rw (e) (ground arith, escape-escaped s h.1)
  | inr e ↦ elim (Bool-cases (b == 32)) [
    | inl f ↦ rw (e, f) (refl, escape-escaped s h.1)
    | inr f ↦
        rw (e, f)
          (
            refl,
            (
              upper_hex-escaped (b / 16) (ground arith),
              (upper_hex-escaped (b % 16) (ground arith), escape-escaped s h.1),
            ),
          )
  ]
]

pub unescape-escape : (s : Bytes) → IsBytes s → unescape (escape s) ≡ some s
unfolding escape unescape_from
unescape-escape [] h = refl
unescape-escape (b ∷ s) h = elim (Bool-cases (unreserved b)) [
  | inl e ↦
      let p : (b == b'%') ≡ false = ground arith in
      let q : (b == b'+') ≡ false = ground arith in rw (e, p, q, unescape-escape s h.1) refl
  | inr e ↦ elim (Bool-cases (b == 32)) [
    | inl f ↦ let z : b ≡ 32 = ground arith in rw (e, f, unescape-escape s h.1, z) refl
    | inr f ↦
        let p = is_hex-upper_hex (b / 16) (ground arith) in
        let q = is_hex-upper_hex (b % 16) (ground arith) in
        let v = unhex-upper_hex (b / 16) (ground arith) in
        let w = unhex-upper_hex (b % 16) (ground arith) in
        let z : 16 * (b / 16) + b % 16 ≡ b = omega arith in
        rw (e, f, p, q, v, w, unescape-escape s h.1, z) refl
  ]
]

escaped-Lacks : (c : ℕ) (s : Bytes) → escaped c ≡ false → All (λ b. escaped b ≡ true) s → Lacks c s
escaped-Lacks c [] h a = tt
escaped-Lacks c (b ∷ s) h a = (
  elim (Bool-cases (b == c)) [
    | inl e ↦ let same : b ≡ c = ground (arith, e) in absurd (cc (same, h, a.0))
    | inr e ↦ e
  ],
  escaped-Lacks c s h a.1,
)

Lacks-has_byte : (c : ℕ) (s : Bytes) → Lacks c s → has_byte c s ≡ false
Lacks-has_byte c [] l = refl
Lacks-has_byte c (b ∷ s) l = rw (l.0) (Lacks-has_byte c s l.1)

Lacks-append : (c : ℕ) (s t : Bytes) → Lacks c s → Lacks c t → Lacks c (s ++ t)
Lacks-append c [] t l m = m
Lacks-append c (b ∷ s) t l m = (l.0, Lacks-append c s t l.1 m)

cut_at : (c : ℕ) (s t : Bytes) → Lacks c s → cut c (s ++ c ∷ t) ≡ (s, t)
unfolding cut
cut_at c [] t l = let e : (c == c) ≡ true = ground arith in rw (e) refl
cut_at c (b ∷ s) t l = rw (l.0, cut_at c s t l.1) refl

is_empty_middle : (s t : Bytes) (c : ℕ) → is_empty (s ++ c ∷ t) ≡ false
is_empty_middle [] t c = refl
is_empty_middle (b ∷ s) t c = refl

-- The settings of a query are of bytes.
abbrev pub IsQuery : Values → Type 0
IsQuery vs = All (λ p. IsBytes p.0 × IsBytes p.1) vs

pair_text-Lacks :
    (c : ℕ) (p : Bytes × Bytes)
    → escaped c ≡ false
    → (b'=' == c) ≡ false
    → IsBytes p.0
    → IsBytes p.1
    → Lacks c (pair_text p)
unfolding pair_text
pair_text-Lacks c p h e k v =
    Lacks-append c (escape p.0) (b'=' ∷ escape p.1)
      (escaped-Lacks c (escape p.0) h (escape-escaped p.0 k))
      (e, escaped-Lacks c (escape p.1) h (escape-escaped p.1 v))

parse_piece-pair_text :
    (p : Bytes × Bytes) → IsBytes p.0 → IsBytes p.1 → parse_piece (pair_text p) ≡ p ∷ []
unfolding parse_piece pair_text
parse_piece-pair_text p k v =
    let l = Lacks-has_byte b';' (pair_text p) (pair_text-Lacks b';' p refl refl k v) in
    let m = is_empty_middle (escape p.0) (escape p.1) b'=' in
    let c =
      cut_at b'=' (escape p.0) (escape p.1)
        (escaped-Lacks b'=' (escape p.0) refl (escape-escaped p.0 k)) in
    let key : unescape (cut b'=' (pair_text p)).0 ≡ some p.0 =
      rw (pair_text, c) (unescape-escape p.0 k) in
    let value : unescape (cut b'=' (pair_text p)).1 ≡ some p.1 =
      rw (pair_text, c) (unescape-escape p.1 v) in
    rw (l, m, key, value) refl

parse_pieces-map : (vs : Values) → IsQuery vs → parse_pieces (map pair_text vs) ≡ vs
unfolding parse_pieces
parse_pieces-map [] q = refl
parse_pieces-map (p ∷ vs) q = rw (parse_piece-pair_text p q.0.0 q.0.1, parse_pieces-map vs q.1) refl

pieces-Lacks : (vs : Values) → IsQuery vs → All (Lacks b'&') (map pair_text vs)
pieces-Lacks [] q = tt
pieces-Lacks (p ∷ vs) q = (pair_text-Lacks b'&' p refl refl q.0.0 q.0.1, pieces-Lacks vs q.1)

-- ParseQuery reads the settings that Encode wrote.
pub parse_query-encode_values : (vs : Values) → IsQuery vs → parse_query (encode_values vs) ≡ vs
unfolding parse_query encode_values join split parse_pieces parse_piece
parse_query-encode_values [] q = refl
parse_query-encode_values (p ∷ vs) q =
    rw (split-join b'&' (pair_text p) (map pair_text vs) (pieces-Lacks (p ∷ vs) q))
      (parse_pieces-map (p ∷ vs) q)

-- The bytes of an encoded query.
abbrev pub query_byte : ℕ → Bool
query_byte b = escaped b || (b == b'=') || (b == b'&')

pair_text-query_byte :
    (p : Bytes × Bytes) → IsBytes p.0 → IsBytes p.1 → All (λ b. query_byte b ≡ true) (pair_text p)
unfolding pair_text
pair_text-query_byte p k v =
    All-append (λ b. query_byte b ≡ true) (escape p.0) (b'=' ∷ escape p.1)
      (All-mono (λ b. escaped b ≡ true) (λ b. query_byte b ≡ true) (escape p.0) (λ b h. rw (h) refl)
        (escape-escaped p.0 k))
      (
        refl,
        All-mono (λ b. escaped b ≡ true) (λ b. query_byte b ≡ true) (escape p.1)
            (λ b h. rw (h) refl) (escape-escaped p.1 v),
      )

join-query_byte :
    (ss : List Bytes)
    → All (λ s. All (λ b. query_byte b ≡ true) s) ss
    → All (λ b. query_byte b ≡ true) (join b'&' ss)
unfolding join
join-query_byte [] a = tt
join-query_byte (s ∷ []) a = a.0
join-query_byte (s ∷ t ∷ ts) a =
    All-append (λ b. query_byte b ≡ true) s (b'&' ∷ join b'&' (t ∷ ts)) a.0
      (refl, join-query_byte (t ∷ ts) a.1)

pieces-query_byte :
    (vs : Values) → IsQuery vs → All (λ s. All (λ b. query_byte b ≡ true) s) (map pair_text vs)
pieces-query_byte [] q = tt
pieces-query_byte (p ∷ vs) q = (pair_text-query_byte p q.0.0 q.0.1, pieces-query_byte vs q.1)

pub encode_values-query_byte :
    (vs : Values) → IsQuery vs → All (λ b. query_byte b ≡ true) (encode_values vs)
unfolding encode_values
encode_values-query_byte vs q = join-query_byte (map pair_text vs) (pieces-query_byte vs q)

pub set-IsQuery :
    (k v : Bytes) (vs : Values) → IsBytes k → IsBytes v → IsQuery vs → IsQuery (set k v vs)
unfolding set
set-IsQuery k v [] a b q = ((a, b), tt)
set-IsQuery k v ((j, w) ∷ vs) a b q = elim (Bool-cases (str_eq j k)) [
  | inl e ↦ rw (e) ((a, b), q.1)
  | inr e ↦ elim (Bool-cases (str_lt k j)) [
    | inl f ↦ rw (e, f) ((a, b), q)
    | inr f ↦ rw (e, f) (q.0, set-IsQuery k v vs a b q.1)
  ]
]

str_lt_irrefl : (s : Bytes) → str_lt s s ≡ false
unfolding str_lt
str_lt_irrefl [] = refl
str_lt_irrefl (a ∷ s) = ground (arith, str_lt_irrefl s)

-- Get reads what Set wrote, and the other keys as before.
pub get-set :
    (i k v : Bytes) (vs : Values) → get i (set k v vs) ≡ (if str_eq k i then v else get i vs)
unfolding get set
get-set i k v [] = refl
get-set i k v ((j, w) ∷ vs) =
    ground
      (arith, get-set i k v vs, str_eq_iff j k, str_eq_iff k i, str_eq_iff j i, str_lt_irrefl j)
