-- ===== src/Pairing/Query.antt =====
-- net/url, as far as pairing/pairing.go uses it: QueryEscape and its inverse, Values with Set, Get
-- and Encode, and ParseQuery, whose errors Query() drops.
pub mod RoundTrip
use rook_host.Base.{
  ℕ, ◌+◌, ◌-◌, ◌*◌, ◌/◌, ◌%◌, Option, none, some, Bool, true, false, ◌&&◌, ◌||◌, List, [], ◌∷◌,
  ◌++◌, map, ltb, leb, ◌==◌, if◌then◌else◌,
}
use rook_host.Base.Bytes.{Bytes, str_eq, is_empty}
use rook_host.Base.Split.{join, split}

-- Letters, digits and -_.~ are not escaped.
abbrev pub unreserved : ℕ → Bool
unreserved b =
    (leb b'a' b && leb b b'z')
    || (leb b'A' b && leb b b'Z')
    || (leb b'0' b && leb b b'9')
    || (b == b'-')
    || (b == b'_')
    || (b == b'.')
    || (b == b'~')

-- 0 to 9, A to F
abbrev pub upper_hex : ℕ → ℕ
upper_hex v = if ltb v 10 then 48 + v else 55 + v

-- QueryEscape
unfoldable pub escape : Bytes → Bytes
escape [] = []
escape (b ∷ s) =
    let rest = escape s in
    if unreserved b
    then b ∷ rest
    else if b == 32
    then b'+' ∷ rest
    else b'%' ∷ upper_hex (b / 16) ∷ upper_hex (b % 16) ∷ rest

abbrev pub is_hex : ℕ → Bool
is_hex c = (leb b'0' c && leb c b'9') || (leb b'a' c && leb c b'f') || (leb b'A' c && leb c b'F')

abbrev pub unhex : ℕ → ℕ
unhex c = if leb c b'9' then c - 48 else if leb c b'F' then c - 55 else c - 87

-- Where unescape stands: between characters, after a percent sign, or after its first digit.
pub data Position : Type 0 where
  between after_percent : Position
  after_digit : ℕ → Position

abbrev pub put_byte : ℕ → Option Bytes → Option Bytes
put_byte b none = none
put_byte b (some s) = some (b ∷ s)

unfoldable pub unescape_from : Position → Bytes → Option Bytes
unescape_from between [] = some []
unescape_from between (c ∷ s) =
    let rest = unescape_from (if c == b'%' then after_percent else between) s in
    if c == b'%' then rest else put_byte (if c == b'+' then 32 else c) rest
unescape_from after_percent [] = none
unescape_from after_percent (c ∷ s) =
    let rest = unescape_from (after_digit c) s in if is_hex c then rest else none
unescape_from (after_digit d) [] = none
unescape_from (after_digit d) (c ∷ s) =
    let rest = unescape_from between s in
    if is_hex c then put_byte (16 * unhex d + unhex c) rest else none

-- QueryUnescape
abbrev pub unescape : Bytes → Option Bytes
unescape s = unescape_from between s

-- The order of strings, by bytes.
unfoldable pub str_lt : Bytes → Bytes → Bool
str_lt [] [] = false
str_lt [] (b ∷ t) = true
str_lt (a ∷ s) [] = false
str_lt (a ∷ s) (b ∷ t) = ltb a b || ((a == b) && str_lt s t)

-- Values with one value for a key, in the order of the keys, which is the order that Encode
-- writes.
abbrev pub Values : Type 0
Values = List (Bytes × Bytes)

-- Set
unfoldable pub set : Bytes → Bytes → Values → Values
unfolding str_lt str_eq
set k v [] = (k, v) ∷ []
set k v ((j, w) ∷ vs) =
    let rest = set k v vs in
    if str_eq j k then (k, v) ∷ vs else if str_lt k j then (k, v) ∷ (j, w) ∷ vs else (j, w) ∷ rest

-- Get: the first value of a key, or the empty string.
unfoldable pub get : Bytes → Values → Bytes
unfolding str_eq
get k [] = []
get k ((j, w) ∷ vs) = let rest = get k vs in if str_eq j k then w else rest

unfoldable pub pair_text : Bytes × Bytes → Bytes
unfolding escape
pair_text p = escape p.0 ++ b'=' ∷ escape p.1

-- Encode
unfoldable pub encode_values : Values → Bytes
unfolding pair_text join
encode_values vs = join b'&' (map pair_text vs)

-- strings.Cut at a byte, without its found result.
unfoldable pub cut : ℕ → Bytes → Bytes × Bytes
cut c [] = ([], [])
cut c (b ∷ s) = let rest = cut c s in if b == c then ([], s) else (b ∷ rest.0, rest.1)

abbrev pub has_byte : ℕ → Bytes → Bool
has_byte c [] = false
has_byte c (b ∷ s) = (b == c) || has_byte c s

-- One setting of ParseQuery; the ones that it reports as errors or that are empty give nothing.
unfoldable pub parse_piece : Bytes → Values
unfolding cut unescape_from
parse_piece s = if has_byte b';' s || is_empty s then [] else elim (unescape (cut b'=' s).0) [
  | none ↦ []
  | some k ↦ elim (unescape (cut b'=' s).1) [ none ↦ [] | some v ↦ (k, v) ∷ [] ]
]

unfoldable pub parse_pieces : List Bytes → Values
unfolding parse_piece
parse_pieces [] = []
parse_pieces (s ∷ ss) = parse_piece s ++ parse_pieces ss

-- ParseQuery
unfoldable pub parse_query : Bytes → Values
unfolding parse_pieces split
parse_query s = parse_pieces (split b'&' s)
