-- ===== src/Transport/Hints.antt =====
-- The machine's addresses fit a QR payload.
use rook_host.Base.{
  ℕ, zero, suc, ◌+◌, ◌&&◌, ◌<◌, ◌≡◌, refl, Option, none, some, true, false, List, [], ◌∷◌, ◌++◌,
  All, All-append, All-mono, get_or, arith, inl, inr, ◌==◌, ◌||◌, Bool-cases, Option-cases, length,
  if_both,
}
use rook_host.Base.Bytes.{Bytes, is_empty}
use rook_host.Base.Decimal.{decimal, is_digit}
use rook_host.Base.Decimal.RoundTrip.{IsNumeral, decimal-IsNumeral}
use rook_host.Base.Split.{join, Lacks}
use rook_host.Base.Result.{ok}
use rook_host.Pairing.Query.RoundTrip.{IsBytes}
use rook_host.Pairing.Qr.{Qr, UrlParser, url, parse_url}
use rook_host.Pairing.Qr.RoundTrip.{IsAddrs, IsQr, parse_url-url}
use rook_host.Transport.{
  NetAddr, has_bytes, v4_in_v6, ip_net, other_addr, V4, v4_at, to4, v4_text, is_loopback,
  is_link_local, addr_loop, addrs,
}

-- A byte of a dotted number.
abbrev IsHint : Bytes → Type 0
IsHint s = (is_empty s ≡ false) × All (λ b. is_digit b || (b == b'.') ≡ true) s

-- The interfaces' addresses are of bytes.
abbrev pub IsNetAddr : NetAddr → Type 0
IsNetAddr (ip_net ip) = IsBytes ip
IsNetAddr other_addr = Unit

-- The addresses that were listed.
abbrev pub found_or : Option (List NetAddr) → List NetAddr
found_or none = []
found_or (some found) = found

numeral-IsHint : (s : Bytes) → IsNumeral s → IsHint s
numeral-IsHint [] n = absurd n
numeral-IsHint (c ∷ s) n = (
  refl,
  (
    ground (arith, n.0),
    All-mono (λ b. is_digit b ≡ true) (λ b. is_digit b || (b == b'.') ≡ true) s (λ b e. rw (e) refl)
        n.1,
  ),
)

dotted-IsHint : (s t : Bytes) → IsHint s → IsHint t → IsHint (s ++ b'.' ∷ t)
dotted-IsHint [] t h k = absurd (cc (h.0))
dotted-IsHint (b ∷ s) t h k =
    (refl, All-append (λ c. is_digit c || (c == b'.') ≡ true) (b ∷ s) (b'.' ∷ t) h.1 (refl, k.1))

get_or-IsByte : (ip : Bytes) (i : ℕ) → IsBytes ip → get_or ip i 0 < 256
get_or-IsByte [] i h = omega arith
get_or-IsByte (b ∷ ip) zero h = h.0
get_or-IsByte (b ∷ ip) (suc i) h = get_or-IsByte ip i h.1

decimal-IsHint : (n : ℕ) → n < 256 → IsHint (decimal n)
decimal-IsHint n h = numeral-IsHint (decimal n) (decimal-IsNumeral n (omega (arith, h)))

v4_text-IsHint : (i : ℕ) (ip : Bytes) → IsBytes ip → IsHint (v4_text (v4_at i ip))
unfolding v4_text v4_at
v4_text-IsHint i ip h =
    let part = λ (j : ℕ). decimal-IsHint (get_or ip j 0) (get_or-IsByte ip j h) in
    let p3 = part (i + 3) in
    let p2 = dotted-IsHint (decimal (get_or ip (i + 2) 0)) _ (part (i + 2)) p3 in
    let p1 = dotted-IsHint (decimal (get_or ip (i + 1) 0)) _ (part (i + 1)) p2 in
    dotted-IsHint (decimal (get_or ip i 0)) _ (part i) p1

to4-IsHint : (ip : Bytes) (v : V4) → IsBytes ip → to4 ip ≡ some v → IsHint (v4_text v)
unfolding to4
to4-IsHint ip v h e = elim (Bool-cases (length ip == 4)) [
  | inl l ↦ let same : v ≡ v4_at 0 ip = ground (arith, e, l) in rw (same) (v4_text-IsHint 0 ip h)
  | inr l ↦ elim (Bool-cases ((length ip == 16) && has_bytes v4_in_v6 ip)) [
    | inl m ↦
        let same : v ≡ v4_at 12 ip = ground (arith, e, l, m) in rw (same) (v4_text-IsHint 12 ip h)
    | inr m ↦ absurd (ground (arith, e, l, m))
  ]
]

addr_loop-IsHint : (found : List NetAddr) → All IsNetAddr found → All IsHint (addr_loop found)
unfolding addr_loop
addr_loop-IsHint [] a = tt
addr_loop-IsHint (other_addr ∷ found) a = addr_loop-IsHint found a.1
addr_loop-IsHint (ip_net ip ∷ found) a =
    let rest = addr_loop-IsHint found a.1 in
    if_both (All IsHint) (is_loopback ip || is_link_local ip) (addr_loop found) _ rest
      (elim (Option-cases (to4 ip)) [
        | inl e ↦ rw (e) rest
        | inr (v, e) ↦ rw (e) (to4-IsHint ip v a.0 e, rest)
      ])

IsHint-IsBytes : (s : Bytes) → IsHint s → IsBytes s
IsHint-IsBytes s h =
    All-mono (λ b. is_digit b || (b == b'.') ≡ true) (λ b. b < 256) s (λ b e. ground (arith, e)) h.1

IsHint-Lacks : (s : Bytes) → IsHint s → Lacks b',' s
IsHint-Lacks s h =
    All-mono (λ b. is_digit b || (b == b'.') ≡ true) (λ b. (b == b',') ≡ false) s
      (λ b e. ground (arith, e)) h.1

join_not_empty :
    (s : Bytes) (ss : List Bytes) → is_empty s ≡ false → is_empty (join b',' (s ∷ ss)) ≡ false
unfolding join
join_not_empty s [] h = h
join_not_empty [] (t ∷ ts) h = absurd (cc)
join_not_empty (b ∷ s) (t ∷ ts) h = refl

addrs-IsHint :
    (found : Option (List NetAddr)) → All IsNetAddr (found_or found) → All IsHint (addrs found)
unfolding addrs
addrs-IsHint none a = tt
addrs-IsHint (some found) a = addr_loop-IsHint found a

IsHint-IsAddrs : (ss : List Bytes) → All IsHint ss → IsAddrs ss
unfolding join
IsHint-IsAddrs [] a = (tt, inl refl)
IsHint-IsAddrs (s ∷ ss) a =
    (All-mono IsHint (Lacks b',') (s ∷ ss) IsHint-Lacks a, inr (join_not_empty s ss a.0.0))

-- The addresses that Addrs finds can be carried by a QR payload as they are: a payload that is fit
-- to be read back stays so when it is given the machine's addresses, whatever its interfaces are.
pub machine_addrs_carried :
    (parser : UrlParser) (q : Qr) (found : Option (List NetAddr))
    → IsQr q
    → All IsNetAddr (found_or found)
    → parse_url parser (url (record q { addrs = addrs found }))
      ≡ ok (record q { addrs = addrs found })
machine_addrs_carried parser q found h a =
    let hints = addrs-IsHint found a in
    parse_url-url parser (record q { addrs = addrs found })
      (record {
        bytes = h.bytes;
        addr_bytes = All-mono IsHint IsBytes (addrs found) IsHint-IsBytes hints;
        host = h.host;
        pin = h.pin;
        window = h.window;
        number = h.number;
        is_port = h.is_port;
        positive = h.positive;
        small = h.small;
        is_addrs = IsHint-IsAddrs (addrs found) hints;
      })
