-- ===== src/Pairing/Qr/RoundTrip.antt =====
-- The URL of a QR payload is parsed back to it.
use rook_host.Base.{
  ℕ, ◌≡◌, ◌⊎◌, ◌<◌, ◌≤◌, refl, ◌∙◌, some, true, false, List, [], ◌∷◌, All, All-append, All-mono,
  if_both, if◌then◌else◌, arith, inl, inr,
}
use rook_host.Base.Bytes.{Bytes, codes, str_eq, str_eq_refl, is_empty}
use rook_host.Base.Int.{ℤ, pos, negsuc}
use rook_host.Base.Decimal.{decimal, itoa, atoi, is_digit}
use rook_host.Base.Decimal.RoundTrip.{IsNumeral, decimal-IsNumeral, atoi-decimal}
use rook_host.Base.Split.{join, split, Lacks, split-join}
use rook_host.Base.Result.{ok}
use rook_host.Pairing.Query.{Values, set, get, encode_values, parse_query}
use rook_host.Pairing.Query.RoundTrip.{
  IsBytes, IsQuery, set-IsQuery, parse_query-encode_values, encode_values-query_byte,
}
use rook_host.Pairing.Qr.Settings.{Gives, url_values-Gives}
use rook_host.Pairing.Qr.{
  Qr, UrlParser, port_refused, set_some, base_values, set_addrs, url_values, url, parse_values,
  parse_url,
}

-- Addresses without commas that are not one empty text.
abbrev pub IsAddrs : List Bytes → Type 0
IsAddrs addrs = All (Lacks b',') addrs × ((addrs ≡ []) ⊎ (is_empty (join b',' addrs) ≡ false))

addrs_back :
    (addrs : List Bytes)
    → IsAddrs addrs
    → (if is_empty (join b',' addrs) then [] else split b',' (join b',' addrs)) ≡ addrs
unfolding join
addrs_back [] a = refl
addrs_back (addr ∷ more) (l, inl e) = absurd (cc)
addrs_back (addr ∷ more) (l, inr e) = rw (e) (split-join b',' addr more l)

-- What a payload needs to be read back: bytes, the three required texts, a port, and such
-- addresses.
pub record IsQr (q : Qr) : Type 0 where
  pub bytes :
      IsBytes q.host_id
      × IsBytes q.trust_domain_id
      × IsBytes q.host_name
      × IsBytes q.spki_pin
      × IsBytes q.secret
  pub addr_bytes : All IsBytes q.addrs
  pub host : is_empty q.host_id ≡ false
  pub pin : is_empty q.spki_pin ≡ false
  pub window : is_empty q.secret ≡ false
  pub number : ℕ
  pub is_port : q.port ≡ pos number
  pub positive : 0 < number
  pub small : number ≤ 65535
  pub is_addrs : IsAddrs q.addrs

port_back : (p : ℤ) (n : ℕ) → p ≡ pos n → n ≤ 65535 → atoi (itoa p) ≡ some p
port_back (pos m) n e h = atoi-decimal m (ground (arith, e))
port_back (negsuc m) n e h = absurd (cc)

port_allowed : (p : ℤ) (n : ℕ) → p ≡ pos n → 0 < n → n ≤ 65535 → port_refused p ≡ false
port_allowed (pos m) n e l h = ground (arith, e)
port_allowed (negsuc m) n e l h = absurd (cc)

parse_values_given : (v : Values) (q : Qr) → IsQr q → Gives v q → parse_values v ≡ ok q
unfolding parse_values
parse_values_given v q h g =
    let one : str_eq (get (codes "v") v) (codes "1") ≡ true =
      rw (g.version) (str_eq_refl (codes "1")) in
    let p : atoi (get (codes "p") v) ≡ some q.port =
      rw (g.port) (port_back q.port h.number h.is_port h.small) in
    let r = port_allowed q.port h.number h.is_port h.positive h.small in
    rw
      (
        one,
        p,
        r,
        g.host_id,
        g.trust_domain_id,
        g.host_name,
        g.spki_pin,
        g.secret,
        g.addrs,
        h.host,
        h.pin,
        h.window,
        addrs_back q.addrs h.is_addrs,
      )
      refl

numeral_bytes : (s : Bytes) → IsNumeral s → IsBytes s
numeral_bytes [] n = tt
numeral_bytes (c ∷ s) n = (
  ground (arith, n.0),
  All-mono (λ d. is_digit d ≡ true) (λ d. d < 256) s (λ d e. ground (arith, e)) n.1,
)

IsBytes-itoa : (p : ℤ) (n : ℕ) → p ≡ pos n → n ≤ 65535 → IsBytes (itoa p)
IsBytes-itoa (negsuc m) n e h = absurd (cc)
IsBytes-itoa (pos m) n e h = numeral_bytes (decimal m) (decimal-IsNumeral m (ground (arith, e)))

IsBytes-join : (ss : List Bytes) → All IsBytes ss → IsBytes (join b',' ss)
unfolding join
IsBytes-join [] a = tt
IsBytes-join (s ∷ []) a = a.0
IsBytes-join (s ∷ t ∷ ts) a =
    All-append (λ b. b < 256) s (b',' ∷ join b',' (t ∷ ts)) a.0
      (omega arith, IsBytes-join (t ∷ ts) a.1)

set_some-IsQuery :
    (k v : Bytes) (vs : Values) → IsBytes k → IsBytes v → IsQuery vs → IsQuery (set_some k v vs)
unfolding set_some
set_some-IsQuery k v vs a b q =
    if_both IsQuery (is_empty v) vs (set k v vs) q (set-IsQuery k v vs a b q)

set_addrs-IsQuery :
    (addrs : List Bytes) (vs : Values)
    → All IsBytes addrs
    → IsQuery vs
    → IsQuery (set_addrs addrs vs)
unfolding set_addrs
set_addrs-IsQuery [] vs a q = q
set_addrs-IsQuery (addr ∷ more) vs a q =
    set-IsQuery (codes "a") (join b',' (addr ∷ more)) vs (ground arith)
      (IsBytes-join (addr ∷ more) a) q

url_values-IsQuery : (q : Qr) → IsQr q → IsQuery (url_values q)
unfolding url_values base_values
url_values-IsQuery q h =
    let (host, domain, name, pin, secret) = h.bytes in
    let v1 = set (codes "v") (codes "1") [] in
    let v2 = set (codes "hid") q.host_id v1 in
    let v3 = set_some (codes "td") q.trust_domain_id v2 in
    let v4 = set_some (codes "n") q.host_name v3 in
    let v5 = set (codes "spki") q.spki_pin v4 in
    let v6 = set (codes "s") q.secret v5 in
    let q1 = set-IsQuery (codes "v") (codes "1") [] (ground arith) (ground arith) tt in
    let q2 = set-IsQuery (codes "hid") q.host_id v1 (ground arith) host q1 in
    let q3 = set_some-IsQuery (codes "td") q.trust_domain_id v2 (ground arith) domain q2 in
    let q4 = set_some-IsQuery (codes "n") q.host_name v3 (ground arith) name q3 in
    let q5 = set-IsQuery (codes "spki") q.spki_pin v4 (ground arith) pin q4 in
    let q6 = set-IsQuery (codes "s") q.secret v5 (ground arith) secret q5 in
    let port = IsBytes-itoa q.port h.number h.is_port h.small in
    set_addrs-IsQuery q.addrs (base_values q) h.addr_bytes
      (set-IsQuery (codes "p") (itoa q.port) v6 (ground arith) port q6)

parse_found :
    (parser : UrlParser) (s query : Bytes)
    → parser.parse s
      ≡ some (record { scheme = codes "rook-link"; host = codes "pair"; raw_query = query })
    → parse_url parser s ≡ parse_values (parse_query query)
unfolding parse_url str_eq
parse_found parser s query e = rw (e, parse_url) refl

url-parse :
    (parser : UrlParser) (q : Qr)
    → IsQr q
    → parser.parse (url q)
      ≡ some (record {
        scheme = codes "rook-link";
        host = codes "pair";
        raw_query = encode_values (url_values q);
      })
unfolding url
url-parse parser q h =
    parser.parse-prefix (encode_values (url_values q))
      (encode_values-query_byte (url_values q) (url_values-IsQuery q h))

-- ParseURL reads back what URL composed, for a payload whose texts are any bytes, with a host id,
-- a pin and a secret that are not empty, a port from 1 to 65535, and addresses without commas that
-- are not a single empty one.
pub parse_url-url : (parser : UrlParser) (q : Qr) → IsQr q → parse_url parser (url q) ≡ ok q
parse_url-url parser q h =
    let query = encode_values (url_values q) in
    parse_found parser (url q) query (url-parse parser q h)
    ∙ rw (parse_query-encode_values (url_values q) (url_values-IsQuery q h))
        (parse_values_given (url_values q) q h (url_values-Gives q))
