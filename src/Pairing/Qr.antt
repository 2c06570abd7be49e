-- ===== src/Pairing/Qr.antt =====
-- pairing/pairing.go: the QR payload, the URL that carries it, and its parser. url.Parse is an
-- interface.
pub mod Settings
pub mod RoundTrip
use rook_host.Base.{
  ℕ, ◌≡◌, Option, none, some, Bool, true, false, not, ◌&&◌, ◌||◌, List, [], ◌∷◌, ◌++◌, All, ltb,
  if◌then◌else◌,
}
use rook_host.Base.Bytes.{Bytes, codes, str_eq, is_empty}
use rook_host.Base.Int.{ℤ, pos, negsuc, exceeds}
use rook_host.Base.Decimal.{itoa, atoi}
use rook_host.Base.Split.{join, split}
use rook_host.Base.Result.{Result, ok, err, ◌>>=◌, ◌>>◌, require}
use rook_host.Pairing.Query.{Values, set, get, encode_values, parse_query}
use rook_host.Pairing.Query.RoundTrip.{query_byte}

pub record Qr : Type 0 where
  pub host_id : Bytes
  pub trust_domain_id : Bytes
  pub host_name : Bytes
  pub spki_pin : Bytes
  pub secret : Bytes
  pub port : ℤ
  pub addrs : List Bytes

abbrev pub pair_prefix : Bytes
pair_prefix = codes "rook-link://pair?"

-- What ParseURL reads of a url.URL.
pub record Url : Type 0 where
  pub scheme : Bytes
  pub host : Bytes
  pub raw_query : Bytes

-- url.Parse. The law: behind the prefix, the bytes of an encoded query are the raw query.
pub record UrlParser : Type 0 where
  pub parse : Bytes → Option Url
  pub parse-prefix :
      (query : Bytes)
      → All (λ b. query_byte b ≡ true) query
      → parse (pair_prefix ++ query)
        ≡ some (record { scheme = codes "rook-link"; host = codes "pair"; raw_query = query })

pub data QrError : Type 0 where
  bad_url not_pair_url unknown_version bad_port missing : QrError

-- `if value != "" { v.Set(key, value) }`
unfoldable pub set_some : Bytes → Bytes → Values → Values
unfolding set
set_some k v vs = if is_empty v then vs else set k v vs

-- The settings of URL before the addresses.
unfoldable pub base_values : Qr → Values
unfolding set_some
base_values q =
    let v1 = set (codes "v") (codes "1") [] in
    let v2 = set (codes "hid") q.host_id v1 in
    let v3 = set_some (codes "td") q.trust_domain_id v2 in
    let v4 = set_some (codes "n") q.host_name v3 in
    let v5 = set (codes "spki") q.spki_pin v4 in
    let v6 = set (codes "s") q.secret v5 in set (codes "p") (itoa q.port) v6

-- `if len(q.Addrs) > 0`
unfoldable pub set_addrs : List Bytes → Values → Values
unfolding set join
set_addrs [] vs = vs
set_addrs (addr ∷ more) vs = set (codes "a") (join b',' (addr ∷ more)) vs

-- The settings of URL.
unfoldable pub url_values : Qr → Values
unfolding base_values set_addrs
url_values q = set_addrs q.addrs (base_values q)

-- URL
unfoldable pub url : Qr → Bytes
unfolding url_values encode_values
url q = pair_prefix ++ encode_values (url_values q)

-- `port <= 0 || port > 65535`
abbrev pub port_refused : ℤ → Bool
port_refused (pos n) = not (ltb 0 n) || ltb 65535 n
port_refused (negsuc n) = true

-- The part of ParseURL that reads the query.
unfoldable pub parse_values : Values → Result QrError Qr
unfolding get split
parse_values v =
    require (str_eq (get (codes "v") v) (codes "1")) unknown_version
    >> (elim (atoi (get (codes "p") v)) [ none ↦ err bad_port | some port ↦ ok port ] >>= λ port.
        (require (not (port_refused port)) bad_port
          >> (let a = get (codes "a") v in
              let q : Qr = record {
                host_id = get (codes "hid") v;
                trust_domain_id = get (codes "td") v;
                host_name = get (codes "n") v;
                spki_pin = get (codes "spki") v;
                secret = get (codes "s") v;
                port = port;
                addrs = if is_empty a then [] else split b',' a;
              } in
              require (not (is_empty q.host_id || is_empty q.spki_pin || is_empty q.secret)) missing
              >> ok q)))

module _ (parser : UrlParser) where
  -- ParseURL
  unfoldable pub parse_url : Bytes → Result QrError Qr
  unfolding parse_values parse_query
  parse_url s = elim (parser.parse s) [
    | none ↦ err bad_url
    | some u ↦
        require (str_eq u.scheme (codes "rook-link") && str_eq u.host (codes "pair")) not_pair_url
        >> parse_values (parse_query u.raw_query)
  ]
