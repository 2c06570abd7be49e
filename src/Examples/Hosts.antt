-- ===== src/Examples/Hosts.antt =====
-- The identity's state file, the QR payload and the advertisement.
use rook_host.Base.{List, ◌≡◌, refl, ap, drop, none, some, true, [], ◌∷◌, arith, inr, length}
use rook_host.Base.Bytes.{codes}
use rook_host.Base.Int.{pos}
use rook_host.Base.Decimal.{decimal}
use rook_host.Base.Split.{join}
use rook_host.Base.Disk.{Disk, no_fault, rename_fault}
use rook_host.Base.Result.{ok}
use rook_host.Crypto.{toy_crypto}
use rook_host.Crypto.Toy.{fit, length-fit}
use rook_host.Identity.Ids.{host_id_for}
use rook_host.Identity.Uuid.{Bytes16, random_uuid, hex}
use rook_host.Identity.State.{
  Identity, StateFile, Draws, Platform, self_signed_tls, mint, store, create, load_read,
  load_or_create,
}
use rook_host.Identity.State.Durable.{load_or_create_durable}
use rook_host.Pairing.Qr.{Qr, UrlParser, pair_prefix, url, parse_url}
use rook_host.Pairing.Qr.RoundTrip.{IsQr, parse_url-url}
use rook_host.Transport.{NetAddr, ip_net, other_addr, addrs}

abbrev sixteen : Bytes16
sixteen = record {
  b0 = 1;
  b1 = 2;
  b2 = 3;
  b3 = 4;
  b4 = 5;
  b5 = 6;
  b6 = 7;
  b7 = 8;
  b8 = 9;
  b9 = 10;
  b10 = 11;
  b11 = 12;
  b12 = 13;
  b13 = 14;
  b14 = 15;
  b15 = 255;
}

-- The version and the variant of a UUID stand at their places.
uuid : random_uuid sixteen ≡ codes "01020304-0506-4708-890a-0b0c0d0e0fff"
unfolding random_uuid hex
uuid = refl

abbrev draws : Draws
draws = record {
  host_entropy = some (codes "e");
  ec_entropy = some (codes "f");
  serial = some 5;
  signing = [];
  uuid = some sixteen;
  now = 100;
  created = 101;
}

-- The file that these draws make.
abbrev made : StateFile
made = record {
  version = 1;
  host_id = host_id_for toy_crypto (fit 32 (codes "e"));
  host_seed = fit 32 (codes "e");
  tls_cert_pem = host_id_for toy_crypto (fit 32 (codes "e"));
  tls_key_pem = codes "f";
  trust_domain_id = random_uuid sixteen;
  created_at = 101;
}

-- A platform whose JSON codec knows that file.
abbrev platform : Platform
platform = record {
  marshal = λ f. some [];
  unmarshal = λ raw. some made;
  encode64 = λ s. s;
  decode64 = λ s. some s;
  generate_key = λ s. fit 32 s;
  key_from_seed = λ s. s;
  seed = λ s. s;
  generate_ec = λ s. s;
  marshal_ec = λ s. some s;
  create_certificate = λ signing t key. some t.common_name;
  add_years = λ t n. t;
  pem = λ type der. der;
  x509_key_pair = λ cert key. some (record { certificate = cert ∷ []; private_key = key });
  raw_spki = λ der. some der;
  Faithful = λ f. made ≡ f;
  unmarshal-marshal = λ f raw same written. ap some same;
  decode64-encode64 = λ s. refl;
  key_from_seed-seed = λ s. refl;
  length-seed = λ s. length-fit 32 s;
}

abbrev host : Identity
host = record {
  key = fit 32 (codes "e");
  tls_cert = record { certificate = made.tls_cert_pem ∷ []; private_key = codes "f" };
  trust_domain_id = random_uuid sixteen;
}

minted : mint toy_crypto platform draws ≡ ok (made, host)
unfolding mint self_signed_tls
minted = refl

abbrev no_file : Disk
no_file = record { file = none; tmp = none }

created : (load_or_create toy_crypto platform draws no_fault true no_file).0 ≡ ok host
unfolding load_or_create load_read create store mint self_signed_tls
created = refl

faithful : (f : StateFile) (i : Identity) → mint toy_crypto platform draws ≡ ok (f, i) → made ≡ f
faithful f i h = ground (arith, h, minted)

load_or_create_durable_example :
    let disk = (load_or_create toy_crypto platform draws no_fault true no_file).1 in
    load_or_create toy_crypto platform draws rename_fault true disk ≡ (ok host, disk)
load_or_create_durable_example =
    load_or_create_durable toy_crypto platform draws draws no_fault rename_fault true no_file host
      faithful created

-- A parser of the URLs of this scheme.
abbrev parser : UrlParser
parser = record {
  parse = λ s. some (record {
    scheme = codes "rook-link";
    host = codes "pair";
    raw_query = drop (length pair_prefix) s;
  });
  parse-prefix = λ query h. refl;
}

abbrev payload : Qr
payload = record {
  host_id = codes "h";
  trust_domain_id = [];
  host_name = codes "my mac & more";
  spki_pin = codes "p=";
  secret = codes "s%1";
  port = pos 7777;
  addrs = codes "10.0.0.1:7777" ∷ codes "[::1]:7777" ∷ [];
}

composed :
    url payload
    ≡ codes
        "rook-link://pair?a=10.0.0.1%3A7777%2C%5B%3A%3A1%5D%3A7777&hid=h&n=my+mac+%26+more&p=7777&s=s%251&spki=p%3D&v=1"
unfolding url decimal
composed = refl

payload-IsQr : IsQr payload
unfolding join
payload-IsQr = record {
  bytes = ground arith;
  addr_bytes = ground arith;
  host = refl;
  pin = refl;
  window = refl;
  number = 7777;
  is_port = refl;
  positive = omega arith;
  small = omega arith;
  is_addrs = (ground arith, inr refl);
}

parse_url-url_example : parse_url parser (url payload) ≡ ok payload
parse_url-url_example = parse_url-url parser payload payload-IsQr

-- A loopback address, one on the network, and one in IPv6 form.
abbrev interfaces : List NetAddr
interfaces =
    ip_net (127 ∷ 0 ∷ 0 ∷ 1 ∷ [])
    ∷ ip_net (192 ∷ 168 ∷ 1 ∷ 20 ∷ [])
    ∷ ip_net (0 ∷ 0 ∷ 0 ∷ 0 ∷ 0 ∷ 0 ∷ 0 ∷ 0 ∷ 0 ∷ 0 ∷ 255 ∷ 255 ∷ 10 ∷ 0 ∷ 0 ∷ 7 ∷ [])
    ∷ ip_net (254 ∷ 128 ∷ 0 ∷ 0 ∷ 0 ∷ 0 ∷ 0 ∷ 0 ∷ 0 ∷ 0 ∷ 0 ∷ 0 ∷ 0 ∷ 0 ∷ 0 ∷ 9 ∷ [])
    ∷ other_addr
    ∷ []

found_addrs : addrs (some interfaces) ≡ codes "192.168.1.20" ∷ codes "10.0.0.7" ∷ []
unfolding addrs decimal
found_addrs = refl
