-- ===== src/Bonjour.antt =====
-- bonjour/: an advertisement, its TXT record, and what each of the two implementations registers. The
-- system daemon and the responder package are arguments.
pub mod Txt
pub mod Advertised
use rook_host.Base.{
  ℕ, ◌+◌, ◌*◌, ◌/◌, ◌%◌, ◌==◌, Bool, not, Option, none, some, List, [], ◌∷◌, ◌++◌, length, ltb,
  if◌then◌else◌,
}
use rook_host.Base.Bytes.{Bytes, codes}
use rook_host.Base.Map.{Map, empty, insert}
use rook_host.Base.Result.{Result, ok, err, ◌>>=◌}

pub record Info : Type 0 where
  pub name : Bytes
  pub port : ℕ
  pub host_id : Bytes
  pub trust_domain_id : Bytes
  pub protocol_version : Bytes

-- txt
unfoldable pub txt : Info → Map Bytes
txt i = insert (codes "v") (codes "1") (
    insert (codes "hid") i.host_id
      (insert (codes "td") i.trust_domain_id (insert (codes "pv") i.protocol_version empty)))

-- kv[k]: a missing key gives the empty string.
abbrev pub value_or_empty : Option Bytes → Bytes
value_or_empty none = []
value_or_empty (some v) = v

-- `k + "=" + kv[k]`
abbrev pub entry : Map Bytes → Bytes → Bytes
entry kv k = k ++ b'=' ∷ value_or_empty (kv k)

-- The loop of txtRecord over the keys; the error names the key of an entry over 255 bytes.
unfoldable pub txt_loop : Map Bytes → List Bytes → Bytes → Result Bytes Bytes
txt_loop kv [] out = ok out
txt_loop kv (k ∷ ks) out =
    let rest = txt_loop kv ks (out ++ length (entry kv k) % 256 ∷ entry kv k) in
    if ltb 255 (length (entry kv k)) then err k else rest

abbrev pub txt_keys : List Bytes
txt_keys = codes "v" ∷ codes "hid" ∷ codes "td" ∷ codes "pv" ∷ []

-- txtRecord
unfoldable pub txt_record : Map Bytes → Result Bytes Bytes
unfolding txt_loop
txt_record kv = txt_loop kv txt_keys []

-- `((info.Port & 0xff) << 8) | ((info.Port >> 8) & 0xff)`, of which the uint16 is taken
unfoldable pub network_port : ℕ → ℕ
network_port port = (port % 256 * 256 + port / 256 % 256) % 65536

-- Why Advertise fails: an entry over 255 bytes, the panic of `&txt[0]`, the daemon's code, or the
-- three calls of the responder package.
pub data AdvertiseError : Type 0 where
  long_entry : Bytes → AdvertiseError
  empty_record : AdvertiseError
  register_failed : ℕ → AdvertiseError
  service_failed responder_failed add_failed : AdvertiseError

-- The arguments of DNSServiceRegister that vary: the name, the type, the port in network byte
-- order, and the TXT record with its uint16 length.
pub record Registration : Type 0 where
  pub name : Bytes
  pub service_type : Bytes
  pub port : ℕ
  pub txt_length : ℕ
  pub txt_record : Bytes

-- Advertise on darwin with cgo. The daemon answers a registration with a code, 0 for no error.
unfoldable pub advertise_system : (Registration → ℕ) → Info → Result AdvertiseError Registration
unfolding txt txt_record network_port
advertise_system daemon i = elim (txt_record (txt i)) [
  | err k ↦ err (long_entry k)
  | ok out ↦
      let r : Registration = record {
        name = i.name;
        service_type = codes "_rook-link._tcp";
        port = network_port i.port;
        txt_length = length out % 65536;
        txt_record = out;
      } in
      elim out [
        | [] ↦ err empty_record
        | b ∷ rest ↦ if daemon r == 0 then ok r else err (register_failed (daemon r))
      ]
]

abbrev pub service_type : Bytes
service_type = codes "_rook-link._tcp."

-- dnssd.Config
pub record Config : Type 0 where
  pub name : Bytes
  pub service_type : Bytes
  pub text : Map Bytes
  pub port : ℕ

-- What the responder package is asked, and whether each call succeeds.
pub record Responder : Type 0 where
  pub new_service : Config → Bool
  pub new_responder : Bool
  pub add : Config → Bool

-- Advertise elsewhere.
unfoldable pub advertise_dnssd : Responder → Info → Result AdvertiseError Config
unfolding txt
advertise_dnssd p i =
    let c : Config = record {
      name = i.name;
      service_type = service_type;
      text = txt i;
      port = i.port;
    } in
    if not (p.new_service c)
    then err service_failed
    else if not p.new_responder
    then err responder_failed
    else if not (p.add c)
    then err add_failed
    else ok c
