-- ===== src/Pairing/Qr/Settings.antt =====
-- What the settings of a payload's URL hold.
use rook_host.Base.{◌≡◌, refl, ◌∙◌, false, not, ◌&&◌, List, [], ◌∷◌, if◌then◌else◌, arith}
use rook_host.Base.Bytes.{Bytes, codes, str_eq, is_empty}
use rook_host.Base.Decimal.{itoa}
use rook_host.Base.Split.{join}
use rook_host.Pairing.Query.{Values, set, get}
use rook_host.Pairing.Query.RoundTrip.{get-set}
use rook_host.Pairing.Qr.{Qr, set_some, base_values, set_addrs, url_values}

get-set_some :
    (i k v : Bytes) (vs : Values)
    → get i (set_some k v vs) ≡ (if str_eq k i && not (is_empty v) then v else get i vs)
unfolding set_some
get-set_some i k v vs = ground (arith, get-set i k v vs)

-- What a setting other than the addresses holds.
abbrev setting : Qr → Bytes → Bytes
setting q i =
    if str_eq (codes "p") i
    then itoa q.port
    else if str_eq (codes "s") i
    then q.secret
    else if str_eq (codes "spki") i
    then q.spki_pin
    else if str_eq (codes "n") i && not (is_empty q.host_name)
    then q.host_name
    else if str_eq (codes "td") i && not (is_empty q.trust_domain_id)
    then q.trust_domain_id
    else if str_eq (codes "hid") i
    then q.host_id
    else if str_eq (codes "v") i
    then codes "1"
    else []

get-base_values : (i : Bytes) (q : Qr) → get i (base_values q) ≡ setting q i
unfolding base_values get
get-base_values i q =
    let v1 = set (codes "v") (codes "1") [] in
    let v2 = set (codes "hid") q.host_id v1 in
    let v3 = set_some (codes "td") q.trust_domain_id v2 in
    let v4 = set_some (codes "n") q.host_name v3 in
    let v5 = set (codes "spki") q.spki_pin v4 in
    let v6 = set (codes "s") q.secret v5 in
    rw
      (
        get-set i (codes "p") (itoa q.port) v6,
        get-set i (codes "s") q.secret v5,
        get-set i (codes "spki") q.spki_pin v4,
        get-set_some i (codes "n") q.host_name v3,
        get-set_some i (codes "td") q.trust_domain_id v2,
        get-set i (codes "hid") q.host_id v1,
        get-set i (codes "v") (codes "1") [],
      )
      refl

get-set_addrs :
    (i : Bytes) (addrs : List Bytes) (vs : Values)
    → str_eq (codes "a") i ≡ false
    → get i (set_addrs addrs vs) ≡ get i vs
unfolding set_addrs
get-set_addrs i [] vs h = refl
get-set_addrs i (addr ∷ more) vs h = rw (get-set i (codes "a") (join b',' (addr ∷ more)) vs, h) refl

get_addrs :
    (addrs : List Bytes) (vs : Values)
    → get (codes "a") vs ≡ []
    → get (codes "a") (set_addrs addrs vs) ≡ join b',' addrs
unfolding set_addrs join str_eq
get_addrs [] vs h = h
get_addrs (addr ∷ more) vs h =
    rw (get-set (codes "a") (codes "a") (join b',' (addr ∷ more)) vs) refl

-- Settings that give the parts of a payload.
pub record Gives (v : Values) (q : Qr) : Type 0 where
  pub version : get (codes "v") v ≡ codes "1"
  pub host_id : get (codes "hid") v ≡ q.host_id
  pub trust_domain_id : get (codes "td") v ≡ q.trust_domain_id
  pub host_name : get (codes "n") v ≡ q.host_name
  pub spki_pin : get (codes "spki") v ≡ q.spki_pin
  pub secret : get (codes "s") v ≡ q.secret
  pub port : get (codes "p") v ≡ itoa q.port
  pub addrs : get (codes "a") v ≡ join b',' q.addrs

empty_or : (s : Bytes) → (if not (is_empty s) then s else []) ≡ s
empty_or [] = refl
empty_or (b ∷ s) = refl

get-url_values :
    (i : Bytes) (q : Qr) → str_eq (codes "a") i ≡ false → get i (url_values q) ≡ setting q i
unfolding url_values
get-url_values i q d = get-set_addrs i q.addrs (base_values q) d ∙ get-base_values i q

pub url_values-Gives : (q : Qr) → Gives (url_values q) q
unfolding url_values str_eq
url_values-Gives q = record {
  version = get-url_values (codes "v") q refl;
  host_id = get-url_values (codes "hid") q refl;
  trust_domain_id = get-url_values (codes "td") q refl ∙ empty_or q.trust_domain_id;
  host_name = get-url_values (codes "n") q refl ∙ empty_or q.host_name;
  spki_pin = get-url_values (codes "spki") q refl;
  secret = get-url_values (codes "s") q refl;
  port = get-url_values (codes "p") q refl;
  addrs = get_addrs q.addrs (base_values q) (get-base_values (codes "a") q);
}
