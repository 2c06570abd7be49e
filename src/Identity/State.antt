-- ===== src/Identity/State.antt =====
-- identity/identity.go: the identity, its state file and LoadOrCreate. Randomness and clock
-- readings are in Draws; the standard library's key, certificate and encoding functions are in
-- Platform.
pub mod Durable
use rook_host.Base.{
  ℕ, ◌+◌, ◌-◌, ◌*◌, ◌≡◌, Option, none, some, Bool, true, false, not, ◌||◌, List, [], ◌∷◌, length,
  if◌then◌else◌, ◌==◌,
}
use rook_host.Base.Bytes.{Bytes, codes, is_empty}
use rook_host.Base.Time.{Time, second}
use rook_host.Base.Result.{Result, ok, err, ◌>>=◌, ◌>>◌, require}
use rook_host.Base.Disk.{Disk, Fault, no_fault, mkdir_fault, write_fault, rename_fault}
use rook_host.Base.Base64.{encode}
use rook_host.Crypto.{Crypto}
use rook_host.Identity.Ids.{host_id_for}
use rook_host.Identity.Uuid.{Bytes16, random_uuid}

-- tls.Certificate: the chain in DER, and the private key.
pub record TlsCertificate : Type 0 where
  pub certificate : List Bytes
  pub private_key : Bytes

pub record Identity : Type 0 where
  pub key : Bytes
  pub tls_cert : TlsCertificate
  pub trust_domain_id : Bytes

pub record StateFile : Type 0 where
  pub version : ℕ
  pub host_id : Bytes
  pub host_seed : Bytes
  pub tls_cert_pem : Bytes
  pub tls_key_pem : Bytes
  pub trust_domain_id : Bytes
  pub created_at : Time

-- What selfSignedTLS sets in x509.Certificate; the key usages are fixed. NotAfter is NotBefore's
-- clock reading ten calendar years on, which the platform computes.
pub record Template : Type 0 where
  pub serial_number : ℕ
  pub common_name : Bytes
  pub dns_names : List Bytes
  pub not_before : Time
  pub not_after : Time

-- What crypto/rand and the clock give to one creation; `none` where reading randomness fails.
pub record Draws : Type 0 where
  pub host_entropy : Option Bytes
  pub ec_entropy : Option Bytes
  pub serial : Option ℕ
  pub signing : Bytes
  pub uuid : Option Bytes16
  pub now : Time
  pub created : Time

pub data StateError : Type 0 where
  not_json malformed_seed bad_keypair no_trust_domain read_failed : StateError
  no_entropy certificate_failed key_failed : StateError
  marshal_failed mkdir_failed write_failed rename_failed : StateError
  no_certificate unparsed_certificate : StateError

-- The standard library. The laws: a JSON codec reads back a file whose texts are valid UTF-8 and
-- whose time is in range (`Faithful`), base64 decodes what it encoded, and a generated Ed25519 key
-- is the key of its own 32-byte seed.
pub record Platform : Type 1 where
  pub marshal : StateFile → Option Bytes
  pub unmarshal : Bytes → Option StateFile
  pub encode64 : Bytes → Bytes
  pub decode64 : Bytes → Option Bytes
  pub generate_key : Bytes → Bytes
  pub key_from_seed : Bytes → Bytes
  pub seed : Bytes → Bytes
  pub generate_ec : Bytes → Bytes
  pub marshal_ec : Bytes → Option Bytes
  pub create_certificate : Bytes → Template → Bytes → Option Bytes
  pub add_years : Time → ℕ → Time
  pub pem : Bytes → Bytes → Bytes
  pub x509_key_pair : Bytes → Bytes → Option TlsCertificate
  -- The RawSubjectPublicKeyInfo of a certificate that parses.
  pub raw_spki : Bytes → Option Bytes
  pub Faithful : StateFile → Type 0
  pub unmarshal-marshal :
      (f : StateFile) (raw : Bytes) → Faithful f → marshal f ≡ some raw → unmarshal raw ≡ some f
  pub decode64-encode64 : (s : Bytes) → decode64 (encode64 s) ≡ some s
  pub key_from_seed-seed :
      (entropy : Bytes) → key_from_seed (seed (generate_key entropy)) ≡ generate_key entropy
  pub length-seed : (entropy : Bytes) → length (seed (generate_key entropy)) ≡ 32

-- `v, err := ...; if err != nil { return nil, err }`
abbrev pub need {ℓ} : {A : Type ℓ} → StateError → Option A → Result StateError A
need e none = err e
need e (some a) = ok a

module _ (crypto : Crypto) (platform : Platform) where
  -- PinSPKI
  unfoldable pub pin_spki : Bytes → Bytes
  pin_spki spki = encode (crypto.sha256 spki)

  -- SPKIPin
  unfoldable pub spki_pin : Identity → Result StateError Bytes
  unfolding pin_spki
  spki_pin id = elim id.tls_cert.certificate [
    | [] ↦ err no_certificate
    | leaf ∷ chain ↦
        need unparsed_certificate (platform.raw_spki leaf) >>= λ spki. ok (pin_spki spki)
  ]

  -- load
  unfoldable pub load : Bytes → Result StateError Identity
  load raw = need not_json (platform.unmarshal raw) >>= λ f.
      (need malformed_seed (platform.decode64 f.host_seed) >>= λ seed.
      (require (length seed == 32) malformed_seed
        >> (need bad_keypair (platform.x509_key_pair f.tls_cert_pem f.tls_key_pem) >>= λ cert.
            (require (not (is_empty f.trust_domain_id)) no_trust_domain
              >> ok (record {
                key = platform.key_from_seed seed;
                tls_cert = cert;
                trust_domain_id = f.trust_domain_id;
              })))))

  -- selfSignedTLS
  unfoldable pub self_signed_tls : Bytes → Draws → Result StateError (Bytes × Bytes)
  self_signed_tls host_id draws = need no_entropy draws.ec_entropy >>= λ entropy.
      (need no_entropy draws.serial >>= λ serial.
      let key = platform.generate_ec entropy in
      let template : Template = record {
        serial_number = serial;
        common_name = host_id;
        dns_names = host_id ∷ [];
        not_before = draws.now - 3600 * second;
        not_after = platform.add_years draws.now 10;
      } in
      (need certificate_failed (platform.create_certificate draws.signing template key) >>= λ der.
      (need key_failed (platform.marshal_ec key) >>= λ key_der.
      ok (platform.pem (codes "CERTIFICATE") der, platform.pem (codes "EC PRIVATE KEY") key_der))))

  -- The part of create that makes the identity and its file.
  unfoldable pub mint : Draws → Result StateError (StateFile × Identity)
  mint draws = need no_entropy draws.host_entropy >>= λ entropy.
      let key = platform.generate_key entropy in
      let host_id = host_id_for crypto (crypto.public_key key) in
      (self_signed_tls host_id draws >>= λ pems.
      (need bad_keypair (platform.x509_key_pair pems.0 pems.1) >>= λ cert.
      (need no_entropy draws.uuid >>= λ bytes.
      let domain = random_uuid bytes in
      ok (
        record {
          version = 1;
          host_id = host_id;
          host_seed = platform.encode64 (platform.seed key);
          tls_cert_pem = pems.0;
          tls_key_pem = pems.1;
          trust_domain_id = domain;
          created_at = draws.created;
        },
        record { key = key; tls_cert = cert; trust_domain_id = domain },
      ))))

  -- The part of create that writes the file: beside it, then renamed over it.
  unfoldable pub store : StateFile → Identity → Fault → Disk → Result StateError Identity × Disk
  store f id fault disk = elim (platform.marshal f) [
    | none ↦ (err marshal_failed, disk)
    | some raw ↦ elim fault [
      | mkdir_fault ↦ (err mkdir_failed, disk)
      | write_fault partial ↦ (err write_failed, record disk { tmp = some partial })
      | rename_fault ↦ (err rename_failed, record disk { tmp = some raw })
      | no_fault ↦ (ok id, record { file = some raw; tmp = none })
    ]
  ]

  -- create
  unfoldable pub create : Draws → Fault → Disk → Result StateError Identity × Disk
  create draws fault disk = elim (mint draws) [
    | err e ↦ (err e, disk)
    | ok (f, id) ↦ store f id fault disk
  ]

  -- The switch of LoadOrCreate on what reading the file gave; `readable` says whether reading an
  -- existing file succeeds.
  unfoldable pub load_read :
      Option Bytes → Draws → Fault → Bool → Disk → Result StateError Identity × Disk
  load_read none draws fault readable disk = create draws fault disk
  load_read (some raw) draws fault readable disk =
      ((if readable then load raw else err read_failed), disk)

  -- LoadOrCreate
  unfoldable pub load_or_create : Draws → Fault → Bool → Disk → Result StateError Identity × Disk
  unfolding load_read
  load_or_create draws fault readable disk = load_read disk.file draws fault readable disk
