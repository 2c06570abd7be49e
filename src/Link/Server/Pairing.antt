-- ===== src/Link/Server/Pairing.antt =====
-- link/server.go: HostService, the handlers that a device calls before it has a session. Each
-- answers with a response or an error, and the server it leaves.
pub mod Enrolment
pub mod Sessions
use rook_host.Base.{Option, none, some, Bool, not, List, [], ◌∷◌, length, ◌==◌, if◌then◌else◌}
use rook_host.Base.Bytes.{Bytes, codes, str_eq}
use rook_host.Base.Time.{Time}
use rook_host.Base.Result.{Result, ok, err}
use rook_host.Crypto.{Crypto}
use rook_host.Identity.Ids.{device_id_for}
use rook_host.Identity.Sign.{verify_pair_proof, verify_auth}
use rook_host.Registry
use rook_host.Registry.Book.{Device, default_capabilities, revoked}
use rook_host.Registry.Storage.{JsonCodec}
use rook_host.Base.Disk.{Fault}
use rook_host.Pairing.Window.{open_now, redeem}
use rook_host.Link.Tokens
use rook_host.Link.Nonces
use rook_host.Link.Errors.{
  LinkError, wrong_protocol, bad_device_key, bad_proof, no_pairing_window, not_registered,
  unknown_or_revoked, no_random, bad_challenge, bad_challenge_signature,
}
use rook_host.Link.Server.Display.{clip_display}
use rook_host.Link.Server.{Server, Host, host_id, drop_sessions}

abbrev pub protocol_version : Bytes
protocol_version = codes "rook-link/1"

pub record HostInfo : Type 0 where
  pub host_id : Bytes
  pub host_name : Bytes
  pub trust_domain_id : Bytes
  pub protocol_versions : List Bytes
  pub pairing_open : Bool
  pub host_public_key : Bytes

pub record PairRequest : Type 0 where
  pub protocol_version : Bytes
  pub device_public_key : Bytes
  pub pairing_secret : Bytes
  pub proof : Bytes
  pub device_name : Bytes
  pub device_model : Bytes
  pub requested_capabilities : List Bytes

pub record PairResponse : Type 0 where
  pub device_id : Bytes
  pub host_id : Bytes
  pub trust_domain_id : Bytes
  pub host_public_key : Bytes
  pub granted_capabilities : List Bytes

pub record ChallengeResponse : Type 0 where
  pub nonce : Bytes
  pub expires_at : Time

pub record AuthRequest : Type 0 where
  pub device_id : Bytes
  pub nonce : Bytes
  pub signature : Bytes

pub record AuthResponse : Type 0 where
  pub session_token : Bytes
  pub expires_at : Time
  pub capabilities : List Bytes
  pub trust_domain_id : Bytes

-- `if len(caps) == 0 { caps = registry.DefaultCapabilities }`
abbrev pub requested : PairRequest → List Bytes
requested m =
    if length m.requested_capabilities == 0 then default_capabilities else m.requested_capabilities

-- granted.Capabilities, of the zero Device where there is none.
abbrev pub capabilities_of : Option Device → List Bytes
capabilities_of none = []
capabilities_of (some d) = d.capabilities

module _ (crypto : Crypto) (json : JsonCodec) (host : Host) where
  -- GetHostInfo
  unfoldable pub get_host_info : Server → Time → HostInfo
  get_host_info s now = record {
    host_id = host_id crypto json host;
    host_name = host.host_name;
    trust_domain_id = host.trust_domain_id;
    protocol_versions = protocol_version ∷ [];
    pairing_open = open_now s.pairs now;
    host_public_key = host.public_key;
  }

  -- The Device that Pair registers.
  abbrev pub new_device : PairRequest → Time → Device
  new_device m now = record {
    id = device_id_for crypto m.device_public_key;
    name = clip_display m.device_name;
    model = clip_display m.device_model;
    public_key = m.device_public_key;
    capabilities = requested m;
    paired_at = now;
    last_seen_at = 0;
    revoked_at = none;
  }

  -- Pair, once the secret is redeemed.
  unfoldable pub register :
      Server → PairRequest → Time → Fault → Result LinkError PairResponse × Server
  unfolding drop_sessions
  register s m now fault =
      let d = new_device m now in
      let (result, reg') = Registry.add json s.reg d fault in
      elim result [
        | err e ↦ (err (not_registered e), record s { reg = reg' })
        | ok _ ↦ (
          ok (record {
            device_id = d.id;
            host_id = host_id crypto json host;
            trust_domain_id = host.trust_domain_id;
            host_public_key = host.public_key;
            granted_capabilities = capabilities_of (Registry.get reg' d.id);
          }),
          drop_sessions (record s { reg = reg' }) d.id,
        )
      ]

  -- Pair, once the proof is verified.
  unfoldable pub redeem_and_register :
      Server → PairRequest → Time → Time → Fault → Result LinkError PairResponse × Server
  unfolding register
  redeem_and_register s m redeemed_at paired_at fault =
      let (redeemed, pairs') = redeem s.pairs m.pairing_secret redeemed_at in
      if redeemed
      then register (record s { pairs = pairs' }) m paired_at fault
      else (err no_pairing_window, record s { pairs = pairs' })

  -- Pair
  unfoldable pub pair :
      Server → PairRequest → Time → Time → Fault → Result LinkError PairResponse × Server
  unfolding redeem_and_register
  pair s m redeemed_at paired_at fault =
      if not (str_eq m.protocol_version protocol_version)
      then (err wrong_protocol, s)
      else if not (length m.device_public_key == 32)
      then (err bad_device_key, s)
      else if not (
          verify_pair_proof crypto m.device_public_key (host_id crypto json host) m.pairing_secret
            m.proof)
      then (err bad_proof, s)
      else redeem_and_register s m redeemed_at paired_at fault

  -- `d, ok := s.reg.Get(id)` and the refusal `!ok || d.Revoked()`.
  abbrev pub live_device : Server → Bytes → Option Device
  live_device s id = elim (Registry.get s.reg id) [
    | none ↦ none
    | some d ↦ if revoked d then none else some d
  ]

  -- Challenge
  unfoldable pub challenge :
      Server → Bytes → Option Bytes → Time → Result LinkError ChallengeResponse × Server
  challenge s id raw now = elim (live_device s id) [
    | none ↦ (err unknown_or_revoked, s)
    | some d ↦
        let (minted, nonces') = Nonces.mint s.nonces raw d.id now in
        elim minted [
          | none ↦ (err no_random, record s { nonces = nonces' })
          | some (n, exp) ↦
              (ok (record { nonce = n; expires_at = exp }), record s { nonces = nonces' })
        ]
  ]

  -- Authenticate, once the challenge is answered: mint the token, then touch the device.
  unfoldable pub open_session :
      Server → Device → Option Bytes → Time → Time → Fault → Result LinkError AuthResponse × Server
  open_session s d raw minted_at touched_at fault =
      let (minted, tokens') = Tokens.mint s.tokens raw d.id minted_at in
      elim minted [
        | none ↦ (err no_random, record s { tokens = tokens' })
        | some (tok, exp) ↦ (
          ok (record {
            session_token = tok;
            expires_at = exp;
            capabilities = d.capabilities;
            trust_domain_id = host.trust_domain_id;
          }),
          record s { tokens = tokens'; reg = Registry.touch json s.reg d.id touched_at fault },
        )
      ]

  -- Authenticate
  unfoldable pub authenticate :
      Server
      → AuthRequest
      → Option Bytes
      → Time
      → Time
      → Time
      → Fault
      → Result LinkError AuthResponse × Server
  unfolding open_session
  authenticate s m raw consumed_at minted_at touched_at fault = elim (live_device s m.device_id) [
    | none ↦ (err unknown_or_revoked, s)
    | some d ↦
        let (live, nonces') = Nonces.consume s.nonces m.nonce d.id consumed_at in
        let s' = record s { nonces = nonces' } in
        if not live
        then (err bad_challenge, s')
        else if not
            (verify_auth crypto d.public_key (host_id crypto json host) d.id m.nonce m.signature)
        then (err bad_challenge_signature, s')
        else open_session s' d raw minted_at touched_at fault
  ]
