-- ===== src/Examples/Servers.antt =====
-- A host with one paired phone, which has a session.
use rook_host.Base.{◌≡◌, ◌≢◌, ◌⊎◌, ◌↔◌, ◌+◌, ◌++◌, refl, true, false, none, some, [], ◌∷◌}
use rook_host.Base.Bytes.{Bytes, codes, str_eq, has_prefix, trim_prefix}
use rook_host.Base.Base64.{encode}
use rook_host.Base.Map.{empty, insert}
use rook_host.Base.Time.{before, Time}
use rook_host.Base.Result.{ok, err}
use rook_host.Crypto.{toy_crypto}
use rook_host.Registry.{get, allowed}
use rook_host.Registry.Book.{Device, cap_agent_command, revoked, find}
use rook_host.Registry.Storage.{JsonCodec, RegistryError, device_revoked}
use rook_host.Base.Disk.{no_fault}
use rook_host.Projection.Command.{ProjectionError, Command, valid_command}
use rook_host.Link.Wire.{CommandKind}
use rook_host.Link.Convert.Enums.{Disposition, kind_from_proto}
use rook_host.Link.Errors.{LinkError, code_of, bad_token, invalid_argument}
use rook_host.Link.Server.Session.Codes.{IsTurnedAway, submit_command-codes}
use rook_host.Link.Hub.{new_hub}
use rook_host.Link.Tokens.{token_ttl, mint, resolve}
use rook_host.Link.Nonces.{consume}
use rook_host.Link.Server.{Server, Host, revoke_device, execute, host_id}
use rook_host.Link.Server.Session.{
  authorize, submit_command, CommandRequest, CommandResponse, bearer_prefix,
}
use rook_host.Link.Server.Session.Effects.{IsSanctioned, submit_command-authorized}
use rook_host.Link.Server.Revocation.{IsCutOff, revoke_device-IsCutOff}
use rook_host.Link.Server.Pairing.{PairRequest, pair, AuthRequest, AuthResponse, authenticate}
use rook_host.Link.Server.Pairing.Enrolment.{IsRefusal, IsEnrolment, pair-enrols}
use rook_host.Link.Server.Pairing.Sessions.{authenticate-opens}
use rook_host.Identity.Sign.{
  sign_pair_proof, sign_auth, verify_auth, auth_bytes, canonical, append_fields,
}
use rook_host.Identity.Ids.{host_id_for}
use rook_host.Edgesign.Canonical.{u64}
use rook_host.Examples.Codecs.{one_file}
use rook_host.Examples.Data.{phone, key}

abbrev pub json : JsonCodec
json = one_file (record { version = 1; devices = phone ∷ [] })

abbrev pub host : Host
host = record {
  public_key = key 9;
  trust_domain_id = codes "td";
  host_name = codes "mac";
  has_panes = true;
  exec = λ past e. record { disposition = Disposition.delivered; note = [] };
  digests = none;
}

-- The window's secret is "abc", the phone's nonce is 7, its token "tok".
abbrev pub server : Server
server = record {
  reg = record { devices = phone ∷ []; disk = record { file = none; tmp = none } };
  pairs = record { secret = codes "abc"; expires = 100 };
  hub = new_hub;
  panes = [];
  tokens = insert (codes "tok") (record { device_id = codes "phone"; expires = 90 }) empty;
  nonces = insert (encode (7 ∷ [])) (record { device_id = codes "phone"; expires = 60 }) empty;
  effects = [];
}

abbrev pub header : Bytes
header = codes "Bearer link-tok"

abbrev pub compact_request : CommandRequest
compact_request = record {
  kind = CommandKind.compact;
  session_id = codes "s1";
  workspace = [];
  prompt = [];
}

submit_command-authorized_example :
    (let (result, s') = submit_command json host server header compact_request 50 51 52 no_fault in
      ((e : LinkError) × (result ≡ err e) × (s'.effects ≡ server.effects))
      ⊎ ((r : CommandResponse) × (id : Bytes) × (c : Command) × (result ≡ ok r)
          × IsSanctioned server header cap_agent_command 50 id
          × (valid_command (codes "compact") (codes "s1") [] [] 51 ≡ ok c)
          × (s'.effects ≡ execute c ∷ server.effects)
          × (r.command_id ≡ c.id)))
unfolding kind_from_proto
submit_command-authorized_example =
    submit_command-authorized json host server header 50 51 52 no_fault compact_request

revoke_device-IsCutOff_example :
    (let (result, s') = revoke_device toy_crypto json host server (codes "phone") 50 no_fault in
      ((result ≡ ok tt)
        × IsCutOff (codes "phone") s'
        × ((c : Bytes) → allowed s'.reg (codes "phone") c ≡ err device_revoked)
        × ((bearer c : Bytes) (at : Time) → (authorize s' bearer c at).0 ≢ ok (codes "phone")))
      ⊎ ((e : RegistryError) × (result ≡ err e)
          × (s'.tokens ≡ server.tokens)
          × (s'.hub ≡ server.hub)
          × (s'.panes ≡ server.panes)))
revoke_device-IsCutOff_example =
    revoke_device-IsCutOff toy_crypto json host server (codes "phone") 50 no_fault

-- A new device with the key 3 pairs.
abbrev request : PairRequest
request = record {
  protocol_version = codes "rook-link/1";
  device_public_key = key 3;
  pairing_secret = codes "abc";
  proof = sign_pair_proof toy_crypto (key 3) (host_id toy_crypto json host) (codes "abc") (key 3);
  device_name = codes "Watch";
  device_model = codes "W";
  requested_capabilities = [];
}

pair-enrols_example :
    IsRefusal toy_crypto json host server request
      (pair toy_crypto json host server request 50 51 no_fault)
    ⊎ IsEnrolment toy_crypto json host server request 50
        (pair toy_crypto json host server request 50 51 no_fault)
pair-enrols_example = pair-enrols toy_crypto json host server request 50 51 no_fault

abbrev pub proof_of_key : AuthRequest
proof_of_key = record {
  device_id = codes "phone";
  nonce = 7 ∷ [];
  signature = sign_auth toy_crypto (key 1) (host_id toy_crypto json host) (codes "phone") (7 ∷ []);
}

abbrev session : AuthResponse
session = record {
  session_token = encode (5 ∷ []);
  expires_at = 51 + token_ttl;
  capabilities = phone.capabilities;
  trust_domain_id = codes "td";
}

session_opened :
    (authenticate toy_crypto json host server proof_of_key (some (5 ∷ [])) 50 51 52 no_fault).0
    ≡ ok session
unfolding authenticate get find str_eq consume encode verify_auth sign_auth auth_bytes canonical
    append_fields u64 host_id_for mint
session_opened = refl

authenticate-opens_example :
    (let s' =
        (authenticate toy_crypto json host server proof_of_key
          (some (5 ∷ []))
          50
          51
          52
          no_fault).1 in
      ((d : Device) × (get server.reg (codes "phone") ≡ some d)
        × (revoked d ≡ false)
        × ((consume server.nonces (7 ∷ []) d.id 50).0 ≡ true)
        × (verify_auth toy_crypto d.public_key
              (host_id toy_crypto json host)
              d.id
              (7 ∷ [])
              proof_of_key.signature
            ≡ true))
      × ((capability : Bytes) (now : Time)
          → ((authorize s' (bearer_prefix ++ encode (5 ∷ [])) capability now).0
              ≡ ok (codes "phone"))
            ↔ ((before now (51 + token_ttl) ≡ true)
                × (allowed s'.reg (codes "phone") capability ≡ ok tt))))
authenticate-opens_example =
    authenticate-opens toy_crypto json host server proof_of_key (5 ∷ []) 50 51 52 no_fault session
      refl session_opened

-- A header without the token.
unknown_header :
    (submit_command json host server (codes "Bearer link-no") compact_request 50 51 52 no_fault).0
    ≡ err bad_token
unfolding submit_command authorize has_prefix resolve str_eq trim_prefix
unknown_header = refl

submit_command-codes_example :
    IsTurnedAway server (codes "Bearer link-no") cap_agent_command 50 bad_token
    ⊎ ((code_of bad_token ≡ invalid_argument)
        × ((id : Bytes) × IsSanctioned server (codes "Bearer link-no") cap_agent_command 50 id)
        × (x : ProjectionError) × (valid_command (codes "compact") (codes "s1") [] [] 51 ≡ err x))
unfolding kind_from_proto
submit_command-codes_example =
    submit_command-codes json host server (codes "Bearer link-no") 50 51 52 no_fault compact_request
      bad_token unknown_header
