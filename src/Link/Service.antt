-- ===== src/Link/Service.antt =====
-- link/server.go as the transport serves it: NewServer, the mux of Handler, and one call of each
-- method. What a call meets outside (clock, random source, disk, client) is in World.
pub mod Routes
pub mod Gate
pub mod History
use rook_host.Base.{ℕ, ◌*◌, Option, none, some, Bool, [], List, ◌∷◌, if◌then◌else◌, leb}
use rook_host.Base.Bytes.{Bytes}
use rook_host.Base.Int.{ℤ, pos, negsuc}
use rook_host.Base.Time.{Time, second}
use rook_host.Base.Disk.{Fault}
use rook_host.Base.Result.{Result, ok, err}
use rook_host.Crypto.{Crypto}
use rook_host.Projection.Digest.{Digest}
use rook_host.Registry.{Registry}
use rook_host.Registry.Storage.{JsonCodec}
use rook_host.Pairing.Window.{Manager, no_window}
use rook_host.Link.Wire.{Timestamppb, DigestMsg}
use rook_host.Link.Errors.{LinkError}
use rook_host.Link.Tokens.{new_tokens}
use rook_host.Link.Nonces.{new_nonces}
use rook_host.Link.Hub.{new_hub}
use rook_host.Link.PaneHub.{new_pane_hub}
use rook_host.Link.Server.{Server, Host, Effect, Outcome}
use rook_host.Link.Server.Pairing.{
  HostInfo, PairRequest, PairResponse, ChallengeResponse, AuthRequest, AuthResponse, get_host_info,
  pair, challenge, authenticate,
}
use rook_host.Link.Server.Session.{
  StatusResponse, AnswerRequest, AnswerResponse, CommandRequest, CommandResponse, get_status,
  watch_status, get_digest, submit_answer, submit_command, watch_pane,
}
use rook_host.Rpc.{CallKind, Mount, mux}
use rook_host.Rpc.Link.{
  HostMethod, LinkMethod, host_pattern, link_pattern, host_handler, link_handler,
}

-- What NewServer reads of an identity.
pub record HostIdentity : Type 0 where
  pub public_key : Bytes
  pub trust_domain_id : Bytes

-- Options; `none` is nil. The clock is left to each call.
pub record Options : Type 0 where
  pub identity : Option HostIdentity
  pub registry : Option Registry
  pub pairing : Option Manager
  pub executor : Option (List Effect → Effect → Outcome)
  pub host_name : Bytes
  pub has_panes : Bool
  pub digests : Option (Bytes → Option Digest)
  pub heartbeat : ℤ

-- What NewServer makes: the parts that stay, the heartbeat in nanoseconds, and the first state.
pub record Wired : Type 0 where
  pub host : Host
  pub heartbeat : ℕ
  pub server : Server

-- `if o.Heartbeat <= 0 { o.Heartbeat = 25 * time.Second }`
unfoldable pub heartbeat_or_default : ℤ → ℕ
heartbeat_or_default (pos n) = if leb n 0 then 25 * second else n
heartbeat_or_default (negsuc n) = 25 * second

-- `if o.Pairing == nil { o.Pairing = &pairing.Manager{} }`
abbrev pub pairing_or_default : Option Manager → Manager
pairing_or_default none = no_window
pairing_or_default (some m) = m

-- NewServer; `none` is its panic.
unfoldable pub new_server : Options → Option Wired
unfolding heartbeat_or_default
new_server o = elim o.identity [
  | none ↦ none
  | some id ↦ elim o.registry [
    | none ↦ none
    | some reg ↦ elim o.executor [
      | none ↦ none
      | some exec ↦ some (record {
        host = record {
          public_key = id.public_key;
          trust_domain_id = id.trust_domain_id;
          host_name = o.host_name;
          has_panes = o.has_panes;
          exec = exec;
          digests = o.digests;
        };
        heartbeat = heartbeat_or_default o.heartbeat;
        server = record {
          reg = reg;
          pairs = pairing_or_default o.pairing;
          hub = new_hub;
          panes = new_pane_hub;
          tokens = new_tokens;
          nonces = new_nonces;
          effects = [];
        };
      })
    ]
  ]
]

-- A method of one of the two services.
pub data Method : Type 0 where
  host : HostMethod → Method
  link : LinkMethod → Method

abbrev pub as_host : Option (CallKind × HostMethod) → Option (CallKind × Method)
as_host none = none
as_host (some (kind, m)) = some (kind, host m)

abbrev pub as_link : Option (CallKind × LinkMethod) → Option (CallKind × Method)
as_link none = none
as_link (some (kind, m)) = some (kind, link m)

-- Handler: both services on one mux.
abbrev pub mounts : List (Mount (CallKind × Method))
mounts =
    (host_pattern, λ path. as_host (host_handler path))
    ∷ (link_pattern, λ path. as_link (link_handler path))
    ∷ []

unfoldable pub route : Bytes → Option (CallKind × Method)
unfolding mux
route path = mux mounts path

-- The message that a method takes.
abbrev pub Request : Method → Type 0
Request (host HostMethod.get_host_info) = Unit
Request (host HostMethod.pair) = PairRequest
Request (host HostMethod.challenge) = Bytes
Request (host HostMethod.authenticate) = AuthRequest
Request (link LinkMethod.get_status) = Unit
Request (link LinkMethod.watch_status) = Unit
Request (link LinkMethod.submit_answer) = AnswerRequest
Request (link LinkMethod.submit_command) = CommandRequest
Request (link LinkMethod.get_digest) = Bytes
Request (link LinkMethod.watch_pane) = Bytes

-- What a method answers with; of a stream, that it has begun.
abbrev pub Response : Method → Type 0
Response (host HostMethod.get_host_info) = HostInfo
Response (host HostMethod.pair) = PairResponse
Response (host HostMethod.challenge) = ChallengeResponse
Response (host HostMethod.authenticate) = AuthResponse
Response (link LinkMethod.get_status) = StatusResponse
Response (link LinkMethod.watch_status) = Unit
Response (link LinkMethod.submit_answer) = AnswerResponse
Response (link LinkMethod.submit_command) = CommandResponse
Response (link LinkMethod.get_digest) = DigestMsg
Response (link LinkMethod.watch_pane) = Unit

-- What a call meets: three readings of the clock, the bytes of the random source, the disk's fault,
-- whether the pane source opens, and whether the opening frame of a stream is delivered.
pub record World : Type 0 where
  pub at : Time
  pub then_at : Time
  pub last_at : Time
  pub random : Option Bytes
  pub fault : Fault
  pub opens : Bool
  pub delivered : Bool

module _ (crypto : Crypto) (json : JsonCodec) (tpb : Timestamppb) (h : Host) where
  -- One call of one method, with the Authorization header.
  unfoldable pub serve :
      (m : Method) → Request m → Bytes → World → Server → Result LinkError (Response m) × Server
  serve (host HostMethod.get_host_info) q bearer w s = (ok (get_host_info crypto json h s w.at), s)
  serve (host HostMethod.pair) q bearer w s = pair crypto json h s q w.at w.then_at w.fault
  serve (host HostMethod.challenge) q bearer w s = challenge crypto json h s q w.random w.at
  serve (host HostMethod.authenticate) q bearer w s =
      authenticate crypto json h s q w.random w.at w.then_at w.last_at w.fault
  serve (link LinkMethod.get_status) q bearer w s = get_status tpb s bearer w.at
  serve (link LinkMethod.watch_status) q bearer w s = watch_status s bearer w.delivered w.at
  serve (link LinkMethod.submit_answer) q bearer w s =
      submit_answer json h s bearer q w.at w.then_at w.last_at w.fault
  serve (link LinkMethod.submit_command) q bearer w s =
      submit_command json h s bearer q w.at w.then_at w.last_at w.fault
  serve (link LinkMethod.get_digest) q bearer w s = get_digest tpb h s bearer q w.at
  serve (link LinkMethod.watch_pane) q bearer w s = watch_pane h s bearer q w.opens w.delivered w.at

-- What a device gets back: connect's answer to a path or a message that it cannot use, or the
-- method's.
pub data Reply : Type 0 where
  no_route malformed : Reply
  answered : (m : Method) → Result LinkError (Response m) → Reply

module _ (crypto : Crypto) (json : JsonCodec) (tpb : Timestamppb) (h : Host)
    (decode : (m : Method) → Bytes → Option (Request m)) where
  -- The call of a method whose message was decoded.
  abbrev pub answer_with :
      (m : Method) → Option (Request m) → Bytes → World → Server → Reply × Server
  answer_with m none bearer w s = (malformed, s)
  answer_with m (some q) bearer w s =
      let (result, s') = serve crypto json tpb h m q bearer w s in (answered m result, s')

  -- One HTTP request. Decoding is connect's, and comes before the method.
  unfoldable pub handle_http : Bytes → Bytes → Bytes → World → Server → Reply × Server
  unfolding route serve
  handle_http path bearer body w s = elim (route path) [
    | none ↦ (no_route, s)
    | some (kind, m) ↦ answer_with m (decode m body) bearer w s
  ]
