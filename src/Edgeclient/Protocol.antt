-- ===== src/Edgeclient/Protocol.antt =====
-- edgeclient/client.go: the client, the messages it exchanges, and the peers that it calls. Each
-- answer of a peer may depend on all calls made before.
use rook_host.Base.{ℕ, ◌+◌, ◌%◌, Option, none, some, Bool, false, not, List, [], ◌∷◌, ◌++◌}
use rook_host.Base.Bytes.{Bytes, codes, is_empty}
use rook_host.Base.Decimal.{decimal}
use rook_host.Base.Time.{Time}
use rook_host.Base.Result.{Result}
use rook_host.Edgesign.Envelope.{Timestamp, EdgeCommand, EdgeEvent}
use rook_host.Edgesign.Grant.{GrantError}
use rook_host.Edgeclient.Events.{AgentUpdate, EventError}

-- connect.CodeOf an error: the codes that the client tells apart, and the rest by their numbers.
pub data RpcCode : Type 0 where
  unauthenticated unimplemented : RpcCode
  other : ℕ → RpcCode

-- Key, and the cloudKey of the registration.
pub record Client : Type 0 where
  pub key : Option Bytes
  pub cloud_key : Option Bytes

pub record RegisterRequest : Type 0 where
  pub protocol_version : Bytes
  pub device_name : Bytes
  pub platform : Bytes
  pub capabilities : List Bytes
  pub public_key : Bytes

pub record RegisterResponse : Type 0 where
  pub device_id : Bytes
  pub cloud_public_key : Option Bytes

pub record SyncResponse : Type 0 where
  pub commands : List EdgeCommand
  pub acked_device_sequence : ℕ
  pub poll_interval_seconds : ℕ

pub record Rejection : Type 0 where
  pub device_sequence : ℕ
  pub reason : Bytes

pub record SubmitResponse : Type 0 where
  pub acked_device_sequence : ℕ
  pub rejections : List Rejection

-- The reasons that refuse gives.
pub data Refusal : Type 0 where
  bad_cloud_signature : Refusal
  bad_payload : GrantError → Refusal
  grant_refused : GrantError → Refusal

-- What the client asks of the cloud, of the executor and of the agent observer.
pub data Call : Type 0 where
  registered : RegisterRequest → Call
  synced : Call
  acked : Bytes → Call
  executed : EdgeCommand → Call
  consulted : EdgeCommand → Call
  submitted : List EdgeEvent → Call

abbrev pub Observer : Type 0
Observer = List Call → EdgeCommand → Bytes → Bytes → List AgentUpdate

-- `clock` and `timestamp` are readings of the clock; reason_json is the JSON of a reason's text.
pub record Peer : Type 0 where
  pub register_device : List Call → RegisterRequest → Result RpcCode RegisterResponse
  pub sync_edge : List Call → Result RpcCode SyncResponse
  pub ack_command : List Call → Bytes → Option RpcCode
  pub submit_events : List Call → List EdgeEvent → Result RpcCode SubmitResponse
  pub execute : List Call → EdgeCommand → Bytes × Bytes
  pub agent : Option Observer
  pub reason_json : Refusal → Bytes
  pub clock : List Call → Time
  pub timestamp : List Call → ℕ → Timestamp

pub data SyncError : Type 0 where
  sync_failed ack_failed submit_failed : RpcCode → SyncError
  event_failed agent_event_failed : EventError → SyncError

-- SyncReport
pub record SyncReport : Type 0 where
  pub commands : ℕ
  pub reported : ℕ
  pub acked_seq : ℕ
  pub poll_seconds : ℕ
  pub rejections : List Bytes

-- "seq %d: %s"
unfoldable pub rejection_text : Rejection → Bytes
rejection_text rej = codes "seq " ++ (decimal rej.device_sequence ++ (codes ": " ++ rej.reason))

abbrev pub no_report : SyncReport
no_report = record { commands = 0; reported = 0; acked_seq = 0; poll_seconds = 0; rejections = [] }

-- seq++ of a uint64
abbrev pub next_seq : ℕ → ℕ
next_seq seq = (seq + 1) % 18446744073709551616

-- `c.Agent(cmd, status, resultJSON)`, if there is an observer.
abbrev pub observed :
    Option Observer → EdgeCommand → Bytes → Bytes → List Call → List AgentUpdate × List Call
observed none cmd status result_json calls = ([], calls)
observed (some observe) cmd status result_json calls =
    (observe calls cmd status result_json, consulted cmd ∷ calls)

-- CloudSigning
abbrev pub cloud_signing : Client → Bool
cloud_signing c = elim c.cloud_key [ none ↦ false | some key ↦ not (is_empty key) ]
