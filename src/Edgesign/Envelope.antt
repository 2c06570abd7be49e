-- ===== src/Edgesign/Envelope.antt =====
-- The envelope signatures of edgesign/edgesign.go: SignCommand, VerifyCommand, SignEvent,
-- VerifyEvent and the texts that they sign. The messages are those of proto/rook/edge/v1.
pub mod Wire
pub mod Binding
use rook_host.Base.{
  ℕ, ◌+◌, ◌*◌, ◌%◌, Option, none, some, Bool, true, false, List, [], ◌∷◌, ◌&&◌, not, length,
}
use rook_host.Base.Bytes.{Bytes, codes, is_empty}
use rook_host.Base.Int.{ℤ, to_u64}
use rook_host.Crypto.{Crypto}
use rook_host.Edgesign.Canonical.{u64, canonical}

-- google.protobuf.Any
pub record AnyMessage : Type 0 where
  pub type_url : Bytes
  pub value : Bytes

-- google.protobuf.Timestamp
pub record Timestamp : Type 0 where
  pub seconds : ℤ
  pub nanos : ℤ

pub record EdgeCommand : Type 0 where
  pub protocol_version : Bytes
  pub command_id : Bytes
  pub logical_operation_id : Bytes
  pub attempt : ℕ
  pub device_id : Bytes
  pub task_id : Bytes
  pub workflow_run_id : Bytes
  pub resource_type : Bytes
  pub resource_id : Bytes
  pub fencing_token : ℕ
  pub expected_aggregate_version : ℕ
  pub expires_at : Option Timestamp
  pub idempotency_key : Bytes
  pub approval_grant_id : Bytes
  pub policy_context_hash : Bytes
  pub payload : Option AnyMessage
  pub payload_digest : Bytes
  pub cloud_signature : Bytes
  pub approval_grant : Bytes
  pub ledger_payload : Bytes

pub record EdgeEvent : Type 0 where
  pub event_id : Bytes
  pub device_id : Bytes
  pub device_sequence : ℕ
  pub command_id : Bytes
  pub type : Bytes
  pub occurred_at : Option Timestamp
  pub fencing_token : ℕ
  pub payload : Option AnyMessage
  pub payload_digest : Bytes
  pub device_signature : Bytes

abbrev pub command_domain : Bytes
command_domain = codes "rook-edge-command/v1"

abbrev pub event_domain : Bytes
event_domain = codes "rook-edge-event/v1"

-- uint64(t.AsTime().UnixNano()), 0 where the field is not set. The product and the sum wrap.
unfoldable pub unix_nano : Option Timestamp → ℕ
unix_nano none = 0
unix_nano (some t) = (to_u64 t.seconds * 1000000000 + to_u64 t.nanos) % 18446744073709551616

abbrev pub payload_type : Option AnyMessage → Bytes
payload_type none = []
payload_type (some p) = p.type_url

module _ (crypto : Crypto) where
  abbrev pub payload_sum : Option AnyMessage → Bytes
  payload_sum none = []
  payload_sum (some p) = crypto.sha256 p.value

  abbrev pub command_fields : EdgeCommand → List Bytes
  command_fields cmd =
      cmd.protocol_version
      ∷ cmd.command_id
      ∷ cmd.logical_operation_id
      ∷ u64 cmd.attempt
      ∷ cmd.device_id
      ∷ cmd.task_id
      ∷ cmd.workflow_run_id
      ∷ cmd.resource_type
      ∷ cmd.resource_id
      ∷ u64 cmd.fencing_token
      ∷ u64 cmd.expected_aggregate_version
      ∷ u64 (unix_nano cmd.expires_at)
      ∷ cmd.idempotency_key
      ∷ cmd.approval_grant_id
      ∷ cmd.policy_context_hash
      ∷ payload_type cmd.payload
      ∷ payload_sum cmd.payload
      ∷ cmd.payload_digest
      ∷ []

  unfoldable pub command_bytes : EdgeCommand → Bytes
  command_bytes cmd = canonical command_domain (command_fields cmd)

  abbrev pub event_fields : EdgeEvent → List Bytes
  event_fields ev =
      ev.event_id
      ∷ ev.device_id
      ∷ u64 ev.device_sequence
      ∷ ev.command_id
      ∷ ev.type
      ∷ u64 (unix_nano ev.occurred_at)
      ∷ u64 ev.fencing_token
      ∷ payload_type ev.payload
      ∷ payload_sum ev.payload
      ∷ ev.payload_digest
      ∷ []

  unfoldable pub event_bytes : EdgeEvent → Bytes
  event_bytes ev = canonical event_domain (event_fields ev)

  -- SignCommand fills the signature of the message it is given.
  unfoldable pub sign_command : Bytes → EdgeCommand → EdgeCommand
  sign_command priv cmd = record cmd { cloud_signature = crypto.sign priv (command_bytes cmd) }

  unfoldable pub verify_command : Bytes → EdgeCommand → Bool
  verify_command key cmd =
      not (is_empty cmd.cloud_signature)
      && crypto.verify key (command_bytes cmd) cmd.cloud_signature

  unfoldable pub sign_event : Bytes → EdgeEvent → EdgeEvent
  sign_event priv ev = record ev { device_signature = crypto.sign priv (event_bytes ev) }

  unfoldable pub verify_event : Bytes → EdgeEvent → Bool
  verify_event key ev =
      not (is_empty ev.device_signature) && crypto.verify key (event_bytes ev) ev.device_signature
