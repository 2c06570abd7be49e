-- ===== src/Edgesign/Envelope/Wire.antt =====
-- Envelopes within the sizes of the wire, and the agreement of two in what their texts cover.
use rook_host.Base.{◌≡◌, ◌<◌}
use rook_host.Crypto.{Crypto}
use rook_host.Edgesign.Canonical.{Fits}
use rook_host.Edgesign.Envelope.{EdgeCommand, EdgeEvent, unix_nano, payload_type, payload_sum}

-- Lengths and numbers as a decoded protobuf message has them.
pub record IsWireCommand (cmd : EdgeCommand) : Type 0 where
  pub fits_version : Fits cmd.protocol_version
  pub fits_command : Fits cmd.command_id
  pub fits_operation : Fits cmd.logical_operation_id
  pub fits_device : Fits cmd.device_id
  pub fits_task : Fits cmd.task_id
  pub fits_run : Fits cmd.workflow_run_id
  pub fits_type : Fits cmd.resource_type
  pub fits_resource : Fits cmd.resource_id
  pub fits_key : Fits cmd.idempotency_key
  pub fits_grant : Fits cmd.approval_grant_id
  pub fits_policy : Fits cmd.policy_context_hash
  pub fits_payload : Fits (payload_type cmd.payload)
  pub fits_digest : Fits cmd.payload_digest
  pub range_attempt : cmd.attempt < 4294967296
  pub range_token : cmd.fencing_token < 18446744073709551616
  pub range_version : cmd.expected_aggregate_version < 18446744073709551616

pub record IsWireEvent (ev : EdgeEvent) : Type 0 where
  pub fits_event : Fits ev.event_id
  pub fits_device : Fits ev.device_id
  pub fits_command : Fits ev.command_id
  pub fits_type : Fits ev.type
  pub fits_payload : Fits (payload_type ev.payload)
  pub fits_digest : Fits ev.payload_digest
  pub range_sequence : ev.device_sequence < 18446744073709551616
  pub range_token : ev.fencing_token < 18446744073709551616

-- Two events that agree in everything the cloud records from them.
pub record SameEvent (crypto : Crypto) (c d : EdgeEvent) : Type 0 where
  pub event : c.event_id ≡ d.event_id
  pub device : c.device_id ≡ d.device_id
  pub sequence : c.device_sequence ≡ d.device_sequence
  pub command : c.command_id ≡ d.command_id
  pub type : c.type ≡ d.type
  pub occurred : unix_nano c.occurred_at ≡ unix_nano d.occurred_at
  pub token : c.fencing_token ≡ d.fencing_token
  pub payload_type : payload_type c.payload ≡ payload_type d.payload
  pub payload_sum : payload_sum crypto c.payload ≡ payload_sum crypto d.payload
  pub digest : c.payload_digest ≡ d.payload_digest

-- Two commands that agree in all that §13.5 asks a signature to bind.
pub record SameCommand (crypto : Crypto) (c d : EdgeCommand) : Type 0 where
  pub version : c.protocol_version ≡ d.protocol_version
  pub command : c.command_id ≡ d.command_id
  pub operation : c.logical_operation_id ≡ d.logical_operation_id
  pub attempt : c.attempt ≡ d.attempt
  pub device : c.device_id ≡ d.device_id
  pub task : c.task_id ≡ d.task_id
  pub run : c.workflow_run_id ≡ d.workflow_run_id
  pub resource_type : c.resource_type ≡ d.resource_type
  pub resource : c.resource_id ≡ d.resource_id
  pub token : c.fencing_token ≡ d.fencing_token
  pub aggregate : c.expected_aggregate_version ≡ d.expected_aggregate_version
  pub expiry : unix_nano c.expires_at ≡ unix_nano d.expires_at
  pub key : c.idempotency_key ≡ d.idempotency_key
  pub grant : c.approval_grant_id ≡ d.approval_grant_id
  pub policy : c.policy_context_hash ≡ d.policy_context_hash
  pub payload_type : payload_type c.payload ≡ payload_type d.payload
  pub payload_sum : payload_sum crypto c.payload ≡ payload_sum crypto d.payload
  pub digest : c.payload_digest ≡ d.payload_digest
