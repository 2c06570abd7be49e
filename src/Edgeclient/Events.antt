-- ===== src/Edgeclient/Events.antt =====
-- edgeclient/client.go: the events that report a command's outcome and what a session did.
-- anypb.New is an interface; the timestamp that timestamppb.Now reads is an argument.
pub mod Ids
use rook_host.Base.{ℕ, Option, none, some, ◌||◌, [], ◌++◌, if◌then◌else◌}
use rook_host.Base.Bytes.{Bytes, codes, is_empty}
use rook_host.Base.Decimal.{decimal}
use rook_host.Base.Result.{Result, ok, err}
use rook_host.Crypto.{Crypto}
use rook_host.Edgesign.Envelope.{AnyMessage, Timestamp, EdgeCommand, EdgeEvent}

-- edge/edge.go
abbrev pub protocol_version : Bytes
protocol_version = codes "rook-edge/1"

abbrev pub event_type_command_result : Bytes
event_type_command_result = codes "com.rook.edge.command_result.v1"

abbrev pub event_type_agent_event : Bytes
event_type_agent_event = codes "com.rook.edge.agent_event.v1"

pub record CommandResult : Type 0 where
  pub command_id : Bytes
  pub status : Bytes
  pub result_json : Bytes

pub record AgentEvent : Type 0 where
  pub session_id : Bytes
  pub kind : Bytes
  pub summary : Bytes
  pub data_json : Bytes

pub record AgentUpdate : Type 0 where
  pub session_id : Bytes
  pub kind : Bytes
  pub summary : Bytes
  pub data_json : Bytes

-- anypb.New of the two payloads; `none` where a message does not marshal.
pub record Payloads : Type 0 where
  pub pack_result : CommandResult → Option AnyMessage
  pub pack_agent : AgentEvent → Option AnyMessage

pub data EventError : Type 0 where
  empty_status no_session_or_kind not_packed : EventError

-- "devevt_%s_%s"
unfoldable pub result_id : Bytes → Bytes → Bytes
result_id command_id status = codes "devevt_" ++ (command_id ++ (codes "_" ++ status))

-- "devevt_%s_agent_%d_%s"
unfoldable pub agent_id : Bytes → ℕ → Bytes → Bytes
agent_id command_id i kind =
    codes "devevt_" ++ (command_id ++ (codes "_agent_" ++ (decimal i ++ (codes "_" ++ kind))))

module _ (crypto : Crypto) (payloads : Payloads) where
  -- What the two events share; the signature is filled later.
  abbrev pub envelope : EdgeCommand → ℕ → Bytes → Bytes → Timestamp → AnyMessage → EdgeEvent
  envelope cmd seq id type now payload = record {
    event_id = id;
    device_id = cmd.device_id;
    device_sequence = seq;
    command_id = cmd.command_id;
    type = type;
    occurred_at = some now;
    fencing_token = 0;
    payload = some payload;
    payload_digest = crypto.sha256 payload.value;
    device_signature = [];
  }

  -- resultEvent
  unfoldable pub result_event :
      EdgeCommand → ℕ → Bytes → Bytes → Timestamp → Result EventError EdgeEvent
  result_event cmd seq status result_json now =
      if is_empty status
      then err empty_status
      else elim (payloads.pack_result
          (record { command_id = cmd.command_id; status = status; result_json = result_json })) [
            | none ↦ err not_packed
            | some payload ↦ ok (
                envelope cmd seq (result_id cmd.command_id status) event_type_command_result now
                  payload)
          ]

  -- agentEvent
  unfoldable pub agent_event :
      EdgeCommand → ℕ → ℕ → AgentUpdate → Timestamp → Result EventError EdgeEvent
  agent_event cmd seq i upd now =
      if is_empty upd.session_id || is_empty upd.kind
      then err no_session_or_kind
      else elim (payloads.pack_agent (record {
        session_id = upd.session_id;
        kind = upd.kind;
        summary = upd.summary;
        data_json = upd.data_json;
      })) [
        | none ↦ err not_packed
        | some payload ↦ ok (
            envelope cmd seq (agent_id cmd.command_id i upd.kind) event_type_agent_event now
              payload)
      ]
