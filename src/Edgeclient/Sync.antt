-- ===== src/Edgeclient/Sync.antt =====
-- edgeclient/client.go: registration, the checks before a command, and one sync pass. The cloud, the
-- executor and the clocks are in Peer.
pub mod Cleared
pub mod Vetted
pub mod Envelopes
pub mod Journal
pub mod Completes
use rook_host.Base.{
  ℕ, ◌+◌, ◌%◌, Option, none, some, Bool, true, false, not, List, [], ◌∷◌, ◌++◌, map, length,
  if◌then◌else◌,
}
use rook_host.Base.Bytes.{Bytes, codes, is_empty}
use rook_host.Base.Decimal.{decimal}
use rook_host.Base.Time.{Time}
use rook_host.Base.Result.{Result, ok, err, ◌>>=◌}
use rook_host.Crypto.{Crypto}
use rook_host.Edgesign.Envelope.{Timestamp, EdgeCommand, EdgeEvent, verify_command, sign_event}
use rook_host.Edgesign.Grant.{GrantCodec, GrantError, verified_ledger_payload, verify_command_grant}
use rook_host.Edgeclient.Events.{
  AgentUpdate, Payloads, EventError, protocol_version, result_event, agent_event,
}
use rook_host.Edgeclient.Protocol.{
  Call, Client, Peer, Refusal, RegisterRequest, RpcCode, SyncError, SyncReport, ack_failed, acked,
  agent_event_failed, bad_cloud_signature, bad_payload, event_failed, executed, grant_refused,
  next_seq, no_report, observed, registered, rejection_text, submit_failed, submitted, sync_failed,
  synced,
}

module _ (crypto : Crypto) (codec : GrantCodec) (payloads : Payloads) (peer : Peer) where
  -- Register
  unfoldable pub register :
      Client → Bytes → Bytes → List Bytes → List Call → Result RpcCode Bytes × Client × List Call
  register c name platform capabilities calls =
      let public_key : Bytes = elim c.key [ none ↦ [] | some key ↦ crypto.public_key key ] in
      let req : RegisterRequest = record {
        protocol_version = protocol_version;
        device_name = name;
        platform = platform;
        capabilities = capabilities;
        public_key = public_key;
      } in
      elim (peer.register_device calls req) [
        | err code ↦ (err code, c, registered req ∷ calls)
        | ok res ↦ (
          ok res.device_id,
          record c { cloud_key = res.cloud_public_key },
          registered req ∷ calls,
        )
      ]

  -- `c.cloudKey != nil && !edgesign.VerifyCommand(c.cloudKey, cmd)`
  abbrev pub signature_refused : Client → EdgeCommand → Bool
  signature_refused c cmd = elim c.cloud_key [
    | none ↦ false
    | some key ↦ not (verify_command crypto key cmd)
  ]

  -- The check of a payload that rode along.
  unfoldable pub payload_refusal : EdgeCommand → Option Refusal
  payload_refusal cmd =
      if is_empty cmd.ledger_payload
      then none
      else elim (verified_ledger_payload crypto codec cmd) [
        | err e ↦ some (bad_payload e)
        | ok _ ↦ none
      ]

  -- The check of a grant that the command spends.
  unfoldable pub grant_refusal : Client → EdgeCommand → Time → Option Refusal
  grant_refusal c cmd now =
      if is_empty cmd.approval_grant_id
      then none
      else elim (verify_command_grant crypto codec c.cloud_key cmd now) [
        | err e ↦ some (grant_refused e)
        | ok _ ↦ none
      ]

  -- refuse; `none` is the empty reason.
  unfoldable pub refuse : Client → EdgeCommand → Time → Option Refusal
  unfolding payload_refusal grant_refusal
  refuse c cmd now =
      if signature_refused c cmd
      then some bad_cloud_signature
      else elim (payload_refusal cmd) [ some r ↦ some r | none ↦ grant_refusal c cmd now ]

  -- The status and the result of a command: refused, or executed.
  unfoldable pub settle : Client → EdgeCommand → List Call → (Bytes × Bytes) × List Call
  settle c cmd calls = elim (refuse c cmd (peer.clock calls)) [
    | some r ↦ ((codes "rejected", peer.reason_json r), calls)
    | none ↦ (peer.execute calls cmd, executed cmd ∷ calls)
  ]

  -- `if c.Key != nil { edgesign.SignEvent(c.Key, ev) }`
  abbrev pub signed : Option Bytes → EdgeEvent → EdgeEvent
  signed none ev = ev
  signed (some key) ev = sign_event crypto key ev

  -- The loop over the updates, from seq and i on: the events, and the last number given.
  unfoldable pub agent_events :
      Client
      → EdgeCommand
      → List Call
      → ℕ
      → ℕ
      → List AgentUpdate
      → Result EventError (List EdgeEvent × ℕ)
  agent_events c cmd calls seq i [] = ok ([], seq)
  agent_events c cmd calls seq i (upd ∷ upds) =
      agent_event crypto payloads cmd (next_seq seq) i upd (peer.timestamp calls (next_seq seq))
      >>= λ ev.
          (agent_events c cmd calls (next_seq seq) (i + 1) upds >>= λ r.
          ok (signed c.key ev ∷ r.0, r.1))

  -- The events of a command with its outcome.
  unfoldable pub report_command :
      Client
      → EdgeCommand
      → ℕ
      → Bytes
      → Bytes
      → List Call
      → Result SyncError (List EdgeEvent × ℕ) × List Call
  report_command c cmd seq status result_json calls =
      let seq' = next_seq seq in
      elim (result_event crypto payloads cmd seq' status result_json (peer.timestamp calls seq')) [
        | err e ↦ (err (event_failed e), calls)
        | ok ev ↦
            let (upds, calls') = observed peer.agent cmd status result_json calls in
            elim (agent_events c cmd calls' seq' 0 upds) [
              | err e ↦ (err (agent_event_failed e), calls')
              | ok (evs, last) ↦ (ok (signed c.key ev ∷ evs, last), calls')
            ]
      ]

  -- The body of the loop over the commands.
  unfoldable pub handle_command :
      Client → EdgeCommand → ℕ → List Call → Result SyncError (List EdgeEvent × ℕ) × List Call
  handle_command c cmd seq calls =
      let calls' = acked cmd.command_id ∷ calls in
      elim (peer.ack_command calls cmd.command_id) [
        | some code ↦ (err (ack_failed code), calls')
        | none ↦
            let ((status, result_json), calls'') = settle c cmd calls' in
            report_command c cmd seq status result_json calls''
      ]

  -- The loop.
  unfoldable pub handle_commands :
      Client → List EdgeCommand → ℕ → List Call → Result SyncError (List EdgeEvent) × List Call
  handle_commands c [] seq calls = (ok [], calls)
  handle_commands c (cmd ∷ cmds) seq calls =
      let (result, calls') = handle_command c cmd seq calls in
      elim result [
        | err e ↦ (err e, calls')
        | ok (evs, seq') ↦
            let (rest, calls'') = handle_commands c cmds seq' calls' in
            elim rest [ err e ↦ (err e, calls'') | ok more ↦ (ok (evs ++ more), calls'') ]
      ]

  -- The submission of the batch, which is left out where there is none.
  unfoldable pub submit :
      SyncReport → List EdgeEvent → List Call → (SyncReport × Option SyncError) × List Call
  submit report [] calls = ((report, none), calls)
  submit report (ev ∷ evs) calls =
      let calls' = submitted (ev ∷ evs) ∷ calls in
      elim (peer.submit_events calls (ev ∷ evs)) [
        | err code ↦ ((report, some (submit_failed code)), calls')
        | ok res ↦ (
          (
            record report {
              reported = length (ev ∷ evs);
              acked_seq = res.acked_device_sequence;
              rejections = map rejection_text res.rejections;
            },
            none,
          ),
          calls',
        )
      ]

  -- SyncOnce
  unfoldable pub sync_once : Client → List Call → (SyncReport × Option SyncError) × List Call
  sync_once c calls =
      let calls' = synced ∷ calls in
      elim (peer.sync_edge calls) [
        | err code ↦ ((no_report, some (sync_failed code)), calls')
        | ok res ↦
            let report : SyncReport = record {
              commands = length res.commands;
              reported = 0;
              acked_seq = res.acked_device_sequence;
              poll_seconds = res.poll_interval_seconds;
              rejections = [];
            } in
            let (batch, calls'') =
              handle_commands c res.commands res.acked_device_sequence calls' in
            elim batch [ err e ↦ ((report, some e), calls'') | ok evs ↦ submit report evs calls'' ]
      ]
