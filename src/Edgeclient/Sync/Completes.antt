-- ===== src/Edgeclient/Sync/Completes.antt =====
-- A pass between a cloud, an executor and an observer that all do their part ends without an error.
use rook_host.Base.{
  ◌≡◌, refl, none, some, true, false, List, [], ◌∷◌, All, ℕ, ◌+◌, Option-cases, inl, inr, length,
}
use rook_host.Base.Bytes.{Bytes, is_empty}
use rook_host.Base.Result.{ok, is_ok, is_ok→ok}
use rook_host.Crypto.{Crypto}
use rook_host.Edgesign.Envelope.{AnyMessage, Timestamp, EdgeCommand, EdgeEvent}
use rook_host.Edgesign.Grant.{GrantCodec}
use rook_host.Edgeclient.Events.{
  AgentUpdate, CommandResult, AgentEvent, Payloads, result_event, agent_event,
}
use rook_host.Edgeclient.Sync.{
  refuse, settle, agent_events, report_command, handle_command, handle_commands, submit, sync_once,
}
use rook_host.Edgeclient.Protocol.{
  Client, Peer, Call, acked, synced, submitted, SyncResponse, SubmitResponse, SyncReport, next_seq,
  observed,
}
use rook_host.Edgeclient.Sync.Journal.{IsJournal, handle_commands-IsJournal}

-- The update names its session and its kind.
abbrev pub IsNamed : AgentUpdate → Type 0
IsNamed upd = (is_empty upd.session_id ≡ false) × (is_empty upd.kind ≡ false)

-- The newest call submitted the batch, if there is one.
abbrev pub IsSent : List EdgeEvent → List Call → Type 0
IsSent [] calls = Unit
IsSent (ev ∷ evs) [] = ⊥
IsSent (ev ∷ evs) (call ∷ calls) = call ≡ submitted (ev ∷ evs)

-- Acknowledgements and submissions are accepted, the executor and the observer answer with what
-- the protocol asks for, and messages marshal.
pub record IsWilling (payloads : Payloads) (peer : Peer) : Type 0 where
  pub acks : (calls : List Call) (id : Bytes) → peer.ack_command calls id ≡ none
  pub submits :
      (calls : List Call) (evs : List EdgeEvent)
      → (res : SubmitResponse) × (peer.submit_events calls evs ≡ ok res)
  pub executes :
      (calls : List Call) (cmd : EdgeCommand) → is_empty (peer.execute calls cmd).0 ≡ false
  pub observes :
      (calls : List Call) (cmd : EdgeCommand) (status json : Bytes)
      → All IsNamed (observed peer.agent cmd status json calls).0
  pub packs_result : (r : CommandResult) → (m : AnyMessage) × (payloads.pack_result r ≡ some m)
  pub packs_agent : (e : AgentEvent) → (m : AnyMessage) × (payloads.pack_agent e ≡ some m)

module _ (crypto : Crypto) (codec : GrantCodec) (payloads : Payloads) (peer : Peer) (c : Client)
    (w : IsWilling payloads peer) where
  result_event_made :
      (cmd : EdgeCommand) (seq : ℕ) (status json : Bytes) (now : Timestamp)
      → is_empty status ≡ false
      → is_ok (result_event crypto payloads cmd seq status json now) ≡ true
  unfolding result_event
  result_event_made cmd seq status json now h =
      let (m, e) =
        w.packs_result
          (record { command_id = cmd.command_id; status = status; result_json = json }) in
      rw (h, e) refl

  agent_event_made :
      (cmd : EdgeCommand) (seq i : ℕ) (upd : AgentUpdate) (now : Timestamp)
      → IsNamed upd
      → is_ok (agent_event crypto payloads cmd seq i upd now) ≡ true
  unfolding agent_event
  agent_event_made cmd seq i upd now h =
      let (m, e) = w.packs_agent (record {
        session_id = upd.session_id;
        kind = upd.kind;
        summary = upd.summary;
        data_json = upd.data_json;
      }) in
      rw (h.0, h.1, e) refl

  agent_events_made :
      (cmd : EdgeCommand) (calls : List Call) (seq i : ℕ) (upds : List AgentUpdate)
      → All IsNamed upds
      → is_ok (agent_events crypto codec payloads peer c cmd calls seq i upds) ≡ true
  unfolding agent_events
  agent_events_made cmd calls seq i [] a = refl
  agent_events_made cmd calls seq i (upd ∷ upds) a =
      let (ev, e) =
        is_ok→ok _
          (agent_event_made cmd (next_seq seq) i upd (peer.timestamp calls (next_seq seq)) a.0) in
      let (r, f) = is_ok→ok _ (agent_events_made cmd calls (next_seq seq) (i + 1) upds a.1) in
      rw (e, f, agent_events) refl

  settle_named :
      (cmd : EdgeCommand) (calls : List Call)
      → is_empty (settle crypto codec payloads peer c cmd calls).0.0 ≡ false
  unfolding settle
  settle_named cmd calls =
      elim (Option-cases (refuse crypto codec payloads peer c cmd (peer.clock calls))) [
        | inl e ↦ rw (e, settle) (w.executes calls cmd)
        | inr (r, e) ↦ rw (e, settle) refl
      ]

  handle_command_made :
      (cmd : EdgeCommand) (seq : ℕ) (calls : List Call)
      → is_ok (handle_command crypto codec payloads peer c cmd seq calls).0 ≡ true
  unfolding handle_command report_command
  handle_command_made cmd seq calls =
      let s = settle crypto codec payloads peer c cmd (acked cmd.command_id ∷ calls) in
      let seq' = next_seq seq in
      let (ev, e) =
        is_ok→ok _
          (result_event_made cmd seq' s.0.0 s.0.1 (peer.timestamp s.1 seq') (settle_named cmd _)) in
      let upds = observed peer.agent cmd s.0.0 s.0.1 s.1 in
      let (r, f) =
        is_ok→ok _ (agent_events_made cmd upds.1 seq' 0 upds.0 (w.observes s.1 cmd s.0.0 s.0.1)) in
      rw (w.acks calls cmd.command_id, e, f, handle_command, report_command) refl

  handle_commands_made :
      (cmds : List EdgeCommand) (seq : ℕ) (calls : List Call)
      → is_ok (handle_commands crypto codec payloads peer c cmds seq calls).0 ≡ true
  unfolding handle_commands
  handle_commands_made [] seq calls = refl
  handle_commands_made (cmd ∷ cmds) seq calls =
      let ((block, last), e) = is_ok→ok _ (handle_command_made cmd seq calls) in
      let (more, f) = is_ok→ok _ (
        handle_commands_made cmds last
          (handle_command crypto codec payloads peer c cmd seq calls).1) in
      rw (e, f, handle_commands) refl

  submit_made :
      (report : SyncReport) (evs : List EdgeEvent) (calls : List Call)
      → report.reported ≡ 0
      → let r = submit crypto codec payloads peer report evs calls in
        (r.0.1 ≡ none) × (r.0.0.reported ≡ length evs) × IsSent evs r.1
  unfolding submit
  submit_made report [] calls h = (refl, h, tt)
  submit_made report (ev ∷ evs) calls h =
      let (res, e) = w.submits calls (ev ∷ evs) in rw (e, submit) (refl, refl, refl)

  -- If the cloud answers the sync and takes every acknowledgement and batch, the executor names a
  -- status, the observer's updates name their session and kind, and messages marshal, then the
  -- pass ends without an error; it reports as many events as its batch has, the batch is the
  -- journal of the offered commands, and a batch that is not empty is the last call.
  pub sync_once_completes :
      (calls : List Call) (res : SyncResponse)
      → peer.sync_edge calls ≡ ok res
      → (evs : List EdgeEvent) × IsJournal crypto codec payloads peer c res.acked_device_sequence
          res.commands evs
        × let r = sync_once crypto codec payloads peer c calls in
          (r.0.1 ≡ none) × (r.0.0.reported ≡ length evs) × IsSent evs r.1
  unfolding sync_once
  sync_once_completes calls res h =
      let (evs, e) =
        is_ok→ok _ (handle_commands_made res.commands res.acked_device_sequence (synced ∷ calls)) in
      (
        evs,
        handle_commands-IsJournal crypto codec payloads peer c res.commands
            res.acked_device_sequence (synced ∷ calls) evs e,
        rw (h, e, sync_once) (submit_made _ evs _ refl),
      )
