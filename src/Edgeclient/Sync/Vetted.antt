-- ===== src/Edgeclient/Sync/Vetted.antt =====
-- The executor only ever sees commands that were acknowledged and that passed the checks.
use rook_host.Base.{◌≡◌, refl, Option, none, some, List, [], ◌∷◌, ℕ, Option-cases, inl, inr}
use rook_host.Base.Bytes.{Bytes}
use rook_host.Base.Result.{Result-cases}
use rook_host.Crypto.{Crypto}
use rook_host.Edgesign.Envelope.{EdgeCommand, EdgeEvent}
use rook_host.Edgesign.Grant.{GrantCodec}
use rook_host.Edgeclient.Events.{Payloads, result_event}
use rook_host.Edgeclient.Sync.{
  refuse, settle, agent_events, report_command, handle_command, handle_commands, submit, sync_once,
}
use rook_host.Edgeclient.Protocol.{
  Client, Peer, Call, registered, synced, acked, executed, consulted, submitted, SyncReport,
  next_seq, observed, Observer,
}
use rook_host.Edgeclient.Sync.Cleared.{IsCleared, refuse-IsCleared}

module _ (crypto : Crypto) (codec : GrantCodec) (payloads : Payloads) (peer : Peer)
    (c : Client) where
  -- The newest call is the acknowledgement of the command.
  abbrev pub AckedLast : EdgeCommand → List Call → Type 0
  AckedLast cmd [] = ⊥
  AckedLast cmd (call ∷ calls) = call ≡ acked cmd.command_id

  -- At every execution in a history of calls, newest first, the call before was the
  -- acknowledgement, and the command had cleared the checks.
  abbrev pub IsVetted : List Call → Type 0
  IsVetted [] = Unit
  IsVetted (executed cmd ∷ calls) =
      AckedLast cmd calls
      × IsCleared crypto codec payloads peer c cmd (peer.clock calls)
      × IsVetted calls
  IsVetted (registered req ∷ calls) = IsVetted calls
  IsVetted (synced ∷ calls) = IsVetted calls
  IsVetted (acked id ∷ calls) = IsVetted calls
  IsVetted (consulted cmd ∷ calls) = IsVetted calls
  IsVetted (submitted evs ∷ calls) = IsVetted calls

  settle-IsVetted :
      (cmd : EdgeCommand) (calls : List Call)
      → AckedLast cmd calls
      → IsVetted calls
      → IsVetted (settle crypto codec payloads peer c cmd calls).1
  unfolding settle
  settle-IsVetted cmd calls a v =
      elim (Option-cases (refuse crypto codec payloads peer c cmd (peer.clock calls))) [
        | inl e ↦
            rw (e, settle)
              (a, refuse-IsCleared crypto codec payloads peer c cmd (peer.clock calls) e, v)
        | inr (r, e) ↦ rw (e, settle) v
      ]

  observed-IsVetted :
      (o : Option Observer) (cmd : EdgeCommand) (status json : Bytes) (calls : List Call)
      → IsVetted calls
      → IsVetted (observed o cmd status json calls).1
  observed-IsVetted none cmd status json calls v = v
  observed-IsVetted (some observe) cmd status json calls v = v

  report_command-IsVetted :
      (cmd : EdgeCommand) (seq : ℕ) (status json : Bytes) (calls : List Call)
      → IsVetted calls
      → IsVetted (report_command crypto codec payloads peer c cmd seq status json calls).1
  unfolding report_command
  report_command-IsVetted cmd seq status json calls v =
      let seq' = next_seq seq in
      let (upds, calls') = observed peer.agent cmd status json calls in
      elim (Result-cases
        (result_event crypto payloads cmd seq' status json (peer.timestamp calls seq'))) [
          | inl (x, e) ↦ rw (e, report_command) v
          | inr (ev, e) ↦
              elim (Result-cases
                (agent_events crypto codec payloads peer c cmd calls' seq' 0 upds)) [
                  | inl (x, f) ↦
                      rw (e, f, report_command)
                        (observed-IsVetted peer.agent cmd status json calls v)
                  | inr (r, f) ↦
                      rw (e, f, report_command)
                        (observed-IsVetted peer.agent cmd status json calls v)
                ]
        ]

  handle_command-IsVetted :
      (cmd : EdgeCommand) (seq : ℕ) (calls : List Call)
      → IsVetted calls
      → IsVetted (handle_command crypto codec payloads peer c cmd seq calls).1
  unfolding handle_command
  handle_command-IsVetted cmd seq calls v =
      let calls' = acked cmd.command_id ∷ calls in
      let r = settle crypto codec payloads peer c cmd calls' in
      elim (Option-cases (peer.ack_command calls cmd.command_id)) [
        | inl e ↦
            rw (e, handle_command)
              (report_command-IsVetted cmd seq r.0.0 r.0.1 r.1 (settle-IsVetted cmd calls' refl v))
        | inr (x, e) ↦ rw (e, handle_command) v
      ]

  handle_commands-IsVetted :
      (cmds : List EdgeCommand) (seq : ℕ) (calls : List Call)
      → IsVetted calls
      → IsVetted (handle_commands crypto codec payloads peer c cmds seq calls).1
  unfolding handle_commands
  handle_commands-IsVetted [] seq calls v = v
  handle_commands-IsVetted (cmd ∷ cmds) seq calls v =
      let r = handle_command crypto codec payloads peer c cmd seq calls in
      let w = handle_command-IsVetted cmd seq calls v in
      elim (Result-cases r.0) [
        | inl (x, e) ↦ rw (e, handle_commands) w
        | inr ((evs, seq'), e) ↦
            let rest = handle_commands-IsVetted cmds seq' r.1 w in
            elim (Result-cases (handle_commands crypto codec payloads peer c cmds seq' r.1).0) [
              | inl (x, f) ↦ rw (e, f, handle_commands) rest
              | inr (more, f) ↦ rw (e, f, handle_commands) rest
            ]
      ]

  submit-IsVetted :
      (report : SyncReport) (evs : List EdgeEvent) (calls : List Call)
      → IsVetted calls
      → IsVetted (submit crypto codec payloads peer report evs calls).1
  unfolding submit
  submit-IsVetted report [] calls v = v
  submit-IsVetted report (ev ∷ evs) calls v =
      elim (Result-cases (peer.submit_events calls (ev ∷ evs))) [
        | inl (x, e) ↦ rw (e, submit) v
        | inr (res, e) ↦ rw (e, submit) v
      ]

  -- After a pass as before it, whatever the cloud and the executor answer and wherever the pass
  -- fails: every execution directly follows the acknowledgement of its command, and that command
  -- had cleared its checks: the signature verifies under a known cloud key, a payload that rode
  -- along hashes to the signed digest, and a grant that is named passes the whole checklist.
  pub sync_once-IsVetted :
      (calls : List Call)
      → IsVetted calls
      → IsVetted (sync_once crypto codec payloads peer c calls).1
  unfolding sync_once
  sync_once-IsVetted calls v = elim (Result-cases (peer.sync_edge calls)) [
    | inl (x, e) ↦ rw (e, sync_once) v
    | inr (res, e) ↦
        let seq = res.acked_device_sequence in
        let r = handle_commands crypto codec payloads peer c res.commands seq (synced ∷ calls) in
        let w = handle_commands-IsVetted res.commands seq (synced ∷ calls) v in
        elim (Result-cases r.0) [
          | inl (x, f) ↦ rw (e, f, sync_once) w
          | inr (evs, f) ↦ rw (e, f, sync_once) (submit-IsVetted _ evs r.1 w)
        ]
  ]
