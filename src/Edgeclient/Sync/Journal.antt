-- ===== src/Edgeclient/Sync/Journal.antt =====
-- The batch that a pass reports: its numbers, its receipts, their order and their signatures.
use rook_host.Base.{
  ◌≡◌, ◌∙◌, refl, true, List, [], ◌∷◌, ◌++◌, map, All, All-append, ℕ, arith, Option-cases, inl, inr,
}
use rook_host.Base.Bytes.{Bytes, str_eq, contains, str_eq_refl}
use rook_host.Base.Result.{ok, Result-cases}
use rook_host.Crypto.{Crypto}
use rook_host.Edgesign.Envelope.{EdgeCommand, EdgeEvent}
use rook_host.Edgesign.Grant.{GrantCodec}
use rook_host.Edgeclient.Events.{Payloads, result_event, event_type_command_result}
use rook_host.Edgeclient.Sync.{
  settle, agent_events, report_command, handle_command, handle_commands, signed,
}
use rook_host.Edgeclient.Protocol.{Client, Peer, Call, acked, next_seq, observed}
use rook_host.Edgeclient.Batch.{
  Numbered, receipts, IsIntroduced, id_of, Numbered-append, receipts_update, IsIntroduced-update,
}
use rook_host.Edgeclient.Sync.Envelopes.{
  IsSigned, IsEnveloped, IsUpdates, signed-IsSigned, signed_keeps, result_event-IsEnveloped,
  agent_events-IsUpdates,
}

module _ (crypto : Crypto) (codec : GrantCodec) (payloads : Payloads) (peer : Peer)
    (c : Client) where
  -- A batch for the commands, numbered from seq on.
  pub record IsJournal (seq : ℕ) (cmds : List EdgeCommand) (evs : List EdgeEvent) : Type 0 where
    pub numbered : Numbered seq evs
    pub outcomes : receipts evs ≡ map id_of cmds
    pub introduced : (seen : List Bytes) → IsIntroduced seen evs
    pub signatures : All (IsSigned crypto c.key) evs

  IsJournal-nil : (seq : ℕ) → IsJournal seq [] []
  IsJournal-nil seq = record {
    numbered = tt;
    outcomes = refl;
    introduced = λ seen. tt;
    signatures = tt;
  }

  -- A receipt, the updates behind it and a batch for the later commands.
  IsJournal-cons :
      (cmd : EdgeCommand) (cmds : List EdgeCommand) (seq last : ℕ) (ev : EdgeEvent)
      (upds rest : List EdgeEvent)
      → IsEnveloped cmd (next_seq seq) event_type_command_result ev
      → IsSigned crypto c.key ev
      → IsUpdates crypto c.key cmd (next_seq seq) last upds
      → IsJournal last cmds rest
      → IsJournal seq (cmd ∷ cmds) (ev ∷ upds ++ rest)
  unfolding contains
  IsJournal-cons cmd cmds seq last ev upds rest b s u j =
      let yes : str_eq ev.type event_type_command_result ≡ true =
        rw (b.2) (str_eq_refl event_type_command_result) in
      record {
        numbered = (
          b.0,
          rw (b.0) (Numbered-append (next_seq seq) upds rest u.numbered (rw⁻¹ (u.ends) j.numbered)),
        );
        outcomes = rw (yes, b.1, receipts_update cmd upds rest u.updates, j.outcomes) refl;
        introduced = λ seen. (
          inl b.2,
          IsIntroduced-update cmd (ev.command_id ∷ seen) upds rest
              (ground (arith, b.1, str_eq_refl cmd.command_id)) u.updates j.introduced,
        );
        signatures = (s, All-append (IsSigned crypto c.key) upds rest u.signatures j.signatures);
      }

  -- What report_command makes.
  report_command_block :
      (cmd : EdgeCommand) (seq last : ℕ) (status json : Bytes) (calls : List Call)
      (evs : List EdgeEvent)
      → (report_command crypto codec payloads peer c cmd seq status json calls).0 ≡ ok (evs, last)
      → (ev : EdgeEvent) × (upds : List EdgeEvent) × (evs ≡ ev ∷ upds)
        × IsEnveloped cmd (next_seq seq) event_type_command_result ev
        × IsSigned crypto c.key ev
        × IsUpdates crypto c.key cmd (next_seq seq) last upds
  unfolding report_command
  report_command_block cmd seq last status json calls evs h =
      let seq' = next_seq seq in
      let (upds, calls') = observed peer.agent cmd status json calls in
      elim (Result-cases
        (result_event crypto payloads cmd seq' status json (peer.timestamp calls seq'))) [
          | inl (x, e) ↦ absurd (ground (arith, h, e))
          | inr (ev, e) ↦
              elim (Result-cases
                (agent_events crypto codec payloads peer c cmd calls' seq' 0 upds)) [
                  | inl (x, f) ↦ absurd (ground (arith, h, e, f))
                  | inr ((more, l), f) ↦
                      let shape : evs ≡ signed crypto codec payloads peer c.key ev ∷ more =
                        ground (arith, h, e, f) in
                      let ends : last ≡ l = ground (arith, h, e, f) in
                      let k = signed_keeps crypto codec payloads peer c c.key ev in
                      let b =
                        result_event-IsEnveloped crypto codec payloads peer c cmd seq' status json _
                          ev e in
                      (
                        signed crypto codec payloads peer c.key ev,
                        more,
                        shape,
                        (k.0 ∙ b.0, k.1 ∙ b.1, k.2 ∙ b.2),
                        signed-IsSigned crypto codec payloads peer c ev,
                        rw (ends) (
                            agent_events-IsUpdates crypto codec payloads peer c cmd calls' seq' 0 l
                              upds more f),
                      )
                ]
        ]

  handle_command_block :
      (cmd : EdgeCommand) (seq last : ℕ) (calls : List Call) (evs : List EdgeEvent)
      → (handle_command crypto codec payloads peer c cmd seq calls).0 ≡ ok (evs, last)
      → (ev : EdgeEvent) × (upds : List EdgeEvent) × (evs ≡ ev ∷ upds)
        × IsEnveloped cmd (next_seq seq) event_type_command_result ev
        × IsSigned crypto c.key ev
        × IsUpdates crypto c.key cmd (next_seq seq) last upds
  unfolding handle_command
  handle_command_block cmd seq last calls evs h =
      let r = settle crypto codec payloads peer c cmd (acked cmd.command_id ∷ calls) in
      elim (Option-cases (peer.ack_command calls cmd.command_id)) [
        | inl e ↦ report_command_block cmd seq last r.0.0 r.0.1 r.1 evs (ground (arith, h, e))
        | inr (x, e) ↦ absurd (ground (arith, h, e))
      ]

  -- If the loop over the commands reports no error, its batch is numbered one after the other from
  -- the cursor on, it has exactly one receipt for each command, in the order of the commands, no
  -- session update stands before the receipt of its command, and every event verifies under the
  -- key of a client that has one.
  pub handle_commands-IsJournal :
      (cmds : List EdgeCommand) (seq : ℕ) (calls : List Call) (evs : List EdgeEvent)
      → (handle_commands crypto codec payloads peer c cmds seq calls).0 ≡ ok evs
      → IsJournal seq cmds evs
  unfolding handle_commands
  handle_commands-IsJournal [] seq calls evs h =
      let e : evs ≡ [] = ground (arith, h) in rw (e) (IsJournal-nil seq)
  handle_commands-IsJournal (cmd ∷ cmds) seq calls evs h =
      let r = handle_command crypto codec payloads peer c cmd seq calls in
      elim (Result-cases r.0) [
        | inl (x, e) ↦ absurd (ground (arith, h, e))
        | inr ((block, last), e) ↦
            elim (Result-cases (handle_commands crypto codec payloads peer c cmds last r.1).0) [
              | inl (x, f) ↦ absurd (ground (arith, h, e, f))
              | inr (more, f) ↦
                  let (ev, upds, shape, b, s, u) =
                    handle_command_block cmd seq last calls block e in
                  let all : evs ≡ ev ∷ upds ++ more = ground (arith, h, e, f, shape) in
                  rw (all) (
                    IsJournal-cons cmd cmds seq last ev upds more b s u
                      (handle_commands-IsJournal cmds last r.1 more f))
            ]
      ]
