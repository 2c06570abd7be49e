-- ===== src/Edgeclient/Sync/Cleared.antt =====
-- What a command that refuse lets through has passed.
use rook_host.Base.{◌≡◌, none, some, true, false, arith, inl, inr}
use rook_host.Base.Bytes.{Bytes, is_empty, str_eq, str_eq→eq}
use rook_host.Base.Time.{Time}
use rook_host.Base.Result.{Result-cases}
use rook_host.Crypto.{Crypto}
use rook_host.Edgesign.Envelope.{EdgeCommand, verify_command}
use rook_host.Edgesign.Grant.{GrantCodec, GrantDoc, verified_ledger_payload, verify_command_grant}
use rook_host.Edgesign.Grant.Checks.{IsGranted, verify_command_grant-exact}
use rook_host.Edgeclient.Events.{Payloads}
use rook_host.Edgeclient.Sync.{payload_refusal, grant_refusal, refuse}
use rook_host.Edgeclient.Protocol.{Client, Peer}

module _ (crypto : Crypto) (codec : GrantCodec) (payloads : Payloads) (peer : Peer) where
  -- The signature verifies under a known cloud key, a payload that rode along is the signed one,
  -- and a grant that the command names passes the whole checklist.
  pub record IsCleared (c : Client) (cmd : EdgeCommand) (now : Time) : Type 0 where
    pub signature : (key : Bytes) → c.cloud_key ≡ some key → verify_command crypto key cmd ≡ true
    pub payload :
        is_empty cmd.ledger_payload ≡ false → crypto.sha256 cmd.ledger_payload ≡ cmd.payload_digest
    pub grant :
        is_empty cmd.approval_grant_id ≡ false
        → (doc : GrantDoc) × IsGranted crypto codec c.cloud_key cmd now doc

  ledger_sound :
      (cmd : EdgeCommand)
      → payload_refusal crypto codec payloads peer cmd ≡ none
      → is_empty cmd.ledger_payload ≡ false
      → crypto.sha256 cmd.ledger_payload ≡ cmd.payload_digest
  unfolding payload_refusal verified_ledger_payload
  ledger_sound cmd h e =
      let same : str_eq (crypto.sha256 cmd.ledger_payload) cmd.payload_digest ≡ true =
        ground arith in
      str_eq→eq _ _ same

  grant_sound :
      (c : Client) (cmd : EdgeCommand) (now : Time)
      → grant_refusal crypto codec payloads peer c cmd now ≡ none
      → is_empty cmd.approval_grant_id ≡ false
      → (doc : GrantDoc) × IsGranted crypto codec c.cloud_key cmd now doc
  unfolding grant_refusal
  grant_sound c cmd now h e =
      elim (Result-cases (verify_command_grant crypto codec c.cloud_key cmd now)) [
        | inl (x, f) ↦ absurd (ground arith)
        | inr (doc, f) ↦
            (doc, (verify_command_grant-exact crypto codec c.cloud_key cmd now doc).0 f)
      ]

  pub refuse-IsCleared :
      (c : Client) (cmd : EdgeCommand) (now : Time)
      → refuse crypto codec payloads peer c cmd now ≡ none
      → IsCleared c cmd now
  unfolding refuse
  refuse-IsCleared c cmd now h = record {
    signature = λ key e. ground arith;
    payload = ledger_sound cmd (ground arith);
    grant = grant_sound c cmd now (ground arith);
  }
