-- ===== src/Edgesign/Grant.antt =====
-- edgesign/grant.go: approval grants, and the checks that a device makes before a command that
-- carries one. encoding/json, encoding/base64 and time.Parse are an interface.
pub mod Checks
pub mod Action
use rook_host.Base.{
  ℕ, ◌≡◌, ◌/◌, ◌%◌, Option, none, some, Bool, true, false, not, ◌&&◌, List, [], ◌∷◌, ◌++◌,
}
use rook_host.Base.Bytes.{Bytes, codes, str_eq, is_empty, contains}
use rook_host.Base.Time.{Time, after}
use rook_host.Base.Result.{Result, ok, err, require, ◌>>=◌, ◌>>◌}
use rook_host.Crypto.{Crypto}
use rook_host.Projection.Text.{hex_digit}
use rook_host.Edgesign.Envelope.{EdgeCommand}

pub record GrantDoc : Type 0 where
  pub schema : Bytes
  pub grant_id : Bytes
  pub request_id : Bytes
  pub actor_id : Bytes
  pub action_type : Bytes
  pub action_digest : Bytes
  pub resource_scope : List Bytes
  pub workflow_run_id : Bytes
  pub issued_at : Bytes
  pub expires_at : Bytes
  pub single_use : Bool
  pub server_signature : Bytes

abbrev pub grant_schema : Bytes
grant_schema = codes "rook.approval_grant.v1"

-- json.Marshal, json.Unmarshal, base64.StdEncoding and time.Parse(time.RFC3339, _). What base64
-- encodes it decodes.
pub record GrantCodec : Type 0 where
  pub marshal : GrantDoc → Option Bytes
  pub unmarshal : Bytes → Option GrantDoc
  pub encode64 : Bytes → Bytes
  pub decode64 : Bytes → Option Bytes
  pub parse_time : Bytes → Option Time
  pub decode64-encode64 : (s : Bytes) → decode64 (encode64 s) ≡ some s

-- The errors of VerifyCommandGrant, in the order in which they are looked for.
pub data GrantError : Type 0 where
  no_document no_payload wrong_payload not_json wrong_schema wrong_grant : GrantError
  bad_signature bad_expiry expired wrong_run out_of_scope wrong_action : GrantError

-- hex.EncodeToString
unfoldable pub hex_encode : Bytes → Bytes
hex_encode [] = []
hex_encode (b ∷ s) = hex_digit (b / 16) ∷ hex_digit (b % 16) ∷ hex_encode s

-- The text "%s|%s|%s|%s|%s" of ActionDigest.
unfoldable pub action_text : Bytes → Bytes → Bytes → Bytes → Bytes → Bytes
action_text run device type id payload =
    run ++ (124 ∷ (device ++ (124 ∷ (type ++ (124 ∷ (id ++ (124 ∷ payload)))))))

module _ (crypto : Crypto) (codec : GrantCodec) where
  -- ActionDigest
  unfoldable pub action_digest : Bytes → Bytes → Bytes → Bytes → Bytes → Bytes
  unfolding hex_encode action_text
  action_digest run device type id payload =
      hex_encode (crypto.sha256 (action_text run device type id payload))

  -- SignGrant; `none` where the document cannot be marshalled.
  unfoldable pub sign_grant : Bytes → GrantDoc → Option GrantDoc
  sign_grant priv doc = elim (codec.marshal (record doc { server_signature = [] })) [
    | none ↦ none
    | some unsigned ↦
        some (record doc { server_signature = codec.encode64 (crypto.sign priv unsigned) })
  ]

  -- VerifyGrantSignature
  unfoldable pub verify_grant_signature : Bytes → GrantDoc → Bool
  verify_grant_signature key doc = elim (codec.decode64 doc.server_signature) [
    | none ↦ false
    | some sig ↦ elim (codec.marshal (record doc { server_signature = [] })) [
      | none ↦ false
      | some unsigned ↦ not (is_empty sig) && crypto.verify key unsigned sig
    ]
  ]

  -- VerifiedLedgerPayload
  unfoldable pub verified_ledger_payload : EdgeCommand → Result GrantError Bytes
  verified_ledger_payload cmd =
      require (not (is_empty cmd.ledger_payload)) no_payload
      >> require (str_eq (crypto.sha256 cmd.ledger_payload) cmd.payload_digest) wrong_payload
      >> ok cmd.ledger_payload

  -- `cloudKey != nil && !VerifyGrantSignature(cloudKey, doc)` does not hold.
  abbrev pub signature_holds : Option Bytes → GrantDoc → Bool
  signature_holds none doc = true
  signature_holds (some key) doc = verify_grant_signature key doc

  -- The checks after the expiry is parsed.
  unfoldable pub check_binding :
      EdgeCommand → GrantDoc → Bytes → Time → Time → Result GrantError GrantDoc
  check_binding cmd doc payload now expires =
      require (not (after now expires)) expired
      >> require (str_eq doc.workflow_run_id cmd.workflow_run_id) wrong_run
      >> require (contains doc.resource_scope (codes "device:" ++ cmd.device_id)) out_of_scope
      >> require (contains doc.resource_scope (cmd.resource_type ++ (58 ∷ cmd.resource_id)))
          out_of_scope
      >> require
          (str_eq doc.action_digest (
            codes "sha256:"
            ++ action_digest cmd.workflow_run_id cmd.device_id cmd.resource_type cmd.resource_id
                payload))
          wrong_action
      >> ok doc

  -- The checks of a document.
  unfoldable pub check_grant :
      Option Bytes → EdgeCommand → GrantDoc → Bytes → Time → Result GrantError GrantDoc
  check_grant cloud_key cmd doc payload now =
      require (str_eq doc.schema grant_schema) wrong_schema
      >> require (str_eq doc.grant_id cmd.approval_grant_id) wrong_grant
      >> require (signature_holds cloud_key doc) bad_signature
      >> elim (codec.parse_time doc.expires_at) [
        | none ↦ err bad_expiry
        | some expires ↦ check_binding cmd doc payload now expires
      ]

  -- VerifyCommandGrant
  unfoldable pub verify_command_grant :
      Option Bytes → EdgeCommand → Time → Result GrantError GrantDoc
  verify_command_grant cloud_key cmd now =
      require (not (is_empty cmd.approval_grant)) no_document
      >> (verified_ledger_payload cmd >>= λ payload. elim (codec.unmarshal cmd.approval_grant) [
        | none ↦ err not_json
        | some doc ↦ check_grant cloud_key cmd doc payload now
      ])
