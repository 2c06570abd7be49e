-- ===== src/Edgesign/Grant/Checks.antt =====
-- What a grant that passes the checks shows, and that signed documents pass the signature check.
use rook_host.Base.{
  ◌≡◌, ◌↔◌, refl, ap, Option, some, Bool, true, false, ◌++◌, ◌∷◌, [], arith, Option-cases, inl, inr,
  ◌∙◌,
}
use rook_host.Base.Bytes.{Bytes, codes, str_eq, str_eq_iff, str_eq→eq, is_empty, contains}
use rook_host.Base.Time.{Time, after}
use rook_host.Base.Result.{Result, ok, require, ◌>>◌}
use rook_host.Crypto.{Crypto}
use rook_host.Edgesign.Envelope.{EdgeCommand}
use rook_host.Edgesign.Grant.{
  GrantDoc, GrantCodec, grant_schema, action_digest, sign_grant, verify_grant_signature,
  verified_ledger_payload, signature_holds, check_binding, check_grant, verify_command_grant,
}

-- A chain of checks succeeds exactly if each check does.
require_iff :
    {E A : Type 0} (b : Bool) (e : E) (m : Result E A) (a : A)
    → ((require b e >> m) ≡ ok a) ↔ ((b ≡ true) × (m ≡ ok a))
require_iff true e m a = (λ h. (refl, h), λ h. h.1)
require_iff false e m a = (λ h. absurd (ground arith), λ h. absurd (ground arith))

module _ (crypto : Crypto) (codec : GrantCodec) where
  -- Everything that §12.2 asks of a grant and the command that carries it.
  pub record IsGranted (cloud_key : Option Bytes) (cmd : EdgeCommand) (now : Time) (doc : GrantDoc)
      : Type 0 where
    pub carried : is_empty cmd.approval_grant ≡ false
    pub has_payload : is_empty cmd.ledger_payload ≡ false
    pub payload : crypto.sha256 cmd.ledger_payload ≡ cmd.payload_digest
    pub parsed : codec.unmarshal cmd.approval_grant ≡ some doc
    pub schema : doc.schema ≡ grant_schema
    pub grant : doc.grant_id ≡ cmd.approval_grant_id
    pub signed : signature_holds crypto codec cloud_key doc ≡ true
    pub expires : Time
    pub expiry : codec.parse_time doc.expires_at ≡ some expires
    pub live : after now expires ≡ false
    pub run : doc.workflow_run_id ≡ cmd.workflow_run_id
    pub device : contains doc.resource_scope (codes "device:" ++ cmd.device_id) ≡ true
    pub resource : contains doc.resource_scope (cmd.resource_type ++ (58 ∷ cmd.resource_id)) ≡ true
    pub action :
        doc.action_digest
        ≡ codes "sha256:"
          ++ action_digest crypto codec cmd.workflow_run_id cmd.device_id cmd.resource_type
              cmd.resource_id cmd.ledger_payload

  grant_complete :
      (cloud_key : Option Bytes) (cmd : EdgeCommand) (now : Time) (doc : GrantDoc)
      → IsGranted cloud_key cmd now doc
      → verify_command_grant crypto codec cloud_key cmd now ≡ ok doc
  unfolding verify_command_grant verified_ledger_payload check_grant check_binding
  grant_complete cloud_key cmd now doc g = rw (
    g.carried,
    g.has_payload,
    (str_eq_iff _ _).1 g.payload,
    g.parsed,
    (str_eq_iff _ _).1 g.schema,
    (str_eq_iff _ _).1 g.grant,
    g.signed,
    g.expiry,
    g.live,
    (str_eq_iff _ _).1 g.run,
    g.device,
    g.resource,
    (str_eq_iff _ _).1 g.action,
  )

  binding_sound :
      (cmd : EdgeCommand) (doc d : GrantDoc) (payload : Bytes) (now expires : Time)
      → check_binding crypto codec cmd d payload now expires ≡ ok doc
      → (d ≡ doc)
        × (after now expires ≡ false)
        × (d.workflow_run_id ≡ cmd.workflow_run_id)
        × (contains d.resource_scope (codes "device:" ++ cmd.device_id) ≡ true)
        × (contains d.resource_scope (cmd.resource_type ++ (58 ∷ cmd.resource_id)) ≡ true)
        × (d.action_digest
            ≡ codes "sha256:"
              ++ action_digest crypto codec cmd.workflow_run_id cmd.device_id cmd.resource_type
                  cmd.resource_id payload)
  unfolding check_binding
  binding_sound cmd doc d payload now expires h =
      let run : str_eq d.workflow_run_id cmd.workflow_run_id ≡ true = ground arith in
      let action : str_eq d.action_digest (
            codes "sha256:"
            ++ action_digest crypto codec cmd.workflow_run_id cmd.device_id cmd.resource_type
                cmd.resource_id payload)
          ≡ true =
        ground arith in
      (
        ground arith,
        ground arith,
        str_eq→eq _ _ run,
        ground arith,
        ground arith,
        str_eq→eq _ _ action,
      )

  grant_sound :
      (cloud_key : Option Bytes) (cmd : EdgeCommand) (now : Time) (doc : GrantDoc)
      → verify_command_grant crypto codec cloud_key cmd now ≡ ok doc
      → IsGranted cloud_key cmd now doc
  unfolding verify_command_grant verified_ledger_payload check_grant
  grant_sound cloud_key cmd now doc h = elim (Option-cases (codec.unmarshal cmd.approval_grant)) [
    | inl e ↦ absurd (ground arith)
    | inr (d, e) ↦ elim (Option-cases (codec.parse_time d.expires_at)) [
      | inl t ↦ absurd (ground arith)
      | inr (expires, t) ↦
          let bound : check_binding crypto codec cmd d cmd.ledger_payload now expires ≡ ok doc =
            ground arith in
          let (same, live, run, device, resource, action) =
            binding_sound cmd doc d cmd.ledger_payload now expires bound in
          let has_payload : is_empty cmd.ledger_payload ≡ false = ground arith in
          let sum : str_eq (crypto.sha256 cmd.ledger_payload) cmd.payload_digest ≡ true =
            ground arith in
          let schema : str_eq d.schema grant_schema ≡ true = ground arith in
          let grant : str_eq d.grant_id cmd.approval_grant_id ≡ true = ground arith in
          let signed : signature_holds crypto codec cloud_key d ≡ true = ground arith in
          let granted : IsGranted cloud_key cmd now d = record {
            carried = ground arith;
            has_payload = has_payload;
            payload = str_eq→eq _ _ sum;
            parsed = e;
            schema = str_eq→eq _ _ schema;
            grant = str_eq→eq _ _ grant;
            signed = signed;
            expires = expires;
            expiry = t;
            live = live;
            run = run;
            device = device;
            resource = resource;
            action = action;
          } in
          rw same at granted
    ]
  ]

  -- VerifyCommandGrant accepts exactly where everything that the checklist names holds: the
  -- document is carried and parses with the right schema and id, it is signed (if a key is known)
  -- and not expired, it is for the command's run, its scope has the device and the resource, and
  -- its action digest is that of the command with the ledger payload that the envelope signs.
  pub verify_command_grant-exact :
      (cloud_key : Option Bytes) (cmd : EdgeCommand) (now : Time) (doc : GrantDoc)
      → (verify_command_grant crypto codec cloud_key cmd now ≡ ok doc)
        ↔ IsGranted cloud_key cmd now doc
  verify_command_grant-exact cloud_key cmd now doc =
      (grant_sound cloud_key cmd now doc, grant_complete cloud_key cmd now doc)

  -- A document that SignGrant signs passes VerifyGrantSignature under the key's public half.
  pub verify_grant_signature-sign_grant :
      (priv : Bytes) (doc signed : GrantDoc)
      → sign_grant crypto codec priv doc ≡ some signed
      → verify_grant_signature crypto codec (crypto.public_key priv) signed ≡ true
  unfolding sign_grant verify_grant_signature
  verify_grant_signature-sign_grant priv doc signed h =
      elim (Option-cases (codec.marshal (record doc { server_signature = [] }))) [
        | inl e ↦ absurd (ground arith)
        | inr (unsigned, e) ↦
            let sig = crypto.sign priv unsigned in
            let made : signed ≡ record doc { server_signature = codec.encode64 sig } =
              ground arith in
            let decoded : codec.decode64 signed.server_signature ≡ some sig =
              ap (λ d. codec.decode64 d.server_signature) made ∙ codec.decode64-encode64 sig in
            let text : codec.marshal (record signed { server_signature = [] }) ≡ some unsigned =
              ap (λ d. codec.marshal (record d { server_signature = [] })) made ∙ e in
            rw (verify_grant_signature, decoded, text)
              (ground (arith, crypto.verify-sign priv unsigned, crypto.length-sign priv unsigned))
      ]
