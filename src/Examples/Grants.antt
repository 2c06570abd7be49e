-- ===== src/Examples/Grants.antt =====
-- Approval grants.
use rook_host.Base.{◌≡◌, ◌↔◌, refl, true, none, some, [], ◌∷◌}
use rook_host.Base.Bytes.{Bytes, codes}
use rook_host.Crypto.{toy_crypto}
use rook_host.Base.Result.{ok}
use rook_host.Edgesign.Grant.{GrantDoc, GrantCodec, grant_schema, action_text, verify_command_grant}
use rook_host.Edgesign.Grant.Checks.{IsGranted, verify_command_grant-exact}
use rook_host.Examples.Data.{order}

abbrev grant : Bytes → GrantDoc
grant signature = record {
  schema = grant_schema;
  grant_id = codes "g";
  request_id = codes "q";
  actor_id = codes "human";
  action_type = codes "run";
  action_digest = codes "sha256:00";
  resource_scope = codes "device:d" ∷ codes "repo:x" ∷ [];
  workflow_run_id = codes "r";
  issued_at = [];
  expires_at = codes "later";
  single_use = true;
  server_signature = signature;
}

-- A codec that writes a document as its id, knows one document, and reads every time as 100.
abbrev pub codec : GrantCodec
codec = record {
  marshal = λ doc. some doc.grant_id;
  unmarshal = λ raw. some (grant []);
  encode64 = λ s. s;
  decode64 = λ s. some s;
  parse_time = λ s. some 100;
  decode64-encode64 = λ s. refl;
}

verify_command_grant-exact_example :
    (verify_command_grant toy_crypto codec none (order []) 50 ≡ ok (grant []))
    ↔ IsGranted toy_crypto codec none (order []) 50 (grant [])
verify_command_grant-exact_example =
    verify_command_grant-exact toy_crypto codec none (order []) 50 (grant [])

-- Where scoping fields have a bar, the text does not determine the run and the device.
action_text_collides :
    action_text (codes "r|d") (codes "e") (codes "t") (codes "x") []
    ≡ action_text (codes "r") (codes "d|e") (codes "t") (codes "x") []
unfolding action_text
action_text_collides = refl
