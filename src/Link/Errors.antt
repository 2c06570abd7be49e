-- ===== src/Link/Errors.antt =====
-- The errors of link/server.go: one constructor for each place that makes one, and the connect code
-- that it carries.
use rook_host.Registry.Storage.{RegistryError}
use rook_host.Projection.Command.{ProjectionError}

pub data Code : Type 0 where
  failed_precondition invalid_argument permission_denied internal : Code
  unauthenticated unimplemented not_found unavailable : Code

pub data LinkError : Type 0 where
  wrong_protocol bad_device_key bad_proof no_pairing_window : LinkError
  not_registered : RegistryError → LinkError
  unknown_or_revoked no_random bad_challenge bad_challenge_signature : LinkError
  no_token bad_token : LinkError
  not_allowed : RegistryError → LinkError
  no_digests no_session_id no_digest : LinkError
  no_panes bad_pane_session pane_source_failed : LinkError
  invalid : ProjectionError → LinkError

unfoldable pub code_of : LinkError → Code
code_of wrong_protocol = failed_precondition
code_of bad_device_key = invalid_argument
code_of bad_proof = permission_denied
code_of no_pairing_window = permission_denied
code_of (not_registered e) = invalid_argument
code_of unknown_or_revoked = permission_denied
code_of no_random = internal
code_of bad_challenge = permission_denied
code_of bad_challenge_signature = permission_denied
code_of no_token = unauthenticated
code_of bad_token = unauthenticated
code_of (not_allowed e) = permission_denied
code_of no_digests = unimplemented
code_of no_session_id = invalid_argument
code_of no_digest = not_found
code_of no_panes = unimplemented
code_of bad_pane_session = invalid_argument
code_of pane_source_failed = unavailable
code_of (invalid e) = invalid_argument
