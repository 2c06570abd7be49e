-- ===== src/Link/Server/Session.antt =====
-- link/server.go: LinkService, the handlers of a session. Each answers with a response or an error,
-- and the server it leaves. `bearer` is the Authorization header.
pub mod Effects
pub mod Codes
use rook_host.Base.{
  ℕ, Option, none, some, Bool, not, ◌||◌, ◌&&◌, List, ◌∷◌, length, ltb, if◌then◌else◌,
}
use rook_host.Base.Bytes.{Bytes, codes, is_empty, has_prefix, trim_prefix}
use rook_host.Base.Time.{Time}
use rook_host.Base.Result.{Result, ok, err}
use rook_host.Crypto.{Crypto}
use rook_host.Projection.Text.{trim_space}
use rook_host.Projection.Command.{valid_answer, valid_command, max_ask_id_len}
use rook_host.Projection.Digest
use rook_host.Registry
use rook_host.Registry.Book.{cap_status_read, cap_session_read, cap_agent_answer, cap_agent_command}
use rook_host.Registry.Storage.{JsonCodec}
use rook_host.Base.Disk.{Fault}
use rook_host.Link.Wire.{Timestamppb, StatusMsg, DigestMsg, CommandKind, DispositionCode}
use rook_host.Link.Convert.{status_to_proto, digest_to_proto}
use rook_host.Link.Convert.Enums.{kind_from_proto, disposition_to_proto}
use rook_host.Link.Errors.{
  LinkError, no_token, bad_token, not_allowed, invalid, no_digests, no_session_id, no_digest,
  no_panes, bad_pane_session, pane_source_failed,
}
use rook_host.Link.Tokens
use rook_host.Link.Hub
use rook_host.Link.PaneHub
use rook_host.Link.Server.{Server, Host, Effect, Outcome, answer, execute}

abbrev pub bearer_prefix : Bytes
bearer_prefix = codes "Bearer link-"

-- authorize: the device that the header's token names, if it may do this.
unfoldable pub authorize : Server → Bytes → Bytes → Time → Result LinkError Bytes × Server
authorize s bearer capability now =
    if not (has_prefix bearer bearer_prefix)
    then (err no_token, s)
    else let (id, tokens') = Tokens.resolve s.tokens (trim_prefix bearer bearer_prefix) now in
      let s' = record s { tokens = tokens' } in
      if is_empty id then (err bad_token, s') else elim (Registry.allowed s.reg id capability) [
        | err e ↦ (err (not_allowed e), s')
        | ok _ ↦ (ok id, s')
      ]

-- `if err != nil { return err }` after authorize.
abbrev pub authorized :
    {A : Type 0}
    → Server
    → Bytes
    → Bytes
    → Time
    → (Server → Bytes → Result LinkError A × Server)
    → Result LinkError A × Server
authorized s bearer capability now body =
    let (result, s') = authorize s bearer capability now in
    elim result [ err e ↦ (err e, s') | ok id ↦ body s' id ]

pub record StatusResponse : Type 0 where
  pub status : StatusMsg
  pub seq : ℕ

pub record AnswerResponse : Type 0 where
  pub disposition : DispositionCode
  pub note : Bytes

pub record CommandResponse : Type 0 where
  pub command_id : Bytes
  pub disposition : DispositionCode
  pub note : Bytes

pub record AnswerRequest : Type 0 where
  pub ask_id : Bytes
  pub text : Bytes

pub record CommandRequest : Type 0 where
  pub kind : CommandKind
  pub session_id : Bytes
  pub workspace : Bytes
  pub prompt : Bytes

-- GetStatus
unfoldable pub get_status :
    Timestamppb → Server → Bytes → Time → Result LinkError StatusResponse × Server
get_status tpb s bearer now = authorized s bearer cap_status_read now λ s' id.
    let (cur, at, seq) = Hub.snapshot s'.hub in
    (ok (record { status = status_to_proto tpb cur at; seq = seq }), s')

-- WatchStatus, up to its loop: the subscription with the opening send.
unfoldable pub watch_status : Server → Bytes → Bool → Time → Result LinkError (Unit {0}) × Server
watch_status s bearer delivered now =
    authorized s bearer cap_status_read now
      λ s' id. (ok tt, record s' { hub = Hub.subscribe s'.hub id delivered })

-- len(sessionID) is from 1 to 128.
abbrev pub bad_session_id : Bytes → Bool
bad_session_id id = is_empty id || ltb max_ask_id_len (length id)

-- GetDigest
unfoldable pub get_digest :
    Timestamppb → Host → Server → Bytes → Bytes → Time → Result LinkError DigestMsg × Server
get_digest tpb host s bearer session_id now = authorized s bearer cap_session_read now λ s' id.
    elim host.digests [
      | none ↦ (err no_digests, s')
      | some digest_for ↦
          if bad_session_id session_id
          then (err no_session_id, s')
          else elim (digest_for session_id) [
            | none ↦ (err no_digest, s')
            | some d ↦ (ok (digest_to_proto tpb (Digest.clamp d)), s')
          ]
    ]

module _ (json : JsonCodec) (host : Host) where
  -- s.exec
  abbrev pub perform : Server → Effect → Outcome × Server
  perform s e = (host.exec s.effects e, record s { effects = e ∷ s.effects })

  -- s.reg.Touch
  abbrev pub touch : Server → Bytes → Time → Fault → Server
  touch s id now fault = record s { reg = Registry.touch json s.reg id now fault }

  -- SubmitAnswer
  unfoldable pub submit_answer :
      Server
      → Bytes
      → AnswerRequest
      → Time
      → Time
      → Time
      → Fault
      → Result LinkError AnswerResponse × Server
  submit_answer s bearer m now validated_at touched_at fault =
      authorized s bearer cap_agent_answer now λ s' id.
        elim (valid_answer m.ask_id m.text validated_at) [
          | err e ↦ (err (invalid e), s')
          | ok a ↦
              let (out, s'') = perform s' (answer a) in
              (
                ok (record { disposition = disposition_to_proto out.disposition; note = out.note }),
                touch s'' id touched_at fault,
              )
        ]

  -- SubmitCommand
  unfoldable pub submit_command :
      Server
      → Bytes
      → CommandRequest
      → Time
      → Time
      → Time
      → Fault
      → Result LinkError CommandResponse × Server
  submit_command s bearer m now validated_at touched_at fault =
      authorized s bearer cap_agent_command now λ s' id.
        elim (valid_command (kind_from_proto m.kind) m.session_id m.workspace m.prompt
          validated_at) [
            | err e ↦ (err (invalid e), s')
            | ok c ↦
                let (out, s'') = perform s' (execute c) in
                (
                  ok (record {
                    command_id = c.id;
                    disposition = disposition_to_proto out.disposition;
                    note = out.note;
                  }),
                  touch s'' id touched_at fault,
                )
          ]

-- WatchPane, up to its loop; `opens` says whether the source's Open succeeds.
unfoldable pub watch_pane :
    Host → Server → Bytes → Bytes → Bool → Bool → Time → Result LinkError (Unit {0}) × Server
watch_pane host s bearer session_id opens delivered now =
    authorized s bearer cap_session_read now λ s' id.
      let session = trim_space session_id in
      if not host.has_panes
      then (err no_panes, s')
      else if bad_session_id session
      then (err bad_pane_session, s')
      else let panes' = PaneHub.subscribe s'.panes id session opens delivered in
        let refused = not (PaneHub.source_is_open session s'.panes) && not opens in
        (if refused then err pane_source_failed else ok tt, record s' { panes = panes' })
