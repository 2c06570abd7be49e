-- ===== src/Link/Server/Session/Codes.antt =====
-- Which connect code a refused command gets.
use rook_host.Base.{◌≡◌, ◌⊎◌, inl, inr, refl, some, true, false, arith, Option-cases, Bool-cases}
use rook_host.Base.Bytes.{Bytes, is_empty, has_prefix, trim_prefix}
use rook_host.Base.Time.{Time, before}
use rook_host.Base.Result.{err, Result-cases}
use rook_host.Projection.Command.{ProjectionError, valid_command}
use rook_host.Registry.{allowed}
use rook_host.Registry.Book.{cap_agent_command}
use rook_host.Registry.Storage.{JsonCodec, RegistryError}
use rook_host.Base.Disk.{Fault}
use rook_host.Link.Convert.Enums.{kind_from_proto}
use rook_host.Link.Errors.{LinkError, code_of, unauthenticated, permission_denied, invalid_argument}
use rook_host.Link.Tokens.{Session, resolve}
use rook_host.Link.Server.{Server, Host}
use rook_host.Link.Server.Session.{authorize, bearer_prefix, submit_command, CommandRequest}
use rook_host.Link.Server.Session.Effects.{IsSanctioned, authorize_sound}

-- The header carries a token that is known and live, of a device with this id.
abbrev pub HasToken : Server → Bytes → Time → Bytes → Type 0
HasToken s bearer now id =
    (has_prefix bearer bearer_prefix ≡ true)
    × ((session : Session) × (s.tokens (trim_prefix bearer bearer_prefix) ≡ some session)
        × (before now session.expires ≡ true)
        × (session.device_id ≡ id))
    × (is_empty id ≡ false)

-- A refusal by authorize.
abbrev pub IsTurnedAway : Server → Bytes → Bytes → Time → LinkError → Type 0
IsTurnedAway s bearer capability now e =
    ((code_of e ≡ unauthenticated) × ¬ ((id : Bytes) × HasToken s bearer now id))
    ⊎ ((code_of e ≡ permission_denied)
        × (id : Bytes) × HasToken s bearer now id
        × (x : RegistryError) × (allowed s.reg id capability ≡ err x))

pub authorize_refused :
    (s : Server) (bearer capability : Bytes) (now : Time) (e : LinkError)
    → (authorize s bearer capability now).0 ≡ err e
    → IsTurnedAway s bearer capability now e
unfolding authorize resolve code_of
authorize_refused s bearer capability now e h =
    elim (Bool-cases (has_prefix bearer bearer_prefix)) [
      | inr p ↦ inl (ground arith, λ (id, (q, t, n)). ground arith)
      | inl p ↦ elim (Option-cases (s.tokens (trim_prefix bearer bearer_prefix))) [
        | inl t ↦ inl (ground arith, λ (id, (q, (session, u, l, i), n)). ground arith)
        | inr (session, t) ↦ elim (Bool-cases (before now session.expires)) [
          | inr x ↦ inl (ground arith, λ (id, (q, (session', u, l, i), n)). ground arith)
          | inl x ↦ elim (Bool-cases (is_empty session.device_id)) [
            | inl y ↦ inl (ground arith, λ (id, (q, (session', u, l, i), n)). ground arith)
            | inr y ↦ elim (Result-cases (allowed s.reg session.device_id capability)) [
              | inl (f, z) ↦
                  inr (ground arith, session.device_id, (p, (session, t, x, refl), y), f, z)
              | inr (u, z) ↦ absurd (ground arith)
            ]
          ]
        ]
      ]
    ]

module _ (json : JsonCodec) (host : Host) (s : Server) (bearer : Bytes)
    (now validated_at touched_at : Time) (fault : Fault) where
  -- Every error of SubmitCommand has one of three codes, with its reason: unauthenticated, and the
  -- header carries no live token of any device; permission denied, and it carries one of a device
  -- that the registry refuses the capability; invalid argument, and the header was accepted but
  -- the validation refused the command.
  pub submit_command-codes :
      (m : CommandRequest) (e : LinkError)
      → (submit_command json host s bearer m now validated_at touched_at fault).0 ≡ err e
      → IsTurnedAway s bearer cap_agent_command now e
        ⊎ ((code_of e ≡ invalid_argument)
            × ((id : Bytes) × IsSanctioned s bearer cap_agent_command now id)
            × (x : ProjectionError) × (valid_command
                  (kind_from_proto m.kind)
                  m.session_id
                  m.workspace
                  m.prompt
                  validated_at
                ≡ err x))
  unfolding submit_command code_of
  submit_command-codes m e h = elim (Result-cases (authorize s bearer cap_agent_command now).0) [
    | inl (x, a) ↦
        let same : x ≡ e = ground arith in
        inl (authorize_refused s bearer cap_agent_command now e (rw (← same) a))
    | inr (id, a) ↦
        elim (Result-cases
          (valid_command (kind_from_proto m.kind) m.session_id m.workspace m.prompt validated_at)) [
            | inl (x, v) ↦
                inr (ground arith, (id, authorize_sound s bearer cap_agent_command now id a), x, v)
            | inr (c, v) ↦ absurd (ground arith)
          ]
  ]
