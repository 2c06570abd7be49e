-- ===== src/Link/Server/Session/Effects.antt =====
-- Who may reach the executor, and with what.
use rook_host.Base.{
  ◌≡◌, ◌⊎◌, ◌↔◌, inl, inr, refl, some, true, false, ◌∷◌, Option, arith, Option-cases, Bool-cases,
}
use rook_host.Base.Bytes.{Bytes, is_empty, has_prefix, trim_prefix}
use rook_host.Base.Time.{Time, before}
use rook_host.Base.Result.{ok, err, Result-cases}
use rook_host.Projection.Command.{Command, Answer, valid_command, valid_answer}
use rook_host.Registry.{allowed}
use rook_host.Registry.Book.{cap_agent_answer, cap_agent_command}
use rook_host.Registry.Storage.{JsonCodec}
use rook_host.Base.Disk.{Fault}
use rook_host.Link.Convert.Enums.{kind_from_proto, disposition_to_proto}
use rook_host.Link.Errors.{LinkError, invalid}
use rook_host.Link.Tokens.{Session, resolve}
use rook_host.Link.Server.{Server, Host, answer, execute}
use rook_host.Link.Server.Session.{
  authorize, bearer_prefix, submit_answer, submit_command, CommandRequest, AnswerRequest,
  CommandResponse, AnswerResponse,
}

-- The header carries a live token of the device, and the registry allows the device the capability.
abbrev pub IsSanctioned : Server → Bytes → Bytes → Time → Bytes → Type 0
IsSanctioned s bearer capability now id =
    (has_prefix bearer bearer_prefix ≡ true)
    × ((session : Session) × (s.tokens (trim_prefix bearer bearer_prefix) ≡ some session)
        × (before now session.expires ≡ true)
        × (session.device_id ≡ id))
    × (is_empty id ≡ false)
    × (allowed s.reg id capability ≡ ok tt)

-- The entry of the token that the header carries.
abbrev session_of : Server → Bytes → Option Session
session_of s bearer = s.tokens (trim_prefix bearer bearer_prefix)

pub authorize_sound :
    (s : Server) (bearer capability : Bytes) (now : Time) (id : Bytes)
    → (authorize s bearer capability now).0 ≡ ok id
    → IsSanctioned s bearer capability now id
unfolding authorize resolve
authorize_sound s bearer capability now id h = elim (Bool-cases (has_prefix bearer bearer_prefix)) [
  | inr e ↦ absurd (ground arith)
  | inl e ↦ elim (Option-cases (session_of s bearer)) [
    | inl t ↦ absurd (ground arith)
    | inr (session, t) ↦ elim (Bool-cases (before now session.expires)) [
      | inr x ↦ absurd (ground arith)
      | inl x ↦ elim (Bool-cases (is_empty session.device_id)) [
        | inl y ↦ absurd (ground arith)
        | inr y ↦ elim (Result-cases (allowed s.reg session.device_id capability)) [
          | inl (f, z) ↦ absurd (ground arith)
          | inr (u, z) ↦
              let same : session.device_id ≡ id = ground arith in
              (e, (session, t, x, same), ground arith, ground arith)
        ]
      ]
    ]
  ]
]

authorize_complete :
    (s : Server) (bearer capability : Bytes) (now : Time) (id : Bytes)
    → IsSanctioned s bearer capability now id
    → (authorize s bearer capability now).0 ≡ ok id
unfolding authorize resolve
authorize_complete s bearer capability now id (p, (session, t, l, i), e, a) = ground arith

-- A header is accepted exactly where it carries the prefix and a token that is known, not expired
-- and minted for the device, and the registry allows that device the capability at that moment.
pub authorize-exact :
    (s : Server) (bearer capability : Bytes) (now : Time) (id : Bytes)
    → ((authorize s bearer capability now).0 ≡ ok id) ↔ IsSanctioned s bearer capability now id
authorize-exact s bearer capability now id =
    (authorize_sound s bearer capability now id, authorize_complete s bearer capability now id)

effects-authorize :
    (s : Server) (bearer capability : Bytes) (now : Time)
    → (authorize s bearer capability now).1.effects ≡ s.effects
unfolding authorize
effects-authorize s bearer capability now = ground arith

module _ (json : JsonCodec) (host : Host) (s : Server) (bearer : Bytes)
    (now validated_at touched_at : Time) (fault : Fault) where
  -- The executor is told nothing by a command that is refused; it is told one command by a command
  -- that is answered, and then the header was accepted for a device with the capability
  -- agent.command, what the executor is told is what the validation returns, and the answer
  -- names that command.
  pub submit_command-authorized :
      (m : CommandRequest)
      → (let (result, s') = submit_command json host s bearer m now validated_at touched_at fault in
          ((e : LinkError) × (result ≡ err e) × (s'.effects ≡ s.effects))
          ⊎ ((r : CommandResponse) × (id : Bytes) × (c : Command) × (result ≡ ok r)
              × IsSanctioned s bearer cap_agent_command now id
              × (valid_command
                    (kind_from_proto m.kind)
                    m.session_id
                    m.workspace
                    m.prompt
                    validated_at
                  ≡ ok c)
              × (s'.effects ≡ execute c ∷ s.effects)
              × (r.command_id ≡ c.id)))
  unfolding submit_command
  submit_command-authorized m = elim (Result-cases (authorize s bearer cap_agent_command now).0) [
    | inl (e, h) ↦
        inl (e, ground arith, ground (arith, effects-authorize s bearer cap_agent_command now))
    | inr (id, h) ↦
        elim (Result-cases
          (valid_command (kind_from_proto m.kind) m.session_id m.workspace m.prompt validated_at)) [
            | inl (e, v) ↦ inl (
              invalid e,
              ground arith,
              ground (arith, effects-authorize s bearer cap_agent_command now),
            )
            | inr (c, v) ↦
                let out =
                  host.exec (authorize s bearer cap_agent_command now).1.effects (execute c) in
                let r : CommandResponse = record {
                  command_id = c.id;
                  disposition = disposition_to_proto out.disposition;
                  note = out.note;
                } in
                inr (
                  r,
                  id,
                  c,
                  ground arith,
                  authorize_sound s bearer cap_agent_command now id h,
                  v,
                  ground (arith, effects-authorize s bearer cap_agent_command now),
                  refl,
                )
          ]
  ]

  -- The same for an answer, with the capability agent.answer.
  pub submit_answer-authorized :
      (m : AnswerRequest)
      → (let (result, s') = submit_answer json host s bearer m now validated_at touched_at fault in
          ((e : LinkError) × (result ≡ err e) × (s'.effects ≡ s.effects))
          ⊎ ((r : AnswerResponse) × (id : Bytes) × (a : Answer) × (result ≡ ok r)
              × IsSanctioned s bearer cap_agent_answer now id
              × (valid_answer m.ask_id m.text validated_at ≡ ok a)
              × (s'.effects ≡ answer a ∷ s.effects)))
  unfolding submit_answer
  submit_answer-authorized m = elim (Result-cases (authorize s bearer cap_agent_answer now).0) [
    | inl (e, h) ↦
        inl (e, ground arith, ground (arith, effects-authorize s bearer cap_agent_answer now))
    | inr (id, h) ↦ elim (Result-cases (valid_answer m.ask_id m.text validated_at)) [
      | inl (e, v) ↦
          inl (
            invalid e,
            ground arith,
            ground (arith, effects-authorize s bearer cap_agent_answer now),
          )
      | inr (a, v) ↦
          let out = host.exec (authorize s bearer cap_agent_answer now).1.effects (answer a) in
          let r : AnswerResponse = record {
            disposition = disposition_to_proto out.disposition;
            note = out.note;
          } in
          inr (
            r,
            id,
            a,
            ground arith,
            authorize_sound s bearer cap_agent_answer now id h,
            v,
            ground (arith, effects-authorize s bearer cap_agent_answer now),
          )
    ]
  ]
