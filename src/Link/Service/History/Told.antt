-- ===== src/Link/Service/History/Told.antt =====
-- What of a server's history reaches the executor.
use rook_host.Base.{◌≡◌, ◌⊎◌, refl, inl, inr, ◌∷◌, arith, Option, Bool}
use rook_host.Base.Bytes.{Bytes}
use rook_host.Base.Disk.{Fault}
use rook_host.Base.Result.{ok}
use rook_host.Crypto.{Crypto}
use rook_host.Base.Time.{Time}
use rook_host.Registry.Book.{cap_agent_answer, cap_agent_command}
use rook_host.Registry.Storage.{JsonCodec}
use rook_host.Projection.Command.{Command, Answer, valid_command, valid_answer}
use rook_host.Rpc.Link.{HostMethod, LinkMethod}
use rook_host.Link.Wire.{Timestamppb}
use rook_host.Link.Convert.Enums.{kind_from_proto}
use rook_host.Link.Server.{
  Server, Host, answer, execute, publish_status, publish_pane, revoke_device, drop_sessions,
}
use rook_host.Link.Server.Pairing.{
  PairRequest, AuthRequest, pair, redeem_and_register, register, challenge, authenticate,
  open_session,
}
use rook_host.Link.Server.Session.{
  AnswerRequest, CommandRequest, authorize, get_status, watch_status, get_digest, watch_pane,
}
use rook_host.Link.Server.Session.Effects.{
  IsSanctioned, submit_command-authorized, submit_answer-authorized,
}
use rook_host.Link.Service.{host, link, World, serve}
use rook_host.Link.Service.History.{
  ServerEvent, called, published, pane_published, revoked, regranted, window_opened, window_closed,
  streamed, pane_streamed, step,
}

-- The event that tells the executor a command, or an answer, and what it is told.
abbrev pub IsTold : Server → ServerEvent → Server → Type 0
IsTold s e s' =
    ((m : CommandRequest) × (bearer : Bytes) × (w : World) × (id : Bytes) × (c : Command) × (e
        ≡ called (link LinkMethod.submit_command) m bearer w)
      × IsSanctioned s bearer cap_agent_command w.at id
      × (valid_command (kind_from_proto m.kind) m.session_id m.workspace m.prompt w.then_at ≡ ok c)
      × (s'.effects ≡ execute c ∷ s.effects))
    ⊎ ((m : AnswerRequest) × (bearer : Bytes) × (w : World) × (id : Bytes) × (a : Answer) × (e
          ≡ called (link LinkMethod.submit_answer) m bearer w)
        × IsSanctioned s bearer cap_agent_answer w.at id
        × (valid_answer m.ask_id m.text w.then_at ≡ ok a)
        × (s'.effects ≡ answer a ∷ s.effects))

module _ (crypto : Crypto) (json : JsonCodec) (tpb : Timestamppb) (h : Host) where
  effects-register :
      (s : Server) (m : PairRequest) (now : Time) (fault : Fault)
      → (register crypto json h s m now fault).1.effects ≡ s.effects
  unfolding register drop_sessions
  effects-register s m now fault = ground arith

  effects-pair :
      (s : Server) (m : PairRequest) (t u : Time) (fault : Fault)
      → (pair crypto json h s m t u fault).1.effects ≡ s.effects
  unfolding pair redeem_and_register
  effects-pair s m t u fault = grind (arith, effects-register)

  effects-challenge :
      (s : Server) (id : Bytes) (raw : Option Bytes) (now : Time)
      → (challenge crypto json h s id raw now).1.effects ≡ s.effects
  unfolding challenge
  effects-challenge s id raw now = ground arith

  effects-authenticate :
      (s : Server) (m : AuthRequest) (raw : Option Bytes) (t u v : Time) (fault : Fault)
      → (authenticate crypto json h s m raw t u v fault).1.effects ≡ s.effects
  unfolding authenticate open_session
  effects-authenticate s m raw t u v fault = ground arith

  effects-revoke_device :
      (s : Server) (id : Bytes) (at : Time) (fault : Fault)
      → (revoke_device crypto json h s id at fault).1.effects ≡ s.effects
  unfolding revoke_device drop_sessions
  effects-revoke_device s id at fault = ground arith

  effects-get_status :
      (s : Server) (bearer : Bytes) (now : Time)
      → (get_status tpb s bearer now).1.effects ≡ s.effects
  unfolding get_status authorize
  effects-get_status s bearer now = ground arith

  effects-watch_status :
      (s : Server) (bearer : Bytes) (delivered : Bool) (now : Time)
      → (watch_status s bearer delivered now).1.effects ≡ s.effects
  unfolding watch_status authorize
  effects-watch_status s bearer delivered now = ground arith

  effects-get_digest :
      (s : Server) (bearer id : Bytes) (now : Time)
      → (get_digest tpb h s bearer id now).1.effects ≡ s.effects
  unfolding get_digest authorize
  effects-get_digest s bearer id now = ground arith

  effects-watch_pane :
      (s : Server) (bearer id : Bytes) (opens delivered : Bool) (now : Time)
      → (watch_pane h s bearer id opens delivered now).1.effects ≡ s.effects
  unfolding watch_pane authorize
  effects-watch_pane s bearer id opens delivered now = ground arith

  -- Of everything that can happen to a server, the executor is told of one thing only: a call of
  -- SubmitCommand or SubmitAnswer whose header is accepted at that moment for a device with the
  -- capability for it, and whose message the validation accepts; it is told that call, once, as
  -- the validation returns it. Every other event leaves the executor alone.
  pub executor-IsTold :
      (s : Server) (e : ServerEvent)
      → (let s' = step crypto json tpb h s e in (s'.effects ≡ s.effects) ⊎ IsTold s e s')
  unfolding step serve publish_status publish_pane
  executor-IsTold s (called (host HostMethod.get_host_info) q bearer w) = inl refl
  executor-IsTold s (called (host HostMethod.pair) q bearer w) =
      inl (effects-pair s q w.at w.then_at w.fault)
  executor-IsTold s (called (host HostMethod.challenge) q bearer w) =
      inl (effects-challenge s q w.random w.at)
  executor-IsTold s (called (host HostMethod.authenticate) q bearer w) =
      inl (effects-authenticate s q w.random w.at w.then_at w.last_at w.fault)
  executor-IsTold s (called (link LinkMethod.get_status) q bearer w) =
      inl (effects-get_status s bearer w.at)
  executor-IsTold s (called (link LinkMethod.watch_status) q bearer w) =
      inl (effects-watch_status s bearer w.delivered w.at)
  executor-IsTold s (called (link LinkMethod.get_digest) q bearer w) =
      inl (effects-get_digest s bearer q w.at)
  executor-IsTold s (called (link LinkMethod.watch_pane) q bearer w) =
      inl (effects-watch_pane s bearer q w.opens w.delivered w.at)
  executor-IsTold s (called (link LinkMethod.submit_command) q bearer w) =
      elim (submit_command-authorized json h s bearer w.at w.then_at w.last_at w.fault q) [
        | inl (e, refusal, same) ↦ inl same
        | inr (r, id, c, reply, sanctioned, valid, told, named) ↦
            inr (inl (q, bearer, w, id, c, refl, sanctioned, valid, told))
      ]
  executor-IsTold s (called (link LinkMethod.submit_answer) q bearer w) =
      elim (submit_answer-authorized json h s bearer w.at w.then_at w.last_at w.fault q) [
        | inl (e, refusal, same) ↦ inl same
        | inr (r, id, a, reply, sanctioned, valid, told) ↦
            inr (inr (q, bearer, w, id, a, refl, sanctioned, valid, told))
      ]
  executor-IsTold s (published status at) = inl refl
  executor-IsTold s (pane_published session_id f) = inl refl
  executor-IsTold s (revoked id at fault) = inl (effects-revoke_device s id at fault)
  executor-IsTold s (regranted id caps fault) = inl refl
  executor-IsTold s (window_opened raw at) = inl refl
  executor-IsTold s window_closed = inl refl
  executor-IsTold s (streamed i event) = inl refl
  executor-IsTold s (pane_streamed session_id i event) = inl refl
