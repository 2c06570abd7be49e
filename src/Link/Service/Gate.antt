-- ===== src/Link/Service/Gate.antt =====
-- Who gets past the transport's front door.
use rook_host.Base.{◌≡◌, ◌⊎◌, inl, inr, refl, Option, some, none, arith, Option-cases, ap, ◌∙◌}
use rook_host.Base.Bytes.{Bytes, codes}
use rook_host.Base.Time.{Time}
use rook_host.Base.Result.{Result, err, Result-cases}
use rook_host.Registry.Book.{cap_status_read, cap_session_read, cap_agent_answer, cap_agent_command}
use rook_host.Link.Errors.{LinkError}
use rook_host.Link.Tokens.{Tokens}
use rook_host.Link.Server.{Server, Host}
use rook_host.Link.Server.Session.{
  authorize, get_status, watch_status, submit_answer, submit_command, get_digest, watch_pane,
}
use rook_host.Crypto.{Crypto}
use rook_host.Registry.Storage.{JsonCodec}
use rook_host.Link.Wire.{Timestamppb}
use rook_host.Rpc.Link.{HostMethod, LinkMethod, host_procedure, link_procedure}
use rook_host.Link.Service.{
  Method, host, link, Request, World, serve, Reply, no_route, malformed, answered, answer_with,
  handle_http, route,
}
use rook_host.Link.Service.Routes.{route-procedure}
use rook_host.Link.Server.Session.Effects.{IsSanctioned, authorize_sound}
use rook_host.Link.Server.Session.Codes.{IsTurnedAway, authorize_refused}

-- A call that is turned away with its reason, which leaves everything but the tokens; or one whose
-- header is accepted.
abbrev pub IsGated :
    {A : Type 0} → Server → Bytes → Bytes → Time → Result LinkError A × Server → Type 0
IsGated s bearer capability now (result, s') =
    ((e : LinkError) × (result ≡ err e)
      × IsTurnedAway s bearer capability now e
      × (t : Tokens) × (s' ≡ record s { tokens = t }))
    ⊎ ((id : Bytes) × IsSanctioned s bearer capability now id)

authorize_leaves :
    (s : Server) (bearer capability : Bytes) (now : Time)
    → (t : Tokens) × ((authorize s bearer capability now).1 ≡ record s { tokens = t })
unfolding authorize
authorize_leaves s bearer capability now =
    ((authorize s bearer capability now).1.tokens, ground arith)

-- A handler that returns what authorize refuses.
guarded-IsGated :
    {A : Type 0} (s : Server) (bearer capability : Bytes) (now : Time)
    (out : Result LinkError A × Server)
    → ((e : LinkError)
        → (authorize s bearer capability now).0 ≡ err e
        → out ≡ (err e, (authorize s bearer capability now).1))
    → IsGated s bearer capability now out
guarded-IsGated s bearer capability now out guard =
    let (t, left) = authorize_leaves s bearer capability now in
    elim (Result-cases (authorize s bearer capability now).0) [
      | inl (e, h) ↦ inl (
        e,
        ap (λ o. o.0) (guard e h),
        authorize_refused s bearer capability now e h,
        t,
        ap (λ o. o.1) (guard e h) ∙ left,
      )
      | inr (id, h) ↦ inr (id, authorize_sound s bearer capability now id h)
    ]

-- The capability that the protocol definition states for each method of LinkService.
abbrev pub required : LinkMethod → Bytes
required LinkMethod.get_status = codes "status.read"
required LinkMethod.watch_status = codes "status.read"
required LinkMethod.submit_answer = codes "agent.answer"
required LinkMethod.submit_command = codes "agent.command"
required LinkMethod.get_digest = codes "session.read"
required LinkMethod.watch_pane = codes "session.read"

-- What a request that finds a method of LinkService comes to.
abbrev pub IsAdmitted : LinkMethod → Bytes → World → Server → Reply × Server → Type 0
IsAdmitted m bearer w s (reply, s') =
    ((e : LinkError) × (reply ≡ answered (link m) (err e))
      × IsTurnedAway s bearer (required m) w.at e
      × (t : Tokens) × (s' ≡ record s { tokens = t }))
    ⊎ ((id : Bytes) × IsSanctioned s bearer (required m) w.at id)

module _ (crypto : Crypto) (json : JsonCodec) (tpb : Timestamppb) (h : Host) where
  serve-IsGated :
      (m : LinkMethod) (q : Request (link m)) (bearer : Bytes) (w : World) (s : Server)
      → IsGated s bearer (required m) w.at (serve crypto json tpb h (link m) q bearer w s)
  unfolding serve get_status watch_status submit_answer submit_command get_digest watch_pane
  serve-IsGated LinkMethod.get_status q bearer w s =
      guarded-IsGated s bearer cap_status_read w.at (get_status tpb s bearer w.at)
        (λ e x. ground arith)
  serve-IsGated LinkMethod.watch_status q bearer w s =
      guarded-IsGated s bearer cap_status_read w.at (watch_status s bearer w.delivered w.at)
        (λ e x. ground arith)
  serve-IsGated LinkMethod.submit_answer q bearer w s =
      guarded-IsGated s bearer cap_agent_answer w.at
        (submit_answer json h s bearer q w.at w.then_at w.last_at w.fault) (λ e x. ground arith)
  serve-IsGated LinkMethod.submit_command q bearer w s =
      guarded-IsGated s bearer cap_agent_command w.at
        (submit_command json h s bearer q w.at w.then_at w.last_at w.fault) (λ e x. ground arith)
  serve-IsGated LinkMethod.get_digest q bearer w s =
      guarded-IsGated s bearer cap_session_read w.at (get_digest tpb h s bearer q w.at)
        (λ e x. ground arith)
  serve-IsGated LinkMethod.watch_pane q bearer w s =
      guarded-IsGated s bearer cap_session_read w.at
        (watch_pane h s bearer q w.opens w.delivered w.at) (λ e x. ground arith)

  answer_with-IsAdmitted :
      (decode : (m : Method) → Bytes → Option (Request m)) (m : LinkMethod)
      (q : Option (Request (link m))) (bearer : Bytes) (w : World) (s : Server)
      → (let (reply, s') = answer_with crypto json tpb h decode (link m) q bearer w s in
          ((reply ≡ malformed) × (s' ≡ s)) ⊎ IsAdmitted m bearer w s (reply, s'))
  answer_with-IsAdmitted decode m none bearer w s = inl (refl, refl)
  answer_with-IsAdmitted decode m (some q) bearer w s = elim (serve-IsGated m q bearer w s) [
    | inl (e, r, turned, t, left) ↦ inr (inl (e, ap (answered (link m)) r, turned, t, left))
    | inr (id, x) ↦ inr (inr (id, x))
  ]

  -- A request reaches code behind a capability only with it. Whatever its path, header and body,
  -- it is answered that there is no such path or that the message is malformed, and the server is
  -- as it was; or its path is a procedure of HostService; or its path is the procedure of a method
  -- of LinkService, and either it is answered with an error whose code tells whether the header
  -- has no live token or its device lacks the capability that the protocol states for the method,
  -- and nothing but the tokens has changed, or the header is accepted for that capability.
  pub handle_http_gated :
      (decode : (m : Method) → Bytes → Option (Request m)) (path bearer body : Bytes) (w : World)
      (s : Server)
      → (let (reply, s') = handle_http crypto json tpb h decode path bearer body w s in
          (((reply ≡ no_route) ⊎ (reply ≡ malformed)) × (s' ≡ s))
          ⊎ ((m : HostMethod) × (path ≡ host_procedure m))
          ⊎ ((m : LinkMethod) × (path ≡ link_procedure m) × IsAdmitted m bearer w s (reply, s')))
  unfolding handle_http
  handle_http_gated decode path bearer body w s = elim (Option-cases (route path)) [
    | inl e ↦ rw (e, handle_http) (inl (inl refl, refl))
    | inr ((kind, host m), e) ↦ inr (inl (m, route-procedure path kind (host m) e))
    | inr ((kind, link m), e) ↦
        elim (answer_with-IsAdmitted decode m (decode (link m) body) bearer w s) [
          | inl (r, left) ↦ rw (e, handle_http) (inl (inr r, left))
          | inr x ↦ rw (e, handle_http) (inr (inr (m, route-procedure path kind (link m) e, x)))
        ]
  ]
