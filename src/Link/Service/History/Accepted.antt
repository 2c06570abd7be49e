-- ===== src/Link/Service/History/Accepted.antt =====
-- The server that authorize leaves, and the device that it has accepted.
use rook_host.Base.{◌≡◌, arith, Option-cases, inl, inr, if◌then◌else◌, if_both}
use rook_host.Base.Bytes.{Bytes, has_prefix, trim_prefix}
use rook_host.Base.Time.{Time}
use rook_host.Base.Result.{ok}
use rook_host.Registry.{Registry}
use rook_host.Link.Tokens.{Tokens, resolve}
use rook_host.Link.Server.{Server}
use rook_host.Link.Server.Session.{authorize, bearer_prefix}
use rook_host.Link.Server.Session.Effects.{authorize_sound}
use rook_host.Link.Service.History.Serving.{IsServing, IsNamed, IsAllowed}

-- Resolving a token forgets tokens at most.
resolve-IsNamed :
    (r : Registry) (t : Tokens) (tok : Bytes) (now : Time)
    → IsNamed r t
    → IsNamed r (resolve t tok now).1
unfolding resolve
resolve-IsNamed r t tok now n j session h = elim (Option-cases (t tok)) [
  | inl e ↦ n j session (ground arith)
  | inr (v, e) ↦ n j session (ground arith)
]

-- The tokens that authorize leaves.
abbrev resolved : Server → Bytes → Time → Tokens
resolved s bearer now =
    if has_prefix bearer bearer_prefix
    then (resolve s.tokens (trim_prefix bearer bearer_prefix) now).1
    else s.tokens

authorize-resolved :
    (s : Server) (bearer capability : Bytes) (now : Time)
    → (authorize s bearer capability now).1 ≡ record s { tokens = resolved s bearer now }
unfolding authorize
authorize-resolved s bearer capability now = ground arith

module _ (s : Server) (bearer capability : Bytes) (now : Time) (v : IsServing s) where
  abbrev left : Server
  left = (authorize s bearer capability now).1

  pub left-IsServing : IsServing left
  left-IsServing = rw (authorize-resolved s bearer capability now) (record {
    tokens =
        if_both (IsNamed s.reg) (has_prefix bearer bearer_prefix) _ s.tokens
          (resolve-IsNamed s.reg s.tokens (trim_prefix bearer bearer_prefix) now v.tokens) v.tokens;
    streams = v.streams;
    panes = v.panes;
  })

  pub accepted-IsAllowed :
      (id : Bytes)
      → (authorize s bearer capability now).0 ≡ ok id
      → IsAllowed left.reg capability id
  accepted-IsAllowed id h =
      let (p, t, e, a) = authorize_sound s bearer capability now id h in
      rw (authorize-resolved s bearer capability now) a
