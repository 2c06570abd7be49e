-- ===== src/Link/Service/Routes.antt =====
-- Where a request goes: the mux, and behind it the two generated handlers.
use rook_host.Base.{◌≡◌, ◌⊎◌, inl, inr, refl, Option, some, none, arith, Bool-cases, ap, ◌∙◌}
use rook_host.Base.Bytes.{Bytes, has_prefix}
use rook_host.Rpc.{CallKind, mux, best_mount}
use rook_host.Rpc.Link.{
  HostMethod, LinkMethod, host_pattern, link_pattern, host_procedure, link_procedure, host_handler,
  link_handler, host_call, link_call, new_host_service_client, new_link_service_client,
}
use rook_host.Rpc.Routes.{
  Arrives, host_call-Arrives, link_call-Arrives, host_handler-procedure, link_handler-procedure,
}
use rook_host.Link.Service.{Method, host, link, route, as_host, as_link}

-- The path of a method.
abbrev pub procedure : Method → Bytes
procedure (host m) = host_procedure m
procedure (link m) = link_procedure m

-- The call of a method by the generated client for a base URL.
abbrev pub call : Bytes → Method → CallKind × Bytes
call base (host m) = host_call (new_host_service_client base) m
call base (link m) = link_call (new_link_service_client base) m

from_host :
    (o : Option (CallKind × HostMethod)) (kind : CallKind) (m : Method)
    → as_host o ≡ some (kind, m)
    → (x : HostMethod) × (o ≡ some (kind, x)) × (m ≡ host x)
from_host none kind m h = absurd (cc)
from_host (some (k, x)) kind m h = (x, cc, cc)

from_link :
    (o : Option (CallKind × LinkMethod)) (kind : CallKind) (m : Method)
    → as_link o ≡ some (kind, m)
    → (x : LinkMethod) × (o ≡ some (kind, x)) × (m ≡ link x)
from_link none kind m h = absurd (cc)
from_link (some (k, x)) kind m h = (x, cc, cc)

-- What the mux finds, one of the two handlers has found.
route_from :
    (path : Bytes) (kind : CallKind) (m : Method)
    → route path ≡ some (kind, m)
    → (as_host (host_handler path) ≡ some (kind, m))
      ⊎ (as_link (link_handler path) ≡ some (kind, m))
unfolding route mux best_mount
route_from path kind m h = elim (Bool-cases (has_prefix path host_pattern)) [
  | inl e ↦ inl (ground arith)
  | inr e ↦ elim (Bool-cases (has_prefix path link_pattern)) [
    | inl f ↦ inr (ground arith)
    | inr f ↦ absurd (ground arith)
  ]
]

pub route-procedure :
    (path : Bytes) (kind : CallKind) (m : Method) → route path ≡ some (kind, m) → path ≡ procedure m
route-procedure path kind m h = elim (route_from path kind m h) [
  | inl e ↦
      let (x, f, g) = from_host (host_handler path) kind m e in
      rw g (host_handler-procedure path kind x f)
  | inr e ↦
      let (x, f, g) = from_link (link_handler path) kind m e in
      rw g (link_handler-procedure path kind x f)
]

-- The mux picks the handler of the method's service.
route-host : (m : HostMethod) → route (host_procedure m) ≡ as_host (host_handler (host_procedure m))
unfolding route mux best_mount has_prefix host_procedure
route-host HostMethod.get_host_info = refl
route-host HostMethod.pair = refl
route-host HostMethod.challenge = refl
route-host HostMethod.authenticate = refl

route-link : (m : LinkMethod) → route (link_procedure m) ≡ as_link (link_handler (link_procedure m))
unfolding route mux best_mount has_prefix link_procedure
route-link LinkMethod.get_status = refl
route-link LinkMethod.watch_status = refl
route-link LinkMethod.submit_answer = refl
route-link LinkMethod.submit_command = refl
route-link LinkMethod.get_digest = refl
route-link LinkMethod.watch_pane = refl

call-Arrives : (base : Bytes) (m : Method) → Arrives route base (procedure m) m (call base m)
call-Arrives base (host m) =
    let (url, found) = host_call-Arrives base m in (url, route-host m ∙ ap as_host found)
call-Arrives base (link m) =
    let (url, found) = link_call-Arrives base m in (url, route-link m ∙ ap as_link found)

-- Every call of a method of either service by its generated client goes to a path below the base
-- URL where the mux of the server finds that method, as a call of the same kind; and the mux finds
-- a method on no path but its procedure.
pub calls_arrive :
    (base : Bytes) (m : Method)
    → Arrives route base (procedure m) m (call base m)
      × ((path : Bytes) (kind : CallKind) → route path ≡ some (kind, m) → path ≡ procedure m)
calls_arrive base m = (call-Arrives base m, λ path kind h. route-procedure path kind m h)
