-- ===== src/Rpc/Routes.antt =====
-- Where the calls of the generated clients arrive.
use rook_host.Base.{◌≡◌, refl, some, Option, [], ◌∷◌, map, ◌==◌, if◌then◌else◌, arith, ◌++◌}
use rook_host.Base.Bytes.{Bytes, str_eq, str_eq_iff}
use rook_host.Rpc.{CallKind, trim_slashes, not_implemented}
use rook_host.Rpc.Link.{
  HostMethod, LinkMethod, host_procedure, link_procedure, host_call, link_call, host_handler,
  link_handler, new_host_service_client, new_link_service_client, host_unimplemented,
  link_unimplemented,
}
use rook_host.Rpc.Edge.{
  EdgeMethod, edge_procedure, edge_call, edge_handler, new_edge_service_client, edge_unimplemented,
}

-- A handler finds a method only under its procedure.
pub host_handler-procedure :
    (path : Bytes) (kind : CallKind) (m : HostMethod)
    → host_handler path ≡ some (kind, m)
    → path ≡ host_procedure m
unfolding host_handler
host_handler-procedure path kind m h = grind (arith, str_eq_iff)

pub link_handler-procedure :
    (path : Bytes) (kind : CallKind) (m : LinkMethod)
    → link_handler path ≡ some (kind, m)
    → path ≡ link_procedure m
unfolding link_handler
link_handler-procedure path kind m h = grind (arith, str_eq_iff)

pub edge_handler-procedure :
    (path : Bytes) (kind : CallKind) (m : EdgeMethod)
    → edge_handler path ≡ some (kind, m)
    → path ≡ edge_procedure m
unfolding edge_handler
edge_handler-procedure path kind m h = grind (arith, str_eq_iff)

-- A call of the client goes to its procedure below the base URL, and the handler finds the method
-- there, with the kind of the call.
abbrev pub Arrives :
    {M : Type 0} → (Bytes → Option (CallKind × M)) → Bytes → Bytes → M → CallKind × Bytes → Type 0
Arrives handler base procedure m (kind, url) =
    (url ≡ trim_slashes base ++ procedure) × (handler procedure ≡ some (kind, m))

pub host_call-Arrives :
    (base : Bytes) (m : HostMethod)
    → Arrives host_handler base (host_procedure m) m (host_call (new_host_service_client base) m)
unfolding host_call new_host_service_client host_handler host_procedure str_eq
host_call-Arrives base HostMethod.get_host_info = (refl, refl)
host_call-Arrives base HostMethod.pair = (refl, refl)
host_call-Arrives base HostMethod.challenge = (refl, refl)
host_call-Arrives base HostMethod.authenticate = (refl, refl)

pub link_call-Arrives :
    (base : Bytes) (m : LinkMethod)
    → Arrives link_handler base (link_procedure m) m (link_call (new_link_service_client base) m)
unfolding link_call new_link_service_client link_handler link_procedure str_eq
link_call-Arrives base LinkMethod.get_status = (refl, refl)
link_call-Arrives base LinkMethod.watch_status = (refl, refl)
link_call-Arrives base LinkMethod.submit_answer = (refl, refl)
link_call-Arrives base LinkMethod.submit_command = (refl, refl)
link_call-Arrives base LinkMethod.get_digest = (refl, refl)
link_call-Arrives base LinkMethod.watch_pane = (refl, refl)

pub edge_call-Arrives :
    (base : Bytes) (m : EdgeMethod)
    → Arrives edge_handler base (edge_procedure m) m (edge_call (new_edge_service_client base) m)
unfolding edge_call new_edge_service_client edge_handler edge_procedure str_eq
edge_call-Arrives base EdgeMethod.register_device = (refl, refl)
edge_call-Arrives base EdgeMethod.sync_edge = (refl, refl)
edge_call-Arrives base EdgeMethod.ack_command = (refl, refl)
edge_call-Arrives base EdgeMethod.submit_events = (refl, refl)
edge_call-Arrives base EdgeMethod.renew_leases = (refl, refl)
edge_call-Arrives base EdgeMethod.watch_edge = (refl, refl)
edge_call-Arrives base EdgeMethod.resolve_artifact_upload = (refl, refl)

-- A procedure's name in reflection: without the leading slash, and with a period for the other.
abbrev dotted : Bytes → Bytes
dotted [] = []
dotted (b ∷ s) = map (λ c. if c == b'/' then b'.' else c) s

-- An unimplemented method names itself as reflection does.
host_unimplemented-dotted :
    (m : HostMethod) → host_unimplemented m ≡ not_implemented (dotted (host_procedure m))
unfolding host_unimplemented host_procedure
host_unimplemented-dotted HostMethod.get_host_info = refl
host_unimplemented-dotted HostMethod.pair = refl
host_unimplemented-dotted HostMethod.challenge = refl
host_unimplemented-dotted HostMethod.authenticate = refl

link_unimplemented-dotted :
    (m : LinkMethod) → link_unimplemented m ≡ not_implemented (dotted (link_procedure m))
unfolding link_unimplemented link_procedure
link_unimplemented-dotted LinkMethod.get_status = refl
link_unimplemented-dotted LinkMethod.watch_status = refl
link_unimplemented-dotted LinkMethod.submit_answer = refl
link_unimplemented-dotted LinkMethod.submit_command = refl
link_unimplemented-dotted LinkMethod.get_digest = refl
link_unimplemented-dotted LinkMethod.watch_pane = refl

edge_unimplemented-dotted :
    (m : EdgeMethod) → edge_unimplemented m ≡ not_implemented (dotted (edge_procedure m))
unfolding edge_unimplemented edge_procedure
edge_unimplemented-dotted EdgeMethod.register_device = refl
edge_unimplemented-dotted EdgeMethod.sync_edge = refl
edge_unimplemented-dotted EdgeMethod.ack_command = refl
edge_unimplemented-dotted EdgeMethod.submit_events = refl
edge_unimplemented-dotted EdgeMethod.renew_leases = refl
edge_unimplemented-dotted EdgeMethod.watch_edge = refl
edge_unimplemented-dotted EdgeMethod.resolve_artifact_upload = refl
