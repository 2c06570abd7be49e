-- ===== src/Examples/Service.antt =====
-- The whole server: requests as they arrive, and a history from a new server on.
use rook_host.Base.{◌++◌, ◌≡◌, ◌⊎◌, refl, Option, none, some, true, List, [], ◌∷◌}
use rook_host.Base.Bytes.{Bytes, codes}
use rook_host.Base.Int.{pos}
use rook_host.Base.Disk.{no_fault}
use rook_host.Crypto.{toy_crypto}
use rook_host.Rpc.Link.{HostMethod, LinkMethod, host_procedure, link_procedure}
use rook_host.Link.Stream.{update_ready, ticked}
use rook_host.Link.Service.{
  Method, host, link, Request, World, Options, Wired, no_route, malformed, handle_http,
}
use rook_host.Link.Service.Gate.{IsAdmitted, handle_http_gated}
use rook_host.Link.Service.History.{
  ServerEvent, called, published, revoked, regranted, window_opened, streamed, step,
}
use rook_host.Examples.Codecs.{seconds_and_nanos}
use rook_host.Examples.Data.{busy_status, key}
use rook_host.Examples.Servers.{json, server, header, proof_of_key, compact_request}
use rook_host.Examples.Servers
use rook_host.Base.{false}
use rook_host.Base.Bytes.{has_prefix, trim_prefix, str_eq, contains}
use rook_host.Base.Result.{ok, err}
use rook_host.Registry.{allowed, get, revoke, save}
use rook_host.Registry.Book.{cap_status_read, cap_session_read, find}
use rook_host.Registry.Storage.{device_revoked, persist}
use rook_host.Link.Hub
use rook_host.Link.Hub.{Frame, current_frame}
use rook_host.Link.Stream.{Watcher}
use rook_host.Link.Tokens.{resolve}
use rook_host.Link.Server.{revoke_device}
use rook_host.Link.Server.Session.{authorize}
use rook_host.Link.Service.History.Told.{IsTold, executor-IsTold}
use rook_host.Link.Service.History.Late.{late_watcher_served}

abbrev world : World
world = record {
  at = 50;
  then_at = 51;
  last_at = 52;
  random = some (5 ∷ []);
  fault = no_fault;
  opens = true;
  delivered = true;
}

-- Messages that are one text.
abbrev decode : (m : Method) → Bytes → Option (Request m)
decode (link LinkMethod.watch_pane) body = some body
decode (link LinkMethod.get_digest) body = some body
decode (host HostMethod.challenge) body = some body
decode m body = none

abbrev pane_path : Bytes
pane_path = codes "/rook.link.v1.LinkService/WatchPane"

handle_http_gated_example :
    (let (reply, s') =
        handle_http toy_crypto json seconds_and_nanos Servers.host decode pane_path header
          (codes "s1")
          world
          server in
      (((reply ≡ no_route) ⊎ (reply ≡ malformed)) × (s' ≡ server))
      ⊎ ((m : HostMethod) × (pane_path ≡ host_procedure m))
      ⊎ ((m : LinkMethod) × (pane_path ≡ link_procedure m)
          × IsAdmitted m header world server (reply, s')))
handle_http_gated_example =
    handle_http_gated toy_crypto json seconds_and_nanos Servers.host decode pane_path header
      (codes "s1") world server

abbrev options : Options
options = record {
  identity = some (record { public_key = key 9; trust_domain_id = codes "td" });
  registry = some server.reg;
  pairing = none;
  executor = some Servers.host.exec;
  host_name = codes "mac";
  has_panes = true;
  digests = none;
  heartbeat = pos 0;
}

abbrev wired : Wired
wired = record {
  host = Servers.host;
  heartbeat = 25000000000;
  server = record server {
    pairs = record { secret = []; expires = 0 };
    tokens = λ k. none;
    nonces = λ k. none;
  };
}

-- The capabilities to read.
abbrev reading : List Bytes
reading = cap_status_read ∷ cap_session_read ∷ []

-- A device authenticates, watches, loses the capabilities to act, and is revoked while its stream runs.
abbrev history : List ServerEvent
history =
    window_opened (some (1 ∷ [])) 40
    ∷ called (host HostMethod.challenge) (codes "phone") []
        (record world { random = some (7 ∷ []) })
    ∷ called (host HostMethod.authenticate) proof_of_key [] world
    ∷ called (link LinkMethod.watch_status) tt (codes "Bearer link-BQ") world
    ∷ published busy_status 51
    ∷ streamed 0 (update_ready true)
    ∷ regranted (codes "phone") reading no_fault
    ∷ called (link LinkMethod.watch_pane) (codes "s1") (codes "Bearer link-BQ") world
    ∷ revoked (codes "phone") 60 no_fault
    ∷ streamed 0 (ticked true)
    ∷ []

-- The phone is accepted, revoked, and then subscribes.
phone_accepted : (authorize server header cap_status_read 50).0 ≡ ok (codes "phone")
unfolding authorize has_prefix trim_prefix resolve str_eq allowed get find contains
phone_accepted = refl

phone_revoked :
    (revoke_device toy_crypto json Servers.host
      (authorize server header cap_status_read 50).1
      (codes "phone")
      51
      no_fault).0
    ≡ ok tt
unfolding authorize has_prefix trim_prefix resolve str_eq allowed get find contains revoke_device
    revoke save persist
phone_revoked = refl

late_watcher_served_example :
    (let s' =
        (revoke_device toy_crypto json Servers.host
          (authorize server header cap_status_read 50).1
          (codes "phone")
          51
          no_fault).1 in
      let h = Hub.publish (Hub.subscribe s'.hub (codes "phone") true) busy_status 52 in
      ((c : Bytes) → allowed s'.reg (codes "phone") c ≡ err device_revoked)
      × ((w : Watcher Frame) × (others : List (Watcher Frame)) × (h.subs ≡ others ++ w ∷ [])
          × (w.device_id ≡ codes "phone")
          × (w.member ≡ true)
          × (w.gone ≡ false)
          × (w.updates ≡ some (current_frame h))))
late_watcher_served_example =
    late_watcher_served toy_crypto json Servers.host server header (codes "phone") 50 51 52 no_fault
      busy_status phone_accepted phone_revoked

-- The call that sends the compact command with the token of the phone.
abbrev compact_call : ServerEvent
compact_call = called (link LinkMethod.submit_command) compact_request header world

executor-IsTold_example :
    (let s' = step toy_crypto json seconds_and_nanos Servers.host server compact_call in
      (s'.effects ≡ server.effects) ⊎ IsTold server compact_call s')
executor-IsTold_example =
    executor-IsTold toy_crypto json seconds_and_nanos Servers.host server compact_call
