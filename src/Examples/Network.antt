-- ===== src/Examples/Network.antt =====
-- What goes over the network: a listener, an advertisement, and the calls of the generated clients.
use rook_host.Base.{
  ◌≡◌, ◌≢◌, ◌++◌, ◌<◌, ◌%◌, ◌/◌, ◌*◌, ℕ, refl, true, false, none, some, List, [], ◌∷◌, length, map,
  if◌then◌else◌,
}
use rook_host.Base.Bytes.{Bytes, codes, str_eq}
use rook_host.Base.Map.{empty}
use rook_host.Base.Time.{second}
use rook_host.Base.Result.{ok, err}
use rook_host.Bonjour.{
  Info, Registration, Responder, Config, txt_keys, entry, empty_record, advertise_system,
  advertise_dnssd, txt, txt_record,
}
use rook_host.Bonjour.Txt.{read_txt}
use rook_host.Bonjour.Advertised.{hint, registered_as_advertised}
use rook_host.Rpc.{CallKind}
use rook_host.Rpc.Edge.{EdgeMethod, edge_procedure, edge_handler}
use rook_host.Rpc.Link.{LinkMethod}
use rook_host.Rpc.Routes.{Arrives}
use rook_host.Edgeclient.Bearer.{authorization, new_rpc, rpc_call, calls_carry_token}
use rook_host.Link.Service.{link, route}
use rook_host.Link.Service.Routes.{procedure, call, calls_arrive}
use rook_host.Transport.{Listener, failed, version_tls13, new_done, listen}
use rook_host.Transport.Failure.{
  ListenerEvent, returns, asked, shut_down, run, reported, failure_reported_once,
}

abbrev advertised : Info
advertised = record {
  name = codes "mac";
  port = 7777;
  host_id = codes "h";
  trust_domain_id = codes "t";
  protocol_version = codes "rook-link/1";
}

recorded :
    txt_record (txt advertised)
    ≡ ok (3 ∷ codes "v=1" ++ 5 ∷ codes "hid=h" ++ 4 ∷ codes "td=t" ++ 14 ∷ codes "pv=rook-link/1")
unfolding txt_record txt str_eq
recorded = refl

abbrev daemon : Registration → ℕ
daemon r = 0

abbrev responder : Responder
responder = record { new_service = λ c. true; new_responder = true; add = λ c. true }

registered_as_advertised_example :
    (advertise_system daemon advertised ≢ err empty_record)
    × ((r : Registration)
        → advertise_system daemon advertised ≡ ok r
        → (r.name ≡ codes "mac")
          × (read_txt r.txt_record ≡ some (hint advertised))
          × (r.txt_length ≡ length r.txt_record)
          × (7777 < 65536 → (r.port % 256 ≡ 30) × (r.port / 256 ≡ 97)))
    × ((c : Config)
        → advertise_dnssd responder advertised ≡ ok c
        → (c.name ≡ codes "mac")
          × (c.port ≡ 7777)
          × (map (entry c.text) txt_keys ≡ hint advertised))
registered_as_advertised_example = registered_as_advertised daemon responder advertised

-- The stream that wakes the client carries the token too.
calls_carry_token_example :
    (let (call, header') =
        rpc_call (new_rpc (codes "https://c/") (codes "t")) EdgeMethod.watch_edge empty in
      Arrives edge_handler
        (codes "https://c/")
        (edge_procedure EdgeMethod.watch_edge)
        EdgeMethod.watch_edge
        call
      × ((path : Bytes) (kind : CallKind)
          → edge_handler path ≡ some (kind, EdgeMethod.watch_edge)
          → path ≡ edge_procedure EdgeMethod.watch_edge)
      × ((name : Bytes)
          → header' name ≡ (if str_eq authorization name then some (codes "Bearer t") else none)))
calls_carry_token_example =
    calls_carry_token (codes "https://c/") (codes "t") EdgeMethod.watch_edge empty

calls_arrive_example :
    Arrives route
      (codes "https://h//")
      (procedure (link LinkMethod.watch_pane))
      (link LinkMethod.watch_pane)
      (call (codes "https://h//") (link LinkMethod.watch_pane))
    × ((path : Bytes) (kind : CallKind)
        → route path ≡ some (kind, link LinkMethod.watch_pane)
        → path ≡ procedure (link LinkMethod.watch_pane))
calls_arrive_example = calls_arrive (codes "https://h//") (link LinkMethod.watch_pane)

-- A listener whose serving fails.
abbrev listener : Listener Bytes
listener = record {
  port = 7777;
  min_version = version_tls13;
  read_header_timeout = 10 * second;
  serving = true;
  closing = false;
  done = new_done;
}

listening : listen (ok 7777) ≡ ok listener
unfolding listen
listening = refl

abbrev life : List (ListenerEvent Bytes)
life = asked ∷ returns (failed (codes "e")) ∷ asked ∷ shut_down ∷ asked ∷ []

failure_reported_once_example :
    (run life listener).0 ++ reported (run life listener).1.done.held ≡ codes "e" ∷ []
failure_reported_once_example = failure_reported_once 7777 life listener listening
