-- ===== src/Link/Service/History/Hubs.antt =====
-- What the hubs' operations leave of whom they serve.
use rook_host.Base.{Bool, true, false, List, [], ◌∷◌, All, All-append, ℕ, if◌then◌else◌, if_both}
use rook_host.Base.Bytes.{Bytes, str_eq}
use rook_host.Base.Time.{Time}
use rook_host.Projection.Status.{Status}
use rook_host.Projection.Pane.{PaneFrame}
use rook_host.Link.Stream.{StreamEvent, start, finish, leave, send_failed}
use rook_host.Link.Stream.Entitled.{IsEntitled, fan_out-IsEntitled, handle-IsEntitled}
use rook_host.Link.Hub
use rook_host.Link.Hub.{Hub}
use rook_host.Link.PaneHub
use rook_host.Link.PaneHub.{
  PaneHub, PaneSession, PaneMessage, close_if_unwatched, publish_session, subscribe_session,
  join_session, stream_session, at_session, at_new_session, new_session, opening_watcher, watched,
  opened, open_failed,
}

-- A watcher that subscribes is a member only for its device.
started-IsEntitled :
    {F : Type 0} (Device : Bytes → Type 0) (id : Bytes) (opening : List F) (delivered : Bool)
    → Device id
    → IsEntitled Device (if delivered then start id opening else finish send_failed (start id []))
unfolding start finish leave
started-IsEntitled Device id opening true d = λ m. d
started-IsEntitled Device id opening false d = λ m. absurd (cc)

module _ (Device : Bytes → Type 0) where
  abbrev pub IsHubServed : Hub → Type 0
  IsHubServed h = All (IsEntitled Device) h.subs

  pub publish-IsHubServed :
      (h : Hub) (status : Status) (at : Time)
      → IsHubServed h
      → IsHubServed (Hub.publish h status at)
  unfolding Hub.publish
  publish-IsHubServed h status at a = fan_out-IsEntitled Device _ h.subs a

  pub subscribe-IsHubServed :
      (h : Hub) (id : Bytes) (delivered : Bool)
      → Device id
      → IsHubServed h
      → IsHubServed (Hub.subscribe h id delivered)
  unfolding Hub.subscribe
  subscribe-IsHubServed h id delivered d a =
      All-append _ h.subs _ a (started-IsEntitled Device id _ delivered d, tt)

  pub stream-IsHubServed :
      (h : Hub) (i : ℕ) (event : StreamEvent) → IsHubServed h → IsHubServed (Hub.stream h i event)
  unfolding Hub.stream
  stream-IsHubServed h i event a = handle-IsEntitled Device i event h.subs a

  abbrev pub IsSessionServed : PaneSession → Type 0
  IsSessionServed p = All (IsEntitled Device) p.subs

  close-IsSessionServed :
      (p : PaneSession) → IsSessionServed p → IsSessionServed (close_if_unwatched p)
  unfolding close_if_unwatched
  close-IsSessionServed p a = if_both IsSessionServed _ p _ a a

  publish-IsSessionServed :
      (f : PaneFrame) (p : PaneSession) → IsSessionServed p → IsSessionServed (publish_session f p)
  unfolding publish_session
  publish-IsSessionServed f p a =
      if_both IsSessionServed (watched p.subs) _ p (fan_out-IsEntitled Device _ p.subs a) a

  join-IsSessionServed :
      (id : Bytes) (delivered : Bool) (p : PaneSession)
      → Device id
      → IsSessionServed p
      → IsSessionServed (join_session id delivered p)
  unfolding join_session
  join-IsSessionServed id delivered p d a =
      close-IsSessionServed _
        (All-append _ p.subs _ a (started-IsEntitled Device id _ delivered d, tt))

  subscribe-IsSessionServed :
      (id : Bytes) (opens delivered : Bool) (p : PaneSession)
      → Device id
      → IsSessionServed p
      → IsSessionServed (subscribe_session id opens delivered p)
  unfolding subscribe_session
  subscribe-IsSessionServed id opens delivered p d a =
      let p' : PaneSession = record p { is_open = true; calls = opened ∷ p.calls } in
      let failed : PaneSession = record p { calls = open_failed ∷ p.calls } in
      if_both IsSessionServed p.is_open (join_session id delivered p)
        (if opens then join_session id delivered p' else failed)
        (join-IsSessionServed id delivered p d a)
        (if_both IsSessionServed opens (join_session id delivered p') failed
          (join-IsSessionServed id delivered p' d a) a)

  stream-IsSessionServed :
      (i : ℕ) (event : StreamEvent) (p : PaneSession)
      → IsSessionServed p
      → IsSessionServed (stream_session i event p)
  unfolding stream_session
  stream-IsSessionServed i event p a =
      close-IsSessionServed _ (handle-IsEntitled Device i event p.subs a)

  abbrev pub ArePanesServed : PaneHub → Type 0
  ArePanesServed h = All IsSessionServed h

  at_session-served :
      (id : Bytes) (change : PaneSession → PaneSession) (h : PaneHub)
      → ((p : PaneSession) → IsSessionServed p → IsSessionServed (change p))
      → ArePanesServed h
      → ArePanesServed (at_session id change h)
  unfolding at_session
  at_session-served id change [] keeps a = tt
  at_session-served id change (p ∷ ps) keeps a =
      if_both ArePanesServed (str_eq p.session_id id) _ _ (keeps p a.0, a.1)
        (a.0, at_session-served id change ps keeps a.1)

  at_new_session-served :
      (id : Bytes) (change : PaneSession → PaneSession) (h : PaneHub)
      → ((p : PaneSession) → IsSessionServed p → IsSessionServed (change p))
      → ArePanesServed h
      → ArePanesServed (at_new_session id change h)
  unfolding at_new_session
  at_new_session-served id change [] keeps a = (keeps (new_session id) tt, tt)
  at_new_session-served id change (p ∷ ps) keeps a =
      if_both ArePanesServed (str_eq p.session_id id) _ _ (keeps p a.0, a.1)
        (a.0, at_new_session-served id change ps keeps a.1)

  pub publish-ArePanesServed :
      (h : PaneHub) (id : Bytes) (f : PaneFrame)
      → ArePanesServed h
      → ArePanesServed (PaneHub.publish h id f)
  unfolding PaneHub.publish
  publish-ArePanesServed h id f a =
      at_session-served id (publish_session f) h (publish-IsSessionServed f) a

  pub subscribe-ArePanesServed :
      (h : PaneHub) (device_id id : Bytes) (opens delivered : Bool)
      → Device device_id
      → ArePanesServed h
      → ArePanesServed (PaneHub.subscribe h device_id id opens delivered)
  unfolding PaneHub.subscribe
  subscribe-ArePanesServed h device_id id opens delivered d a =
      at_new_session-served id (subscribe_session device_id opens delivered) h
        (λ p. subscribe-IsSessionServed device_id opens delivered p d) a

  pub stream-ArePanesServed :
      (h : PaneHub) (id : Bytes) (i : ℕ) (event : StreamEvent)
      → ArePanesServed h
      → ArePanesServed (PaneHub.stream h id i event)
  unfolding PaneHub.stream
  stream-ArePanesServed h id i event a =
      at_session-served id (stream_session i event) h (stream-IsSessionServed i event) a
