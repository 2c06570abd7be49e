-- ===== src/Link/PaneHub.antt =====
-- link/panehub.go: the pane hub of a host that has a PaneSource, with the WatchPane handlers that
-- read it. Each session keeps the calls made to the source about it, newest first; whether the
-- source's Open succeeds comes from outside.
pub mod Edges
use rook_host.Base.{
  ℕ, ◌+◌, ◌%◌, Option, none, some, Bool, true, false, not, ◌&&◌, ◌||◌, List, [], ◌∷◌, ◌++◌, map,
  if◌then◌else◌,
}
use rook_host.Base.Bytes.{Bytes, str_eq}
use rook_host.Projection.Pane.{PaneFrame, clamp}
use rook_host.Link.Stream.{
  Watcher, StreamEvent, fan_out, drop_watchers, modify, handle, start, finish, send_failed,
}

pub record PaneMessage : Type 0 where
  pub frame : PaneFrame
  pub seq : ℕ

-- The calls of the PaneSource: an Open that succeeds, an Open that fails, and a Close.
pub data SourceCall : Type 0 where
  opened open_failed closed : SourceCall

pub record PaneSession : Type 0 where
  pub session_id : Bytes
  pub current : Option PaneMessage
  pub seq : ℕ
  pub subs : List (Watcher PaneMessage)
  pub is_open : Bool
  pub calls : List SourceCall

abbrev pub PaneHub : Type 0
PaneHub = List PaneSession

-- newPaneHub
abbrev pub new_pane_hub : PaneHub
new_pane_hub = []

abbrev pub new_session : Bytes → PaneSession
new_session id = record {
  session_id = id;
  current = none;
  seq = 0;
  subs = [];
  is_open = false;
  calls = [];
}

-- len(sess.subs) != 0
unfoldable pub watched : List (Watcher PaneMessage) → Bool
watched [] = false
watched (w ∷ ws) = w.member || watched ws

-- closeIfUnwatchedLocked
unfoldable pub close_if_unwatched : PaneSession → PaneSession
close_if_unwatched s =
    if watched s.subs || not s.is_open
    then s
    else record s { current = none; is_open = false; calls = closed ∷ s.calls }

-- publish, on a session that is there.
unfoldable pub publish_session : PaneFrame → PaneSession → PaneSession
unfolding fan_out
publish_session f s =
    let seq' = (s.seq + 1) % 18446744073709551616 in
    let msg : PaneMessage = record { frame = clamp f; seq = seq' } in
    if watched s.subs
    then record s { seq = seq'; current = some msg; subs = fan_out msg s.subs }
    else s

abbrev pub as_list : Option PaneMessage → List PaneMessage
as_list none = []
as_list (some m) = m ∷ []

-- The watcher that subscribe makes, with the handler's opening send of the retained frame. A
-- handler whose send fails returns, and unsubscribes.
abbrev pub opening_watcher : Bytes → Bool → PaneSession → Watcher PaneMessage
opening_watcher device_id delivered s =
    if delivered
    then start device_id (as_list s.current)
    else finish send_failed (start device_id [])

-- subscribe, once the source is open.
unfoldable pub join_session : Bytes → Bool → PaneSession → PaneSession
unfolding start finish close_if_unwatched
join_session device_id delivered s =
    close_if_unwatched (record s { subs = s.subs ++ opening_watcher device_id delivered s ∷ [] })

-- subscribe: a source that is not open yet is told to open, and refuses the watcher if it fails.
unfoldable pub subscribe_session : Bytes → Bool → Bool → PaneSession → PaneSession
unfolding join_session
subscribe_session device_id opens delivered s =
    if s.is_open
    then join_session device_id delivered s
    else if opens
    then join_session device_id delivered (record s { is_open = true; calls = opened ∷ s.calls })
    else record s { calls = open_failed ∷ s.calls }

-- dropDevice, on one session.
unfoldable pub drop_session : Bytes → PaneSession → PaneSession
unfolding drop_watchers close_if_unwatched
drop_session device_id s = close_if_unwatched (record s { subs = drop_watchers device_id s.subs })

-- One round of one handler; one that returns unsubscribes.
unfoldable pub stream_session : ℕ → StreamEvent → PaneSession → PaneSession
unfolding modify handle close_if_unwatched
stream_session i event s = close_if_unwatched (record s { subs = modify i (handle event) s.subs })

-- The change of the session with an id, if it is there.
unfoldable pub at_session : Bytes → (PaneSession → PaneSession) → PaneHub → PaneHub
at_session id change [] = []
at_session id change (s ∷ ss) =
    if str_eq s.session_id id then change s ∷ ss else s ∷ at_session id change ss

-- The same, where a session that is not there is made first.
unfoldable pub at_new_session : Bytes → (PaneSession → PaneSession) → PaneHub → PaneHub
at_new_session id change [] = change (new_session id) ∷ []
at_new_session id change (s ∷ ss) =
    if str_eq s.session_id id then change s ∷ ss else s ∷ at_new_session id change ss

-- sess.open of a session, which is false where there is none.
unfoldable pub source_is_open : Bytes → PaneHub → Bool
source_is_open id [] = false
source_is_open id (s ∷ ss) = if str_eq s.session_id id then s.is_open else source_is_open id ss

unfoldable pub publish : PaneHub → Bytes → PaneFrame → PaneHub
unfolding at_session publish_session
publish h session_id f = at_session session_id (publish_session f) h

unfoldable pub subscribe : PaneHub → Bytes → Bytes → Bool → Bool → PaneHub
unfolding at_new_session subscribe_session
subscribe h device_id session_id opens delivered =
    at_new_session session_id (subscribe_session device_id opens delivered) h

unfoldable pub drop_device : PaneHub → Bytes → PaneHub
unfolding drop_session
drop_device h device_id = map (drop_session device_id) h

unfoldable pub stream : PaneHub → Bytes → ℕ → StreamEvent → PaneHub
unfolding at_session stream_session
stream h session_id i event = at_session session_id (stream_session i event) h
