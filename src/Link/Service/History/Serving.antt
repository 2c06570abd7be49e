-- ===== src/Link/Service/History/Serving.antt =====
-- Whom a server serves, and what changes of the registry leave of that.
use rook_host.Base.{
  ◌≡◌, ◌≢◌, ◌⊎◌, ◌∙◌, refl, sym, some, false, All, All-map_mono, All-mono, arith, Bool-cases,
  Option-cases, inl, inr,
}
use rook_host.Base.Bytes.{Bytes, str_eq, str_eq_iff}
use rook_host.Base.Time.{Time}
use rook_host.Base.Disk.{Fault}
use rook_host.Base.Result.{ok}
use rook_host.Registry.{Registry, get, allowed, touch}
use rook_host.Registry.Book.{Device, revoked, cap_status_read, cap_session_read}
use rook_host.Registry.Storage.{JsonCodec}
use rook_host.Registry.Lookup.{get-touch}
use rook_host.Registry.Capabilities.{allowed_entry}
use rook_host.Link.Stream.{drop_watchers}
use rook_host.Link.Stream.Entitled.{IsEntitled, drop_watchers-IsEntitled}
use rook_host.Link.Hub
use rook_host.Link.PaneHub
use rook_host.Link.PaneHub.{PaneSession, PaneMessage, drop_session, close_if_unwatched, watched}
use rook_host.Link.Tokens
use rook_host.Link.Tokens.{Tokens, Session}
use rook_host.Link.Server.{Server, drop_sessions}

-- In the book, and not revoked.
abbrev pub IsLive : Registry → Bytes → Type 0
IsLive r id = (d : Device) × (get r id ≡ some d) × (revoked d ≡ false)

-- The registry allows the device the capability.
abbrev pub IsAllowed : Registry → Bytes → Bytes → Type 0
IsAllowed r capability id = allowed r id capability ≡ ok tt

abbrev pub IsNamed : Registry → Tokens → Type 0
IsNamed r t = (tok : Bytes) (session : Session) → t tok ≡ some session → IsLive r session.device_id

abbrev pub IsPaneServed : Registry → PaneSession → Type 0
IsPaneServed r p = All (IsEntitled (IsAllowed r cap_session_read)) p.subs

-- Every token names a live device; every member of the status hub may read the status, and every
-- member of a pane session may read sessions, by what the registry says at this moment.
pub record IsServing (s : Server) : Type 0 where
  pub tokens : IsNamed s.reg s.tokens
  pub streams : All (IsEntitled (IsAllowed s.reg cap_status_read)) s.hub.subs
  pub panes : All (IsPaneServed s.reg) s.panes

-- The capabilities that the streams need.
abbrev pub IsRead : Bytes → Type 0
IsRead c = (c ≡ cap_status_read) ⊎ (c ≡ cap_session_read)

-- The registry stands as much behind the device as before, as far as the server serves it.
abbrev pub Backs : Registry → Registry → Bytes → Type 0
Backs r r' id =
    (IsLive r id → IsLive r' id) × ((c : Bytes) → IsRead c → IsAllowed r c id → IsAllowed r' c id)

pub Backs-same : (r r' : Registry) (id : Bytes) → get r' id ≡ get r id → Backs r r' id
unfolding allowed
Backs-same r r' id e = (λ (d, f, v). (d, e ∙ f, v), λ c k a. rw (e, allowed) a)

-- Touch withdraws nothing.
pub touch-Backs :
    (json : JsonCodec) (r : Registry) (key : Bytes) (at : Time) (fault : Fault) (id : Bytes)
    → Backs r (touch json r key at fault) id
unfolding touch
touch-Backs json r key at fault id = elim (Option-cases (get r key)) [
  | inl e ↦ Backs-same r _ id (ground arith)
  | inr (x, e) ↦
      let found = get-touch json r fault key at id x e in
      elim (Bool-cases (str_eq key id)) [
        | inr other ↦ Backs-same r _ id (found ∙ rw other refl)
        | inl same ↦
            let here : get r id ≡ some x = rw (← (str_eq_iff key id).0 same) e in
            let now : get (touch json r key at fault) id ≡ some (record x { last_seen_at = at }) =
              found ∙ rw same refl in
            (
              λ (d, f, v). (record x { last_seen_at = at }, now, ground arith),
              λ c k a.
                  allowed_entry (touch json r key at fault) id c (record x { last_seen_at = at })
                    now
                  ∙ sym (allowed_entry r id c x here)
                  ∙ a,
            )
      ]
]

-- A registry that backs whom it backed serves whom it served.
pub IsServing-Backs :
    (s : Server) (r' : Registry)
    → ((id : Bytes) → Backs s.reg r' id)
    → IsServing s
    → IsServing (record s { reg = r' })
IsServing-Backs s r' backs v = record {
  tokens = λ tok session h. (backs session.device_id).0 (v.tokens tok session h);
  streams = All-mono _ _ s.hub.subs (λ w e m. (backs w.device_id).1 _ (inl refl) (e m)) v.streams;
  panes =
      All-mono _ _ s.panes
        (λ p. All-mono _ _ p.subs (λ w e m. (backs w.device_id).1 _ (inr refl) (e m))) v.panes;
}

subs-close_if_unwatched : (p : PaneSession) → (close_if_unwatched p).subs ≡ p.subs
unfolding close_if_unwatched
subs-close_if_unwatched p = ground arith

drop_device-named :
    (t : Tokens) (id tok : Bytes) (session : Session)
    → Tokens.drop_device t id tok ≡ some session
    → (t tok ≡ some session) × (session.device_id ≢ id)
unfolding Tokens.drop_device
drop_device-named t id tok session h = elim (Option-cases (t tok)) [
  | inl e ↦ absurd (ground arith)
  | inr (v, e) ↦
      (ground (arith, str_eq_iff v.device_id id), λ same. ground (arith, str_eq_iff v.device_id id))
]

-- Once the sessions of one device are dropped, only the others must be backed.
pub drop_sessions-IsServing :
    (s : Server) (r' : Registry) (id : Bytes)
    → ((j : Bytes) → j ≢ id → Backs s.reg r' j)
    → IsServing s
    → IsServing (drop_sessions (record s { reg = r' }) id)
unfolding drop_sessions Hub.drop_device PaneHub.drop_device drop_session
drop_sessions-IsServing s r' id backs v = record {
  tokens = λ tok session h.
      (let (old, other) = drop_device-named s.tokens id tok session h in
        (backs session.device_id other).0 (v.tokens tok session old));
  streams =
      drop_watchers-IsEntitled _ _ id s.hub.subs (λ j o. (backs j o).1 _ (inl refl)) v.streams;
  panes =
      All-map_mono _ _ (drop_session id) s.panes
        (λ p a.
          rw (subs-close_if_unwatched (record p { subs = drop_watchers id p.subs }))
            (drop_watchers-IsEntitled _ _ id p.subs (λ j o. (backs j o).1 _ (inr refl)) a))
        v.panes;
}
