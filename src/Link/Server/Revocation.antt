-- ===== src/Link/Server/Revocation.antt =====
-- What a revocation, and a new pairing, end: the sessions and the streams of the device.
use rook_host.Base.{
  ◌≡◌, ◌≢◌, ◌⊎◌, some, true, false, not, ◌&&◌, ◌||◌, List, [], All, All-map, arith, is_some,
  Option-cases, Bool-cases, if◌then◌else◌, inl, inr,
}
use rook_host.Base.Bytes.{Bytes, str_eq, str_eq_iff, trim_prefix}
use rook_host.Base.Time.{Time}
use rook_host.Base.Result.{ok, err, Result-cases}
use rook_host.Crypto.{Crypto}
use rook_host.Registry.Storage.{JsonCodec, RegistryError, device_revoked}
use rook_host.Base.Disk.{Fault}
use rook_host.Registry.Revocation.{revoked_until_paired, run}
use rook_host.Registry.{get, revoke, allowed}
use rook_host.Link.Stream.{Watcher, drop_watchers, leave}
use rook_host.Link.Hub
use rook_host.Link.PaneHub
use rook_host.Link.PaneHub.{PaneSession, watched, close_if_unwatched, drop_session}
use rook_host.Link.Tokens.{Session, drop_device, Tokens}
use rook_host.Link.Server.{Server, Host, drop_sessions, revoke_device}
use rook_host.Link.Server.Session.{authorize, bearer_prefix}
use rook_host.Link.Server.Session.Effects.{authorize-exact}

-- A subscriber that is not the device's, or is out of its hub.
abbrev pub IsSevered : {F : Type 0} → Bytes → Watcher F → Type 0
IsSevered id w = w.device_id ≡ id → w.member ≡ false

-- Nothing of the device's is left: no token names it, and no subscriber of it is in a hub.
abbrev pub IsCutOff : Bytes → Server → Type 0
IsCutOff id s =
    ((tok : Bytes) (session : Session) → s.tokens tok ≡ some session → session.device_id ≢ id)
    × All (IsSevered id) s.hub.subs
    × All (λ (p : PaneSession). All (IsSevered id) p.subs) s.panes

drop_watchers-IsSevered :
    {F : Type 0} (id : Bytes) (ws : List (Watcher F)) → All (IsSevered id) (drop_watchers id ws)
unfolding drop_watchers
drop_watchers-IsSevered id ws =
    All-map (IsSevered id) (λ w. if w.member && str_eq w.device_id id then leave w else w) ws
      λ w same. ground (arith, str_eq_iff w.device_id id)

drop_session-IsSevered :
    (id : Bytes) (p : PaneSession) → All (IsSevered id) (drop_session id p).subs
unfolding drop_session close_if_unwatched
drop_session-IsSevered id p =
    elim (Bool-cases (watched (drop_watchers id p.subs) || not p.is_open)) [
      | inl e ↦ rw e (drop_watchers-IsSevered id p.subs)
      | inr e ↦ rw e (drop_watchers-IsSevered id p.subs)
    ]

drop_device-names :
    (t : Tokens) (id tok : Bytes) (session : Session)
    → drop_device t id tok ≡ some session
    → session.device_id ≢ id
unfolding drop_device
drop_device-names t id tok session h same = elim (Option-cases (t tok)) [
  | inl e ↦ absurd (ground arith)
  | inr (v, e) ↦ absurd (ground (arith, str_eq_iff v.device_id id))
]

pub drop_sessions-IsCutOff : (s : Server) (id : Bytes) → IsCutOff id (drop_sessions s id)
unfolding drop_sessions Hub.drop_device PaneHub.drop_device
drop_sessions-IsCutOff s id = (
  drop_device-names s.tokens id,
  drop_watchers-IsSevered id s.hub.subs,
  All-map (λ (p : PaneSession). All (IsSevered id) p.subs) (drop_session id) s.panes
      (drop_session-IsSevered id),
)

-- A device that nothing names and nothing serves gets no session back from any header.
IsCutOff-authorize :
    (s : Server) (id bearer capability : Bytes) (now : Time)
    → IsCutOff id s
    → (authorize s bearer capability now).0 ≢ ok id
IsCutOff-authorize s id bearer capability now c h =
    let (p, (session, t, l, i), e, a) = (authorize-exact s bearer capability now id).0 h in
    c.0 (trim_prefix bearer bearer_prefix) session t i

module _ (crypto : Crypto) (json : JsonCodec) (host : Host) where
  known_if_ok :
      (s : Server) (id : Bytes) (now : Time) (fault : Fault)
      → (revoke json s.reg id now fault).0 ≡ ok tt
      → is_some (get s.reg id) ≡ true
  unfolding revoke
  known_if_ok s id now fault h = elim (Option-cases (get s.reg id)) [
    | inl e ↦ absurd (ground arith)
    | inr (d, e) ↦ ground arith
  ]

  revoked_now :
      (s : Server) (id : Bytes) (now : Time) (fault : Fault)
      → (revoke json s.reg id now fault).0 ≡ ok tt
      → (c : Bytes) → allowed (revoke json s.reg id now fault).1 id c ≡ err device_revoked
  unfolding run
  revoked_now s id now fault h c =
      revoked_until_paired json s.reg id now fault [] (known_if_ok s id now fault h) tt c

  -- A revocation that succeeds ends everything at once: the registry refuses the device every
  -- capability, no token names it, no subscriber of it is left in either hub, and no header is
  -- accepted for it. A revocation that fails has left the sessions and streams as they were.
  pub revoke_device-IsCutOff :
      (s : Server) (id : Bytes) (now : Time) (fault : Fault)
      → (let (result, s') = revoke_device crypto json host s id now fault in
          ((result ≡ ok tt)
            × IsCutOff id s'
            × ((c : Bytes) → allowed s'.reg id c ≡ err device_revoked)
            × ((bearer c : Bytes) (at : Time) → (authorize s' bearer c at).0 ≢ ok id))
          ⊎ ((e : RegistryError) × (result ≡ err e)
              × (s'.tokens ≡ s.tokens)
              × (s'.hub ≡ s.hub)
              × (s'.panes ≡ s.panes)))
  unfolding revoke_device
  revoke_device-IsCutOff s id now fault = elim (Result-cases (revoke json s.reg id now fault).0) [
    | inl (e, h) ↦ inr (e, ground arith, ground arith, ground arith, ground arith)
    | inr (u, h) ↦
        let s' = drop_sessions (record s { reg = (revoke json s.reg id now fault).1 }) id in
        let cut =
          drop_sessions-IsCutOff (record s { reg = (revoke json s.reg id now fault).1 }) id in
        let left : (revoke_device crypto json host s id now fault).1 ≡ s' = ground arith in
        rw left (
          inl (
            ground arith,
            cut,
            revoked_now s id now fault h,
            λ bearer c at. IsCutOff-authorize s' id bearer c at cut,
          ))
  ]
