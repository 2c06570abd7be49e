-- ===== src/Link/Service/History/Late.antt =====
-- WatchStatus checks the registry before it subscribes, not at once. A revocation between the two
-- leaves a stream.
use rook_host.Base.{some, false, ◌≡◌, refl, true, List, [], ◌∷◌, ◌++◌, All, inl, inr}
use rook_host.Base.Bytes.{Bytes}
use rook_host.Base.Time.{Time}
use rook_host.Base.Disk.{Fault}
use rook_host.Base.Result.{ok, err}
use rook_host.Crypto.{Crypto}
use rook_host.Registry.Book.{cap_status_read}
use rook_host.Registry.Storage.{JsonCodec}
use rook_host.Link.Stream.{Watcher, start, fan_out, offer}
use rook_host.Link.Hub
use rook_host.Link.Server.{Server, Host, revoke_device}
use rook_host.Link.Server.Revocation.{revoke_device-IsCutOff}
use rook_host.Link.Hub.{Frame, current_frame}
use rook_host.Link.Server.Session.{authorize}
use rook_host.Projection.Status.{Status}
use rook_host.Registry.{allowed}
use rook_host.Registry.Storage.{device_revoked}
use mathlib.Core.List.{map-append}
use rook_host.Link.Service.History.Serving.{IsServing}

All-last {ℓ κ} : {A : Type ℓ} (P : A → Type κ) (xs : List A) (x : A) → All P (xs ++ x ∷ []) → P x
All-last P [] x a = a.0
All-last P (y ∷ ys) x a = All-last P ys x a.1

-- The device was accepted, then revoked, and its handler subscribes: the hub serves a revoked
-- device.
late_watcher_unserved :
    (crypto : Crypto) (json : JsonCodec) (host : Host) (s : Server) (id : Bytes) (at : Time)
    (fault : Fault)
    → (revoke_device crypto json host s id at fault).0 ≡ ok tt
    → (let s' = (revoke_device crypto json host s id at fault).1 in
        ¬ IsServing (record s' { hub = Hub.subscribe s'.hub id true }))
unfolding Hub.subscribe start
late_watcher_unserved crypto json host s id at fault h v =
    elim (revoke_device-IsCutOff crypto json host s id at fault) [
      | inl (r, cut, refused, out) ↦ cc (refused cap_status_read, All-last _ _ _ v.streams refl)
      | inr (e, r, tokens, hub, panes) ↦ cc (h, r)
    ]

-- A revocation in the middle of WatchStatus leaves a stream to the revoked device: if the handler has
-- accepted the header, then the revocation succeeds, and then the handler subscribes, the registry
-- refuses the device everything, and yet the hub has it as a member whose channel of revocation is
-- open, to which the next publication is offered.
pub late_watcher_served :
    (crypto : Crypto) (json : JsonCodec) (host : Host) (s : Server) (bearer id : Bytes)
    (now at later : Time) (fault : Fault) (status : Status)
    → (authorize s bearer cap_status_read now).0 ≡ ok id
    → (revoke_device crypto json host (authorize s bearer cap_status_read now).1 id at fault).0
      ≡ ok tt
    → (let s' =
          (revoke_device crypto json host
            (authorize s bearer cap_status_read now).1
            id
            at
            fault).1 in
        let h = Hub.publish (Hub.subscribe s'.hub id true) status later in
        ((c : Bytes) → allowed s'.reg id c ≡ err device_revoked)
        × ((w : Watcher Frame) × (others : List (Watcher Frame)) × (h.subs ≡ others ++ w ∷ [])
            × (w.device_id ≡ id)
            × (w.member ≡ true)
            × (w.gone ≡ false)
            × (w.updates ≡ some (current_frame h))))
unfolding Hub.subscribe Hub.publish fan_out offer start
late_watcher_served crypto json host s bearer id now at later fault status accepted h =
    let a = (authorize s bearer cap_status_read now).1 in
    elim (revoke_device-IsCutOff crypto json host a id at fault) [
      | inl (r, cut, refused, out) ↦
          let subs = (revoke_device crypto json host a id at fault).1.hub.subs in
          (refused, (_, _, map-append _ subs _, refl, refl, refl, refl))
      | inr (e, r, tokens, hub, panes) ↦ absurd (cc (h, r))
    ]
