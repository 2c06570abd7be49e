-- ===== src/Link/Stream.antt =====
-- What the status hub and the pane hub share (link/hub.go, link/panehub.go, and the loops of
-- WatchStatus and WatchPane in link/server.go): a subscriber with its one-frame channel, together
-- with the stream handler that owns it. A hub holds every subscriber ever allocated, and `member`
-- says that it is in the hub's set. A subscriber is named by its place in that list.
pub mod Current
pub mod Entitled
use rook_host.Base.{
  ℕ, zero, suc, Option, none, some, Bool, true, false, ◌&&◌, List, [], ◌∷◌, ◌++◌, map,
  if◌then◌else◌,
}
use rook_host.Base.Bytes.{Bytes, str_eq}

-- How a stream ended: the client left, the device was revoked, or a send failed.
pub data Ending : Type 0 where
  cancelled device_gone send_failed : Ending

pub record Watcher (F : Type 0) : Type 0 where
  pub device_id : Bytes
  -- The channel of capacity one.
  pub updates : Option F
  -- The channel `gone` is closed.
  pub gone : Bool
  pub member : Bool
  -- The frames that the handler has sent, newest first.
  pub sent : List F
  -- How the handler returned, if it has.
  pub ended : Option Ending

-- What a handler's select meets; the Booleans say whether Send succeeds.
pub data StreamEvent : Type 0 where
  context_done : StreamEvent
  gone_closed : StreamEvent
  update_ready : Bool → StreamEvent
  ticked : Bool → StreamEvent

module _ {F : Type 0} where
  -- `select { case updates <- f: default: }`, and whether it was sent.
  abbrev try_send : Option F → F → Option F × Bool
  try_send none f = (some f, true)
  try_send (some g) f = (some g, false)

  -- `select { case <-updates: default: }`
  abbrev drain : Option F → Option F
  drain b = none

  -- The body of the publish loop: on a full buffer, drain the stale frame and offer the fresh one.
  unfoldable pub offer : F → Watcher F → Watcher F
  offer f w =
      let (b, done) = try_send w.updates f in
      if done then record w { updates = b } else record w { updates = (try_send (drain b) f).0 }

  -- The publish loop over the hub's set.
  unfoldable pub fan_out : F → List (Watcher F) → List (Watcher F)
  unfolding offer
  fan_out f ws = map (λ w. if w.member then offer f w else w) ws

  -- delete(subs, sub), then sub.close().
  unfoldable pub leave : Watcher F → Watcher F
  leave w = record w { member = false; gone = true }

  -- The loop of dropDevice, and the close of each doomed subscriber.
  unfoldable pub drop_watchers : Bytes → List (Watcher F) → List (Watcher F)
  unfolding leave
  drop_watchers device_id ws =
      map (λ w. if w.member && str_eq w.device_id device_id then leave w else w) ws

  -- A change of the watcher in one place.
  unfoldable pub modify : ℕ → (Watcher F → Watcher F) → List (Watcher F) → List (Watcher F)
  modify i change [] = []
  modify zero change (w ∷ ws) = change w ∷ ws
  modify (suc i) change (w ∷ ws) = w ∷ modify i change ws

  -- The handler returns: its deferred unsubscribe runs.
  unfoldable pub finish : Ending → Watcher F → Watcher F
  unfolding leave
  finish how w = record (leave w) { ended = some how }

  -- One round of the handler's loop. A case that is not ready is not taken.
  unfoldable pub handle : StreamEvent → Watcher F → Watcher F
  unfolding finish
  handle event w = elim w.ended [
    | some how ↦ w
    | none ↦ elim event [
      | context_done ↦ finish cancelled w
      | gone_closed ↦ if w.gone then finish device_gone w else w
      | update_ready delivered ↦ elim w.updates [
        | none ↦ w
        | some f ↦
            if delivered
            then record w { updates = none; sent = f ∷ w.sent }
            else finish send_failed (record w { updates = none })
      ]
      | ticked delivered ↦ if delivered then w else finish send_failed w
    ]
  ]

  -- A handler starts: it has sent the opening frame, if there is one.
  unfoldable pub start : Bytes → List F → Watcher F
  start device_id opening = record {
    device_id = device_id;
    updates = none;
    gone = false;
    member = true;
    sent = opening;
    ended = none;
  }
