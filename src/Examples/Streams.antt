-- ===== src/Examples/Streams.antt =====
-- The two hubs.
use rook_host.Base.{◌≡◌, refl, ◌+◌, true, false, List, [], ◌∷◌, All, arith}
use rook_host.Base.Bytes.{codes}
use rook_host.Link.Stream.{update_ready, gone_closed, ticked, start}
use rook_host.Link.Stream.Current.{HasCurrent}
use rook_host.Link.Hub.{Hub, new_hub, current_frame, drop_device, stream, subscribe}
use rook_host.Link.Hub.Delivery
use rook_host.Link.Hub.Delivery.{
  HubEvent, publishes, subscribes, drops, streams, published, Falling, waiting_and_sent,
  watchers_current, streams_in_order,
}
use rook_host.Link.Hub.Cutoff.{At, IsOpen, IsCut, HasEnded, revoked_stream_ends}
use rook_host.Link.PaneHub.{new_session}
use rook_host.Link.PaneHub.Edges
use rook_host.Link.PaneHub.Edges.{SessionEvent, IsEdge, source_edges}
use rook_host.Examples.Data.{busy_status, small_frame}

-- Two devices watch, one is slow, and the other is revoked.
abbrev hub_history : List HubEvent
hub_history =
    publishes busy_status 1
    ∷ subscribes (codes "phone") true
    ∷ subscribes (codes "tablet") true
    ∷ publishes busy_status 2
    ∷ streams 0 (update_ready true)
    ∷ publishes busy_status 3
    ∷ drops (codes "tablet")
    ∷ streams 1 gone_closed
    ∷ []

watchers_current_example :
    All
      (HasCurrent (current_frame (Delivery.run new_hub hub_history)))
      (Delivery.run new_hub hub_history).subs
watchers_current_example = watchers_current hub_history

streams_in_order_example :
    ((Delivery.run new_hub hub_history).seq ≡ published hub_history)
    × All
        (λ w. Falling (published hub_history + 1) (waiting_and_sent w))
        (Delivery.run new_hub hub_history).subs
streams_in_order_example = streams_in_order hub_history (omega arith)

-- A source that fails once, then a watcher that leaves.
abbrev pane_history : List SessionEvent
pane_history =
    Edges.subscribes (codes "phone") false true
    ∷ Edges.subscribes (codes "phone") true true
    ∷ Edges.publishes small_frame
    ∷ Edges.streams 0 (ticked false)
    ∷ []

source_edges_example : IsEdge (Edges.run (new_session (codes "s1")) pane_history)
source_edges_example = source_edges (codes "s1") pane_history

-- A hub that one phone watches; it is dropped, and the hub publishes twice more.
abbrev watched : Hub
watched = Delivery.run new_hub (subscribes (codes "phone") true ∷ [])

abbrev after_drop : List HubEvent
after_drop = publishes busy_status 2 ∷ streams 0 (update_ready true) ∷ publishes busy_status 3 ∷ []

phone_watches : At (IsOpen (codes "phone")) 0 watched.subs
unfolding Delivery.run Delivery.step subscribe start
phone_watches = (refl, refl)

revoked_stream_ends_example :
    let h = Delivery.run (drop_device watched (codes "phone")) after_drop in
    At IsCut 0 h.subs × At HasEnded 0 (stream h 0 gone_closed).subs
revoked_stream_ends_example = revoked_stream_ends watched (codes "phone") 0 after_drop phone_watches
