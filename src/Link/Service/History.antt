-- ===== src/Link/Service/History.antt =====
-- The whole server over time: the calls of devices, the calls of the embedding host, and the rounds
-- of the streams, in any order.
pub mod Serving
pub mod Hubs
pub mod Regrant
pub mod Accepted
pub mod Calls
pub mod Changes
pub mod Sessions
pub mod Always
pub mod Late
pub mod Told
use rook_host.Base.{ℕ, Option, List, [], ◌∷◌}
use rook_host.Base.Bytes.{Bytes}
use rook_host.Base.Time.{Time}
use rook_host.Base.Disk.{Fault}
use rook_host.Crypto.{Crypto}
use rook_host.Projection.Status.{Status}
use rook_host.Projection.Pane.{PaneFrame}
use rook_host.Registry.{set_capabilities}
use rook_host.Registry.Storage.{JsonCodec}
use rook_host.Pairing.Window.{open_window, close_window}
use rook_host.Link.Wire.{Timestamppb}
use rook_host.Link.Stream.{StreamEvent}
use rook_host.Link.Hub
use rook_host.Link.PaneHub
use rook_host.Link.Server.{Server, Host, publish_status, publish_pane, revoke_device}
use rook_host.Link.Service.{Method, Request, World, serve}

pub data ServerEvent : Type 0 where
  -- A call of a method, with its header.
  called : (m : Method) → Request m → Bytes → World → ServerEvent
  published : Status → Time → ServerEvent
  pane_published : Bytes → PaneFrame → ServerEvent
  revoked : Bytes → Time → Fault → ServerEvent
  -- The embedding host sets a device's capabilities in the registry.
  regranted : Bytes → List Bytes → Fault → ServerEvent
  -- The human opens and closes the pairing window.
  window_opened : Option Bytes → Time → ServerEvent
  window_closed : ServerEvent
  -- A round of the handler of a stream, named by its place, and of a pane stream.
  streamed : ℕ → StreamEvent → ServerEvent
  pane_streamed : Bytes → ℕ → StreamEvent → ServerEvent

module _ (crypto : Crypto) (json : JsonCodec) (tpb : Timestamppb) (host : Host) where
  unfoldable pub step : Server → ServerEvent → Server
  unfolding serve
  step s (called m q bearer w) = (serve crypto json tpb host m q bearer w s).1
  step s (published status at) = publish_status crypto json host s status at
  step s (pane_published session_id f) = publish_pane crypto json host s session_id f
  step s (revoked id at fault) = (revoke_device crypto json host s id at fault).1
  step s (regranted id caps fault) = record s {
    reg = (set_capabilities json s.reg id caps fault).1;
  }
  step s (window_opened raw at) = record s { pairs = (open_window s.pairs raw at).1 }
  step s window_closed = record s { pairs = close_window s.pairs }
  step s (streamed i event) = record s { hub = Hub.stream s.hub i event }
  step s (pane_streamed session_id i event) = record s {
    panes = PaneHub.stream s.panes session_id i event;
  }

  -- The events in order.
  unfoldable pub run : Server → List ServerEvent → Server
  unfolding step
  run s [] = s
  run s (e ∷ es) = run (step s e) es
