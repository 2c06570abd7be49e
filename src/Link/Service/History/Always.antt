-- ===== src/Link/Service/History/Always.antt =====
-- Whom the server serves, after any history.
use rook_host.Base.{◌≡◌}
use rook_host.Base.Bytes.{Bytes}
use rook_host.Base.Disk.{no_fault}
use rook_host.Crypto.{Crypto}
use rook_host.Link.Server.{Server}
use rook_host.Rpc.Link.{HostMethod}
use rook_host.Link.Service.{host, link}
use rook_host.Registry.{Registry}
use rook_host.Link.Service.History.{
  ServerEvent, called, published, pane_published, revoked, regranted, window_opened, window_closed,
  streamed, pane_streamed,
}
use rook_host.Link.Service.History.Regrant.{Reads}

-- No disk fault hits a pairing or a revocation, and a device keeps the capabilities to read when
-- its capabilities are set.
abbrev pub IsOrderly : ServerEvent → Type 0
IsOrderly (called (host HostMethod.pair) q bearer w) = w.fault ≡ no_fault
IsOrderly (called (host HostMethod.get_host_info) q bearer w) = Unit
IsOrderly (called (host HostMethod.challenge) q bearer w) = Unit
IsOrderly (called (host HostMethod.authenticate) q bearer w) = Unit
IsOrderly (called (link m) q bearer w) = Unit
IsOrderly (published status at) = Unit
IsOrderly (pane_published session_id f) = Unit
IsOrderly (revoked id at fault) = fault ≡ no_fault
IsOrderly (regranted id caps fault) = Reads caps
IsOrderly (window_opened raw at) = Unit
IsOrderly window_closed = Unit
IsOrderly (streamed i event) = Unit
IsOrderly (pane_streamed session_id i event) = Unit
