-- ===== src/Link/Hub.antt =====
-- link/hub.go: the status hub, with the WatchStatus handlers that read it.
pub mod Delivery
pub mod Cutoff
use rook_host.Base.{ℕ, ◌+◌, ◌%◌, Option, none, some, Bool, List, [], ◌∷◌, ◌++◌, if◌then◌else◌}
use rook_host.Base.Bytes.{Bytes}
use rook_host.Base.Time.{Time}
use rook_host.Projection.Status.{Status, clamp}
use rook_host.Link.Stream.{
  Watcher, StreamEvent, fan_out, drop_watchers, modify, handle, start, finish, send_failed,
}

pub record Frame : Type 0 where
  pub status : Status
  pub at : Time
  pub seq : ℕ

pub record Hub : Type 0 where
  pub current : Status
  pub at : Time
  pub seq : ℕ
  pub subs : List (Watcher Frame)

abbrev pub empty_status : Status
empty_status = record {
  hostname = [];
  rook_version = [];
  host_id = [];
  workspaces = [];
  usage = none;
}

-- newHub
abbrev pub new_hub : Hub
new_hub = record { current = empty_status; at = 0; seq = 0; subs = [] }

-- What a watcher that subscribes now starts from.
abbrev pub current_frame : Hub → Frame
current_frame h = record { status = h.current; at = h.at; seq = h.seq }

-- publish: clamp, number (a uint64), make current, fan out.
unfoldable pub publish : Hub → Status → Time → Hub
unfolding fan_out
publish h s at =
    let s' = clamp s in
    let seq' = (h.seq + 1) % 18446744073709551616 in
    record {
      current = s';
      at = at;
      seq = seq';
      subs = fan_out (record { status = s'; at = at; seq = seq' }) h.subs;
    }

-- snapshot
abbrev pub snapshot : Hub → Status × Time × ℕ
snapshot h = (h.current, h.at, h.seq)

-- subscribe, and the handler's opening send, which may fail.
unfoldable pub subscribe : Hub → Bytes → Bool → Hub
unfolding start finish
subscribe h device_id delivered =
    let w = start device_id (current_frame h ∷ []) in
    record h {
      subs = h.subs ++ (if delivered then w else finish send_failed (start device_id [])) ∷ [];
    }

-- dropDevice
unfoldable pub drop_device : Hub → Bytes → Hub
unfolding drop_watchers
drop_device h device_id = record h { subs = drop_watchers device_id h.subs }

-- One round of one handler.
unfoldable pub stream : Hub → ℕ → StreamEvent → Hub
unfolding modify handle
stream h i event = record h { subs = modify i (handle event) h.subs }
