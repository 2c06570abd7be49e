-- ===== src/Edgeclient/Follow.antt =====
-- Follow and watch of edgeclient/client.go as one machine: the poll loop and the watcher's
-- goroutine interleave, share the context and the wake channel, and take one event at a time.
pub mod Ends
pub mod Passes
pub mod Stops
pub mod Wake
pub mod Backoff
use rook_host.Base.{
  ℕ, ◌*◌, Option, none, some, Bool, true, false, List, [], ◌∷◌, ◌≡◌, ◌≢◌, if◌then◌else◌, ltb, ◌&&◌,
  not, ◌||◌,
}
use rook_host.Base.Time.{second}
use rook_host.Edgeclient.Protocol.{
  RpcCode, unauthenticated, unimplemented, other, SyncReport, SyncError, sync_failed, ack_failed,
  submit_failed, event_failed, agent_event_failed,
}

pub data Ending : Type 0 where
  refused cancelled : Ending

-- Follow runs a pass, waits for up to an interval in nanoseconds, or has returned.
pub data Phase : Type 0 where
  syncing : Phase
  waiting : ℕ → Phase
  returned : Ending → Phase

-- watch opens the stream, reads it, sleeps before it tries again, or has returned.
pub data Watcher : Type 0 where
  connecting streaming sleeping retired : Watcher

-- `done` is the end of the context, `pending` the message in the wake channel of capacity one,
-- and `backoff` is in nanoseconds.
pub record Loop : Type 0 where
  pub phase : Phase
  pub watcher : Watcher
  pub backoff : ℕ
  pub pending : Bool
  pub done : Bool

abbrev pub start : Loop
start = record {
  phase = syncing;
  watcher = connecting;
  backoff = second;
  pending = false;
  done = false;
}

-- WatchEdgeResponse_Kind
pub data WatchKind : Type 0 where
  unspecified listening wake : WatchKind

pub data Event : Type 0 where
  cancel : Event
  passed : SyncReport → Option SyncError → Event
  context_ended timer_fired woken : Event
  connected : Event
  received : WatchKind → Event
  stream_ended : RpcCode → Event
  slept : Event
  watch_cancelled : Event

abbrev pub is_unauthenticated : RpcCode → Bool
is_unauthenticated unauthenticated = true
is_unauthenticated unimplemented = false
is_unauthenticated (other n) = false

-- `connect.CodeOf(err) == connect.CodeUnauthenticated`
abbrev pub auth_refused : Option SyncError → Bool
auth_refused none = false
auth_refused (some (sync_failed code)) = is_unauthenticated code
auth_refused (some (ack_failed code)) = is_unauthenticated code
auth_refused (some (submit_failed code)) = is_unauthenticated code
auth_refused (some (event_failed e)) = false
auth_refused (some (agent_event_failed e)) = false

abbrev pub is_error : Option SyncError → Bool
is_error none = false
is_error (some e) = true

-- `time.Duration(max(report.PollSeconds, 1)) * time.Second`
unfoldable pub interval : SyncReport → ℕ
interval report = (if ltb report.poll_seconds 1 then 1 else report.poll_seconds) * second

-- The switch after a pass.
unfoldable pub after_pass : Bool → SyncReport → Option SyncError → Phase
after_pass done report e =
    if auth_refused e
    then returned refused
    else if is_error e && done
    then returned cancelled
    else waiting (interval report)

abbrev pub retires : RpcCode → Bool
retires unauthenticated = true
retires unimplemented = true
retires (other n) = false

-- The code of a stream that could not be opened or that ended.
unfoldable pub after_stream : Bool → RpcCode → Watcher
after_stream done code = if retires code || done then retired else sleeping

-- The kinds that nudge Follow.
abbrev pub nudges : WatchKind → Bool
nudges unspecified = false
nudges listening = true
nudges wake = true

-- `min(backoff*2, 30*time.Second)`
unfoldable pub next_backoff : ℕ → ℕ
next_backoff backoff = if ltb (30 * second) (backoff * 2) then 30 * second else backoff * 2

-- One event of the loop: the context may end at any time; Follow's pass ends, or its select takes
-- one of the ready cases; the watcher's stream opens, delivers or ends, or its sleep is over.
pub data Step : Loop → Event → Loop → Type 0 where
  cancels : (l : Loop) → Step l cancel (record l { done = true })
  passes :
      (l : Loop) (report : SyncReport) (e : Option SyncError)
      → l.phase ≡ syncing
      → Step l (passed report e) (record l { phase = after_pass l.done report e })
  gives_up :
      (l : Loop) (n : ℕ)
      → l.phase ≡ waiting n
      → l.done ≡ true
      → Step l context_ended (record l { phase = returned cancelled })
  polls :
      (l : Loop) (n : ℕ) → l.phase ≡ waiting n → Step l timer_fired (record l { phase = syncing })
  wakes :
      (l : Loop) (n : ℕ)
      → l.phase ≡ waiting n
      → l.pending ≡ true
      → Step l woken (record l { phase = syncing; pending = false })
  connects :
      (l : Loop) → l.watcher ≡ connecting → Step l connected (record l { watcher = streaming })
  receives :
      (l : Loop) (kind : WatchKind)
      → l.watcher ≡ streaming
      → Step l (received kind) (record l { backoff = second; pending = nudges kind || l.pending })
  not_connects :
      (l : Loop) (code : RpcCode)
      → l.watcher ≡ connecting
      → Step l (stream_ended code) (record l { watcher = after_stream l.done code })
  ends :
      (l : Loop) (code : RpcCode)
      → l.watcher ≡ streaming
      → Step l (stream_ended code) (record l { watcher = after_stream l.done code })
  retries :
      (l : Loop)
      → l.watcher ≡ sleeping
      → Step l slept (record l { watcher = connecting; backoff = next_backoff l.backoff })
  retires_early :
      (l : Loop)
      → l.watcher ≢ streaming
      → l.done ≡ true
      → Step l watch_cancelled (record l { watcher = retired })

-- The loops that a history of events, newest first, can lead to.
pub data Reach : List Event → Loop → Type 0 where
  started : Reach [] start
  step : {es : List Event} {l l' : Loop} {e : Event} → Reach es l → Step l e l' → Reach (e ∷ es) l'
