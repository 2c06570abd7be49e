-- ===== src/Examples/Edge.antt =====
-- The edge client.
use rook_host.Base.{◌+◌, ◌≤◌, arith, ◌≡◌, refl, ◌*◌, none, some, false, List, [], ◌∷◌, true, length}
use rook_host.Base.Bytes.{codes}
use rook_host.Base.Int.{pos}
use rook_host.Base.Time.{second}
use rook_host.Base.Result.{ok, err}
use rook_host.Crypto.{toy_crypto}
use rook_host.Edgesign.Envelope.{EdgeCommand, EdgeEvent}
use rook_host.Edgeclient.Events.{result_event, agent_event, Payloads}
use rook_host.Edgeclient.Sync.{
  sync_once, handle_commands, handle_command, report_command, settle, refuse, agent_events,
}
use rook_host.Edgeclient.Protocol.{
  Client, Peer, other, SyncResponse, no_report, SyncError, sync_failed,
}
use rook_host.Edgeclient.Sync.Vetted.{IsVetted, sync_once-IsVetted}
use rook_host.Edgeclient.Sync.Journal.{IsJournal, handle_commands-IsJournal}
use rook_host.Edgeclient.Sync.Completes.{IsWilling, IsSent, sync_once_completes}
use rook_host.Edgeclient.Follow.{
  Loop, streaming, start, Event, Reach, started, step, Step, passes, connects, receives, retries,
  waiting, syncing, connecting, not_connects, next_backoff, listening, passed, woken, connected,
  received, stream_ended, slept, interval, after_pass, after_stream, timer_fired, polls, returned,
  cancelled,
}
use rook_host.Edgeclient.Follow.Wake.{wake_not_lost}
use rook_host.Edgeclient.Follow.Stops.{Runs, here, more, own, rank, Proceeds, follow_stops}
use rook_host.Edgeclient.Follow.Ends.{phase_explained, Explains}
use rook_host.Examples.Data.{order}
use rook_host.Examples.Grants.{codec}

abbrev client : Client
client = record { key = some (codes "k"); cloud_key = none }

abbrev job : EdgeCommand
job = record (order []) { approval_grant_id = []; ledger_payload = [] }

abbrev payloads : Payloads
payloads = record {
  pack_result = λ r. some (record { type_url = codes "result"; value = r.status });
  pack_agent = λ e. some (record { type_url = codes "agent"; value = e.kind });
}

abbrev response : SyncResponse
response = record { commands = job ∷ []; acked_device_sequence = 7; poll_interval_seconds = 5 }

-- One command, one update, everything accepted.
abbrev peer : Peer
peer = record {
  register_device = λ calls req. ok (record { device_id = codes "d"; cloud_public_key = none });
  sync_edge = λ calls. ok response;
  ack_command = λ calls id. none;
  submit_events = λ calls evs. ok (record { acked_device_sequence = 9; rejections = [] });
  execute = λ calls cmd. (codes "succeeded", []);
  agent = some (λ calls cmd status json.
      record { session_id = codes "s"; kind = codes "started"; summary = []; data_json = [] } ∷ []);
  reason_json = λ r. [];
  clock = λ calls. length calls;
  timestamp = λ calls seq. record { seconds = pos 1; nanos = pos 0 };
}

abbrev willing : IsWilling payloads peer
willing = record {
  acks = λ calls id. refl;
  submits = λ calls evs. (_, refl);
  executes = λ calls cmd. refl;
  observes = λ calls cmd status json. ((refl, refl), tt);
  packs_result = λ r. (_, refl);
  packs_agent = λ e. (_, refl);
}

sync_once-IsVetted_example :
    IsVetted toy_crypto codec payloads peer client
      (sync_once toy_crypto codec payloads peer client []).1
sync_once-IsVetted_example = sync_once-IsVetted toy_crypto codec payloads peer client [] tt

-- The events of a batch, numbered 8 and 9.
abbrev batch : List EdgeEvent
batch = elim (handle_commands toy_crypto codec payloads peer client (job ∷ []) 7 []).0 [
  | ok evs ↦ evs
  | err e ↦ []
]

handled : (handle_commands toy_crypto codec payloads peer client (job ∷ []) 7 []).0 ≡ ok batch
unfolding handle_commands handle_command report_command result_event settle refuse agent_events
    agent_event
handled = refl

handle_commands-IsJournal_example :
    IsJournal toy_crypto codec payloads peer client 7 (job ∷ []) batch
handle_commands-IsJournal_example =
    handle_commands-IsJournal toy_crypto codec payloads peer client (job ∷ []) 7 [] batch handled

sync_once_completes_example :
    (evs : List EdgeEvent) × IsJournal toy_crypto codec payloads peer client 7 (job ∷ []) evs
    × let r = sync_once toy_crypto codec payloads peer client [] in
      (r.0.1 ≡ none) × (r.0.0.reported ≡ length evs) × IsSent evs r.1
sync_once_completes_example =
    sync_once_completes toy_crypto codec payloads peer client willing [] response refl

-- The stream connects and greets during the first pass, which then waits for five seconds.
abbrev history : List Event
history = passed no_report none ∷ received listening ∷ connected ∷ []

abbrev greeted : Loop
greeted = record start { watcher = streaming; pending = true; phase = waiting second }

greeted_reached : Reach history greeted
unfolding after_pass interval
greeted_reached =
    step (step (step started (connects start refl)) (receives _ listening refl))
      (passes _ no_report none refl)

wake_not_lost_example : Step greeted woken (record greeted { phase = syncing; pending = false })
wake_not_lost_example = wake_not_lost second greeted_reached refl refl

-- Two connections that failed.
abbrev backed_off : Loop
backed_off = record start { watcher = connecting; backoff = 4 * second }

backed_off_reached :
    Reach (slept ∷ stream_ended (other 14) ∷ slept ∷ stream_ended (other 14) ∷ []) backed_off
unfolding after_stream next_backoff
backed_off_reached =
    step
      (step (step (step started (not_connects start (other 14) refl)) (retries _ refl))
        (not_connects _ (other 14) refl))
      (retries _ refl)

phase_explained_example : Explains history (waiting second)
phase_explained_example = phase_explained greeted_reached

-- A cloud that answers no call of SyncEdge, as from an ended context.
abbrev silent : Peer
silent = record peer { sync_edge = λ calls. err (other 1) }

-- The context ends while a pass is under way, which then succeeds; the loop polls once more.
abbrev ended : Loop
ended = record start { done = true }

abbrev late_error : SyncError
late_error = sync_failed (other 1)

abbrev last_events : List Event
last_events = passed no_report (some late_error) ∷ timer_fired ∷ passed no_report none ∷ []

abbrev stopped : Loop
stopped = record ended { phase = returned cancelled }

last_events_run : Runs ended last_events stopped
unfolding after_pass interval
last_events_run =
    more
      (more (more here (passes ended no_report none refl))
        (polls (record ended { phase = waiting (1 * second) }) (1 * second) refl))
      (passes (record ended { phase = syncing }) no_report (some late_error) refl)

late_pass : (sync_once toy_crypto codec payloads silent client []).0 ≡ (no_report, some late_error)
unfolding sync_once
late_pass = refl

follow_stops_example :
    (own last_events + rank stopped.phase ≤ 3)
    × Proceeds toy_crypto codec payloads silent client stopped
follow_stops_example =
    follow_stops toy_crypto codec payloads silent client ended stopped last_events last_events_run
      refl (λ h. ([], other 1, refl, late_pass), (λ h. tt, (λ h. absurd (omega arith), tt)))
