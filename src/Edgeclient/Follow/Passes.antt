-- ===== src/Edgeclient/Follow/Passes.antt =====
-- The passes of Follow as runs of SyncOnce.
use rook_host.Base.{◌≡◌, true, List, arith, Option}
use rook_host.Base.Result.{err}
use rook_host.Crypto.{Crypto}
use rook_host.Edgesign.Grant.{GrantCodec}
use rook_host.Edgeclient.Events.{Payloads}
use rook_host.Edgeclient.Protocol.{Client, Peer, Call, RpcCode, SyncReport, SyncError}
use rook_host.Edgeclient.Sync.{sync_once}
use rook_host.Edgeclient.Follow.{
  Event, cancel, passed, context_ended, timer_fired, woken, connected, received, stream_ended,
  slept, watch_cancelled, is_error,
}

-- The pass failed, if the event is the end of one.
abbrev pub Fails : Event → Type 0
Fails cancel = Unit
Fails (passed report e) = is_error e ≡ true
Fails context_ended = Unit
Fails timer_fired = Unit
Fails woken = Unit
Fails connected = Unit
Fails (received kind) = Unit
Fails (stream_ended code) = Unit
Fails slept = Unit
Fails watch_cancelled = Unit

module _ (crypto : Crypto) (codec : GrantCodec) (payloads : Payloads) (peer : Peer)
    (c : Client) where
  -- A pass ends with what SyncOnce returns.
  abbrev pub IsPass : Event → Type 0
  IsPass cancel = Unit
  IsPass (passed report e) =
      (calls : List Call) × ((sync_once crypto codec payloads peer c calls).0 ≡ (report, e))
  IsPass context_ended = Unit
  IsPass timer_fired = Unit
  IsPass woken = Unit
  IsPass connected = Unit
  IsPass (received kind) = Unit
  IsPass (stream_ended code) = Unit
  IsPass slept = Unit
  IsPass watch_cancelled = Unit

  -- A pass that began after the end of the context: its call of SyncEdge is answered with an error,
  -- as every call is that is made with an ended context.
  abbrev pub IsLate : Event → Type 0
  IsLate cancel = Unit
  IsLate (passed report e) =
      (calls : List Call) × (code : RpcCode) × (peer.sync_edge calls ≡ err code)
      × ((sync_once crypto codec payloads peer c calls).0 ≡ (report, e))
  IsLate context_ended = Unit
  IsLate timer_fired = Unit
  IsLate woken = Unit
  IsLate connected = Unit
  IsLate (received kind) = Unit
  IsLate (stream_ended code) = Unit
  IsLate slept = Unit
  IsLate watch_cancelled = Unit

  late_fails :
      (report : SyncReport) (e : Option SyncError) (calls : List Call) (code : RpcCode)
      → peer.sync_edge calls ≡ err code
      → (sync_once crypto codec payloads peer c calls).0 ≡ (report, e)
      → is_error e ≡ true
  unfolding sync_once
  late_fails report e calls code h k = ground (arith, h, k)

  pub IsLate-Fails : (e : Event) → IsLate e → Fails e
  IsLate-Fails cancel f = tt
  IsLate-Fails (passed report e) (calls, code, h, k) = late_fails report e calls code h k
  IsLate-Fails context_ended f = tt
  IsLate-Fails timer_fired f = tt
  IsLate-Fails woken f = tt
  IsLate-Fails connected f = tt
  IsLate-Fails (received kind) f = tt
  IsLate-Fails (stream_ended code) f = tt
  IsLate-Fails slept f = tt
  IsLate-Fails watch_cancelled f = tt
