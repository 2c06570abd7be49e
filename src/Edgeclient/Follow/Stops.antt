-- ===== src/Edgeclient/Follow/Stops.antt =====
-- How Follow comes to an end once its context has.
use rook_host.Base.{
  ℕ, ◌+◌, ◌≤◌, ◌<◌, ◌≡◌, refl, ◌⊎◌, inl, inr, Bool, true, false, List, [], ◌∷◌, arith, Option,
  Bool-cases,
}
use rook_host.Crypto.{Crypto}
use rook_host.Edgesign.Grant.{GrantCodec}
use rook_host.Edgeclient.Events.{Payloads}
use rook_host.Edgeclient.Protocol.{Client, Peer, SyncReport, SyncError}
use rook_host.Edgeclient.Sync.{sync_once}
use rook_host.Edgeclient.Follow.{
  Loop, Phase, syncing, waiting, returned, Event, cancel, passed, context_ended, timer_fired, woken,
  connected, received, stream_ended, slept, watch_cancelled, auth_refused, is_error, after_pass,
  Step, cancels, passes, gives_up, polls, wakes, connects, receives, not_connects, ends, retries,
  retires_early, Ending,
}
use rook_host.Edgeclient.Follow.Passes.{Fails, IsPass, IsLate, IsLate-Fails}

-- The steps from one loop to another, newest first.
pub data Runs (l : Loop) : List Event → Loop → Type 0 where
  here : Runs l [] l
  more :
      {es : List Event} {l' l'' : Loop} {e : Event}
      → Runs l es l'
      → Step l' e l''
      → Runs l (e ∷ es) l''

-- An event of Follow itself, and not of the watcher or of the context.
abbrev pub is_own : Event → Bool
is_own cancel = false
is_own (passed report e) = true
is_own context_ended = true
is_own timer_fired = true
is_own woken = true
is_own connected = false
is_own (received kind) = false
is_own (stream_ended code) = false
is_own slept = false
is_own watch_cancelled = false

abbrev one_if : Bool → ℕ
one_if true = 1
one_if false = 0

-- How many of the events are Follow's.
abbrev pub own : List Event → ℕ
own [] = 0
own (e ∷ es) = one_if (is_own e) + own es

-- How many events of its own Follow may still take.
abbrev pub rank : Phase → ℕ
rank (waiting n) = 2
rank syncing = 1
rank (returned how) = 0

after_pass-rank :
    (report : SyncReport) (e : Option SyncError)
    → is_error e ≡ true
    → rank (after_pass true report e) ≡ 0
unfolding after_pass
after_pass-rank report e h = elim (Bool-cases (auth_refused e)) [
  | inl a ↦ rw (a, after_pass) refl
  | inr a ↦ rw (a, h, after_pass) refl
]

Step-rank :
    {l l' : Loop} {e : Event}
    → Step l e l'
    → l.done ≡ true
    → Fails e
    → one_if (is_own e) + rank l'.phase ≤ rank l.phase
Step-rank (cancels l) d f = omega arith
Step-rank (passes l report e h) d f = rw (d, h, after_pass-rank report e f) (omega arith)
Step-rank (gives_up l n h c) d f = rw h (omega arith)
Step-rank (polls l n h) d f = rw h (omega arith)
Step-rank (wakes l n h p) d f = rw h (omega arith)
Step-rank (connects l h) d f = omega arith
Step-rank (receives l kind h) d f = omega arith
Step-rank (not_connects l code h) d f = omega arith
Step-rank (ends l code h) d f = omega arith
Step-rank (retries l h) d f = omega arith
Step-rank (retires_early l h c) d f = omega arith

Step-done : {l l' : Loop} {e : Event} → Step l e l' → l.done ≡ true → l'.done ≡ true
Step-done (cancels l) d = refl
Step-done (passes l report e h) d = d
Step-done (gives_up l n h c) d = d
Step-done (polls l n h) d = d
Step-done (wakes l n h p) d = d
Step-done (connects l h) d = d
Step-done (receives l kind h) d = d
Step-done (not_connects l code h) d = d
Step-done (ends l code h) d = d
Step-done (retries l h) d = d
Step-done (retires_early l h c) d = d

rank_le : (p : Phase) → rank p ≤ 2
rank_le syncing = omega arith
rank_le (waiting n) = omega arith
rank_le (returned how) = omega arith

module _ (crypto : Crypto) (codec : GrantCodec) (payloads : Payloads) (peer : Peer)
    (c : Client) where
  -- Every pass but the one that may be under way began after the end of the context.
  abbrev pub LaterLate : List Event → Type 0
  LaterLate [] = Unit
  LaterLate (e ∷ es) = (0 < own es → IsLate crypto codec payloads peer c e) × LaterLate es

  Runs-rank :
      {l l' : Loop} {es : List Event}
      → Runs l es l'
      → l.done ≡ true
      → LaterLate es
      → (l'.done ≡ true) × ((own es ≡ 0) ⊎ ((0 < own es) × (own es + rank l'.phase ≤ 3)))
  Runs-rank here d f = (d, inl refl)
  Runs-rank {es = e ∷ es} (more {l'' = l''} r s) d f =
      let (d', before) = Runs-rank r d f.1 in
      elim before [
        | inl none_yet ↦ elim (Bool-cases (is_own e)) [
          | inl o ↦ (
            Step-done s d',
            inr (
              rw (o, none_yet) (omega arith),
              rw (o, none_yet) (omega (arith, rank_le l''.phase)),
            ),
          )
          | inr o ↦ (Step-done s d', inl (rw o (omega arith)))
        ]
        | inr (some_own, bound) ↦
            let less =
              Step-rank s d' (IsLate-Fails crypto codec payloads peer c e (f.0 some_own)) in
            (Step-done s d', inr (omega arith, omega arith))
      ]

  -- Follow has returned, or has an event of its own to take.
  abbrev pub Proceeds : Loop → Type 0
  Proceeds l =
      ((how : Ending) × (l.phase ≡ returned how))
      ⊎ ((e : Event) × (l' : Loop) × Step l e l'
          × (is_own e ≡ true)
          × IsPass crypto codec payloads peer c e)

  proceeds : (l : Loop) (p : Phase) → l.phase ≡ p → l.done ≡ true → Proceeds l
  proceeds l syncing h d =
      let r = (sync_once crypto codec payloads peer c []).0 in
      inr (passed r.0 r.1, _, passes l r.0 r.1 h, refl, ([], refl))
  proceeds l (waiting n) h d = inr (context_ended, _, gives_up l n h d, refl, tt)
  proceeds l (returned how) h d = inl (how, h)

  -- Follow terminates: once the context has ended, every run of the loop and its watcher has at most
  -- three events of Follow itself, if every pass but the one that may be under way is a SyncOnce
  -- whose call of SyncEdge is answered with an error, as a call with an ended context is; and at
  -- the end of the run Follow has returned or can take an event of its own, where a pass ends with
  -- what SyncOnce returns.
  pub follow_stops :
      (l l' : Loop) (es : List Event)
      → Runs l es l'
      → l.done ≡ true
      → LaterLate es
      → (own es + rank l'.phase ≤ 3) × Proceeds l'
  follow_stops l l' es r d f =
      let (d', bound) = Runs-rank r d f in
      (
        elim bound [ inl e ↦ omega (arith, rank_le l'.phase) | inr (p, b) ↦ b ],
        proceeds l' l'.phase refl d',
      )
