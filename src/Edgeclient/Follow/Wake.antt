-- ===== src/Edgeclient/Follow/Wake.antt =====
-- A nudge of the wake stream reaches the poll loop.
use rook_host.Base.{ℕ, ◌≡◌, Bool, true, false, ◌||◌, List, [], ◌∷◌, arith}
use rook_host.Edgeclient.Follow.{
  Loop, syncing, waiting, Event, cancel, passed, context_ended, timer_fired, woken, connected,
  received, stream_ended, slept, watch_cancelled, nudges, Step, cancels, passes, gives_up, polls,
  wakes, connects, receives, not_connects, ends, retries, retires_early, Reach, started, step,
}

-- The stream has nudged since the newest pass began.
abbrev pub nudged : List Event → Bool
nudged [] = false
nudged (received kind ∷ es) = nudges kind || nudged es
nudged (timer_fired ∷ es) = false
nudged (woken ∷ es) = false
nudged (cancel ∷ es) = nudged es
nudged (passed report e ∷ es) = nudged es
nudged (context_ended ∷ es) = nudged es
nudged (slept ∷ es) = nudged es
nudged (connected ∷ es) = nudged es
nudged (stream_ended code ∷ es) = nudged es
nudged (watch_cancelled ∷ es) = nudged es

nudged_pending : {es : List Event} {l : Loop} → Reach es l → nudged es ≡ true → l.pending ≡ true
nudged_pending started n = absurd (cc)
nudged_pending (step r (cancels l)) n = nudged_pending r n
nudged_pending (step r (passes l report e h)) n = nudged_pending r n
nudged_pending (step r (gives_up l i h d)) n = nudged_pending r n
nudged_pending (step r (polls l i h)) n = absurd (cc)
nudged_pending (step r (wakes l i h p)) n = absurd (cc)
nudged_pending (step r (connects l h)) n = nudged_pending r n
nudged_pending (step r (receives l kind h)) n = ground (arith, nudged_pending r)
nudged_pending (step r (not_connects l code h)) n = nudged_pending r n
nudged_pending (step r (ends l code h)) n = nudged_pending r n
nudged_pending (step r (retries l h)) n = nudged_pending r n
nudged_pending (step r (retires_early l h d)) n = nudged_pending r n

-- A nudge that arrives at any moment since the newest pass began, during the pass or after it, is
-- not lost: whenever the loop then waits, it can wake at once, without its timer, into a new pass
-- that takes the nudge.
pub wake_not_lost :
    {es : List Event} {l : Loop} (i : ℕ)
    → Reach es l
    → nudged es ≡ true
    → l.phase ≡ waiting i
    → Step l woken (record l { phase = syncing; pending = false })
wake_not_lost {l = l} i r n h = wakes l i h (nudged_pending r n)
