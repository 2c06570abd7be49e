-- ===== src/Edgeclient/Follow/Backoff.antt =====
-- The watcher's backoff as a function of the reconnections since the stream last spoke.
use rook_host.Base.{ℕ, suc, ◌*◌, ◌^◌, ◌≡◌, refl, List, [], ◌∷◌, arith, ltb, if◌then◌else◌}
use rook_host.Base.Time.{second}
use rook_host.Edgeclient.Follow.{
  Loop, Event, cancel, passed, context_ended, timer_fired, woken, connected, received, stream_ended,
  slept, watch_cancelled, next_backoff, cancels, passes, gives_up, polls, wakes, connects, receives,
  not_connects, ends, retries, retires_early, Reach, started, step,
}

-- How often the watcher has slept since the stream's last message.
abbrev pub sleeps : List Event → ℕ
sleeps [] = 0
sleeps (received kind ∷ es) = 0
sleeps (slept ∷ es) = suc (sleeps es)
sleeps (cancel ∷ es) = sleeps es
sleeps (passed report e ∷ es) = sleeps es
sleeps (context_ended ∷ es) = sleeps es
sleeps (timer_fired ∷ es) = sleeps es
sleeps (woken ∷ es) = sleeps es
sleeps (connected ∷ es) = sleeps es
sleeps (stream_ended code ∷ es) = sleeps es
sleeps (watch_cancelled ∷ es) = sleeps es

-- 2^n seconds, and 30 at most.
abbrev pub capped : ℕ → ℕ
capped n = (if ltb 30 (2 ^ n) then 30 else 2 ^ n) * second

next_backoff-capped : (n : ℕ) → next_backoff (capped n) ≡ capped (suc n)
unfolding next_backoff
next_backoff-capped n = ground arith

-- In every loop that can be reached, the next reconnection waits 2^n seconds, and 30 at most, after
-- n sleeps since the stream last delivered a message.
pub backoff_doubles : {es : List Event} {l : Loop} → Reach es l → l.backoff ≡ capped (sleeps es)
backoff_doubles started = refl
backoff_doubles (step r (cancels l)) = backoff_doubles r
backoff_doubles (step r (passes l report e h)) = backoff_doubles r
backoff_doubles (step r (gives_up l n h d)) = backoff_doubles r
backoff_doubles (step r (polls l n h)) = backoff_doubles r
backoff_doubles (step r (wakes l n h p)) = backoff_doubles r
backoff_doubles (step r (connects l h)) = backoff_doubles r
backoff_doubles (step r (receives l kind h)) = refl
backoff_doubles (step r (not_connects l code h)) = backoff_doubles r
backoff_doubles (step r (ends l code h)) = backoff_doubles r
backoff_doubles {es = e ∷ es} (step r (retries l h)) =
    rw (backoff_doubles r) (next_backoff-capped (sleeps es))
backoff_doubles (step r (retires_early l h d)) = backoff_doubles r
