-- ===== src/Edgeclient/Follow/Ends.antt =====
-- When Follow returns.
use rook_host.Base.{
  ◌≡◌, refl, sym, ◌∙◌, subst, Bool, true, false, Bool-cases, inl, inr, ◌||◌, List, [], ◌∷◌, arith,
  Option, ◌≤◌, ◌*◌, none, some, ℕ,
}
use rook_host.Base.Time.{second}
use rook_host.Edgeclient.Protocol.{SyncReport, SyncError}
use rook_host.Edgeclient.Follow.{
  Loop, Phase, syncing, waiting, returned, refused, cancelled, Event, cancel, passed, context_ended,
  timer_fired, woken, connected, received, stream_ended, slept, watch_cancelled, auth_refused,
  is_error, interval, after_pass, cancels, passes, gives_up, polls, wakes, connects, receives,
  not_connects, ends, retries, retires_early, Reach, started, step,
}

-- A pass in the history was refused for its token.
abbrev pub was_refused : List Event → Bool
was_refused [] = false
was_refused (passed report e ∷ es) = auth_refused e || was_refused es
was_refused (received kind ∷ es) = was_refused es
was_refused (timer_fired ∷ es) = was_refused es
was_refused (woken ∷ es) = was_refused es
was_refused (cancel ∷ es) = was_refused es
was_refused (context_ended ∷ es) = was_refused es
was_refused (slept ∷ es) = was_refused es
was_refused (connected ∷ es) = was_refused es
was_refused (stream_ended code ∷ es) = was_refused es
was_refused (watch_cancelled ∷ es) = was_refused es

-- The context ended.
abbrev pub was_cancelled : List Event → Bool
was_cancelled [] = false
was_cancelled (cancel ∷ es) = true
was_cancelled (passed report e ∷ es) = was_cancelled es
was_cancelled (received kind ∷ es) = was_cancelled es
was_cancelled (timer_fired ∷ es) = was_cancelled es
was_cancelled (woken ∷ es) = was_cancelled es
was_cancelled (context_ended ∷ es) = was_cancelled es
was_cancelled (slept ∷ es) = was_cancelled es
was_cancelled (connected ∷ es) = was_cancelled es
was_cancelled (stream_ended code ∷ es) = was_cancelled es
was_cancelled (watch_cancelled ∷ es) = was_cancelled es

done_cancelled : {es : List Event} {l : Loop} → Reach es l → l.done ≡ was_cancelled es
done_cancelled started = refl
done_cancelled (step r (cancels l)) = refl
done_cancelled (step r (passes l report e h)) = done_cancelled r
done_cancelled (step r (gives_up l i h d)) = done_cancelled r
done_cancelled (step r (polls l i h)) = done_cancelled r
done_cancelled (step r (wakes l i h p)) = done_cancelled r
done_cancelled (step r (connects l h)) = done_cancelled r
done_cancelled (step r (receives l kind h)) = done_cancelled r
done_cancelled (step r (not_connects l code h)) = done_cancelled r
done_cancelled (step r (ends l code h)) = done_cancelled r
done_cancelled (step r (retries l h)) = done_cancelled r
done_cancelled (step r (retires_early l h d)) = done_cancelled r

-- The report of the newest pass.
abbrev pub last_report : List Event → Option SyncReport
last_report [] = none
last_report (passed report e ∷ es) = some report
last_report (cancel ∷ es) = last_report es
last_report (received kind ∷ es) = last_report es
last_report (timer_fired ∷ es) = last_report es
last_report (woken ∷ es) = last_report es
last_report (context_ended ∷ es) = last_report es
last_report (slept ∷ es) = last_report es
last_report (connected ∷ es) = last_report es
last_report (stream_ended code ∷ es) = last_report es
last_report (watch_cancelled ∷ es) = last_report es

-- The timer of a wait, in nanoseconds, is set to at least a second, and to at least the interval
-- that the cloud asked for in the newest pass.
abbrev pub IsPaced : List Event → ℕ → Type 0
IsPaced es n =
    (report : SyncReport) × (last_report es ≡ some report)
    × (second ≤ n)
    × (report.poll_seconds * second ≤ n)

-- What a phase says of the history.
abbrev pub Explains : List Event → Phase → Type 0
Explains es syncing = was_refused es ≡ false
Explains es (waiting n) = (was_refused es ≡ false) × IsPaced es n
Explains es (returned refused) = was_refused es ≡ true
Explains es (returned cancelled) = (was_refused es ≡ false) × (was_cancelled es ≡ true)

interval-le :
    (report : SyncReport)
    → (second ≤ interval report) × (report.poll_seconds * second ≤ interval report)
unfolding interval
interval-le report = ground arith

Explains-keep :
    (es es' : List Event) (p : Phase)
    → was_refused es' ≡ was_refused es
    → (was_cancelled es ≡ true → was_cancelled es' ≡ true)
    → last_report es' ≡ last_report es
    → Explains es p
    → Explains es' p
Explains-keep es es' syncing e f l x = e ∙ x
Explains-keep es es' (waiting n) e f l (x, (report, h, a, b)) = (e ∙ x, (report, l ∙ h, a, b))
Explains-keep es es' (returned refused) e f l x = e ∙ x
Explains-keep es es' (returned cancelled) e f l x = (e ∙ x.0, f x.1)

after_pass-Explains :
    (es : List Event) (done : Bool) (report : SyncReport) (e : Option SyncError)
    → was_refused es ≡ false
    → done ≡ was_cancelled es
    → Explains (passed report e ∷ es) (after_pass done report e)
unfolding after_pass
after_pass-Explains es done report e h d = elim (Bool-cases (auth_refused e)) [
  | inl a ↦ rw (a, after_pass) (rw (a) refl)
  | inr a ↦ elim (Bool-cases (is_error e)) [
    | inl b ↦ elim (Bool-cases done) [
      | inl c ↦ rw (a, b, c, after_pass) (rw (a) h, sym d ∙ c)
      | inr c ↦
          rw (a, b, c, after_pass)
            (rw (a) h, (report, refl, (interval-le report).0, (interval-le report).1))
    ]
    | inr b ↦
        rw (a, b, after_pass)
          (rw (a) h, (report, refl, (interval-le report).0, (interval-le report).1))
  ]
]

-- Follow has returned with the refusal exactly if a pass was refused for its token, and it returns
-- otherwise only after the end of the context. While it waits, its timer is set to at least a
-- second and at least the interval that the newest pass reported; a nudge may end the wait sooner.
pub phase_explained : {es : List Event} {l : Loop} → Reach es l → Explains es l.phase
phase_explained started = refl
phase_explained {es = e ∷ es} (step r (cancels l)) =
    Explains-keep es (e ∷ es) l.phase refl (λ c. refl) refl (phase_explained r)
phase_explained {es = x ∷ es} (step r (passes l report e h)) =
    after_pass-Explains es l.done report e (subst (λ p. Explains es p) h (phase_explained r))
      (done_cancelled r)
phase_explained {es = e ∷ es} (step r (gives_up l i h d)) =
    ((subst (λ p. Explains es p) h (phase_explained r)).0, sym (done_cancelled r) ∙ d)
phase_explained {es = e ∷ es} (step r (polls l i h)) =
    (subst (λ p. Explains es p) h (phase_explained r)).0
phase_explained {es = e ∷ es} (step r (wakes l i h p)) =
    (subst (λ p. Explains es p) h (phase_explained r)).0
phase_explained {es = e ∷ es} (step r (connects l h)) =
    Explains-keep es (e ∷ es) l.phase refl (λ c. c) refl (phase_explained r)
phase_explained {es = e ∷ es} (step r (receives l kind h)) =
    Explains-keep es (e ∷ es) l.phase refl (λ c. c) refl (phase_explained r)
phase_explained {es = e ∷ es} (step r (not_connects l code h)) =
    Explains-keep es (e ∷ es) l.phase refl (λ c. c) refl (phase_explained r)
phase_explained {es = e ∷ es} (step r (ends l code h)) =
    Explains-keep es (e ∷ es) l.phase refl (λ c. c) refl (phase_explained r)
phase_explained {es = e ∷ es} (step r (retries l h)) =
    Explains-keep es (e ∷ es) l.phase refl (λ c. c) refl (phase_explained r)
phase_explained {es = e ∷ es} (step r (retires_early l h d)) =
    Explains-keep es (e ∷ es) l.phase refl (λ c. c) refl (phase_explained r)
