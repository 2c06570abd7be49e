-- ===== src/Transport/Failure.antt =====
-- What Err reports over the life of a listener.
use rook_host.Base.{
  ◌≡◌, ◌∙◌, refl, ap, Option, none, some, true, false, ℕ, List, [], ◌∷◌, ◌++◌, arith, if◌then◌else◌,
}
use mathlib.Core.List.{append_assoc, append-nil}
use rook_host.Base.Result.{ok}
use rook_host.Transport.{
  Listener, ServeEnd, server_closed, failed, listen, serve_returns, listener_err, shutdown,
}

-- ServeTLS returns, which it does once; a call of Err; a call of Shutdown.
pub data ListenerEvent (E : Type 0) : Type 0 where
  returns : ServeEnd E → ListenerEvent E
  asked : ListenerEvent E
  shut_down : ListenerEvent E

module _ {E : Type 0} where
  -- An answer of Err, as what it reports.
  abbrev pub reported : Option E → List E
  reported none = []
  reported (some e) = e ∷ []

  unfoldable pub step : ListenerEvent E → Listener E → List E × Listener E
  unfolding serve_returns listener_err
  step (returns how) l = ([], if l.serving then serve_returns how l else l)
  step asked l = (reported (listener_err l).0, (listener_err l).1)
  step shut_down l = ([], shutdown l)

  -- Everything that the calls of Err report, in order, and the listener that is left.
  unfoldable pub run : List (ListenerEvent E) → Listener E → List E × Listener E
  unfolding step
  run [] l = ([], l)
  run (e ∷ es) l = let (now, l') = step e l in let (later, l'') = run es l' in (now ++ later, l'')

  abbrev failure : ServeEnd E → List E
  failure server_closed = []
  failure (failed e) = e ∷ []

  -- How ServeTLS failed, if it has.
  abbrev pub failures : List (ListenerEvent E) → List E
  failures [] = []
  failures (returns how ∷ es) = failure how
  failures (asked ∷ es) = failures es
  failures (shut_down ∷ es) = failures es

  -- After the return, what is held is still to be reported.
  run_returned :
      (es : List (ListenerEvent E)) (l : Listener E)
      → l.serving ≡ false
      → (run es l).0 ++ reported (run es l).1.done.held ≡ reported l.done.held
  unfolding run
  run_returned [] l s = refl
  run_returned (returns how ∷ es) l s = ground (arith, run_returned es l s)
  run_returned (asked ∷ es) l s =
      let l' = (listener_err l).1 in
      append_assoc (reported l.done.held) (run es l').0 (reported (run es l').1.done.held)
      ∙ ap (λ t. reported l.done.held ++ t) (run_returned es l' s)
      ∙ append-nil (reported l.done.held)
  run_returned (shut_down ∷ es) l s = run_returned es (shutdown l) s

  run_serving :
      (es : List (ListenerEvent E)) (l : Listener E)
      → l.serving ≡ true
      → l.done.held ≡ none
      → (run es l).0 ++ reported (run es l).1.done.held ≡ failures es
  unfolding run
  run_serving [] l s h = rw h refl
  run_serving (returns server_closed ∷ es) l s h =
      let l' = serve_returns server_closed l in ground (arith, run_returned es l' refl)
  run_serving (returns (failed e) ∷ es) l s h =
      let l' = serve_returns (failed e) l in ground (arith, run_returned es l' refl)
  run_serving (asked ∷ es) l s h =
      let l' = (listener_err l).1 in ground (arith, run_serving es l' s refl)
  run_serving (shut_down ∷ es) l s h = run_serving es (shutdown l) s h

  -- A failure of ServeTLS is reported once and never lost: over any life of a new listener, what
  -- the calls of Err report, followed by what is still waiting to be reported, is the failure if
  -- ServeTLS has returned one, and nothing otherwise, ErrServerClosed included.
  pub failure_reported_once :
      (port : ℕ) (es : List (ListenerEvent E)) (l : Listener E)
      → listen (ok port) ≡ ok l
      → (run es l).0 ++ reported (run es l).1.done.held ≡ failures es
  unfolding listen
  failure_reported_once port es l h = run_serving es l (ground (arith, h)) (ground (arith, h))
