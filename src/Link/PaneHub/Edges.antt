-- ===== src/Link/PaneHub/Edges.antt =====
-- The source produces for a session exactly while somebody watches it.
use rook_host.Base.{
  ℕ, zero, suc, ◌≡◌, refl, none, Bool, true, false, not, ◌||◌, List, [], ◌∷◌, arith, Bool-cases,
  inl, inr, if◌then◌else◌, if_both, if_split, subst, sym, ◌∙◌,
}
use rook_host.Base.Bytes.{Bytes}
use rook_host.Projection.Pane.{PaneFrame}
use rook_host.Link.Stream.{
  Watcher, StreamEvent, context_done, gone_closed, update_ready, ticked, offer, fan_out, handle,
  modify, drop_watchers,
}
use rook_host.Link.PaneHub.{
  PaneMessage, PaneSession, SourceCall, opened, open_failed, closed, new_session, watched,
  close_if_unwatched, publish_session, join_session, subscribe_session, drop_session,
  stream_session,
}

-- Calls, newest first, of which those that take effect alternate, and end (or not) with an Open
-- that is not closed; an Open fails only where none is.
abbrev pub Alternates : Bool → List SourceCall → Type 0
Alternates false [] = Unit
Alternates true [] = ⊥
Alternates b (opened ∷ cs) = (b ≡ true) × Alternates false cs
Alternates b (open_failed ∷ cs) = (b ≡ false) × Alternates false cs
Alternates b (closed ∷ cs) = (b ≡ false) × Alternates true cs

-- The source is open exactly while there is a watcher; the calls that made it so alternate; and
-- no frame is kept while it is closed.
pub record IsEdge (s : PaneSession) : Type 0 where
  pub watched_open : watched s.subs ≡ s.is_open
  pub alternates : Alternates s.is_open s.calls
  pub dropped : s.is_open ≡ false → s.current ≡ none

-- Between two calls of the hub: as above, but the last watcher may just have left.
record IsLoose (s : PaneSession) : Type 0 where
  open_if : watched s.subs ≡ true → s.is_open ≡ true
  alternates : Alternates s.is_open s.calls
  dropped : s.is_open ≡ false → s.current ≡ none

close-IsEdge : (s : PaneSession) → IsLoose s → IsEdge (close_if_unwatched s)
unfolding close_if_unwatched
close-IsEdge s l = elim (Bool-cases (watched s.subs || not s.is_open)) [
  | inl e ↦
      rw (e, close_if_unwatched)
        (record {
          watched_open = ground (arith, l.open_if);
          alternates = l.alternates;
          dropped = l.dropped;
        })
  | inr e ↦
      let now_open : s.is_open ≡ true = ground arith in
      rw (e, close_if_unwatched)
        (record {
          watched_open = ground arith;
          alternates = (refl, rw now_open at l.alternates);
          dropped = λ _. refl;
        })
]

watched-fan_out :
    (m : PaneMessage) (ws : List (Watcher PaneMessage)) → watched (fan_out m ws) ≡ watched ws
unfolding fan_out watched offer
watched-fan_out m [] = refl
watched-fan_out m (w ∷ ws) = ground (arith, watched-fan_out m ws)

publish-IsEdge : (f : PaneFrame) (s : PaneSession) → IsEdge s → IsEdge (publish_session f s)
unfolding publish_session
publish-IsEdge f s e = elim (Bool-cases (watched s.subs)) [
  | inl w ↦
      let now_open : s.is_open ≡ true = ground (arith, e.watched_open) in
      rw (w, publish_session)
        (record {
          watched_open = watched-fan_out _ s.subs ∙ e.watched_open;
          alternates = e.alternates;
          dropped = λ c. absurd (ground arith);
        })
  | inr w ↦ rw (w, publish_session) e
]

join-IsEdge :
    (d : Bytes) (delivered : Bool) (s : PaneSession)
    → s.is_open ≡ true
    → Alternates s.is_open s.calls
    → IsEdge (join_session d delivered s)
unfolding join_session
join-IsEdge d delivered s o a =
    close-IsEdge _
      (record { open_if = λ _. o; alternates = a; dropped = λ c. absurd (ground arith) })

subscribe-IsEdge :
    (d : Bytes) (opens delivered : Bool) (s : PaneSession)
    → IsEdge s
    → IsEdge (subscribe_session d opens delivered s)
unfolding subscribe_session
subscribe-IsEdge d opens delivered s e =
    let opening : PaneSession = record s { is_open = true; calls = opened ∷ s.calls } in
    let failed : PaneSession = record s { calls = open_failed ∷ s.calls } in
    let told = if opens then join_session d delivered opening else failed in
    if_split IsEdge s.is_open (join_session d delivered s) told
      (λ o. join-IsEdge d delivered s o e.alternates)
      (λ c.
        let shut = subst (λ b. Alternates b s.calls) c e.alternates in
        if_both IsEdge opens (join_session d delivered opening) failed
          (join-IsEdge d delivered opening refl (refl, shut))
          (record { watched_open = e.watched_open; alternates = (c, shut); dropped = e.dropped }))

member-handle :
    (event : StreamEvent) (w : Watcher PaneMessage)
    → (handle event w).member ≡ true
    → w.member ≡ true
unfolding handle
member-handle context_done w h = ground arith
member-handle gone_closed w h = ground arith
member-handle (update_ready d) w h = ground arith
member-handle (ticked d) w h = ground arith

drop_loose :
    (s : PaneSession) (ws : List (Watcher PaneMessage))
    → (watched ws ≡ true → watched s.subs ≡ true)
    → IsEdge s
    → IsEdge (close_if_unwatched (record s { subs = ws }))
drop_loose s ws fewer e =
    close-IsEdge (record s { subs = ws })
      (record {
        open_if = λ h. sym e.watched_open ∙ fewer h;
        alternates = e.alternates;
        dropped = e.dropped;
      })

watched-drop :
    (d : Bytes) (ws : List (Watcher PaneMessage))
    → watched (drop_watchers d ws) ≡ true
    → watched ws ≡ true
unfolding drop_watchers watched
watched-drop d [] h = h
watched-drop d (w ∷ ws) h = ground (arith, watched-drop d ws)

watched-modify :
    (i : ℕ) (event : StreamEvent) (ws : List (Watcher PaneMessage))
    → watched (modify i (handle event) ws) ≡ true
    → watched ws ≡ true
unfolding modify watched
watched-modify i event [] h = h
watched-modify zero event (w ∷ ws) h = ground (arith, member-handle event w)
watched-modify (suc i) event (w ∷ ws) h = ground (arith, watched-modify i event ws)

-- The operations on a session.
pub data SessionEvent : Type 0 where
  publishes : PaneFrame → SessionEvent
  subscribes : Bytes → Bool → Bool → SessionEvent
  drops : Bytes → SessionEvent
  streams : ℕ → StreamEvent → SessionEvent

unfoldable pub step : PaneSession → SessionEvent → PaneSession
step s (publishes f) = publish_session f s
step s (subscribes d opens delivered) = subscribe_session d opens delivered s
step s (drops d) = drop_session d s
step s (streams i event) = stream_session i event s

unfoldable pub run : PaneSession → List SessionEvent → PaneSession
run s [] = s
run s (e ∷ es) = run (step s e) es

step-IsEdge : (s : PaneSession) (e : SessionEvent) → IsEdge s → IsEdge (step s e)
unfolding step drop_session stream_session
step-IsEdge s (publishes f) h = publish-IsEdge f s h
step-IsEdge s (subscribes d opens delivered) h = subscribe-IsEdge d opens delivered s h
step-IsEdge s (drops d) h = drop_loose s (drop_watchers d s.subs) (watched-drop d s.subs) h
step-IsEdge s (streams i event) h =
    drop_loose s (modify i (handle event) s.subs) (watched-modify i event s.subs) h

run-IsEdge : (s : PaneSession) (es : List SessionEvent) → IsEdge s → IsEdge (run s es)
unfolding run
run-IsEdge s [] h = h
run-IsEdge s (e ∷ es) h = run-IsEdge (step s e) es (step-IsEdge s e h)

-- After any history of a session (frames, watchers that come and leave, revocations, and Opens
-- that fail), the source is open exactly if the session is watched; of the calls made to it, the
-- Opens that succeeded and the Closes alternate, beginning with an Open, every Open that failed
-- was made while the source was not open, and no frame is retained while it is not.
pub source_edges : (id : Bytes) (es : List SessionEvent) → IsEdge (run (new_session id) es)
unfolding watched
source_edges id es =
    run-IsEdge (new_session id) es
      (record { watched_open = refl; alternates = tt; dropped = λ _. refl })
