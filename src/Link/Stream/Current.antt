-- ===== src/Link/Stream/Current.antt =====
-- The invariant of a fan-out: what a member's stream has sent and what waits for it.
use rook_host.Base.{
  ℕ, zero, suc, ◌≡◌, ◌⊎◌, inl, inr, Option, none, some, true, List, [], ◌∷◌, ◌++◌, map, All,
  All-map, Bool-cases, if◌then◌else◌, arith,
}
use rook_host.Base.Bytes.{Bytes}
use rook_host.Link.Stream.{
  Watcher, StreamEvent, context_done, gone_closed, update_ready, ticked, offer, fan_out,
  drop_watchers, modify, handle,
}

module _ {F : Type 0} (P : Watcher F → Type 0) where
  pub All-modify :
      (i : ℕ) (change : Watcher F → Watcher F) (ws : List (Watcher F))
      → ((w : Watcher F) → P w → P (change w))
      → All P ws
      → All P (modify i change ws)
  unfolding modify
  All-modify i change [] h a = tt
  All-modify zero change (w ∷ ws) h a = (h w a.0, a.1)
  All-modify (suc i) change (w ∷ ws) h a = (a.0, All-modify i change ws h a.1)

  pub All-snoc : (ws : List (Watcher F)) (w : Watcher F) → All P ws → P w → All P (ws ++ w ∷ [])
  All-snoc [] w a p = (p, tt)
  All-snoc (v ∷ ws) w a p = (a.0, All-snoc ws w a.1 p)

  pub All-map_step {κ} :
      (Q : Watcher F → Type κ) (f : Watcher F → Watcher F) (ws : List (Watcher F))
      → ((w : Watcher F) → Q w → P (f w))
      → All Q ws
      → All P (map f ws)
  All-map_step Q f [] h a = tt
  All-map_step Q f (w ∷ ws) h a = (h w a.0, All-map_step Q f ws h a.1)

module _ {F : Type 0} where
  -- The newest of a list, if it has one.
  abbrev pub newest : List F → Option F
  newest [] = none
  newest (f ∷ fs) = some f

  -- A member has the frame f waiting, or has sent it last and has none waiting.
  abbrev pub HasCurrent : F → Watcher F → Type 0
  HasCurrent f w =
      w.member ≡ true → (w.updates ≡ some f) ⊎ ((w.updates ≡ none) × (newest w.sent ≡ some f))

  -- A publication gives every member the new frame.
  pub fan_out-HasCurrent : (f : F) (ws : List (Watcher F)) → All (HasCurrent f) (fan_out f ws)
  unfolding fan_out
  fan_out-HasCurrent f ws =
      All-map (HasCurrent f) (λ w. if w.member then offer f w else w) ws
        λ w. elim (Bool-cases w.member) [
          | inl e ↦ rw e (λ _. inl (ground arith))
          | inr e ↦ rw e (λ m. absurd (ground arith))
        ]

  pub drop-HasCurrent :
      (f : F) (d : Bytes) (ws : List (Watcher F))
      → All (HasCurrent f) ws
      → All (HasCurrent f) (drop_watchers d ws)
  unfolding drop_watchers
  drop-HasCurrent f d ws =
      All-map_step (HasCurrent f) (HasCurrent f) _ ws λ w h m. ground (arith, h)

  pub handle-HasCurrent :
      (f : F) (event : StreamEvent) (w : Watcher F) → HasCurrent f w → HasCurrent f (handle event w)
  unfolding handle
  handle-HasCurrent f context_done w h m = ground (arith, h)
  handle-HasCurrent f gone_closed w h m = ground (arith, h)
  handle-HasCurrent f (update_ready d) w h m = ground (arith, h)
  handle-HasCurrent f (ticked d) w h m = ground (arith, h)
