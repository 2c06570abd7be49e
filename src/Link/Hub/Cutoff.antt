-- ===== src/Link/Hub/Cutoff.antt =====
-- A revocation ends the device's open streams.
use rook_host.Base.{
  ℕ, zero, suc, ◌≡◌, refl, true, false, List, [], ◌∷◌, ◌++◌, map, arith, if◌then◌else◌, is_some,
  ◌&&◌,
}
use rook_host.Base.Bytes.{Bytes, str_eq, str_eq_refl}
use rook_host.Link.Stream.{
  Watcher, StreamEvent, context_done, gone_closed, update_ready, ticked, offer, fan_out, leave,
  drop_watchers, handle, modify, finish,
}
use rook_host.Link.Hub.{Hub, publish, subscribe, drop_device, stream}
use rook_host.Link.Hub.Delivery.{HubEvent, publishes, subscribes, drops, streams, step, run}

module _ {A : Type 0} where
  -- The element at a place is there and has the property.
  abbrev pub At : (A → Type 0) → ℕ → List A → Type 0
  At P i [] = ⊥
  At P zero (w ∷ ws) = P w
  At P (suc i) (w ∷ ws) = At P i ws

  At-map :
      (P Q : A → Type 0) (f : A → A) (i : ℕ) (ws : List A)
      → ((w : A) → P w → Q (f w))
      → At P i ws
      → At Q i (map f ws)
  At-map P Q f i [] h a = a
  At-map P Q f zero (w ∷ ws) h a = h w a
  At-map P Q f (suc i) (w ∷ ws) h a = At-map P Q f i ws h a

  At-append : (P : A → Type 0) (i : ℕ) (ws vs : List A) → At P i ws → At P i (ws ++ vs)
  At-append P i [] vs a = absurd a
  At-append P zero (w ∷ ws) vs a = a
  At-append P (suc i) (w ∷ ws) vs a = At-append P i ws vs a

module _ {F : Type 0} where
  At-modify :
      (P : Watcher F → Type 0) (f : Watcher F → Watcher F) (i j : ℕ) (ws : List (Watcher F))
      → ((w : Watcher F) → P w → P (f w))
      → At P i ws
      → At P i (modify j f ws)
  unfolding modify
  At-modify P f i j [] h a = a
  At-modify P f zero zero (w ∷ ws) h a = h w a
  At-modify P f (suc i) zero (w ∷ ws) h a = a
  At-modify P f zero (suc j) (w ∷ ws) h a = a
  At-modify P f (suc i) (suc j) (w ∷ ws) h a = At-modify P f i j ws h a

  At-modify_self :
      (P Q : Watcher F → Type 0) (f : Watcher F → Watcher F) (i : ℕ) (ws : List (Watcher F))
      → ((w : Watcher F) → P w → Q (f w))
      → At P i ws
      → At Q i (modify i f ws)
  unfolding modify
  At-modify_self P Q f i [] h a = a
  At-modify_self P Q f zero (w ∷ ws) h a = h w a
  At-modify_self P Q f (suc i) (w ∷ ws) h a = At-modify_self P Q f i ws h a

  -- Registered for the device.
  abbrev pub IsOpen : Bytes → Watcher F → Type 0
  IsOpen d w = (w.device_id ≡ d) × (w.member ≡ true)

  -- Out of the hub's set, with its channel `gone` closed.
  abbrev pub IsCut : Watcher F → Type 0
  IsCut w = (w.member ≡ false) × (w.gone ≡ true)

  abbrev pub HasEnded : Watcher F → Type 0
  HasEnded w = is_some w.ended ≡ true

  leave-IsCut :
      (d : Bytes) (w : Watcher F)
      → IsOpen d w
      → IsCut (if w.member && str_eq w.device_id d then leave w else w)
  unfolding leave
  leave-IsCut d w o = ground (arith, o, str_eq_refl d)

  drop-IsCut :
      (d : Bytes) (w : Watcher F)
      → IsCut w
      → IsCut (if w.member && str_eq w.device_id d then leave w else w)
  unfolding leave
  drop-IsCut d w c = ground (arith, c)

  offer-IsCut : (f : F) (w : Watcher F) → IsCut w → IsCut (if w.member then offer f w else w)
  offer-IsCut f w c = rw (c.0) (refl, c.1)

  handle-IsCut : (e : StreamEvent) (w : Watcher F) → IsCut w → IsCut (handle e w)
  unfolding handle finish leave
  handle-IsCut context_done w c = ground (arith, c)
  handle-IsCut gone_closed w c = ground (arith, c)
  handle-IsCut (update_ready d) w c = ground (arith, c)
  handle-IsCut (ticked d) w c = ground (arith, c)

  handle-HasEnded : (w : Watcher F) → IsCut w → HasEnded (handle gone_closed w)
  unfolding handle finish leave
  handle-HasEnded w c = ground (arith, c)

step-IsCut : (i : ℕ) (h : Hub) (e : HubEvent) → At IsCut i h.subs → At IsCut i (step h e).subs
unfolding step publish subscribe drop_device stream fan_out drop_watchers
step-IsCut i h (publishes s at) a = At-map IsCut IsCut _ i h.subs (λ w. offer-IsCut _ w) a
step-IsCut i h (subscribes d delivered) a = At-append IsCut i h.subs _ a
step-IsCut i h (drops d) a = At-map IsCut IsCut _ i h.subs (λ w. drop-IsCut d w) a
step-IsCut i h (streams j e) a = At-modify IsCut (handle e) i j h.subs (handle-IsCut e) a

run-IsCut : (i : ℕ) (h : Hub) (es : List HubEvent) → At IsCut i h.subs → At IsCut i (run h es).subs
unfolding run
run-IsCut i h [] a = a
run-IsCut i h (e ∷ es) a = run-IsCut i (step h e) es (step-IsCut i h e a)

drop_device-IsCut :
    (h : Hub) (d : Bytes) (i : ℕ) → At (IsOpen d) i h.subs → At IsCut i (drop_device h d).subs
unfolding drop_device drop_watchers
drop_device-IsCut h d i a = At-map (IsOpen d) IsCut _ i h.subs (λ w. leave-IsCut d w) a

-- When a device with an open status stream is dropped, then whatever happens next to the hub (the
-- device may subscribe anew, with another stream), that stream stays out of its set with its
-- channel closed, and the next time its handler looks at that channel it has returned.
pub revoked_stream_ends :
    (h : Hub) (d : Bytes) (i : ℕ) (es : List HubEvent)
    → At (IsOpen d) i h.subs
    → At IsCut i (run (drop_device h d) es).subs
      × At HasEnded i (stream (run (drop_device h d) es) i gone_closed).subs
unfolding stream
revoked_stream_ends h d i es a =
    let c = run-IsCut i (drop_device h d) es (drop_device-IsCut h d i a) in
    (
      c,
      At-modify_self IsCut HasEnded (handle gone_closed) i (run (drop_device h d) es).subs
          handle-HasEnded c,
    )
