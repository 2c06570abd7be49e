-- ===== src/Link/Stream/Entitled.antt =====
-- That every member of a hub's set may be there, kept by each change of a hub's subscribers.
use rook_host.Base.{
  ◌≡◌, ◌≢◌, true, ◌&&◌, ℕ, zero, suc, List, [], ◌∷◌, All, All-map_mono, arith, inl, inr,
  Option-cases, if_both, if_split,
}
use rook_host.Base.Bytes.{Bytes, str_eq, str_eq_iff}
use rook_host.Link.Stream.{
  Watcher, StreamEvent, context_done, gone_closed, update_ready, ticked, fan_out, offer,
  drop_watchers, leave, modify, handle, finish,
}

-- A member's device is one of those.
abbrev pub IsEntitled : {F : Type 0} → (Bytes → Type 0) → Watcher F → Type 0
IsEntitled Device w = w.member ≡ true → Device w.device_id

-- The device that a change leaves, and that it makes no member.
abbrev Demotes : {F : Type 0} → (Watcher F → Watcher F) → Watcher F → Type 0
Demotes change w =
    ((change w).device_id ≡ w.device_id) × ((change w).member ≡ true → w.member ≡ true)

offer-Demotes : {F : Type 0} (f : F) (w : Watcher F) → Demotes (offer f) w
unfolding offer
offer-Demotes f w = elim (Option-cases w.updates) [
  | inl e ↦ (ground arith, λ m. ground arith)
  | inr (g, e) ↦ (ground arith, λ m. ground arith)
]

handle-Demotes : {F : Type 0} (event : StreamEvent) (w : Watcher F) → Demotes (handle event) w
unfolding handle finish leave
handle-Demotes context_done w = (ground arith, λ m. ground arith)
handle-Demotes gone_closed w = (ground arith, λ m. ground arith)
handle-Demotes (update_ready delivered) w = (ground arith, λ m. ground arith)
handle-Demotes (ticked delivered) w = (ground arith, λ m. ground arith)

module _ {F : Type 0} (Device : Bytes → Type 0) where
  Demotes-IsEntitled :
      (change : Watcher F → Watcher F) (w : Watcher F)
      → Demotes change w
      → IsEntitled Device w
      → IsEntitled Device (change w)
  Demotes-IsEntitled change w (same, stays) e m = rw same (e (stays m))

  pub fan_out-IsEntitled :
      (f : F) (ws : List (Watcher F))
      → All (IsEntitled Device) ws
      → All (IsEntitled Device) (fan_out f ws)
  unfolding fan_out
  fan_out-IsEntitled f ws = All-map_mono (IsEntitled Device) (IsEntitled Device) _ ws λ w e.
      if_both (IsEntitled Device) w.member (offer f w) w
        (Demotes-IsEntitled (offer f) w (offer-Demotes f w) e) e

  pub handle-IsEntitled :
      (i : ℕ) (event : StreamEvent) (ws : List (Watcher F))
      → All (IsEntitled Device) ws
      → All (IsEntitled Device) (modify i (handle event) ws)
  unfolding modify
  handle-IsEntitled i event [] a = tt
  handle-IsEntitled zero event (w ∷ ws) a =
      (Demotes-IsEntitled (handle event) w (handle-Demotes event w) a.0, a.1)
  handle-IsEntitled (suc i) event (w ∷ ws) a = (a.0, handle-IsEntitled i event ws a.1)

  -- Once a device is dropped, it need not be one of those any more.
  pub drop_watchers-IsEntitled :
      (Device' : Bytes → Type 0) (id : Bytes) (ws : List (Watcher F))
      → ((j : Bytes) → j ≢ id → Device j → Device' j)
      → All (IsEntitled Device) ws
      → All (IsEntitled Device') (drop_watchers id ws)
  unfolding drop_watchers
  drop_watchers-IsEntitled Device' id ws keeps =
      All-map_mono (IsEntitled Device) (IsEntitled Device') _ ws λ w e.
        if_split (IsEntitled Device') (w.member && str_eq w.device_id id) (leave w) w
          (λ h m. absurd (left w m))
          (λ h m. keeps w.device_id (λ same. ground (arith, str_eq_iff w.device_id id)) (e m))
    where
      left : (w : Watcher F) → (leave w).member ≡ true → ⊥
      left w m = cc
