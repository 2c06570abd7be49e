-- ===== src/Registry/Refinement.antt =====
-- The registry as a map from ids to devices.
use rook_host.Base.{
  ◌≡◌, ◌∙◌, refl, ap, fun_ext, Option, none, some, List, [], ◌∷◌, map, if◌then◌else◌, Option-cases,
  Bool-cases, inl, inr,
}
use rook_host.Base.Bytes.{Bytes}
use rook_host.Base.Time.{Time}
use rook_host.Base.Map.{Map, insert}
use rook_host.Base.Disk.{Fault}
use rook_host.Registry.Book.{Device}
use rook_host.Registry.Storage.{JsonCodec}
use rook_host.Registry.Meaning.{
  recognized, keep_capabilities-recognized, entered, rejects, marked, change,
}
use rook_host.Registry.Lookup.{refused, get-add, get-set_capabilities, get-touch, get-revoke}
use rook_host.Registry.Revocation.{RegistryOp, adds, grants, touches, revokes, step, run}
use rook_host.Registry.{Registry, get, add, set_capabilities, touch, revoke, tombstone}

-- What an operation means for the map.
abbrev pub meaning : Map Device → RegistryOp → Map Device
meaning m (adds d) = if rejects d then m else insert d.id (entered d) m
meaning m (grants key caps) = change key (λ d. record d { capabilities = recognized caps }) m
meaning m (touches key at) = change key (λ d. record d { last_seen_at = at }) m
meaning m (revokes key at) = change key (λ d. record d { revoked_at = marked d.revoked_at at }) m

unfoldable pub meanings : Map Device → List RegistryOp → Map Device
meanings m [] = m
meanings m (op ∷ ops) = meanings (meaning m op) ops

-- A tombstone keeps the time of the first revocation.
tombstone_entry :
    (d : Device) (o : Option Time) (at : Time)
    → d.revoked_at ≡ o
    → tombstone d at ≡ record d { revoked_at = marked o at }
tombstone_entry d none at e = rw e refl
tombstone_entry d (some first) at e = rw e refl

module _ (json : JsonCodec) where
  adds-meaning :
      (r : Registry) (d : Device) (f : Fault) → get (add json r d f).1 ≡ meaning (get r) (adds d)
  adds-meaning r d f = fun_ext (λ id.
      get-add json r f d id
      ∙ rw (← keep_capabilities-recognized d.capabilities)
          (elim (Bool-cases (refused d)) [ inl e ↦ rw (e) refl | inr e ↦ rw (e) refl ]))

  grants-meaning :
      (r : Registry) (key : Bytes) (caps : List Bytes) (f : Fault)
      → get (set_capabilities json r key caps f).1 ≡ meaning (get r) (grants key caps)
  unfolding set_capabilities
  grants-meaning r key caps f = elim (Option-cases (get r key)) [
    | inl e ↦ rw (e, set_capabilities, change) refl
    | inr (d, e) ↦
        rw (e, change, ← keep_capabilities-recognized caps)
          (fun_ext (λ id. get-set_capabilities json r f key caps id d e))
  ]

  touches-meaning :
      (r : Registry) (key : Bytes) (at : Time) (f : Fault)
      → get (touch json r key at f) ≡ meaning (get r) (touches key at)
  unfolding touch
  touches-meaning r key at f = elim (Option-cases (get r key)) [
    | inl e ↦ rw (e, touch, change) refl
    | inr (d, e) ↦ rw (e, change) (fun_ext (λ id. get-touch json r f key at id d e))
  ]

  revokes-meaning :
      (r : Registry) (key : Bytes) (at : Time) (f : Fault)
      → get (revoke json r key at f).1 ≡ meaning (get r) (revokes key at)
  unfolding revoke
  revokes-meaning r key at f = elim (Option-cases (get r key)) [
    | inl e ↦ rw (e, revoke, change) refl
    | inr (d, e) ↦
        rw (e, change)
          (fun_ext (λ id.
            get-revoke json r f key at id d e ∙ rw (tombstone_entry d d.revoked_at at refl) refl))
  ]

  step-meaning :
      (r : Registry) (op : RegistryOp) (f : Fault) → get (step json r (op, f)) ≡ meaning (get r) op
  unfolding step
  step-meaning r (adds d) f = adds-meaning r d f
  step-meaning r (grants key caps) f = grants-meaning r key caps f
  step-meaning r (touches key at) f = touches-meaning r key at f
  step-meaning r (revokes key at) f = revokes-meaning r key at f

  -- After any operations with any disk faults, the registry shows under every id what the map of
  -- devices holds on which each operation had its meaning. Add enters a device with a 32-byte key
  -- and a capability of the vocabulary, under its id, with the first occurrences of the names of
  -- the vocabulary that it asks for, and otherwise does nothing. The others change the entry of
  -- their id, if there is one: SetCapabilities in the same way, Touch its last time, and Revoke
  -- the time of revocation, unless it has one. No operation touches another entry.
  pub run-meanings :
      (r : Registry) (ops : List (RegistryOp × Fault))
      → get (run json r ops) ≡ meanings (get r) (map (λ op. op.0) ops)
  unfolding run meanings
  run-meanings r [] = refl
  run-meanings r ((op, f) ∷ ops) =
      run-meanings (step json r (op, f)) ops
      ∙ ap (λ m. meanings m (map (λ o. o.0) ops)) (step-meaning r op f)
