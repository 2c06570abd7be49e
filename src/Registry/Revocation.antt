-- ===== src/Registry/Revocation.antt =====
-- A revoked device stays revoked until its key is paired again.
use rook_host.Base.{
  ◌≡◌, ◌≢◌, ◌∙◌, some, true, List, [], ◌∷◌, All, if◌then◌else◌, arith, Option-cases, Bool-cases,
  is_some, inl, inr,
}
use rook_host.Base.Bytes.{Bytes, str_eq, str_eq_iff}
use rook_host.Base.Time.{Time}
use rook_host.Base.Result.{err}
use rook_host.Registry.Book.{Device, revoked, keep_capabilities}
use rook_host.Registry.Storage.{JsonCodec, device_revoked}
use rook_host.Base.Disk.{Fault}
use rook_host.Registry.Lookup.{get-add, get-set_capabilities, get-touch, get-revoke}
use rook_host.Registry.Capabilities.{allowed_entry}
use rook_host.Registry.{Registry, get, allowed, add, set_capabilities, touch, revoke, tombstone}

-- The operations that change the book.
pub data RegistryOp : Type 0 where
  adds : Device → RegistryOp
  grants : Bytes → List Bytes → RegistryOp
  touches : Bytes → Time → RegistryOp
  revokes : Bytes → Time → RegistryOp

-- The entry of id is there, and revoked.
abbrev pub IsRevoked : Bytes → Registry → Type 0
IsRevoked id r = (d : Device) × (get r id ≡ some d) × (revoked d ≡ true)

-- An operation that is not a new pairing of id.
abbrev pub Spares : Bytes → RegistryOp × Fault → Type 0
Spares id (adds d, f) = d.id ≢ id
Spares id (grants key caps, f) = Unit
Spares id (touches key at, f) = Unit
Spares id (revokes key at, f) = Unit

module _ (json : JsonCodec) where
  unfoldable pub step : Registry → RegistryOp × Fault → Registry
  step r (adds d, f) = (add json r d f).1
  step r (grants key caps, f) = (set_capabilities json r key caps f).1
  step r (touches key at, f) = touch json r key at f
  step r (revokes key at, f) = (revoke json r key at f).1

  unfoldable pub run : Registry → List (RegistryOp × Fault) → Registry
  unfolding step
  run r [] = r
  run r (op ∷ ops) = run (step r op) ops

  pub revoke-IsRevoked :
      (r : Registry) (id : Bytes) (at : Time) (f : Fault)
      → is_some (get r id) ≡ true
      → IsRevoked id (revoke json r id at f).1
  revoke-IsRevoked r id at f h = elim (Option-cases (get r id)) [
    | inl e ↦ cc
    | inr (d, e) ↦ (
      tombstone d at,
      get-revoke json r f id at id d e ∙ ground (arith, str_eq_iff id id),
      ground arith,
    )
  ]

  -- One entry changes, and not from revoked to live.
  keeps-IsRevoked :
      (id key : Bytes) (r r' : Registry) (x y : Device)
      → get r key ≡ some x
      → (revoked x ≡ true → revoked y ≡ true)
      → get r' id ≡ (if str_eq key id then some y else get r id)
      → IsRevoked id r
      → IsRevoked id r'
  keeps-IsRevoked id key r r' x y at_key still at_id (d, e, v) = elim (Bool-cases (str_eq key id)) [
    | inl same ↦
        let key_is : key ≡ id = (str_eq_iff key id).0 same in
        (y, at_id ∙ rw same, still (ground (arith, key_is)))
    | inr other ↦ (d, at_id ∙ rw other e, v)
  ]

  grants-IsRevoked :
      (r : Registry) (id key : Bytes) (caps : List Bytes) (f : Fault)
      → IsRevoked id r
      → IsRevoked id (set_capabilities json r key caps f).1
  unfolding set_capabilities
  grants-IsRevoked r id key caps f h = elim (Option-cases (get r key)) [
    | inl e ↦ rw (e, set_capabilities) h
    | inr (x, e) ↦
        keeps-IsRevoked id key r _ x (record x { capabilities = keep_capabilities [] caps }) e
          (λ v. v) (get-set_capabilities json r f key caps id x e) h
  ]

  touches-IsRevoked :
      (r : Registry) (id key : Bytes) (at : Time) (f : Fault)
      → IsRevoked id r
      → IsRevoked id (touch json r key at f)
  unfolding touch
  touches-IsRevoked r id key at f h = elim (Option-cases (get r key)) [
    | inl e ↦ rw (e, touch) h
    | inr (x, e) ↦
        keeps-IsRevoked id key r _ x (record x { last_seen_at = at }) e (λ v. v)
          (get-touch json r f key at id x e) h
  ]

  revokes-IsRevoked :
      (r : Registry) (id key : Bytes) (at : Time) (f : Fault)
      → IsRevoked id r
      → IsRevoked id (revoke json r key at f).1
  unfolding revoke
  revokes-IsRevoked r id key at f h = elim (Option-cases (get r key)) [
    | inl e ↦ rw (e, revoke) h
    | inr (x, e) ↦
        keeps-IsRevoked id key r _ x (tombstone x at) e (λ v. ground arith)
          (get-revoke json r f key at id x e) h
  ]

  adds-IsRevoked :
      (r : Registry) (id : Bytes) (d : Device) (f : Fault)
      → d.id ≢ id
      → IsRevoked id r
      → IsRevoked id (add json r d f).1
  adds-IsRevoked r id d f other (x, e, v) =
      (x, get-add json r f d id ∙ ground (arith, str_eq_iff d.id id), v)

  step-IsRevoked :
      (id : Bytes) (r : Registry) (op : RegistryOp × Fault)
      → Spares id op
      → IsRevoked id r
      → IsRevoked id (step r op)
  unfolding step
  step-IsRevoked id r (adds d, f) s h = adds-IsRevoked r id d f s h
  step-IsRevoked id r (grants key caps, f) s h = grants-IsRevoked r id key caps f h
  step-IsRevoked id r (touches key at, f) s h = touches-IsRevoked r id key at f h
  step-IsRevoked id r (revokes key at, f) s h = revokes-IsRevoked r id key at f h

  run-IsRevoked :
      (id : Bytes) (r : Registry) (ops : List (RegistryOp × Fault))
      → All (Spares id) ops
      → IsRevoked id r
      → IsRevoked id (run r ops)
  unfolding run
  run-IsRevoked id r [] s h = h
  run-IsRevoked id r (op ∷ ops) s h =
      run-IsRevoked id (step r op) ops s.1 (step-IsRevoked id r op s.0 h)

  -- Once a device of the book is revoked, every capability is refused to it as revoked, after any
  -- later operations with any disk faults, as long as its id is not added again.
  pub revoked_until_paired :
      (r : Registry) (id : Bytes) (at : Time) (f : Fault) (ops : List (RegistryOp × Fault))
      → is_some (get r id) ≡ true
      → All (Spares id) ops
      → (c : Bytes) → allowed (run (revoke json r id at f).1 ops) id c ≡ err device_revoked
  revoked_until_paired r id at f ops h s c =
      let (d, e, v) = run-IsRevoked id _ ops s (revoke-IsRevoked r id at f h) in
      allowed_entry _ id c d e ∙ rw v
