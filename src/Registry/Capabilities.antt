-- ===== src/Registry/Capabilities.antt =====
-- What capabilities a device ends up with.
use rook_host.Base.{
  ◌≡◌, ◌↔◌, refl, some, true, false, not, ◌&&◌, ◌||◌, List, [], ◌∷◌, ◌++◌, if◌then◌else◌, arith,
  Bool-cases, inl, inr, ◌∙◌,
}
use rook_host.Base.Bytes.{Bytes, contains, contains-append, str_eq_iff}
use rook_host.Base.Result.{ok, err}
use rook_host.Registry.Book.{Device, known_capability, keep_capabilities, revoked}
use rook_host.Registry.Storage.{JsonCodec, device_revoked, lacks_capability}
use rook_host.Base.Disk.{Fault}
use rook_host.Registry.Lookup.{get-add, refused, registered}
use rook_host.Registry.{Registry, get, add, allowed}

-- What is kept is what was kept before and what is known among the rest.
pub contains-keep_capabilities :
    (kept cs : List Bytes) (c : Bytes)
    → contains (keep_capabilities kept cs) c
      ≡ (contains kept c || (known_capability c && contains cs c))
unfolding keep_capabilities contains
contains-keep_capabilities kept [] c = ground arith
contains-keep_capabilities kept (x ∷ xs) c = ground (
  arith,
  contains-keep_capabilities kept xs c,
  contains-keep_capabilities (kept ++ x ∷ []) xs c,
  contains-append kept (x ∷ []) c,
  str_eq_iff x c,
)

-- All known, and none twice.
abbrev pub IsGrant : List Bytes → Type 0
IsGrant [] = Unit
IsGrant (c ∷ cs) = (known_capability c ≡ true) × (contains cs c ≡ false) × IsGrant cs

IsGrant-snoc :
    (cs : List Bytes) (c : Bytes)
    → IsGrant cs
    → known_capability c ≡ true
    → contains cs c ≡ false
    → IsGrant (cs ++ c ∷ [])
unfolding contains
IsGrant-snoc [] c g k n = (k, refl, tt)
IsGrant-snoc (d ∷ ds) c (kd, nd, g) k n = (
  kd,
  ground (arith, contains-append ds (c ∷ []) d, str_eq_iff c d, str_eq_iff d c),
  IsGrant-snoc ds c g k (ground arith),
)

pub keep_capabilities-IsGrant :
    (kept cs : List Bytes) → IsGrant kept → IsGrant (keep_capabilities kept cs)
unfolding keep_capabilities
keep_capabilities-IsGrant kept [] g = g
keep_capabilities-IsGrant kept (c ∷ cs) g =
    elim (Bool-cases (known_capability c && not (contains kept c))) [
      | inl e ↦ rw e (
          keep_capabilities-IsGrant (kept ++ c ∷ []) cs
            (IsGrant-snoc kept c g (ground arith) (ground arith)))
      | inr e ↦ rw e (keep_capabilities-IsGrant kept cs g)
    ]

-- Allowed by the entry of the book.
pub allowed_entry :
    (r : Registry) (id c : Bytes) (d : Device)
    → get r id ≡ some d
    → allowed r id c ≡ (
        if revoked d
        then err device_revoked
        else if contains d.capabilities c
        then ok tt
        else err lacks_capability)
unfolding allowed
allowed_entry r id c d h = rw (h, allowed)

module _ (json : JsonCodec) where
  get-add_self :
      (r : Registry) (d : Device) (fault : Fault)
      → refused d ≡ false
      → get (add json r d fault).1 d.id ≡ some (registered d)
  get-add_self r d fault h = get-add json r fault d d.id ∙ ground (arith, str_eq_iff d.id d.id)

  -- After Add of a device that it does not refuse and that is not revoked, the device may do
  -- exactly the known capabilities that it requested, whatever the disk does; they are held
  -- without repetition.
  pub allowed-add :
      (r : Registry) (d : Device) (fault : Fault)
      → refused d ≡ false
      → revoked d ≡ false
      → ((c : Bytes)
          → (allowed (add json r d fault).1 d.id c ≡ ok tt)
            ↔ (known_capability c && contains d.capabilities c ≡ true))
        × IsGrant (registered d).capabilities
  unfolding contains
  allowed-add r d fault h n = (
    λ c.
        rw
          (
            allowed_entry (add json r d fault).1 d.id c (registered d) (get-add_self r d fault h),
            n,
            contains-keep_capabilities [] d.capabilities c,
          )
          (ground arith),
    keep_capabilities-IsGrant [] d.capabilities tt,
  )
