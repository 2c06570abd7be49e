-- ===== src/Registry/Lookup.antt =====
-- What the book shows under each id after each operation.
use rook_host.Base.{
  ◌≡◌, refl, some, Bool, not, ◌||◌, List, [], ◌∷◌, length, ◌==◌, if◌then◌else◌, arith,
}
use rook_host.Base.Bytes.{Bytes, str_eq, str_eq_iff}
use rook_host.Base.Time.{Time}
use rook_host.Registry.Book.{Device, keep_capabilities, find, put}
use rook_host.Registry.Storage.{JsonCodec}
use rook_host.Base.Disk.{Fault}
use rook_host.Registry.{Registry, get, save, add, set_capabilities, touch, revoke, tombstone}

pub find-put :
    (id : Bytes) (d : Device) (ds : List Device)
    → find id (put d ds) ≡ (if str_eq d.id id then some d else find id ds)
unfolding find put
find-put id d [] = refl
find-put id d (e ∷ es) =
    ground (arith, find-put id d es, str_eq_iff e.id d.id, str_eq_iff e.id id, str_eq_iff d.id id)

pub find-id : (id : Bytes) (ds : List Device) (d : Device) → find id ds ≡ some d → d.id ≡ id
unfolding find
find-id id [] d h = cc
find-id id (e ∷ es) d h = ground (arith, find-id id es d, str_eq_iff e.id id)

id-tombstone : (d : Device) (at : Time) → (tombstone d at).id ≡ d.id
id-tombstone d at = ground arith

-- What Add makes of the device it is given.
abbrev pub registered : Device → Device
registered d = record d { capabilities = keep_capabilities [] d.capabilities }

-- What Add refuses: a key of the wrong size, or no recognized capability.
abbrev pub refused : Device → Bool
refused d = not (length d.public_key == 32) || (length (keep_capabilities [] d.capabilities) == 0)

module _ (json : JsonCodec) (r : Registry) (fault : Fault) where
  devices-save : (ds : List Device) → (save json r ds fault).1.devices ≡ ds
  unfolding save
  devices-save ds = refl

  -- Add changes one entry, unless it refuses.
  pub get-add :
      (d : Device) (id : Bytes)
      → get (add json r d fault).1 id
        ≡ (if refused d then get r id else if str_eq d.id id then some (registered d) else get r id)
  unfolding add get
  get-add d id = ground (arith, find-put id (registered d) r.devices)

  pub get-set_capabilities :
      (key : Bytes) (caps : List Bytes) (id : Bytes) (d : Device)
      → get r key ≡ some d
      → get (set_capabilities json r key caps fault).1 id ≡ (
          if str_eq key id
          then some (record d { capabilities = keep_capabilities [] caps })
          else get r id)
  unfolding set_capabilities get
  get-set_capabilities key caps id d h =
      rw (h, set_capabilities)
        (ground (
          arith,
          find-put id (record d { capabilities = keep_capabilities [] caps }) r.devices,
          find-id key r.devices d,
        ))

  pub get-touch :
      (key : Bytes) (at : Time) (id : Bytes) (d : Device)
      → get r key ≡ some d
      → get (touch json r key at fault) id
        ≡ (if str_eq key id then some (record d { last_seen_at = at }) else get r id)
  unfolding touch get
  get-touch key at id d h =
      rw (h, touch)
        (ground
          (arith, find-put id (record d { last_seen_at = at }) r.devices, find-id key r.devices d))

  pub get-revoke :
      (key : Bytes) (at : Time) (id : Bytes) (d : Device)
      → get r key ≡ some d
      → get (revoke json r key at fault).1 id
        ≡ (if str_eq key id then some (tombstone d at) else get r id)
  unfolding revoke get
  get-revoke key at id d h =
      rw (h, revoke)
        (ground (
          arith,
          find-put id (tombstone d at) r.devices,
          id-tombstone d at,
          find-id key r.devices d,
        ))
