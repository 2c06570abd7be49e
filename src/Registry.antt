-- ===== src/Registry.antt =====
-- registry/registry.go: the paired-device book and its operations. Each operation that persists
-- takes the fault that its disk access meets; the change in memory stands either way.
pub mod Book
pub mod Storage
pub mod Lookup
pub mod Capabilities
pub mod Revocation
pub mod Meaning
pub mod Refinement
pub mod Reopen
use rook_host.Base.{
  ℕ, Option, none, some, Bool, not, List, [], length, ◌==◌, is_some, if◌then◌else◌,
}
use rook_host.Base.Bytes.{Bytes, contains}
use rook_host.Base.Time.{Time}
use rook_host.Base.Disk.{Disk, Fault}
use rook_host.Base.Result.{Result, ok, err}
use Book.{Device, revoked, keep_capabilities, find, put}
use Storage.{
  JsonCodec, RegistryError, bad_key_size, no_capabilities, not_found, device_revoked,
  lacks_capability, persist,
}

pub record Registry : Type 0 where
  pub devices : List Device
  pub disk : Disk

abbrev pub Outcome : Type 0
Outcome = Result RegistryError (Unit {0}) × Registry

-- Get
unfoldable pub get : Registry → Bytes → Option Device
get r id = find id r.devices

-- List
abbrev pub list : Registry → List Device
list r = r.devices

-- Allowed
unfoldable pub allowed : Registry → Bytes → Bytes → Result RegistryError (Unit {0})
allowed r id capability = elim (get r id) [
  | none ↦ err not_found
  | some d ↦
      if revoked d
      then err device_revoked
      else if contains d.capabilities capability
      then ok tt
      else err lacks_capability
]

-- `if !d.Revoked() { d.RevokedAt = &at }`
abbrev pub tombstone : Device → Time → Device
tombstone d at = if revoked d then d else record d { revoked_at = some at }

module _ (json : JsonCodec) where
  -- `return r.persistLocked()` after the book has changed.
  unfoldable pub save : Registry → List Device → Fault → Outcome
  save r devices fault =
      let (result, disk) = persist json devices fault r.disk in
      (result, record { devices = devices; disk = disk })

  -- Add
  unfoldable pub add : Registry → Device → Fault → Outcome
  unfolding save
  add r d fault =
      let caps = keep_capabilities [] d.capabilities in
      if not (length d.public_key == 32)
      then (err bad_key_size, r)
      else if length caps == 0
      then (err no_capabilities, r)
      else save r (put (record d { capabilities = caps }) r.devices) fault

  -- SetCapabilities
  unfoldable pub set_capabilities : Registry → Bytes → List Bytes → Fault → Outcome
  unfolding save
  set_capabilities r id caps fault = elim (get r id) [
    | none ↦ (err not_found, r)
    | some d ↦ save r (put (record d { capabilities = keep_capabilities [] caps }) r.devices) fault
  ]

  -- Touch
  unfoldable pub touch : Registry → Bytes → Time → Fault → Registry
  unfolding save
  touch r id at fault = elim (get r id) [
    | none ↦ r
    | some d ↦ (save r (put (record d { last_seen_at = at }) r.devices) fault).1
  ]

  -- Revoke
  unfoldable pub revoke : Registry → Bytes → Time → Fault → Outcome
  unfolding save
  revoke r id at fault = elim (get r id) [
    | none ↦ (err not_found, r)
    | some d ↦ save r (put (tombstone d at) r.devices) fault
  ]
