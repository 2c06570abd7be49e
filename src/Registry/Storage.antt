-- ===== src/Registry/Storage.antt =====
-- registry/registry.go: the registry file. The disk holds the file and its temporary sibling; the
-- fault that a call meets comes from outside. encoding/json is an interface.
use rook_host.Base.{
  ℕ, ◌≡◌, Option, none, some, Bool, true, false, List, [], ◌∷◌, leb, if◌then◌else◌,
}
use rook_host.Base.Bytes.{Bytes}
use rook_host.Base.Result.{Result, ok, err}
use rook_host.Base.Disk.{Disk, Fault, no_fault, mkdir_fault, write_fault, rename_fault}
use rook_host.Registry.Book.{Device, put}

pub record RegistryFile : Type 0 where
  pub version : ℕ
  pub devices : List Device

pub data RegistryError : Type 0 where
  bad_key_size no_capabilities not_found device_revoked lacks_capability : RegistryError
  not_json read_failed marshal_failed mkdir_failed write_failed rename_failed : RegistryError

-- What a JSON codec promises: a file whose texts are valid UTF-8 and whose times are in range
-- (`Faithful`) is read back from what it was written to.
pub record JsonCodec : Type 1 where
  pub marshal : RegistryFile → Option Bytes
  pub unmarshal : Bytes → Option RegistryFile
  pub Faithful : RegistryFile → Type 0
  pub unmarshal-marshal :
      (f : RegistryFile) (raw : Bytes) → Faithful f → marshal f ≡ some raw → unmarshal raw ≡ some f

-- slices.SortFunc by PairedAt. Which order two devices paired at one time are left in is not
-- specified; here the later one of the list goes first.
unfoldable pub insert_by_paired : Device → List Device → List Device
insert_by_paired d [] = d ∷ []
insert_by_paired d (e ∷ es) =
    if leb d.paired_at e.paired_at then d ∷ e ∷ es else e ∷ insert_by_paired d es

unfoldable pub sort_by_paired : List Device → List Device
unfolding insert_by_paired
sort_by_paired [] = []
sort_by_paired (d ∷ ds) = insert_by_paired d (sort_by_paired ds)

module _ (json : JsonCodec) where
  -- persistLocked: write beside the file, then rename over it.
  unfoldable pub persist : List Device → Fault → Disk → Result RegistryError (Unit {0}) × Disk
  unfolding sort_by_paired
  persist devices fault disk =
      elim (json.marshal (record { version = 1; devices = sort_by_paired devices })) [
        | none ↦ (err marshal_failed, disk)
        | some raw ↦ elim fault [
          | mkdir_fault ↦ (err mkdir_failed, disk)
          | write_fault partial ↦ (err write_failed, record disk { tmp = some partial })
          | rename_fault ↦ (err rename_failed, record disk { tmp = some raw })
          | no_fault ↦ (ok tt, record { file = some raw; tmp = none })
        ]
      ]

  -- The loop of Open.
  unfoldable pub load_all : List Device → List Device → List Device
  load_all book [] = book
  load_all book (d ∷ ds) = load_all (put d book) ds

  -- Open: no file is an empty book, and a file that does not parse is an error.
  unfoldable pub open_book : Disk → Bool → Result RegistryError (List Device)
  unfolding load_all
  open_book disk readable = elim disk.file [
    | none ↦ ok []
    | some raw ↦ elim readable [
      | false ↦ err read_failed
      | true ↦ elim (json.unmarshal raw) [
        | none ↦ err not_json
        | some f ↦ ok (load_all [] f.devices)
      ]
    ]
  ]
