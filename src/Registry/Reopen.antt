-- ===== src/Registry/Reopen.antt =====
-- The file holds the book: what was persisted is read back, and a fault never damages it.
use rook_host.Base.{
  ◌≡◌, refl, ◌∙◌, Option, none, some, true, false, List, [], ◌∷◌, if◌then◌else◌, leb, arith,
  Bool-cases, Option-cases, inl, inr, ◌⊎◌,
}
use rook_host.Base.Bytes.{Bytes, str_eq, str_eq_iff}
use rook_host.Base.Result.{ok, is_ok}
use rook_host.Registry.Book.{Device, find, put}
use rook_host.Registry.Storage.{
  JsonCodec, RegistryFile, insert_by_paired, sort_by_paired, persist, load_all, open_book,
}
use rook_host.Base.Disk.{Disk, Fault, no_fault, mkdir_fault, write_fault, rename_fault}
use rook_host.Registry.Lookup.{find-put}

-- No id twice.
abbrev pub Unique : List Device → Type 0
Unique [] = Unit
Unique (d ∷ ds) = (find d.id ds ≡ none) × Unique ds

pub put-Unique : (d : Device) (ds : List Device) → Unique ds → Unique (put d ds)
unfolding put find
put-Unique d [] u = (refl, tt)
put-Unique d (e ∷ es) u = elim (Bool-cases (str_eq e.id d.id)) [
  | inl same ↦ rw same (ground (arith, str_eq_iff e.id d.id), u.1)
  | inr other ↦ rw other (
    ground (arith, find-put e.id d es, str_eq_iff d.id e.id, str_eq_iff e.id d.id),
    put-Unique d es u.1,
  )
]

find-insert_by_paired :
    (id : Bytes) (d : Device) (ds : List Device)
    → find d.id ds ≡ none
    → find id (insert_by_paired d ds) ≡ (if str_eq d.id id then some d else find id ds)
unfolding insert_by_paired find
find-insert_by_paired id d [] h = refl
find-insert_by_paired id d (e ∷ es) h = ground (
  arith,
  find-insert_by_paired id d es,
  str_eq_iff e.id id,
  str_eq_iff d.id id,
  str_eq_iff e.id d.id,
)

find-sort : (id : Bytes) (ds : List Device) → Unique ds → find id (sort_by_paired ds) ≡ find id ds
unfolding sort_by_paired find
find-sort id [] u = refl
find-sort id (d ∷ ds) u =
    find-insert_by_paired id d (sort_by_paired ds) (find-sort d.id ds u.1 ∙ u.0)
    ∙ ground (arith, find-sort id ds u.1)

insert-Unique :
    (d : Device) (ds : List Device)
    → find d.id ds ≡ none
    → Unique ds
    → Unique (insert_by_paired d ds)
unfolding insert_by_paired find
insert-Unique d [] h u = (refl, tt)
insert-Unique d (e ∷ es) h u = elim (Bool-cases (leb d.paired_at e.paired_at)) [
  | inl first ↦ rw first (h, u)
  | inr later ↦ rw later (
    ground (arith, find-insert_by_paired e.id d es, str_eq_iff d.id e.id, str_eq_iff e.id d.id),
    insert-Unique d es (ground arith) u.1,
  )
]

sort-Unique : (ds : List Device) → Unique ds → Unique (sort_by_paired ds)
unfolding sort_by_paired
sort-Unique [] u = tt
sort-Unique (d ∷ ds) u =
    insert-Unique d (sort_by_paired ds) (find-sort d.id ds u.1 ∙ u.0) (sort-Unique ds u.1)

abbrev or_else : Option Device → Option Device → Option Device
or_else none e = e
or_else (some d) e = some d

find-load_all :
    (json : JsonCodec) (id : Bytes) (book ds : List Device)
    → Unique ds
    → find id (load_all json book ds) ≡ or_else (find id ds) (find id book)
unfolding load_all find
find-load_all json id book [] u = refl
find-load_all json id book (d ∷ ds) u =
    find-load_all json id (put d book) ds u.1
    ∙ ground (arith, find-put id d book, str_eq_iff d.id id)

or_else-none : (e : Option Device) → or_else e none ≡ e
or_else-none none = refl
or_else-none (some d) = refl

module _ (json : JsonCodec) (ds : List Device) (disk : Disk) where
  abbrev file_of : RegistryFile
  file_of = record { version = 1; devices = sort_by_paired ds }

  -- Either the file is left as it was and an error is returned, or all went well and the file
  -- reads back as the same book.
  abbrev pub IsAtomic : Fault → Type 0
  IsAtomic fault =
      ((is_ok (persist json ds fault disk).0 ≡ false)
        × ((persist json ds fault disk).1.file ≡ disk.file))
      ⊎ ((fault ≡ no_fault)
          × (is_ok (persist json ds fault disk).0 ≡ true)
          × (book : List Device) × (open_book json (persist json ds fault disk).1 true ≡ ok book)
          × ((id : Bytes) → find id book ≡ find id ds))

  unmarshalled : json.marshal file_of ≡ none → (fault : Fault) → IsAtomic fault
  unfolding persist
  unmarshalled e fault = inl (rw (e, persist), rw (e, persist))

  written :
      (raw : Bytes)
      → json.marshal file_of ≡ some raw
      → Unique ds
      → json.Faithful file_of
      → (fault : Fault) → IsAtomic fault
  unfolding persist open_book find
  written raw e u keep mkdir_fault = inl (rw (e, persist), rw (e, persist))
  written raw e u keep (write_fault partial) = inl (rw (e, persist), rw (e, persist))
  written raw e u keep rename_fault = inl (rw (e, persist), rw (e, persist))
  written raw e u keep no_fault =
      let back = json.unmarshal-marshal file_of raw keep e in
      inr (
        refl,
        rw (e, persist),
        load_all json [] (sort_by_paired ds),
        rw (e, persist, open_book, back),
        λ id.
            find-load_all json id [] (sort_by_paired ds) (sort-Unique ds u)
            ∙ or_else-none (find id (sort_by_paired ds))
            ∙ find-sort id ds u,
      )

  -- persistLocked is atomic under every fault, for a book with no id twice whose file the JSON
  -- codec keeps.
  pub persist-IsAtomic : (fault : Fault) → Unique ds → json.Faithful file_of → IsAtomic fault
  persist-IsAtomic fault u keep = elim (Option-cases (json.marshal file_of)) [
    | inl e ↦ unmarshalled e fault
    | inr (raw, e) ↦ written raw e u keep fault
  ]
