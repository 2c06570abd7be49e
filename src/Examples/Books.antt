-- ===== src/Examples/Books.antt =====
-- The registry.
use rook_host.Base.{◌≡◌, refl, is_some, true, false, none, List, [], ◌∷◌}
use rook_host.Base.Bytes.{str_eq, str_ne}
use rook_host.Base.Result.{err}
use rook_host.Registry.{Registry, allowed, revoke, get}
use rook_host.Registry.Book.{cap_status_read, find}
use rook_host.Registry.Storage.{device_revoked, RegistryFile, sort_by_paired}
use rook_host.Base.Disk.{Fault, no_fault, write_fault, mkdir_fault}
use rook_host.Registry.Revocation.{RegistryOp, adds, grants, touches, run, revoked_until_paired}
use rook_host.Registry.Refinement.{meanings, run-meanings}
use rook_host.Registry.Reopen.{Unique, IsAtomic, persist-IsAtomic}
use rook_host.Examples.Codecs.{one_file}
use rook_host.Examples.Data.{phone, tablet}

abbrev book : Registry
book = record { devices = phone ∷ tablet ∷ []; disk = record { file = none; tmp = none } }

-- The file of the book, the tablet first, which was paired first.
abbrev kept_file : RegistryFile
kept_file = record { version = 1; devices = tablet ∷ phone ∷ [] }

-- Later the phone is granted, touched, and the tablet paired anew.
abbrev later_ops : List (RegistryOp × Fault)
later_ops =
    (grants phone.id (cap_status_read ∷ []), mkdir_fault)
    ∷ (touches phone.id 9, no_fault)
    ∷ (adds tablet, no_fault)
    ∷ []

phone_known : is_some (get book phone.id) ≡ true
unfolding get find str_eq
phone_known = refl

tablet_other : str_eq tablet.id phone.id ≡ false
unfolding str_eq
tablet_other = refl

revoked_until_paired_example :
    allowed
      (run
        (one_file kept_file)
        (revoke (one_file kept_file) book phone.id 8 (write_fault [])).1
        later_ops)
      phone.id
      cap_status_read
    ≡ err device_revoked
revoked_until_paired_example =
    revoked_until_paired (one_file kept_file) book phone.id 8 (write_fault []) later_ops phone_known
      (tt, (tt, (str_ne tablet.id phone.id tablet_other, tt))) cap_status_read

book-Unique : Unique book.devices
unfolding find str_eq
book-Unique = (refl, (refl, tt))

book_kept : kept_file ≡ (record { version = 1; devices = sort_by_paired book.devices })
unfolding sort_by_paired
book_kept = refl

persist-IsAtomic_example : IsAtomic (one_file kept_file) book.devices book.disk no_fault
persist-IsAtomic_example =
    persist-IsAtomic (one_file kept_file) book.devices book.disk no_fault book-Unique book_kept

run-meanings_example :
    get (run (one_file kept_file) book later_ops)
    ≡ meanings
        (get book)
        (grants phone.id (cap_status_read ∷ []) ∷ touches phone.id 9 ∷ adds tablet ∷ [])
run-meanings_example = run-meanings (one_file kept_file) book later_ops
