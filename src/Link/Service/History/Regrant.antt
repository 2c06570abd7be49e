-- ===== src/Link/Service/History/Regrant.antt =====
-- What a change of a device's capabilities leaves of whom the server serves.
use rook_host.Base.{
  ◌≡◌, ◌∙◌, refl, sym, some, true, arith, Bool-cases, Option-cases, inl, inr, List, [],
}
use rook_host.Base.Bytes.{Bytes, str_eq, str_eq_iff, contains}
use rook_host.Base.Disk.{Fault}
use rook_host.Registry.{Registry, get, set_capabilities}
use rook_host.Registry.Book.{
  Device, known_capability, keep_capabilities, cap_status_read, cap_session_read,
}
use rook_host.Registry.Storage.{JsonCodec}
use rook_host.Registry.Lookup.{get-set_capabilities}
use rook_host.Registry.Capabilities.{allowed_entry, contains-keep_capabilities}
use rook_host.Link.Server.{Server}
use rook_host.Link.Service.History.Serving.{IsServing, IsServing-Backs, IsRead, Backs, Backs-same}

-- The capabilities that the streams need are among them.
abbrev pub Reads : List Bytes → Type 0
Reads caps = (contains caps cap_status_read ≡ true) × (contains caps cap_session_read ≡ true)

kept-Reads :
    (caps : List Bytes) (c : Bytes)
    → Reads caps
    → IsRead c
    → contains (keep_capabilities [] caps) c ≡ true
unfolding known_capability contains str_eq
kept-Reads caps c h (inl k) = rw k (contains-keep_capabilities [] caps cap_status_read ∙ h.0)
kept-Reads caps c h (inr k) = rw k (contains-keep_capabilities [] caps cap_session_read ∙ h.1)

set_capabilities-Backs :
    (json : JsonCodec) (r : Registry) (key : Bytes) (caps : List Bytes) (fault : Fault) (id : Bytes)
    → Reads caps
    → Backs r (set_capabilities json r key caps fault).1 id
unfolding set_capabilities
set_capabilities-Backs json r key caps fault id h = elim (Option-cases (get r key)) [
  | inl e ↦ Backs-same r _ id (ground arith)
  | inr (x, e) ↦
      let found = get-set_capabilities json r fault key caps id x e in
      elim (Bool-cases (str_eq key id)) [
        | inr other ↦ Backs-same r _ id (found ∙ rw other refl)
        | inl same ↦
            let x' : Device = record x { capabilities = keep_capabilities [] caps } in
            let here : get r id ≡ some x = rw (← (str_eq_iff key id).0 same) e in
            let now : get (set_capabilities json r key caps fault).1 id ≡ some x' =
              found ∙ rw same refl in
            (
              λ (d, f, v). (x', now, ground arith),
              λ c k a.
                  allowed_entry (set_capabilities json r key caps fault).1 id c x' now
                  ∙ ground (arith, kept-Reads caps c h k, sym (allowed_entry r id c x here) ∙ a),
            )
      ]
]

pub set_capabilities-IsServing :
    (json : JsonCodec) (s : Server) (id : Bytes) (caps : List Bytes) (fault : Fault)
    → Reads caps
    → IsServing s
    → IsServing (record s { reg = (set_capabilities json s.reg id caps fault).1 })
set_capabilities-IsServing json s id caps fault h v =
    IsServing-Backs s _ (λ j. set_capabilities-Backs json s.reg id caps fault j h) v
