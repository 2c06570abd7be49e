-- ===== src/Link/Service/History/Changes.antt =====
-- What pairing and revocation leave of whom the server serves.
use rook_host.Base.{
  ◌≡◌, ◌≢◌, ◌∙◌, true, not, List, [], length, ◌==◌, arith, Bool-cases, Option-cases, inl, inr,
  if◌then◌else◌, if_both, is_some,
}
use rook_host.Base.Bytes.{Bytes, str_eq, str_eq_iff}
use rook_host.Base.Time.{Time}
use rook_host.Base.Disk.{Fault, no_fault}
use rook_host.Base.Result.{ok, err, Result-cases}
use rook_host.Crypto.{Crypto}
use rook_host.Registry.{Registry, get, add, revoke, save, tombstone}
use rook_host.Registry.Book.{Device, put, keep_capabilities}
use rook_host.Registry.Storage.{JsonCodec, RegistryFile, RegistryError, persist, sort_by_paired}
use rook_host.Registry.Lookup.{get-add, get-revoke}
use rook_host.Pairing.Window.{redeem}
use rook_host.Link.Server.{Server, Host, host_id, drop_sessions, revoke_device}
use rook_host.Link.Server.Pairing.{
  PairRequest, pair, redeem_and_register, register, new_device, protocol_version,
}
use rook_host.Identity.Sign.{verify_pair_proof}
use rook_host.Link.Service.History.Serving.{IsServing, Backs-same, drop_sessions-IsServing}

-- Every registry file can be written down.
abbrev pub IsTotal : JsonCodec → Type 0
IsTotal json = (f : RegistryFile) → is_some (json.marshal f) ≡ true

module _ (json : JsonCodec) (total : IsTotal json) (r : Registry) where
  -- On a sound disk the book is saved.
  save-ok : (devices : List Device) → (save json r devices no_fault).0 ≡ ok tt
  unfolding save persist
  save-ok devices =
      let f : RegistryFile = record { version = 1; devices = sort_by_paired devices } in
      elim (Option-cases (json.marshal f)) [
        | inl e ↦ absurd (ground (arith, total f))
        | inr (raw, e) ↦ ground arith
      ]

  add_err :
      (d : Device) (e : RegistryError)
      → (add json r d no_fault).0 ≡ err e
      → (add json r d no_fault).1 ≡ r
  unfolding add
  add_err d e h = ground (
    arith,
    save-ok (put (record d { capabilities = keep_capabilities [] d.capabilities }) r.devices),
  )

  revoke_err :
      (id : Bytes) (at : Time) (e : RegistryError)
      → (revoke json r id at no_fault).0 ≡ err e
      → (revoke json r id at no_fault).1 ≡ r
  unfolding revoke
  revoke_err id at e h = elim (Option-cases (get r id)) [
    | inl n ↦ ground arith
    | inr (d, f) ↦ absurd (ground (arith, save-ok (put (tombstone d at) r.devices)))
  ]

  add_other :
      (d : Device) (fault : Fault) (id : Bytes)
      → id ≢ d.id
      → get (add json r d fault).1 id ≡ get r id
  add_other d fault id other = get-add json r fault d id ∙ ground (arith, str_eq_iff d.id id)

  revoke_other :
      (key : Bytes) (at : Time) (fault : Fault) (id : Bytes)
      → id ≢ key
      → get (revoke json r key at fault).1 id ≡ get r id
  unfolding revoke
  revoke_other key at fault id other = elim (Option-cases (get r key)) [
    | inl n ↦ ground arith
    | inr (d, f) ↦ get-revoke json r fault key at id d f ∙ ground (arith, str_eq_iff key id)
  ]

module _ (crypto : Crypto) (json : JsonCodec) (host : Host) (total : IsTotal json) (s : Server)
    (v : IsServing s) where
  -- The window does not matter.
  paired-IsServing : (t : Server) → t ≡ record s { pairs = t.pairs } → IsServing t
  paired-IsServing t e = rw e (record { tokens = v.tokens; streams = v.streams; panes = v.panes })

  pub register-IsServing :
      (m : PairRequest) (now : Time) → IsServing (register crypto json host s m now no_fault).1
  unfolding register
  register-IsServing m now =
      let d = new_device crypto json host m now in
      let out = register crypto json host s m now no_fault in
      elim (Result-cases (add json s.reg d no_fault).0) [
        | inl (e, h) ↦
            let same : out.1 ≡ record s { reg = (add json s.reg d no_fault).1 } = ground arith in
            rw (same, add_err json total s.reg d e h) v
        | inr (u, h) ↦
            let same : out.1
                ≡ drop_sessions (record s { reg = (add json s.reg d no_fault).1 }) d.id =
              ground arith in
            rw same (
              drop_sessions-IsServing s (add json s.reg d no_fault).1 d.id
                (λ j other. Backs-same s.reg _ j (add_other json total s.reg d no_fault j other)) v)
      ]

  pub revoke_device-IsServing :
      (id : Bytes) (at : Time) → IsServing (revoke_device crypto json host s id at no_fault).1
  unfolding revoke_device
  revoke_device-IsServing id at =
      let reg' = (revoke json s.reg id at no_fault).1 in
      let out = revoke_device crypto json host s id at no_fault in
      elim (Result-cases (revoke json s.reg id at no_fault).0) [
        | inl (e, h) ↦
            let same : out.1 ≡ record s { reg = reg' } = ground arith in
            rw (same, revoke_err json total s.reg id at e h) v
        | inr (u, h) ↦
            let same : out.1 ≡ drop_sessions (record s { reg = reg' }) id = ground arith in
            rw same (
              drop_sessions-IsServing s reg' id
                (λ j other.
                  Backs-same s.reg _ j (revoke_other json total s.reg id at no_fault j other))
                v)
      ]

module _ (crypto : Crypto) (json : JsonCodec) (host : Host) (total : IsTotal json) (s : Server)
    (v : IsServing s) where
  redeem_and_register-IsServing :
      (m : PairRequest) (redeemed_at paired_at : Time)
      → IsServing (redeem_and_register crypto json host s m redeemed_at paired_at no_fault).1
  unfolding redeem_and_register
  redeem_and_register-IsServing m redeemed_at paired_at =
      let r = redeem s.pairs m.pairing_secret redeemed_at in
      let s' : Server = record s { pairs = r.1 } in
      let v' : IsServing s' = record { tokens = v.tokens; streams = v.streams; panes = v.panes } in
      let out = redeem_and_register crypto json host s m redeemed_at paired_at no_fault in
      elim (Bool-cases r.0) [
        | inl e ↦
            let same : out.1 ≡ (register crypto json host s' m paired_at no_fault).1 =
              ground arith in
            rw same (register-IsServing crypto json host total s' v' m paired_at)
        | inr e ↦ let same : out.1 ≡ s' = ground arith in rw same v'
      ]

  pub pair-IsServing :
      (m : PairRequest) (redeemed_at paired_at : Time)
      → IsServing (pair crypto json host s m redeemed_at paired_at no_fault).1
  unfolding pair
  pair-IsServing m redeemed_at paired_at =
      let bad_version = not (str_eq m.protocol_version protocol_version) in
      let bad_key = not (length m.device_public_key == 32) in
      let unproved = not (
        verify_pair_proof crypto m.device_public_key (host_id crypto json host) m.pairing_secret
          m.proof) in
      let next = (redeem_and_register crypto json host s m redeemed_at paired_at no_fault).1 in
      let same : (pair crypto json host s m redeemed_at paired_at no_fault).1
          ≡ (if bad_version then s else if bad_key then s else if unproved then s else next) =
        ground arith in
      rw same (
        if_both IsServing bad_version s _ v (
          if_both IsServing bad_key s _ v (
            if_both IsServing unproved s next v
              (redeem_and_register-IsServing m redeemed_at paired_at))))
