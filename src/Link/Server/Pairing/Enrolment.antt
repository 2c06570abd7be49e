-- ===== src/Link/Server/Pairing/Enrolment.antt =====
-- What a pairing makes of a device.
use rook_host.Base.{
  ◌≡◌, ◌⊎◌, ◌↔◌, refl, ap, ◌∙◌, inl, inr, Bool, true, false, ◌&&◌, arith, length, ◌==◌, Bool-cases,
}
use rook_host.Base.Bytes.{Bytes, str_eq, contains}
use rook_host.Base.Time.{Time}
use rook_host.Base.Result.{Result, ok, err, Result-cases}
use rook_host.Crypto.{Crypto}
use rook_host.Identity.Sign.{verify_pair_proof}
use rook_host.Identity.Ids.{device_id_for}
use rook_host.Registry.{get, add, allowed}
use rook_host.Registry.Book.{Device, known_capability}
use rook_host.Registry.Lookup.{refused}
use rook_host.Registry.Capabilities.{allowed-add}
use rook_host.Registry.Storage.{JsonCodec}
use rook_host.Base.Disk.{Fault}
use rook_host.Pairing.Window.{Manager, redeem, open_now}
use rook_host.Link.Errors.{
  LinkError, wrong_protocol, bad_device_key, bad_proof, no_pairing_window, not_registered,
}
use rook_host.Link.Server.{Server, Host, host_id, drop_sessions}
use rook_host.Link.Server.Revocation.{IsCutOff, drop_sessions-IsCutOff}
use rook_host.Link.Server.Pairing.{
  PairRequest, PairResponse, pair, redeem_and_register, register, new_device, requested,
  protocol_version, capabilities_of,
}

redeem-closed :
    (m : Manager) (secret : Bytes) (now : Time)
    → (redeem m secret now).0 ≡ true
    → (later : Time) → open_now (redeem m secret now).1 later ≡ false
unfolding redeem open_now
redeem-closed m secret now h later = ground arith

module _ (crypto : Crypto) (json : JsonCodec) (host : Host) where
  refused_if_err :
      (s : Server) (d : Device) (fault : Fault)
      → (add json s.reg d fault).0 ≡ ok tt
      → refused d ≡ false
  unfolding add
  refused_if_err s d fault h = ground arith

  -- Where the book takes the device, its old sessions end and it has what it asked for.
  register-enrols :
      (s : Server) (m : PairRequest) (now : Time) (fault : Fault)
      → (add json s.reg (new_device crypto json host m now) fault).0 ≡ ok tt
      → (let (result, s') = register crypto json host s m now fault in
          let id = device_id_for crypto m.device_public_key in
          ((r : PairResponse) × (result ≡ ok r) × (r.device_id ≡ id))
          × IsCutOff id s'
          × ((c : Bytes)
              → (allowed s'.reg id c ≡ ok tt)
                ↔ (known_capability c && contains (requested m) c ≡ true))
          × (s'.pairs ≡ s.pairs))
  unfolding register drop_sessions
  register-enrols s m now fault f =
      let d = new_device crypto json host m now in
      let s' = record s { reg = (add json s.reg d fault).1 } in
      let r : PairResponse = record {
        device_id = d.id;
        host_id = host_id crypto json host;
        trust_domain_id = host.trust_domain_id;
        host_public_key = host.public_key;
        granted_capabilities = capabilities_of (get (add json s.reg d fault).1 d.id);
      } in
      rw (f, register)
        (
          (r, refl, refl),
          drop_sessions-IsCutOff s' d.id,
          (allowed-add json s.reg d fault (refused_if_err s d fault f) refl).0,
          refl,
        )

  abbrev pub proof_holds : PairRequest → Bool
  proof_holds m =
      verify_pair_proof crypto m.device_public_key (host_id crypto json host) m.pairing_secret
        m.proof

  -- What an answer that is an error leaves: the sessions and streams, and the pairing window,
  -- unless the proof verified.
  abbrev pub IsRefusal : Server → PairRequest → Result LinkError PairResponse × Server → Type 0
  IsRefusal s m (result, s') =
      ((e : LinkError) × (result ≡ err e))
      × (s'.tokens ≡ s.tokens)
      × (s'.hub ≡ s.hub)
      × (s'.panes ≡ s.panes)
      × ((s'.pairs ≡ s.pairs) ⊎ (proof_holds m ≡ true))

  -- What an answer that is a response shows.
  abbrev pub IsEnrolment :
      Server → PairRequest → Time → Result LinkError PairResponse × Server → Type 0
  IsEnrolment s m redeemed_at (result, s') =
      ((r : PairResponse) × (result ≡ ok r)
        × (r.device_id ≡ device_id_for crypto m.device_public_key))
      × (proof_holds m ≡ true)
      × ((redeem s.pairs m.pairing_secret redeemed_at).0 ≡ true)
      × ((later : Time) → open_now s'.pairs later ≡ false)
      × IsCutOff (device_id_for crypto m.device_public_key) s'
      × ((c : Bytes)
          → (allowed s'.reg (device_id_for crypto m.device_public_key) c ≡ ok tt)
            ↔ (known_capability c && contains (requested m) c ≡ true))

  redeem_and_register-enrols :
      (s : Server) (m : PairRequest) (redeemed_at paired_at : Time) (fault : Fault)
      → proof_holds m ≡ true
      → (let out = redeem_and_register crypto json host s m redeemed_at paired_at fault in
          IsRefusal s m out ⊎ IsEnrolment s m redeemed_at out)
  unfolding redeem_and_register
  redeem_and_register-enrols s m redeemed_at paired_at fault p =
      elim (Bool-cases (redeem s.pairs m.pairing_secret redeemed_at).0) [
        | inr e ↦
            rw (e, redeem_and_register) (inl ((no_pairing_window, refl), refl, refl, refl, inr p))
        | inl e ↦
            let s' = record s { pairs = (redeem s.pairs m.pairing_secret redeemed_at).1 } in
            elim (Result-cases
              (add json s'.reg (new_device crypto json host m paired_at) fault).0) [
                | inl (x, f) ↦
                    rw (e, redeem_and_register, f, register)
                      (inl ((not_registered x, refl), refl, refl, refl, inr p))
                | inr (u, f) ↦
                    let (resp, cut, allows, window) = register-enrols s' m paired_at fault f in
                    rw (e, redeem_and_register)
                      (inr (
                        resp,
                        p,
                        refl,
                        (λ later.
                            ap (λ pairs. open_now pairs later) window
                            ∙ redeem-closed s.pairs m.pairing_secret redeemed_at e later),
                        cut,
                        allows,
                      ))
              ]
      ]

  pair_proved :
      (s : Server) (m : PairRequest) (redeemed_at paired_at : Time) (fault : Fault)
      → str_eq m.protocol_version protocol_version ≡ true
      → (length m.device_public_key == 32) ≡ true
      → proof_holds m ≡ true
      → pair crypto json host s m redeemed_at paired_at fault
        ≡ redeem_and_register crypto json host s m redeemed_at paired_at fault
  unfolding pair
  pair_proved s m redeemed_at paired_at fault e k v = ground arith

  -- Pair answers with an error, and then every session and stream is as it was, and so is the
  -- pairing window if the proof did not verify; or it answers with the id of the device's key, and
  -- then the proof verified, the window was open for the secret and is closed, what the id had
  -- before is cut off, and the device may do exactly the known capabilities that it requested.
  pub pair-enrols :
      (s : Server) (m : PairRequest) (redeemed_at paired_at : Time) (fault : Fault)
      → (let out = pair crypto json host s m redeemed_at paired_at fault in
          IsRefusal s m out ⊎ IsEnrolment s m redeemed_at out)
  unfolding pair
  pair-enrols s m redeemed_at paired_at fault =
      elim (Bool-cases (str_eq m.protocol_version protocol_version)) [
        | inr e ↦ rw (e, pair) (inl ((wrong_protocol, refl), refl, refl, refl, inl refl))
        | inl e ↦ elim (Bool-cases (length m.device_public_key == 32)) [
          | inr k ↦ rw (e, pair, k) (inl ((bad_device_key, refl), refl, refl, refl, inl refl))
          | inl k ↦ elim (Bool-cases (proof_holds m)) [
            | inr v ↦ rw (e, pair, k, v) (inl ((bad_proof, refl), refl, refl, refl, inl refl))
            | inl v ↦
                rw (pair_proved s m redeemed_at paired_at fault e k v)
                  (redeem_and_register-enrols s m redeemed_at paired_at fault v)
          ]
        ]
      ]
