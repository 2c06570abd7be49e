-- ===== src/Link/Server/Pairing/Sessions.antt =====
-- What an authentication opens: a session for the device that answered the challenge.
use rook_host.Base.{
  ◌≡◌, ◌+◌, ◌↔◌, refl, inl, inr, ap, sym, ◌∙◌, Option, some, true, false, ◌++◌, arith, Bool-cases,
  Option-cases,
}
use rook_host.Base.Bytes.{
  Bytes, trim_prefix, str_eq_refl, is_empty, has_prefix-append, trim_prefix-append,
}
use rook_host.Base.Time.{Time, before}
use rook_host.Base.Result.{ok}
use rook_host.Base.Base64.{encode}
use rook_host.Crypto.{Crypto}
use rook_host.Identity.Sign.{verify_auth}
use rook_host.Registry.{get, allowed}
use rook_host.Registry.Book.{Device, revoked}
use rook_host.Registry.Lookup.{find-id}
use rook_host.Registry.Storage.{JsonCodec}
use rook_host.Base.Disk.{Fault}
use rook_host.Link.Tokens.{token_ttl, Session, mint}
use rook_host.Link.Nonces.{consume}
use rook_host.Link.Server.{Server, Host, host_id}
use rook_host.Link.Server.Pairing.{AuthRequest, AuthResponse, authenticate, open_session}
use rook_host.Link.Server.Session.{authorize, bearer_prefix}
use rook_host.Link.Server.Session.Effects.{authorize-exact}

module _ (crypto : Crypto) (json : JsonCodec) (host : Host) where
  -- The token of a new session is accepted for its device while it lives.
  open_session-authorizes :
      (s : Server) (d : Device) (raw : Bytes) (t1 t2 : Time) (fault : Fault) (id : Bytes)
      → d.id ≡ id
      → is_empty id ≡ false
      → (let s' = (open_session crypto json host s d (some raw) t1 t2 fault).1 in
          (capability : Bytes) (now : Time)
          → ((authorize s' (bearer_prefix ++ encode raw) capability now).0 ≡ ok id)
            ↔ ((before now (t1 + token_ttl) ≡ true) × (allowed s'.reg id capability ≡ ok tt)))
  unfolding open_session mint
  open_session-authorizes s d raw t1 t2 fault id same known capability now =
      let s' = (open_session crypto json host s d (some raw) t1 t2 fault).1 in
      let entry : Session = record { device_id = d.id; expires = t1 + token_ttl } in
      let stored : s'.tokens (trim_prefix (bearer_prefix ++ encode raw) bearer_prefix)
          ≡ some entry =
        rw (trim_prefix-append bearer_prefix (encode raw), str_eq_refl (encode raw)) refl in
      let exact = authorize-exact s' (bearer_prefix ++ encode raw) capability now id in
      (
        λ h. (let (p, (session, t, l, i), e, a) = exact.0 h in (ground arith, a)),
        λ h.
            exact.1 (
              has_prefix-append bearer_prefix (encode raw),
              (entry, stored, h.0, same),
              known,
              h.1,
            ),
      )

  open_session-token :
      (s : Server) (d : Device) (raw : Bytes) (t1 t2 : Time) (fault : Fault) (r : AuthResponse)
      → (open_session crypto json host s d (some raw) t1 t2 fault).0 ≡ ok r
      → r.session_token ≡ encode raw
  unfolding open_session mint
  open_session-token s d raw t1 t2 fault r h = ground arith

  -- Authenticate is the opening of a session, where every check passes.
  authenticate_checked :
      (s : Server) (m : AuthRequest) (raw : Option Bytes) (t0 t1 t2 : Time) (fault : Fault)
      (d : Device)
      → get s.reg m.device_id ≡ some d
      → revoked d ≡ false
      → (consume s.nonces m.nonce d.id t0).0 ≡ true
      → verify_auth crypto d.public_key (host_id crypto json host) d.id m.nonce m.signature ≡ true
      → authenticate crypto json host s m raw t0 t1 t2 fault
        ≡ open_session crypto json host
            (record s { nonces = (consume s.nonces m.nonce d.id t0).1 })
            d
            raw
            t1
            t2
            fault
  unfolding authenticate
  authenticate_checked s m raw t0 t1 t2 fault d e v c g = ground arith

  -- Where the id is not empty and the random source works, an answer with a token shows that a
  -- device with that id is registered and not revoked, that its nonce was live, and that the
  -- signature verifies under its registered key. The header with the token is accepted for that
  -- device exactly until 24 hours later, and for the capabilities that the registry allows it.
  pub authenticate-opens :
      (s : Server) (m : AuthRequest) (raw : Bytes) (t0 t1 t2 : Time) (fault : Fault)
      (r : AuthResponse)
      → is_empty m.device_id ≡ false
      → (authenticate crypto json host s m (some raw) t0 t1 t2 fault).0 ≡ ok r
      → (let s' = (authenticate crypto json host s m (some raw) t0 t1 t2 fault).1 in
          ((d : Device) × (get s.reg m.device_id ≡ some d)
            × (revoked d ≡ false)
            × ((consume s.nonces m.nonce d.id t0).0 ≡ true)
            × (verify_auth crypto d.public_key (host_id crypto json host) d.id m.nonce m.signature
                ≡ true))
          × ((capability : Bytes) (now : Time)
              → ((authorize s' (bearer_prefix ++ r.session_token) capability now).0
                  ≡ ok m.device_id)
                ↔ ((before now (t1 + token_ttl) ≡ true)
                    × (allowed s'.reg m.device_id capability ≡ ok tt))))
  unfolding authenticate get
  authenticate-opens s m raw t0 t1 t2 fault r known h =
      elim (Option-cases (get s.reg m.device_id)) [
        | inl e ↦ absurd (ground arith)
        | inr (d, e) ↦ elim (Bool-cases (revoked d)) [
          | inl v ↦ absurd (ground arith)
          | inr v ↦ elim (Bool-cases (consume s.nonces m.nonce d.id t0).0) [
            | inr c ↦ absurd (ground arith)
            | inl c ↦
                elim (Bool-cases (
                  verify_auth crypto d.public_key (host_id crypto json host) d.id m.nonce
                    m.signature)) [
                      | inr g ↦ absurd (ground arith)
                      | inl g ↦
                          let same : d.id ≡ m.device_id = find-id m.device_id s.reg.devices d e in
                          let opens =
                            authenticate_checked s m (some raw) t0 t1 t2 fault d e v c g in
                          let token : r.session_token ≡ encode raw =
                            open_session-token
                              (record s { nonces = (consume s.nonces m.nonce d.id t0).1 }) d raw t1
                              t2 fault r (ap (λ out. out.0) (sym opens) ∙ h) in
                          (
                            (d, e, v, c, g),
                            rw (opens, token)
                                (open_session-authorizes
                                  (record s { nonces = (consume s.nonces m.nonce d.id t0).1 }) d raw
                                  t1 t2 fault m.device_id same known),
                          )
                    ]
          ]
        ]
      ]
