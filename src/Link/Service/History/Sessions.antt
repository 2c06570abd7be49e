-- ===== src/Link/Service/History/Sessions.antt =====
-- What challenges and authentication leave of whom the server serves.
use rook_host.Base.{
  ◌≡◌, sym, subst, Option, some, none, not, arith, Bool-cases, Option-cases, inl, inr,
  if◌then◌else◌, if_both,
}
use rook_host.Base.Bytes.{Bytes, str_eq}
use rook_host.Base.Time.{Time}
use rook_host.Base.Base64.{encode}
use rook_host.Base.Disk.{Fault}
use rook_host.Crypto.{Crypto}
use rook_host.Registry.{Registry, get, add, revoke, save, tombstone}
use rook_host.Registry
use rook_host.Registry.Book.{Device, revoked}
use rook_host.Registry.Storage.{JsonCodec}
use rook_host.Registry.Lookup.{find-id}
use rook_host.Link.Tokens.{mint}
use rook_host.Link.Nonces.{Nonces, consume}
use rook_host.Link.Nonces
use rook_host.Link.Server.{Server, Host, host_id}
use rook_host.Link.Server.Pairing.{AuthRequest, challenge, authenticate, open_session, live_device}
use rook_host.Identity.Sign.{verify_auth}
use rook_host.Link.Service.History.Serving.{
  IsServing, IsNamed, IsLive, IsServing-Backs, touch-Backs,
}

module _ (crypto : Crypto) (json : JsonCodec) (host : Host) (s : Server) (v : IsServing s) where
  pub challenge-IsServing :
      (id : Bytes) (raw : Option Bytes) (now : Time)
      → IsServing (challenge crypto json host s id raw now).1
  unfolding challenge
  challenge-IsServing id raw now =
      let out = challenge crypto json host s id raw now in
      let same : out.1 ≡ record s { nonces = out.1.nonces } =
        elim (Option-cases (live_device crypto json host s id)) [
          | inl e ↦ ground arith
          | inr (d, e) ↦ elim (Option-cases (Nonces.mint s.nonces raw d.id now).0) [
            | inl f ↦ ground arith
            | inr (n, f) ↦ ground arith
          ]
        ] in
      rw same (record { tokens = v.tokens; streams = v.streams; panes = v.panes })

  -- A new session names a device that is live.
  mint-IsNamed :
      (raw : Option Bytes) (id : Bytes) (at : Time)
      → IsLive s.reg id
      → IsNamed s.reg (mint s.tokens raw id at).1
  unfolding mint
  mint-IsNamed none id at l tok session h = v.tokens tok session h
  mint-IsNamed (some raw) id at l tok session h = elim (Bool-cases (str_eq (encode raw) tok)) [
    | inl e ↦ let same : session.device_id ≡ id = ground arith in rw same l
    | inr e ↦ v.tokens tok session (ground arith)
  ]

  pub open_session-IsServing :
      (d : Device) (raw : Option Bytes) (minted_at touched_at : Time) (fault : Fault)
      → IsLive s.reg d.id
      → IsServing (open_session crypto json host s d raw minted_at touched_at fault).1
  unfolding open_session
  open_session-IsServing d raw minted_at touched_at fault l =
      let out = open_session crypto json host s d raw minted_at touched_at fault in
      let t = (mint s.tokens raw d.id minted_at).1 in
      let s' : Server = record s { tokens = t } in
      let v' : IsServing s' = record {
        tokens = mint-IsNamed raw d.id minted_at l;
        streams = v.streams;
        panes = v.panes;
      } in
      elim (Option-cases (mint s.tokens raw d.id minted_at).0) [
        | inl e ↦ let same : out.1 ≡ s' = ground arith in rw same v'
        | inr (x, e) ↦
            let same : out.1 ≡ record s' { reg = Registry.touch json s.reg d.id touched_at fault } =
              ground arith in
            rw same (IsServing-Backs s' _ (touch-Backs json s.reg d.id touched_at fault) v')
      ]

module _ (crypto : Crypto) (json : JsonCodec) (host : Host) (s : Server) (v : IsServing s) where
  pub authenticate-IsServing :
      (m : AuthRequest) (raw : Option Bytes) (at minted_at touched_at : Time) (fault : Fault)
      → IsServing (authenticate crypto json host s m raw at minted_at touched_at fault).1
  unfolding authenticate get
  authenticate-IsServing m raw at minted_at touched_at fault =
      let out = authenticate crypto json host s m raw at minted_at touched_at fault in
      elim (Option-cases (get s.reg m.device_id)) [
        | inl e ↦ let same : out.1 ≡ s = ground arith in rw same v
        | inr (d, e) ↦ elim (Bool-cases (revoked d)) [
          | inl x ↦ let same : out.1 ≡ s = ground arith in rw same v
          | inr x ↦
              let c = consume s.nonces m.nonce d.id at in
              let s' : Server = record s { nonces = c.1 } in
              let v' : IsServing s' = record {
                tokens = v.tokens;
                streams = v.streams;
                panes = v.panes;
              } in
              let unsigned = not (
                verify_auth crypto d.public_key (host_id crypto json host) d.id m.nonce
                  m.signature) in
              let next = (open_session crypto json host s' d raw minted_at touched_at fault).1 in
              let own : d.id ≡ m.device_id = find-id m.device_id s.reg.devices d e in
              let same : out.1 ≡ (if not c.0 then s' else if unsigned then s' else next) =
                ground arith in
              rw same (
                if_both IsServing (not c.0) s' _ v' (
                  if_both IsServing unsigned s' next v' (
                    open_session-IsServing crypto json host s' v' d raw minted_at touched_at fault
                      (subst (λ i. IsLive s.reg i) (sym own) (d, e, x)))))
        ]
      ]
