-- ===== src/Edgeclient/Sync/Envelopes.antt =====
-- The events of a command: what the builders fill in, and what signing does to them.
use rook_host.Base.{
  ◌≡◌, ◌∙◌, refl, Option, none, some, true, List, [], ◌∷◌, All, ℕ, arith, inl, inr, ◌+◌,
}
use rook_host.Base.Bytes.{Bytes}
use rook_host.Base.Result.{ok, Result-cases}
use rook_host.Crypto.{Crypto}
use rook_host.Edgesign.Envelope.{
  Timestamp, EdgeCommand, EdgeEvent, sign_event, verify_event, event_bytes,
}
use rook_host.Edgesign.Grant.{GrantCodec}
use rook_host.Edgeclient.Events.{
  AgentUpdate, Payloads, result_event, agent_event, event_type_command_result,
  event_type_agent_event,
}
use rook_host.Edgeclient.Sync.{agent_events, signed}
use rook_host.Edgeclient.Protocol.{Client, Peer, Call, next_seq}
use rook_host.Edgeclient.Batch.{Numbered, last_seq, IsUpdate}

-- The event verifies under the public key of the signing key, if there is one.
abbrev pub IsSigned : Crypto → Option Bytes → EdgeEvent → Type 0
IsSigned crypto key ev =
    (priv : Bytes) → key ≡ some priv → verify_event crypto (crypto.public_key priv) ev ≡ true

-- What an event builder fills in.
abbrev pub IsEnveloped : EdgeCommand → ℕ → Bytes → EdgeEvent → Type 0
IsEnveloped cmd seq type ev =
    (ev.device_sequence ≡ seq) × (ev.command_id ≡ cmd.command_id) × (ev.type ≡ type)

-- The updates of a command, numbered from seq on.
pub record IsUpdates (crypto : Crypto) (key : Option Bytes) (cmd : EdgeCommand) (seq last : ℕ)
    (evs : List EdgeEvent) : Type 0 where
  pub numbered : Numbered seq evs
  pub ends : last ≡ last_seq seq evs
  pub updates : All (IsUpdate cmd) evs
  pub signatures : All (IsSigned crypto key) evs

module _ (crypto : Crypto) (codec : GrantCodec) (payloads : Payloads) (peer : Peer)
    (c : Client) where
  verify_event-sign_event :
      (priv : Bytes) (ev : EdgeEvent)
      → verify_event crypto (crypto.public_key priv) (sign_event crypto priv ev) ≡ true
  unfolding verify_event sign_event event_bytes
  verify_event-sign_event priv ev = ground (
    arith,
    crypto.verify-sign priv (event_bytes crypto ev),
    crypto.length-sign priv (event_bytes crypto ev),
  )

  pub signed-IsSigned :
      (ev : EdgeEvent) → IsSigned crypto c.key (signed crypto codec payloads peer c.key ev)
  signed-IsSigned ev key e = rw (e) (verify_event-sign_event key ev)

  -- Signing leaves what the batch is ordered by.
  pub signed_keeps :
      (key : Option Bytes) (ev : EdgeEvent)
      → let s = signed crypto codec payloads peer key ev in
        (s.device_sequence ≡ ev.device_sequence)
        × (s.command_id ≡ ev.command_id)
        × (s.type ≡ ev.type)
  unfolding sign_event
  signed_keeps none ev = (refl, refl, refl)
  signed_keeps (some key) ev = (refl, refl, refl)

  pub result_event-IsEnveloped :
      (cmd : EdgeCommand) (seq : ℕ) (status json : Bytes) (now : Timestamp) (ev : EdgeEvent)
      → result_event crypto payloads cmd seq status json now ≡ ok ev
      → IsEnveloped cmd seq event_type_command_result ev
  unfolding result_event
  result_event-IsEnveloped cmd seq status json now ev h = ground (arith, h)

  agent_event-IsEnveloped :
      (cmd : EdgeCommand) (seq i : ℕ) (upd : AgentUpdate) (now : Timestamp) (ev : EdgeEvent)
      → agent_event crypto payloads cmd seq i upd now ≡ ok ev
      → IsEnveloped cmd seq event_type_agent_event ev
  unfolding agent_event
  agent_event-IsEnveloped cmd seq i upd now ev h = ground (arith, h)

  pub agent_events-IsUpdates :
      (cmd : EdgeCommand) (calls : List Call) (seq i last : ℕ) (upds : List AgentUpdate)
      (evs : List EdgeEvent)
      → agent_events crypto codec payloads peer c cmd calls seq i upds ≡ ok (evs, last)
      → IsUpdates crypto c.key cmd seq last evs
  unfolding agent_events
  agent_events-IsUpdates cmd calls seq i last [] evs h =
      let e : evs ≡ [] = ground (arith, h) in
      let f : last ≡ seq = ground (arith, h) in
      rw (e) (record { numbered = tt; ends = f; updates = tt; signatures = tt })
  agent_events-IsUpdates cmd calls seq i last (upd ∷ upds) evs h =
      let now = peer.timestamp calls (next_seq seq) in
      elim (Result-cases (agent_event crypto payloads cmd (next_seq seq) i upd now)) [
        | inl (x, e) ↦ absurd (ground (arith, h, e))
        | inr (ev, e) ↦
            elim (Result-cases
              (agent_events crypto codec payloads peer c cmd calls (next_seq seq) (i + 1) upds)) [
                | inl (x, f) ↦ absurd (ground (arith, h, e, f))
                | inr ((more, l), f) ↦
                    let r = agent_events-IsUpdates cmd calls (next_seq seq) (i + 1) l upds more f in
                    let shape : evs ≡ signed crypto codec payloads peer c.key ev ∷ more =
                      ground (arith, h, e, f) in
                    let ends : last ≡ l = ground (arith, h, e, f) in
                    let k = signed_keeps c.key ev in
                    let b = agent_event-IsEnveloped cmd (next_seq seq) i upd now ev e in
                    rw (shape) (record {
                      numbered = (k.0 ∙ b.0, rw (k.0 ∙ b.0) r.numbered);
                      ends = rw (k.0 ∙ b.0) (ends ∙ r.ends);
                      updates = ((k.1 ∙ b.1, k.2 ∙ b.2), r.updates);
                      signatures = (signed-IsSigned ev, r.signatures);
                    })
              ]
      ]
