-- ===== src/Identity/Sign/Binding.antt =====
-- What the two statements of identity/sign.go bind, through edgesign's encoding, which they mirror.
use mathlib.Core.List.{append_assoc, append-nil}
use rook_host.Base.{◌≡◌, ◌≢◌, refl, sym, ◌∙◌, List, [], ◌∷◌, ◌++◌, All, length, arith, false}
use rook_host.Base.Bytes.{Bytes, str_eq, str_ne}
use rook_host.Crypto.{Crypto}
use rook_host.Edgesign.Canonical as Edge
use rook_host.Edgesign.Canonical.{u64, Fits, canonical_inj, encode_fields}
use rook_host.Edgesign.Envelope.{
  EdgeCommand, EdgeEvent, command_bytes, event_bytes, command_domain, event_domain, command_fields,
  event_fields,
}
use rook_host.Edgesign.Envelope.Binding.{command_fields-Fits, event_fields-Fits}
use rook_host.Edgesign.Envelope.Wire.{IsWireCommand, IsWireEvent}
use rook_host.Identity.Sign.{
  append_fields, canonical, pair_bytes, auth_bytes, pair_domain, auth_domain,
}

append_fields-eq : (out : Bytes) (fs : List Bytes) → append_fields out fs ≡ out ++ encode_fields fs
unfolding append_fields encode_fields
append_fields-eq out [] = rw append-nil
append_fields-eq out (f ∷ fs) =
    append_fields-eq ((out ++ u64 (length f)) ++ f) fs ∙ simp append_assoc

-- The two packages' encoders agree.
pub canonical-eq :
    (domain : Bytes) (fs : List Bytes) → canonical domain fs ≡ Edge.canonical domain fs
unfolding canonical Edge.canonical
canonical-eq domain fs =
    append_fields-eq (([] ++ u64 (length domain)) ++ domain) fs ∙ simp append_assoc

mirror_inj :
    (d d' : Bytes) (fs gs : List Bytes)
    → Fits d
    → Fits d'
    → All Fits fs
    → All Fits gs
    → canonical d fs ≡ canonical d' gs
    → (d ≡ d') × (fs ≡ gs)
mirror_inj d d' fs gs hd hd' hf hg e =
    canonical_inj d d' fs gs hd hd' hf hg (sym (canonical-eq d fs) ∙ e ∙ canonical-eq d' gs)

-- The text of a pairing proof determines the host, the secret and the device key.
pair_bytes-binds :
    (h s k h' s' k' : Bytes)
    → All Fits (h ∷ s ∷ k ∷ h' ∷ s' ∷ k' ∷ [])
    → pair_bytes h s k ≡ pair_bytes h' s' k'
    → (h ≡ h') × (s ≡ s') × (k ≡ k')
unfolding pair_bytes
pair_bytes-binds h s k h' s' k' (a, (b, (c, (a', (b', (c', _)))))) e =
    let split =
      mirror_inj pair_domain pair_domain _ _ (omega arith) (omega arith) (a, (b, (c, tt)))
        (a', (b', (c', tt))) e in
    (cc split.1, cc split.1, cc split.1)

-- The text of a challenge answer determines the host, the device and the nonce.
auth_bytes-binds :
    (h d n h' d' n' : Bytes)
    → All Fits (h ∷ d ∷ n ∷ h' ∷ d' ∷ n' ∷ [])
    → auth_bytes h d n ≡ auth_bytes h' d' n'
    → (h ≡ h') × (d ≡ d') × (n ≡ n')
unfolding auth_bytes
auth_bytes-binds h d n h' d' n' (a, (b, (c, (a', (b', (c', _)))))) e =
    let split =
      mirror_inj auth_domain auth_domain _ _ (omega arith) (omega arith) (a, (b, (c, tt)))
        (a', (b', (c', tt))) e in
    (cc split.1, cc split.1, cc split.1)

-- A signed statement stands for nothing else: the text of a pairing proof determines the host, the
-- secret and the device key, and the text of a challenge answer the host, the device and the nonce,
-- where the fields are shorter than 2^32 bytes.
pub statement_texts_bind :
    (h s k h' s' k' i d n i' d' n' : Bytes)
    → All Fits (h ∷ s ∷ k ∷ h' ∷ s' ∷ k' ∷ [])
    → All Fits (i ∷ d ∷ n ∷ i' ∷ d' ∷ n' ∷ [])
    → pair_bytes h s k ≡ pair_bytes h' s' k'
    → auth_bytes i d n ≡ auth_bytes i' d' n'
    → ((h ≡ h') × (s ≡ s') × (k ≡ k')) × (i ≡ i') × (d ≡ d') × (n ≡ n')
statement_texts_bind h s k h' s' k' i d n i' d' n' a b e f =
    let answer = auth_bytes-binds i d n i' d' n' b f in
    (pair_bytes-binds h s k h' s' k' a e, answer.0, answer.1, answer.2)

module _ (d d' : Bytes) (fs gs : List Bytes) (labels : str_eq d d' ≡ false) where
  texts_differ :
      Fits d → Fits d' → All Fits fs → All Fits gs → Edge.canonical d fs ≢ Edge.canonical d' gs
  texts_differ hd hd' hf hg e = str_ne d d' labels (canonical_inj d d' fs gs hd hd' hf hg e).0

-- No text is signed for two purposes: a pairing proof, a challenge answer, a command envelope and
-- an event envelope are always different texts.
pub signed_texts_differ :
    (crypto : Crypto) (h s k h' d n : Bytes) (cmd : EdgeCommand) (ev : EdgeEvent)
    → All Fits (h ∷ s ∷ k ∷ h' ∷ d ∷ n ∷ [])
    → IsWireCommand cmd
    → IsWireEvent ev
    → (pair_bytes h s k ≢ auth_bytes h' d n)
      × (pair_bytes h s k ≢ command_bytes crypto cmd)
      × (pair_bytes h s k ≢ event_bytes crypto ev)
      × (auth_bytes h' d n ≢ command_bytes crypto cmd)
      × (auth_bytes h' d n ≢ event_bytes crypto ev)
      × (command_bytes crypto cmd ≢ event_bytes crypto ev)
unfolding pair_bytes auth_bytes command_bytes event_bytes str_eq
signed_texts_differ crypto h s k h' d n cmd ev (a, (b, (c, (a', (b', (c', _)))))) w v =
    rw (canonical-eq pair_domain (h ∷ s ∷ k ∷ []), canonical-eq auth_domain (h' ∷ d ∷ n ∷ []))
      (
        texts_differ pair_domain auth_domain _ _ refl (omega arith) (omega arith) pair auth,
        texts_differ pair_domain command_domain _ _ refl (omega arith) (omega arith) pair command,
        texts_differ pair_domain event_domain _ _ refl (omega arith) (omega arith) pair event,
        texts_differ auth_domain command_domain _ _ refl (omega arith) (omega arith) auth command,
        texts_differ auth_domain event_domain _ _ refl (omega arith) (omega arith) auth event,
        texts_differ command_domain event_domain _ _ refl (omega arith) (omega arith) command event,
      )
  where
    pair : All Fits (h ∷ s ∷ k ∷ [])
    pair = (a, (b, (c, tt)))

    auth : All Fits (h' ∷ d ∷ n ∷ [])
    auth = (a', (b', (c', tt)))

    command : All Fits (command_fields crypto cmd)
    command = command_fields-Fits crypto cmd w

    event : All Fits (event_fields crypto ev)
    event = event_fields-Fits crypto ev v
