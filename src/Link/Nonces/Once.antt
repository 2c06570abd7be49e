-- ===== src/Link/Nonces/Once.antt =====
-- A nonce answers one challenge: it is spent by its first use, for its own device, in time.
use rook_host.Base.{◌≡◌, ◌≢◌, ◌+◌, Option, none, some, false, List, [], ◌∷◌, All, arith, ◌&&◌}
use rook_host.Base.Bytes.{Bytes, str_eq, str_eq_iff}
use rook_host.Base.Base64.{encode, encode_inj, AreBytes}
use rook_host.Base.Time.{Time, before}
use rook_host.Link.Nonces.{Nonces, mint, consume, nonce_ttl}

pub data NonceOp : Type 0 where
  mints : Option Bytes → Bytes → Time → NonceOp
  consumes : Bytes → Bytes → Time → NonceOp

unfoldable pub next : Nonces → NonceOp → Nonces
unfolding mint consume
next n (mints raw device_id now) = (mint n raw device_id now).1
next n (consumes raw device_id now) = (consume n raw device_id now).1

unfoldable pub run : Nonces → List NonceOp → Nonces
unfolding next
run n [] = n
run n (op ∷ ops) = run (next n op) ops

-- The random source does not repeat this nonce.
abbrev pub Fresh : Bytes → NonceOp → Type 0
Fresh raw (mints (some raw') device_id now) = AreBytes raw' × (raw' ≢ raw)
Fresh raw _ = Unit

absent-next :
    (raw : Bytes) (n : Nonces) (op : NonceOp)
    → AreBytes raw
    → Fresh raw op
    → n (encode raw) ≡ none
    → next n op (encode raw) ≡ none
unfolding next
absent-next raw n (mints none device_id now) b f h = h
absent-next raw n (mints (some raw') device_id now) b f h =
    ground (arith, str_eq_iff (encode raw') (encode raw), encode_inj raw' raw f.0 b)
absent-next raw n (consumes raw' device_id now) b f h = ground arith

absent-run :
    (raw : Bytes) (n : Nonces) (ops : List NonceOp)
    → AreBytes raw
    → All (Fresh raw) ops
    → n (encode raw) ≡ none
    → run n ops (encode raw) ≡ none
unfolding run
absent-run raw n [] b f h = h
absent-run raw n (op ∷ ops) b f h =
    absent-run raw (next n op) ops b f.1 (absent-next raw n op b f.0 h)

absent-consume : (n : Nonces) (raw d : Bytes) (t : Time) → (consume n raw d t).1 (encode raw) ≡ none
unfolding consume
absent-consume n raw d t = ground (arith, str_eq_iff (encode raw) (encode raw))

consume_absent :
    (n : Nonces) (raw d : Bytes) (t : Time) → n (encode raw) ≡ none → (consume n raw d t).0 ≡ false
unfolding consume
consume_absent n raw d t h = ground arith

-- Whatever came of consuming a nonce, it is never accepted afterwards, for any device and at any
-- time, as long as the random source does not repeat it.
pub consume_once :
    (n : Nonces) (raw d d' : Bytes) (t t' : Time) (ops : List NonceOp)
    → AreBytes raw
    → All (Fresh raw) ops
    → (consume (run (consume n raw d t).1 ops) raw d' t').0 ≡ false
consume_once n raw d d' t t' ops b f =
    consume_absent (run (consume n raw d t).1 ops) raw d' t'
      (absent-run raw (consume n raw d t).1 ops b f (absent-consume n raw d t))

-- A nonce that was just minted is accepted exactly from its own device and before it expires.
pub consume-mint :
    (n : Nonces) (raw d d' : Bytes) (t t' : Time)
    → (consume (mint n (some raw) d t).1 raw d' t').0 ≡ (before t' (t + nonce_ttl) && str_eq d d')
unfolding consume mint
consume-mint n raw d d' t t' = ground (arith, str_eq_iff (encode raw) (encode raw))
