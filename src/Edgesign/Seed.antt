-- ===== src/Edgesign/Seed.antt =====
-- edgesign/edgesign.go: EncodeSeed and DecodeSeed, which move a private key through configuration.
use rook_host.Base.{◌≡◌, refl, Option, none, some, length, ◌==◌, not, if◌then◌else◌, ℕ}
use rook_host.Base.Bytes.{Bytes}
use rook_host.Base.Result.{Result, ok, err}

-- encoding/base64 and the seeds of crypto/ed25519. The laws: base64 decodes what it encoded, and a
-- generated private key is the key of its own 32-byte seed.
pub record SeedCodec : Type 0 where
  pub encode64 : Bytes → Bytes
  pub decode64 : Bytes → Option Bytes
  pub generate_key : Bytes → Bytes
  pub seed : Bytes → Bytes
  pub key_from_seed : Bytes → Bytes
  pub decode64-encode64 : (s : Bytes) → decode64 (encode64 s) ≡ some s
  pub key_from_seed-seed :
      (entropy : Bytes) → key_from_seed (seed (generate_key entropy)) ≡ generate_key entropy
  pub length-seed : (entropy : Bytes) → length (seed (generate_key entropy)) ≡ 32

pub data SeedError : Type 0 where
  not_base64 : SeedError
  wrong_size : ℕ → SeedError

module _ (codec : SeedCodec) where
  -- EncodeSeed
  unfoldable pub encode_seed : Bytes → Bytes
  encode_seed priv = codec.encode64 (codec.seed priv)

  -- DecodeSeed
  unfoldable pub decode_seed : Bytes → Result SeedError Bytes
  decode_seed encoded = elim (codec.decode64 encoded) [
    | none ↦ err not_base64
    | some seed ↦
        if not (length seed == 32)
        then err (wrong_size (length seed))
        else ok (codec.key_from_seed seed)
  ]

  -- DecodeSeed reads back a generated private key that EncodeSeed wrote.
  pub decode_seed-encode_seed :
      (entropy : Bytes)
      → decode_seed (encode_seed (codec.generate_key entropy)) ≡ ok (codec.generate_key entropy)
  unfolding decode_seed encode_seed
  decode_seed-encode_seed entropy =
      let priv = codec.generate_key entropy in
      rw
        (
          decode_seed,
          codec.decode64-encode64 (codec.seed priv),
          codec.length-seed entropy,
          codec.key_from_seed-seed entropy,
        )
        refl
