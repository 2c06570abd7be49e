-- ===== src/Crypto/Toy.antt =====
-- A concrete instance of the interface, which shows that its laws can hold together: a signature
-- is the message cut or padded to 64 bytes, and a digest the same to 32.
use rook_host.Base.{ℕ, zero, suc, [], ◌∷◌, ◌≡◌, refl, ap, length}
use rook_host.Base.Bytes.{Bytes, str_eq, str_eq_refl}
use rook_host.Crypto.Interface.{Crypto}

abbrev pub fit : ℕ → Bytes → Bytes
fit zero s = []
fit (suc n) [] = 0 ∷ fit n []
fit (suc n) (b ∷ s) = b ∷ fit n s

pub length-fit : (n : ℕ) (s : Bytes) → length (fit n s) ≡ n
length-fit zero s = refl
length-fit (suc n) [] = ap suc (length-fit n [])
length-fit (suc n) (b ∷ s) = ap suc (length-fit n s)

abbrev pub toy_crypto : Crypto
toy_crypto = record {
  sign = λ priv message. fit 64 message;
  verify = λ key message sig. str_eq (fit 64 message) sig;
  public_key = λ priv. priv;
  sha256 = λ message. fit 32 message;
  verify-sign = λ priv message. str_eq_refl (fit 64 message);
  length-sign = λ priv message. length-fit 64 message;
  length-sha256 = λ message. length-fit 32 message;
}
