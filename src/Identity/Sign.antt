-- ===== src/Identity/Sign.antt =====
-- identity/sign.go: the two signed statements of the link rail.
pub mod Binding
use rook_host.Base.{ℕ, ◌≡◌, refl, ap, Bool, List, [], ◌∷◌, ◌++◌, ◌&&◌, not, length}
use rook_host.Base.Bytes.{Bytes, codes, is_empty}
use rook_host.Crypto.{Crypto}
use rook_host.Edgesign.Canonical.{u64}

abbrev pub pair_domain : Bytes
pair_domain = codes "rook-link-pair/v1"

abbrev pub auth_domain : Bytes
auth_domain = codes "rook-link-auth/v1"

unfoldable pub append_fields : Bytes → List Bytes → Bytes
append_fields out [] = out
append_fields out (f ∷ fs) = append_fields ((out ++ u64 (length f)) ++ f) fs

-- The buffer `out` grows field by field.
unfoldable pub canonical : Bytes → List Bytes → Bytes
canonical domain fields = append_fields (([] ++ u64 (length domain)) ++ domain) fields

unfoldable pub pair_bytes : Bytes → Bytes → Bytes → Bytes
pair_bytes host_id secret dev_pub = canonical pair_domain (host_id ∷ secret ∷ dev_pub ∷ [])

unfoldable pub auth_bytes : Bytes → Bytes → Bytes → Bytes
auth_bytes host_id device_id nonce = canonical auth_domain (host_id ∷ device_id ∷ nonce ∷ [])

module _ (crypto : Crypto) where
  unfoldable pub sign_pair_proof : Bytes → Bytes → Bytes → Bytes → Bytes
  sign_pair_proof dev_key host_id secret dev_pub =
      crypto.sign dev_key (pair_bytes host_id secret dev_pub)

  unfoldable pub verify_pair_proof : Bytes → Bytes → Bytes → Bytes → Bool
  verify_pair_proof dev_pub host_id secret proof =
      not (is_empty proof) && crypto.verify dev_pub (pair_bytes host_id secret dev_pub) proof

  unfoldable pub sign_auth : Bytes → Bytes → Bytes → Bytes → Bytes
  sign_auth dev_key host_id device_id nonce =
      crypto.sign dev_key (auth_bytes host_id device_id nonce)

  unfoldable pub verify_auth : Bytes → Bytes → Bytes → Bytes → Bytes → Bool
  verify_auth dev_pub host_id device_id nonce sig =
      not (is_empty sig) && crypto.verify dev_pub (auth_bytes host_id device_id nonce) sig
