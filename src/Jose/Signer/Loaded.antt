-- ===== src/Jose/Signer/Loaded.antt =====
-- What `from_private_jwk` of crates/sts-jose/src/lib.rs has checked of a signing key.
use sts_delegate_rs.Prelude.{
  ℕ, String, false, ◌≡◌, refl, subst, ◌≤◌, none, some, List, Result, ok, after_ok, after_refuse_if,
  map_err-eq-ok, ltb, ◌*◌, text_eq, true_of_not, arith, eq_iff,
}
use sts_delegate_rs.Jose.{JoseError, PublicJwk}
use sts_delegate_rs.Jose.Keys.{decode_jwk_component, rsa_modulus_bits}
use sts_delegate_rs.Jose.Signer.{
  RsaBackend, RsaKeyPair, PrivateRsaJwk, RsaJoseSigner, BackendSelection, classical, requested_pqc,
  text_or_else, rsa_private_jwk_to_pkcs1_der, from_pkcs1_der, from_private_jwk,
  from_private_jwk_for_backend, ensure_classical_backend,
}

ge_of_not_ltb : (n : ℕ) → ltb n 2048 ≡ false → 2048 ≤ n
ge_of_not_ltb n h = ground arith

signer_injective :
    {a b : RsaJoseSigner} → ◌≡◌ {A = Result RsaJoseSigner JoseError} (ok a) (ok b) → a ≡ b
signer_injective h = cc

-- The key that is published for a key pair.
abbrev pub published_key : RsaBackend → RsaKeyPair → String → PublicJwk
published_key backend key_pair kid = record {
  kty = "RSA";
  kid = kid;
  use_ = "sig";
  alg = "RS256";
  n = some (backend.base64_encode key_pair.n);
  e = some (backend.base64_encode key_pair.e);
  pub_ = none;
}

-- A signer of a private RSA key, and what it publishes.
pub record IsSigner (backend : RsaBackend) (raw fallback : String) (signer : RsaJoseSigner)
    : Type 0 where
  pub jwk : PrivateRsaJwk
  pub is_json : backend.private_from_json raw ≡ ok jwk
  pub is_rsa : jwk.kty ≡ "RSA"
  pub modulus : List ℕ
  pub is_modulus : decode_jwk_component backend.base64_decode "n" jwk.n ≡ ok modulus
  pub is_long : 2048 ≤ rsa_modulus_bits modulus
  pub signs_with : rsa_private_jwk_to_pkcs1_der backend jwk ≡ ok signer.encoding_key
  pub key_pair : RsaKeyPair
  pub is_pair : backend.key_pair_from_der signer.encoding_key ≡ ok key_pair
  pub is_long_pair : 2048 ≤ key_pair.public_modulus_len * 8
  pub publishes : signer.public_jwk ≡ published_key backend key_pair signer.kid
  pub has_kid : signer.kid ≡ text_or_else jwk.kid fallback

module _ (backend : RsaBackend) where
  from_private_jwk-IsSigner :
      (raw fallback : String) (signer : RsaJoseSigner)
      → from_private_jwk backend raw fallback ≡ ok signer
      → IsSigner backend raw fallback signer
  unfolding from_private_jwk from_pkcs1_der
  from_private_jwk-IsSigner raw fallback signer h = after_ok h λ jwk is_json h₁.
      after_refuse_if _ h₁ λ rsa h₂. after_ok h₂ λ modulus is_modulus h₃.
        after_ok h₃ λ e decoded h₄. after_ok h₄ λ u minimal h₅. after_refuse_if _ h₅ λ long h₆.
          after_ok h₆ λ der encoded h₇. after_ok h₇ λ key_pair is_pair h₈.
            after_refuse_if _ h₈ λ long_pair h₉.
              subst (IsSigner backend raw fallback) (signer_injective h₉) (record {
                jwk = jwk;
                is_json = map_err-eq-ok _ _ is_json;
                is_rsa = (eq_iff jwk.kty "RSA").0 (true_of_not (text_eq jwk.kty "RSA") rsa);
                modulus = modulus;
                is_modulus = is_modulus;
                is_long = ge_of_not_ltb (rsa_modulus_bits modulus) long;
                signs_with = encoded;
                key_pair = key_pair;
                is_pair = map_err-eq-ok _ _ is_pair;
                is_long_pair = ge_of_not_ltb (key_pair.public_modulus_len * 8) long_pair;
                publishes = refl;
                has_kid = refl;
              })

  -- An RS256 signer is made only where the selected backend is the classical one, and then only of a private
  -- RSA key of at least 2048 bits, by its own modulus and by the key pair that signs. It is named by the
  -- key's kid, or else by the fallback, and publishes the pair's public key under that name.
  pub from_private_jwk_for_backend-IsSigner :
      (quoted : String → String) (selection : BackendSelection) (raw fallback : String)
      (signer : RsaJoseSigner)
      → from_private_jwk_for_backend backend quoted selection raw fallback ≡ ok signer
      → (selection ≡ classical) × IsSigner backend raw fallback signer
  unfolding from_private_jwk_for_backend ensure_classical_backend
  from_private_jwk_for_backend-IsSigner quoted classical raw fallback signer h =
      after_ok h λ u chosen h₁. (refl, from_private_jwk-IsSigner raw fallback signer h₁)
  from_private_jwk_for_backend-IsSigner quoted (requested_pqc s) raw fallback signer h =
      after_ok h λ u chosen h₁. cc
