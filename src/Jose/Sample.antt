-- ===== src/Jose/Sample.antt =====
-- A backend for runs on concrete tokens: every header names the key "k" and RS256, every signature
-- verifies, and the claims are given.
use sts_delegate_rs.Prelude.{true, false, some, none, [], ◌∷◌, ok}
use sts_delegate_rs.Jose.{JwksDocument, PublicJwk}
use sts_delegate_rs.Jose.Verify.{Backend}

abbrev pub sample_backend : {T : Type 0} → T → Backend T Unit Unit
sample_backend claims = record {
  pqc = false;
  base64_decode = λ _. ok (1 ∷ []);
  header_from_json = λ _. ok (record { alg = "RS256"; kid = some "k"; typ = none });
  claims_from_json = λ _. ok claims;
  rsa_decoding_key = λ _ _. ok tt;
  decode_rs256 = λ _ _. ok claims;
  mldsa_public_key = λ _ _. ok tt;
  mldsa_verifier = λ _. ok tt;
  mldsa_verify = λ _ _ _. ok true;
}

abbrev pub sample_jwk : PublicJwk
sample_jwk = record {
  kty = "RSA";
  kid = "k";
  use_ = "sig";
  alg = "RS256";
  n = some "AQ";
  e = some "AQ";
  pub_ = none;
}

abbrev pub sample_jwks : JwksDocument
sample_jwks = record { keys = sample_jwk ∷ [] }
