-- ===== src/Jose/Verify.antt =====
-- Verification of a compact JWS against a JWKS, in crates/sts-jose/src/lib.rs. `Backend` holds the
-- functions of other crates; the claims' type is a parameter, as the code's `T: DeserializeOwned` is.
pub mod Authentic
use sts_delegate_rs.Prelude.{
  ℕ, pos, String, Bool, true, false, not, Option, none, some, List, [], ◌∷◌, Result, ok, err, ◌>>=◌,
  ◌>>◌, refuse_if, ok_or, map_err, if◌then◌else◌, ◌==◌, length, find, member, text_eq, ◌⧺◌,
}
use sts_delegate_rs.Prelude.Text.Decimal.{show_i64}
use sts_delegate_rs.Jose.{
  JoseError, jose_error, invalid_key, unsupported_algorithm, invalid_claims, verification_failed,
  invalid_compact_jws, PublicJwk, JwksDocument, CompactJwsHeader, VerifiedJws, MlDsaAlgorithm,
  from_jose_alg, jose_alg, signature_len, algorithm_eq, parse_compact_jws,
}
use sts_delegate_rs.Jose.Keys.{rsa_public_key_from_jwk, akp_public_key_from_jwk}

-- The kinds of jsonwebtoken's errors that the code tells apart.
pub data JwtErrorKind : Type 0 where
  invalid_token base64 utf8 json missing_required_claim invalid_claim_format expired_signature :
      JwtErrorKind
  invalid_issuer invalid_audience invalid_subject immature_signature invalid_signature :
      JwtErrorKind
  invalid_algorithm missing_algorithm invalid_key_format invalid_rsa_key other_kind : JwtErrorKind

pub record JwtError : Type 0 where
  pub kind : JwtErrorKind
  pub text : String

unfoldable pub map_jwt_decode_error : JwtError → JoseError
map_jwt_decode_error e = elim e.kind [
  | invalid_token ↦ jose_error invalid_compact_jws ("invalid compact JWS: " ⧺ e.text)
  | base64 ↦ jose_error invalid_compact_jws ("invalid compact JWS: " ⧺ e.text)
  | utf8 ↦ jose_error invalid_compact_jws ("invalid compact JWS: " ⧺ e.text)
  | json ↦ jose_error invalid_claims ("invalid token claims: " ⧺ e.text)
  | missing_required_claim ↦ jose_error invalid_claims ("invalid token claims: " ⧺ e.text)
  | invalid_claim_format ↦ jose_error invalid_claims ("invalid token claims: " ⧺ e.text)
  | expired_signature ↦ jose_error invalid_claims ("invalid token claims: " ⧺ e.text)
  | invalid_issuer ↦ jose_error invalid_claims ("invalid token claims: " ⧺ e.text)
  | invalid_audience ↦ jose_error invalid_claims ("invalid token claims: " ⧺ e.text)
  | invalid_subject ↦ jose_error invalid_claims ("invalid token claims: " ⧺ e.text)
  | immature_signature ↦ jose_error invalid_claims ("invalid token claims: " ⧺ e.text)
  | _ ↦ jose_error verification_failed ("JWT verification failed: " ⧺ e.text)
]

-- What other crates and the build provide. `pqc` is the feature `pqc-openssl-unstable`.
-- `decode_rs256` is jsonwebtoken's `decode` with the checks of the standard claims turned off.
pub record Backend (T RsaKey MlDsaKey : Type 0) : Type 0 where
  pub pqc : Bool
  pub base64_decode : String → Result (List ℕ) String
  pub header_from_json : List ℕ → Result CompactJwsHeader String
  pub claims_from_json : List ℕ → Result T String
  pub rsa_decoding_key : String → String → Result RsaKey String
  pub decode_rs256 : String → RsaKey → Result T JwtError
  pub mldsa_public_key : MlDsaAlgorithm → List ℕ → Result MlDsaKey String
  pub mldsa_verifier : MlDsaKey → Result Unit String
  pub mldsa_verify : MlDsaKey → List ℕ → String → Result Bool String

module _ {T RsaKey MlDsaKey : Type 0} (backend : Backend T RsaKey MlDsaKey) where
  unfoldable pub decode_compact_segment : String → String → Result (List ℕ) JoseError
  decode_compact_segment label value =
      map_err (λ e. jose_error invalid_compact_jws ("invalid compact " ⧺ label ⧺ " encoding: " ⧺ e))
        (backend.base64_decode value)

  unfoldable pub decode_compact_jws_header : String → Result CompactJwsHeader JoseError
  decode_compact_jws_header token = do
    (header, _, _) ← parse_compact_jws token
    bytes ← decode_compact_segment "JWS header" header
    map_err (λ e. jose_error invalid_compact_jws ("invalid compact JWS header: " ⧺ e))
        (backend.header_from_json bytes)

  unfoldable pub decode_payload_claims : String → Result T JoseError
  decode_payload_claims payload_segment = do
    bytes ← decode_compact_segment "JWS payload" payload_segment
    map_err (λ e. jose_error invalid_claims ("invalid token claims: " ⧺ e))
        (backend.claims_from_json bytes)

  unfoldable pub verify_rs256_claims_against_jwk : String → PublicJwk → Result T JoseError
  verify_rs256_claims_against_jwk token jwk = do
    rsa_public_key_from_jwk backend.base64_decode jwk
    n ← ok_or jwk.n (jose_error invalid_key "RSA public JWK missing n")
    e ← ok_or jwk.e (jose_error invalid_key "RSA public JWK missing e")
    decoding_key ←
        map_err (λ e. jose_error invalid_key ("invalid RSA public JWK: " ⧺ e))
          (backend.rsa_decoding_key n e)
    map_err map_jwt_decode_error (backend.decode_rs256 token decoding_key)

  unfoldable pub openssl_public_key_from_raw_bytes :
      MlDsaAlgorithm → List ℕ → Result MlDsaKey JoseError
  openssl_public_key_from_raw_bytes algorithm public_key =
      map_err (λ e. jose_error invalid_key ("AKP public JWK pub was rejected by OpenSSL: " ⧺ e))
        (backend.mldsa_public_key algorithm public_key)

  -- The function of a build with the feature.
  unfoldable pub verify_mldsa_with_openssl : String → PublicJwk → String → Result T JoseError
  verify_mldsa_with_openssl token jwk header_alg = do
    header_algorithm ←
        ok_or (from_jose_alg header_alg)
          (jose_error unsupported_algorithm "unsupported ML-DSA algorithm")
    decoded_public ← akp_public_key_from_jwk backend.base64_decode jwk
    refuse_if (not (algorithm_eq decoded_public.algorithm header_algorithm))
        (jose_error verification_failed "JWS alg does not match AKP public key alg")
    (header_segment, payload_segment, signature_segment) ← parse_compact_jws token
    signature ← decode_compact_segment "JWS signature" signature_segment
    refuse_if (not (length signature == signature_len header_algorithm)) (
        jose_error verification_failed (
          "JWS signature length must be "
          ⧺ show_i64 (pos (signature_len header_algorithm))
          ⧺ " bytes for "
          ⧺ jose_alg header_algorithm))
    public_key ← openssl_public_key_from_raw_bytes header_algorithm decoded_public.public_key
    map_err (λ e. jose_error invalid_key ("create ML-DSA verifier failed: " ⧺ e))
        (backend.mldsa_verifier public_key)
    valid ←
        map_err (λ e. jose_error verification_failed ("ML-DSA verification failed: " ⧺ e))
          (backend.mldsa_verify public_key signature (header_segment ⧺ "." ⧺ payload_segment))
    refuse_if (not valid) (jose_error verification_failed "JWS verification failed")
    decode_payload_claims payload_segment

  unfoldable pub verify_mldsa_claims_against_jwk : String → PublicJwk → String → Result T JoseError
  verify_mldsa_claims_against_jwk token jwk header_alg =
      if backend.pqc
      then verify_mldsa_with_openssl token jwk header_alg
      else err (
          jose_error unsupported_algorithm
            ("JWS algorithm " ⧺ header_alg ⧺ " requires the pqc-openssl-unstable feature"))

  -- The algorithm policy, `none` where the caller gives no list.
  abbrev pub is_allowed : Option (List String) → String → Bool
  is_allowed none alg = true
  is_allowed (some allowed_algs) alg = member alg allowed_algs

  abbrev is_mldsa : Option MlDsaAlgorithm → Bool
  is_mldsa none = false
  is_mldsa (some _) = true

  -- The choice of the algorithm by the header's `alg`.
  unfoldable pub verify_by_alg : String → PublicJwk → String → Result T JoseError
  verify_by_alg token jwk alg =
      if text_eq alg "RS256"
      then verify_rs256_claims_against_jwk token jwk
      else if is_mldsa (from_jose_alg alg)
      then verify_mldsa_claims_against_jwk token jwk alg
      else err (jose_error unsupported_algorithm ("unsupported JWS algorithm " ⧺ alg))

  unfoldable pub verify_claims_against_jwks_inner :
      String → JwksDocument → Option (List String) → Result (VerifiedJws T) JoseError
  verify_claims_against_jwks_inner token jwks allowed_algs = do
    header ← decode_compact_jws_header token
    refuse_if (not (is_allowed allowed_algs header.alg)) (
        jose_error unsupported_algorithm
          ("JWS algorithm " ⧺ header.alg ⧺ " is not allowed for this verification context"))
    kid ← ok_or header.kid (jose_error invalid_compact_jws "compact JWS header missing kid")
    jwk ←
        ok_or (find (λ key. text_eq key.kid kid) jwks.keys)
          (jose_error verification_failed ("no JWK found for kid " ⧺ kid))
    claims ← verify_by_alg token jwk header.alg
    ok (record { claims = claims; alg = header.alg; kid = kid; typ = header.typ })
