-- ===== src/Jose/Signer.antt =====
-- The RSA signer of crates/sts-jose/src/lib.rs, loaded from a private JWK, and the choice of the signing
-- backend. `RsaBackend` holds the functions of base64, serde_json, simple_asn1 and aws-lc-rs.
pub mod Loaded
use sts_delegate_rs.Prelude.{
  ℕ, String, Bool, true, false, Option, none, some, List, [], ◌∷◌, Result, ok, err, ◌>>=◌, ◌>>◌,
  refuse_if, ok_or, map_err, map_ok, if◌then◌else◌, not, ◌||◌, ◌&&◌, ◌==◌, ltb, ◌+◌, ◌*◌, text_eq,
  starts_with, trim, ◌⧺◌,
}
use sts_delegate_rs.Prelude.Text.Ascii.{to_ascii_lowercase}
use sts_delegate_rs.Jose.{
  JoseError, jose_error, invalid_key, unsupported_algorithm, PublicJwk, MlDsaAlgorithm, ml_dsa_44,
  ml_dsa_65, ml_dsa_87,
}
use sts_delegate_rs.Jose.Keys.{
  is_empty_bytes, decode_jwk_component, validate_public_components, rsa_modulus_bits,
}

pub data BackendSelection : Type 0 where
  classical : BackendSelection
  requested_pqc : String → BackendSelection

unfoldable pub parse : String → BackendSelection
parse value =
    let trimmed = trim value in
    let lowered = to_ascii_lowercase trimmed in
    if text_eq lowered ""
    then requested_pqc "ML-DSA-65"
    else if text_eq lowered "classical" || text_eq lowered "rs256"
    then classical
    else if starts_with lowered "ml-dsa" || starts_with lowered "pqc"
    then requested_pqc trimmed
    else requested_pqc lowered

unfoldable pub from_selector : String → Option MlDsaAlgorithm
from_selector value =
    let lowered = to_ascii_lowercase (trim value) in
    if text_eq lowered "ml-dsa-44" || text_eq lowered "mldsa44"
    then some ml_dsa_44
    else if text_eq lowered "ml-dsa-65" || text_eq lowered "mldsa65"
    then some ml_dsa_65
    else if text_eq lowered "ml-dsa-87" || text_eq lowered "mldsa87"
    then some ml_dsa_87
    else none

-- `quoted` is the text `{:?}` of a string, and `pqc` says whether the build has the feature.
module _ (quoted : String → String) where
  unfoldable pub resolve_backend : Bool → BackendSelection → Result Unit JoseError
  resolve_backend pqc classical = ok tt
  resolve_backend pqc (requested_pqc requested) = do
    ok_or (from_selector requested) (
        jose_error unsupported_algorithm (
          "requested signing backend "
          ⧺ quoted requested
          ⧺ " is not supported; refusing to fall back to RS256"))
    refuse_if (not pqc) (
        jose_error unsupported_algorithm (
          "requested PQC signing backend "
          ⧺ quoted requested
          ⧺ " requires the pqc-openssl-unstable feature; refusing to fall back to RS256"))

  unfoldable pub ensure_classical_backend : BackendSelection → Result Unit JoseError
  ensure_classical_backend classical = ok tt
  ensure_classical_backend (requested_pqc requested) = err (
      jose_error unsupported_algorithm (
        "requested PQC signing backend "
        ⧺ quoted requested
        ⧺ " cannot instantiate the RS256 signer; refusing to fall back to RS256"))

pub record PrivateRsaJwk : Type 0 where
  pub kty : String
  pub kid : Option String
  pub n : String
  pub e : String
  pub d : String
  pub p : String
  pub q : String
  pub dp : Option String
  pub dq : Option String
  pub qi : Option String

-- What the code reads of aws-lc-rs's `RsaKeyPair`.
pub record RsaKeyPair : Type 0 where
  pub public_modulus_len : ℕ
  pub n : List ℕ
  pub e : List ℕ

-- `to_der` encodes a sequence of integers.
pub record RsaBackend : Type 0 where
  pub base64_decode : String → Result (List ℕ) String
  pub base64_encode : List ℕ → String
  pub private_from_json : String → Result PrivateRsaJwk String
  pub to_der : List ℕ → Result (List ℕ) String
  pub key_pair_from_der : List ℕ → Result RsaKeyPair String

-- The encoding key is the DER that it wraps.
pub record RsaJoseSigner : Type 0 where
  pub kid : String
  pub encoding_key : List ℕ
  pub public_jwk : PublicJwk

-- `BigUint::from_bytes_be`, after the bytes before.
unfoldable pub from_bytes_be : ℕ → List ℕ → ℕ
from_bytes_be before [] = before
from_bytes_be before (b ∷ bytes) = from_bytes_be (before * 256 + b) bytes

unfoldable pub all_zero : List ℕ → Bool
all_zero [] = true
all_zero (b ∷ bytes) = b == 0 && all_zero bytes

unfoldable pub positive_integer_block : String → List ℕ → Result ℕ JoseError
positive_integer_block name bytes =
    if is_empty_bytes bytes || all_zero bytes
    then err
        (jose_error invalid_key ("invalid RSA private JWK " ⧺ name ⧺ ": zero unsigned integer"))
    else ok (from_bytes_be 0 bytes)

abbrev pub text_or_else : Option String → String → String
text_or_else none fallback = fallback
text_or_else (some s) fallback = s

module _ (backend : RsaBackend) where
  unfoldable pub decode_required_private_component :
      String → Option String → Result (List ℕ) JoseError
  decode_required_private_component name value =
      ok_or value (jose_error invalid_key ("RSA private JWK missing CRT member " ⧺ name))
      >>= decode_jwk_component backend.base64_decode name

  unfoldable pub rsa_private_jwk_to_pkcs1_der : PrivateRsaJwk → Result (List ℕ) JoseError
  rsa_private_jwk_to_pkcs1_der jwk = do
    n ← decode_jwk_component backend.base64_decode "n" jwk.n
    e ← decode_jwk_component backend.base64_decode "e" jwk.e
    d ← decode_jwk_component backend.base64_decode "d" jwk.d
    p ← decode_jwk_component backend.base64_decode "p" jwk.p
    q ← decode_jwk_component backend.base64_decode "q" jwk.q
    dp ← decode_required_private_component "dp" jwk.dp
    dq ← decode_required_private_component "dq" jwk.dq
    qi ← decode_required_private_component "qi" jwk.qi
    n_block ← positive_integer_block "n" n
    e_block ← positive_integer_block "e" e
    d_block ← positive_integer_block "d" d
    p_block ← positive_integer_block "p" p
    q_block ← positive_integer_block "q" q
    dp_block ← positive_integer_block "dp" dp
    dq_block ← positive_integer_block "dq" dq
    qi_block ← positive_integer_block "qi" qi
    map_err (λ e. jose_error invalid_key ("failed to encode RSA private JWK as PKCS#1 DER: " ⧺ e))
        (backend.to_der (
          0 ∷ n_block ∷ e_block ∷ d_block ∷ p_block ∷ q_block ∷ dp_block ∷ dq_block ∷ qi_block
          ∷ []))

  unfoldable pub from_pkcs1_der : List ℕ → String → Result RsaJoseSigner JoseError
  from_pkcs1_der private_der kid = do
    key_pair ←
        map_err (λ e. jose_error invalid_key ("invalid RSA private key: " ⧺ e))
          (backend.key_pair_from_der private_der)
    refuse_if (ltb (key_pair.public_modulus_len * 8) 2048)
        (jose_error invalid_key "RSA signing key modulus must be at least 2048 bits")
    ok (record {
      kid = kid;
      encoding_key = private_der;
      public_jwk = record {
        kty = "RSA";
        kid = kid;
        use_ = "sig";
        alg = "RS256";
        n = some (backend.base64_encode key_pair.n);
        e = some (backend.base64_encode key_pair.e);
        pub_ = none;
      };
    })

  unfoldable pub from_private_jwk : String → String → Result RsaJoseSigner JoseError
  from_private_jwk private_jwk_json fallback_kid = do
    jwk ←
        map_err (λ e. jose_error invalid_key ("invalid RSA private JWK JSON: " ⧺ e))
          (backend.private_from_json private_jwk_json)
    refuse_if (not (text_eq jwk.kty "RSA"))
        (jose_error invalid_key ("unsupported private JWK key type " ⧺ jwk.kty))
    n ← decode_jwk_component backend.base64_decode "n" jwk.n
    e ← decode_jwk_component backend.base64_decode "e" jwk.e
    validate_public_components n e
    refuse_if (ltb (rsa_modulus_bits n) 2048)
        (jose_error invalid_key "RSA signing key modulus must be at least 2048 bits")
    private_der ← rsa_private_jwk_to_pkcs1_der jwk
    from_pkcs1_der private_der (text_or_else jwk.kid fallback_kid)

  unfoldable pub from_private_jwk_for_backend :
      (String → String) → BackendSelection → String → String → Result RsaJoseSigner JoseError
  from_private_jwk_for_backend quoted selection private_jwk_json fallback_kid =
      ensure_classical_backend quoted selection >> from_private_jwk private_jwk_json fallback_kid
