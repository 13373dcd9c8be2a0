-- ===== src/Verify/Tokens.antt =====
-- The verification of subject tokens and of actor and client assertions in
-- crates/sts-verify/src/lib.rs. SHA-256 and base64url encoding are parameters, as are the URL parser and
-- the backend of sts-jose; the clock is read where the code reads it.
pub mod Accepted
use sts_delegate_rs.Prelude.{
  ℕ, ℤ, String, Bool, true, false, not, Option, none, some, List, [], ◌∷◌, Result, ok, err, ◌>>=◌,
  ◌>>◌, refuse_if, map_err, any, if◌then◌else◌, text_eq, ◌⧺◌,
}
use sts_delegate_rs.Jose.{
  JoseErrorKind, JoseError, invalid_key, unsupported_algorithm, invalid_claims, verification_failed,
  invalid_compact_jws, JwksDocument,
}
use sts_delegate_rs.Jose.Verify.{Backend, verify_claims_against_jwks_inner}
use sts_delegate_rs.Verify.{VerifyErrorKind, VerifyError, verify_error}
use sts_delegate_rs.Verify
use sts_delegate_rs.Verify.Anchors.{ParsedUrl, validate_issuer}
use sts_delegate_rs.Verify.Claims.{
  SubjectTokenClaims, AssertionClaims, kid_belongs_to_claimed_identity, validate_time_window,
  validate_assertion_lifetime, audience_matches, ensure_audience_matches,
}

abbrev subject_token_signing_algs : List String
subject_token_signing_algs = "RS256" ∷ []

abbrev legacy_assertion_signing_algs : List String
legacy_assertion_signing_algs = "RS256" ∷ []

unfoldable pub map_jose_error_kind : JoseErrorKind → VerifyErrorKind
map_jose_error_kind invalid_key = Verify.invalid_token
map_jose_error_kind unsupported_algorithm = Verify.invalid_token
map_jose_error_kind invalid_claims = Verify.invalid_claims
map_jose_error_kind verification_failed = Verify.invalid_token
map_jose_error_kind invalid_compact_jws = Verify.invalid_token

unfoldable pub map_jose_error : JoseError → VerifyError
map_jose_error e = verify_error (map_jose_error_kind e.kind) e.message

pub record AssertionVerificationOptions : Type 0 where
  pub expected_issuer : String
  pub expected_audiences : List String
  pub clock_skew_leeway : ℤ
  pub max_ttl : ℤ
  pub binding_subject_token : Option String
  pub require_subject_binding : Bool
  pub key_binding_registry : Option (List String)

abbrev pub or_empty : Option String → String
or_empty none = ""
or_empty (some s) = s

abbrev pub owns_key : Option (List String) → String → String → Bool
owns_key none kid sub = true
owns_key (some registry) kid sub = kid_belongs_to_claimed_identity kid sub registry

module _ (sha256 : String → List ℕ) (base64url : List ℕ → String) where
  unfoldable pub subject_token_hash : String → String
  subject_token_hash subject_token = base64url (sha256 subject_token)

  -- The binding to the subject token. `ct_eq` compares the texts' bytes.
  unfoldable pub check_binding :
      AssertionVerificationOptions → AssertionClaims → Result Unit VerifyError
  check_binding options claims =
      if options.require_subject_binding
      then refuse_if
          (not (
            text_eq (or_empty claims.sub_tok_hash)
              (subject_token_hash (or_empty options.binding_subject_token))))
          (verify_error Verify.key_binding_mismatch
            "assertion not bound to the presented subject token")
      else ok tt

module _ (parse_url : String → Result ParsedUrl String) {RsaKey MlDsaKey : Type 0} where
  unfoldable pub verify_subject_token :
      Backend SubjectTokenClaims RsaKey MlDsaKey
      → String
      → JwksDocument
      → String
      → List String
      → ℤ
      → ℤ
      → Result SubjectTokenClaims VerifyError
  verify_subject_token backend token jwks expected_issuer expected_audiences clock_skew_leeway now =
      do
        verified ←
            map_err map_jose_error (
              verify_claims_against_jwks_inner backend token jwks (some subject_token_signing_algs))
        issuer ← validate_issuer parse_url expected_issuer
        refuse_if (not (text_eq verified.claims.iss issuer))
            (verify_error Verify.invalid_issuer ("unexpected issuer " ⧺ verified.claims.iss))
        validate_time_window verified.claims.exp verified.claims.nbf clock_skew_leeway now
        ensure_audience_matches verified.claims.aud expected_audiences
        ok verified.claims

module _ (parse_url : String → Result ParsedUrl String) (sha256 : String → List ℕ)
    (base64url : List ℕ → String) {RsaKey MlDsaKey : Type 0} where
  -- `now` and `later` are the two times at which the clock is read.
  unfoldable pub verify_assertion_with_allowed_alg_refs :
      Backend AssertionClaims RsaKey MlDsaKey
      → String
      → JwksDocument
      → List String
      → AssertionVerificationOptions
      → ℤ
      → ℤ
      → Result AssertionClaims VerifyError
  verify_assertion_with_allowed_alg_refs backend token jwks allowed_algs options now later = do
    verified ←
        map_err map_jose_error
          (verify_claims_against_jwks_inner backend token jwks (some allowed_algs))
    validate_issuer parse_url options.expected_issuer
    refuse_if (not (text_eq verified.claims.iss verified.claims.sub))
        (verify_error Verify.invalid_claims "assertion iss and sub must match")
    refuse_if
        (not (any (λ value. audience_matches verified.claims.aud value) options.expected_audiences))
        (verify_error Verify.invalid_audience
          "assertion audience does not identify this authorization server")
    refuse_if (not (owns_key options.key_binding_registry verified.kid verified.claims.sub)) (
        verify_error Verify.key_binding_mismatch
          "assertion signing key does not belong to the claimed identity")
    validate_time_window verified.claims.exp none options.clock_skew_leeway now
    validate_assertion_lifetime verified.claims options.max_ttl options.clock_skew_leeway later
    check_binding sha256 base64url options verified.claims
    ok verified.claims

  abbrev pub verify_assertion :
      Backend AssertionClaims RsaKey MlDsaKey
      → String
      → JwksDocument
      → AssertionVerificationOptions
      → ℤ
      → ℤ
      → Result AssertionClaims VerifyError
  verify_assertion backend token jwks options now later =
      verify_assertion_with_allowed_alg_refs backend token jwks legacy_assertion_signing_algs
        options now later
