-- ===== src/Verify/Tests.antt =====
-- Runs of crates/sts-verify/src/lib.rs on concrete issuers, claims and tokens.
use sts_delegate_rs.Prelude.{
  ℕ, ℤ, pos, negsuc, ◌≤ℤ◌, ◌+ℤ◌, ◌-ℤ◌, String, ◌≡◌, ◌↔◌, refl, true, false, Bool, Option, some,
  none, List, [], ◌∷◌, Result, ok, err, arith, trim, trim_end_matches, any_char, is_whitespace,
}
use sts_delegate_rs.Json.{string}
use sts_delegate_rs.Jose.Sample.{sample_backend, sample_jwks}
use sts_delegate_rs.Verify.Anchors.{
  ParsedUrl, domain, TrustAnchorRef, VerificationPlan, idp, actor, client, validate_issuer,
  build_verification_plan,
}
use sts_delegate_rs.Verify.Anchors.Issuer.{
  IsAcceptedIssuer, validate_issuer_iff, build_verification_plan_iff,
}
use sts_delegate_rs.Verify.Claims.{
  SubjectTokenClaims, AssertionClaims, kid_belongs_to_claimed_identity, validate_time_window,
  validate_assertion_lifetime,
}
use sts_delegate_rs.Verify.Claims.Ownership.{one_owner}
use sts_delegate_rs.Verify.Claims.Window.{validate_time_window_iff, validate_assertion_lifetime_iff}
use sts_delegate_rs.Verify.Tokens.{AssertionVerificationOptions, verify_subject_token}
use sts_delegate_rs.Verify.Tokens.Accepted.{
  IsAcceptedSubject, verify_subject_token-IsAcceptedSubject,
}

-- A parser that takes every text for an https URL with a host.
abbrev https_url : String → Result ParsedUrl String
https_url _ = ok (record {
  scheme = "https";
  host_str = some "a.example";
  has_query = false;
  has_fragment = false;
  host = some (domain "a.example");
})

validate_issuer_iff_example :
    (validate_issuer https_url "https://a.example/" ≡ ok "https://a.example")
    ↔ IsAcceptedIssuer https_url "https://a.example/" "https://a.example"
validate_issuer_iff_example = validate_issuer_iff https_url "https://a.example/" "https://a.example"

abbrev from_file : String → TrustAnchorRef
from_file name = record { kind = actor; issuer = none; jwks_url = none; jwks_file = some name }

abbrev plan : VerificationPlan
plan = record { idp = from_file "i"; actor = from_file "a"; client = from_file "c" }

build_verification_plan_iff_example :
    (build_verification_plan (from_file "i") (from_file "a") (from_file "c") ≡ ok plan) ↔ (
      (plan ≡ record { idp = from_file "i"; actor = from_file "a"; client = from_file "c" })
      × ¬ (
          ((from_file "a").jwks_file ≡ (from_file "c").jwks_file)
          × ((from_file "a").jwks_url ≡ (from_file "c").jwks_url)))
build_verification_plan_iff_example =
    build_verification_plan_iff (from_file "i") (from_file "a") (from_file "c") plan

-- A key of the longer identity is not one of the shorter.
longer_owner_test : kid_belongs_to_claimed_identity "a-b-1" "a" ("a" ∷ "a-b" ∷ []) ≡ false
unfolding kid_belongs_to_claimed_identity sts_delegate_rs.Verify.Claims.prefix_match
    sts_delegate_rs.Prelude.strip_prefix sts_delegate_rs.Verify.Claims.is_claimed_by_longer
    sts_delegate_rs.Prelude.utf8_length
longer_owner_test = refl

one_owner_example : ◌≡◌ {A = String} "a-b" "a-b"
unfolding kid_belongs_to_claimed_identity sts_delegate_rs.Verify.Claims.prefix_match
    sts_delegate_rs.Prelude.strip_prefix sts_delegate_rs.Verify.Claims.is_claimed_by_longer
    sts_delegate_rs.Prelude.utf8_length
one_owner_example = one_owner "a-b-1" "a-b" "a-b" ("a" ∷ "a-b" ∷ []) refl refl refl refl

validate_time_window_iff_example :
    (validate_time_window (pos 100) (some (pos 50)) (pos 10) (pos 105) ≡ ok tt)
    ↔ ((pos 105 ≤ℤ pos 100 +ℤ pos 10) × (pos 50 -ℤ pos 10 ≤ℤ pos 105))
validate_time_window_iff_example =
    validate_time_window_iff (pos 100) (pos 10) (pos 105) (pos 50) (omega arith, omega arith)
      (omega arith, omega arith) (omega arith, omega arith)

abbrev assertion : Option ℤ → AssertionClaims
assertion iat = record {
  iss = "svc";
  sub = "svc";
  aud = string "https://a.example";
  exp = pos 1000;
  iat = iat;
  jti = some "j";
  sub_tok_hash = none;
}

validate_assertion_lifetime_iff_example :
    (validate_assertion_lifetime (assertion none) (pos 300) (pos 30) (pos 900) ≡ ok tt)
    ↔ (pos 1000 -ℤ pos 900 ≤ℤ pos 300 +ℤ pos 30)
validate_assertion_lifetime_iff_example =
    validate_assertion_lifetime_iff (assertion none) (pos 300) (pos 30) (pos 900)
      (omega arith, omega arith) (omega arith, omega arith) (omega arith, omega arith)
      (omega arith, omega arith)

abbrev subject : SubjectTokenClaims
subject = record {
  iss = "https://a.example";
  sub = some "user";
  aud = string "api";
  scope = some "read";
  scp = none;
  exp = pos 1000;
  nbf = none;
  iat = none;
  act = none;
  may_act = none;
  auth_time = none;
  acr = none;
  amr = none;
}

verify_subject_token-IsAcceptedSubject_example :
    IsAcceptedSubject https_url
      (sample_backend subject)
      "h.p.s"
      sample_jwks
      "https://a.example/"
      ("api" ∷ [])
      (pos 10)
      (pos 900)
      subject
unfolding verify_subject_token sts_delegate_rs.Prelude.◌>>=◌ sts_delegate_rs.Prelude.map_err
    sts_delegate_rs.Jose.Verify.verify_claims_against_jwks_inner
    sts_delegate_rs.Jose.Verify.decode_compact_jws_header sts_delegate_rs.Jose.parse_compact_jws
    sts_delegate_rs.Prelude.Text.split sts_delegate_rs.Jose.Verify.decode_compact_segment
    sts_delegate_rs.Prelude.refuse_if sts_delegate_rs.Prelude.ok_or
    sts_delegate_rs.Jose.Verify.verify_by_alg
    sts_delegate_rs.Jose.Verify.verify_rs256_claims_against_jwk
    sts_delegate_rs.Jose.Keys.rsa_public_key_from_jwk sts_delegate_rs.Jose.Keys.decode_jwk_component
    sts_delegate_rs.Jose.Keys.decode_jwk_octets sts_delegate_rs.Jose.Keys.validate_public_components
    validate_issuer sts_delegate_rs.Jose.Keys.akp_public_key_from_jwk
    sts_delegate_rs.Jose.Verify.decode_payload_claims
    sts_delegate_rs.Jose.Verify.map_jwt_decode_error
    sts_delegate_rs.Jose.Verify.openssl_public_key_from_raw_bytes
    sts_delegate_rs.Jose.Verify.verify_mldsa_claims_against_jwk
    sts_delegate_rs.Jose.Verify.verify_mldsa_with_openssl sts_delegate_rs.Jose.from_jose_alg
    sts_delegate_rs.Prelude.add_i64 sts_delegate_rs.Prelude.sub_i64
    sts_delegate_rs.Prelude.Text.Decimal.show_i64 is_whitespace sts_delegate_rs.Prelude.Text.trim
    sts_delegate_rs.Prelude.Text.trim_end sts_delegate_rs.Prelude.Text.trim_end_matches
    sts_delegate_rs.Prelude.Text.trim_start sts_delegate_rs.Verify.Anchors.check_issuer_url
    sts_delegate_rs.Verify.Claims.audience_matches
    sts_delegate_rs.Verify.Claims.ensure_audience_matches validate_time_window
    sts_delegate_rs.Verify.Tokens.map_jose_error sts_delegate_rs.Verify.Tokens.map_jose_error_kind
verify_subject_token-IsAcceptedSubject_example =
    verify_subject_token-IsAcceptedSubject https_url (sample_backend subject) "h.p.s" sample_jwks
      "https://a.example/" ("api" ∷ []) (pos 10) (pos 900) subject refl

abbrev options : AssertionVerificationOptions
options = record {
  expected_issuer = "https://a.example";
  expected_audiences = "https://a.example" ∷ [];
  clock_skew_leeway = pos 10;
  max_ttl = pos 300;
  binding_subject_token = none;
  require_subject_binding = false;
  key_binding_registry = none;
}

abbrev no_hash : String → List ℕ
no_hash _ = []

abbrev no_text_of : List ℕ → String
no_text_of _ = ""
