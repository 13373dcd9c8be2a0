-- ===== src/Http/Exchange/Tests.antt =====
-- Runs of the delegation exchange on a concrete request.
use sts_delegate_rs.Prelude.{
  ℕ, ℤ, pos, String, ◌≡◌, ◌≢◌, refl, true, false, Option, some, none, List, [], ◌∷◌, ok, arith,
  Result,
}
use sts_delegate_rs.Json.{string}
use sts_delegate_rs.Core.{ExchangeRequest}
use sts_delegate_rs.Jose.Sample.{sample_backend, sample_jwks}
use sts_delegate_rs.Verify.Anchors.{ParsedUrl, domain}
use sts_delegate_rs.Verify.Claims.{SubjectTokenClaims, AssertionClaims}
use sts_delegate_rs.Replay.Memory.{InMemoryReplayStore}
use sts_delegate_rs.Replay.Memory.Laws.{memory_store}
use sts_delegate_rs.Http.Policy.{SigningConfig}
use sts_delegate_rs.Http.Service.{Service, no_metrics}
use sts_delegate_rs.Http.Revocation.{no_revocations}
use sts_delegate_rs.Http.Exchange.{
  ExchangeConfig, JoseSigner, VerifiedExchange, TokenResponse, Surroundings,
}
use sts_delegate_rs.Http.Exchange.Delegation.{
  exchange, IsDelegated, exchange_delegation-IsDelegated, held_actor_refused,
}

abbrev same_text : String → String
same_text s = s

abbrev https_url : String → Result ParsedUrl String
https_url _ = ok (record {
  scheme = "https";
  host_str = some "a.example";
  has_query = false;
  has_fragment = false;
  host = some (domain "a.example");
})

abbrev no_digest : String → List ℕ
no_digest _ = []

abbrev no_text_of : List ℕ → String
no_text_of _ = ""

abbrev actor : AssertionClaims
actor = record {
  iss = "k";
  sub = "k";
  aud = string "https://a.example/token";
  exp = pos 1000;
  iat = none;
  jti = some "j";
  sub_tok_hash = none;
}

abbrev subject : SubjectTokenClaims
subject = record {
  iss = "https://a.example";
  sub = some "user";
  aud = string "api";
  scope = none;
  scp = none;
  exp = pos 950;
  nbf = none;
  iat = none;
  act = none;
  may_act = none;
  auth_time = none;
  acr = none;
  amr = none;
}

abbrev config : ExchangeConfig
config = record {
  our_issuer = "https://a.example";
  inbound_assertion_algs = "RS256" ∷ [];
  clock_skew_leeway = pos 10;
  assertion_max_ttl = pos 300;
  require_subject_binding = false;
  actor_ids = "k" ∷ [];
  client_ids = [];
  scoped_token_ttl = pos 60;
  target_policy =
      (
        "api",
        record {
          allowed_scopes = "read" ∷ [];
          default_scopes = [];
          accepted_token_signing_algs = [];
          pqc_required = false;
        },
      )
      ∷ [];
  signing = record { pqc_preferred = false; pqc_preferred_algs = []; allow_non_pqc = true };
}

abbrev signer : JoseSigner
signer = record { alg = "RS256"; sign_claims = λ _. ok "signed" }

abbrev around : Surroundings Unit
around = record {
  verify_now = pos 900;
  lifetime_now = pos 900;
  now = pos 900;
  new_jti = "n";
  actor_env = tt;
  client_env = tt;
  dpop_env = tt;
}

abbrev request : ExchangeRequest
request = record {
  grant_type = "";
  subject_token = "s.s.s";
  subject_token_type = "";
  actor_token = some "h.p.s";
  actor_token_type = none;
  audience = some "api";
  resource = none;
  scope = none;
  requested_token_type = none;
  client_id = none;
  client_assertion = none;
  client_assertion_type = none;
}

abbrev verified : VerifiedExchange
verified = record {
  subject_claims = subject;
  subject_sub = "user";
  target = "api";
  scope = "read";
  client_claims = none;
  dpop_binding = none;
}

abbrev service : List (String × ℤ) → Service memory_store
service seen = record {
  replay = record {
    seen = seen;
    calls_since_sweep = 0;
    max_seen = 4;
    sweep_every = 4;
    seen_poisoned = false;
    calls_poisoned = false;
  };
  revocations = no_revocations;
  metrics = no_metrics;
}

-- The token expires with the subject's, before its own lifetime.
abbrev response : TokenResponse
response = record {
  access_token = "signed";
  issued_token_type = "urn:ietf:params:oauth:token-type:access_token";
  token_type = "Bearer";
  expires_in = pos 50;
  scope = "read";
  signing_alg_selected = "RS256";
  pqc_fallback = false;
  pqc_fallback_reason = none;
}

exchange_delegation-IsDelegated_example :
    IsDelegated same_text https_url no_digest no_text_of
      (sample_backend actor)
      config
      signer
      sample_jwks
      memory_store
      around
      request
      verified
      (service [])
      response
unfolding sts_delegate_rs.Verify.Tokens.verify_assertion_with_allowed_alg_refs
    sts_delegate_rs.Prelude.◌>>=◌ sts_delegate_rs.Prelude.map_err
    sts_delegate_rs.Jose.Verify.verify_claims_against_jwks_inner
    sts_delegate_rs.Jose.Verify.decode_compact_jws_header sts_delegate_rs.Jose.parse_compact_jws
    sts_delegate_rs.Prelude.Text.split sts_delegate_rs.Jose.Verify.decode_compact_segment
    sts_delegate_rs.Prelude.refuse_if sts_delegate_rs.Prelude.ok_or
    sts_delegate_rs.Jose.Verify.verify_by_alg
    sts_delegate_rs.Jose.Verify.verify_rs256_claims_against_jwk
    sts_delegate_rs.Jose.Keys.rsa_public_key_from_jwk sts_delegate_rs.Jose.Keys.decode_jwk_component
    sts_delegate_rs.Jose.Keys.decode_jwk_octets sts_delegate_rs.Jose.Keys.validate_public_components
    sts_delegate_rs.Verify.Anchors.validate_issuer sts_delegate_rs.Jose.Keys.akp_public_key_from_jwk
    sts_delegate_rs.Jose.Verify.decode_payload_claims
    sts_delegate_rs.Jose.Verify.map_jwt_decode_error
    sts_delegate_rs.Jose.Verify.openssl_public_key_from_raw_bytes
    sts_delegate_rs.Jose.Verify.verify_mldsa_claims_against_jwk
    sts_delegate_rs.Jose.Verify.verify_mldsa_with_openssl sts_delegate_rs.Jose.from_jose_alg
    sts_delegate_rs.Prelude.add_i64 sts_delegate_rs.Prelude.sub_i64
    sts_delegate_rs.Prelude.Text.Decimal.show_i64 sts_delegate_rs.Prelude.is_whitespace
    sts_delegate_rs.Prelude.strip_prefix sts_delegate_rs.Prelude.Text.trim
    sts_delegate_rs.Prelude.Text.trim_end sts_delegate_rs.Prelude.Text.trim_end_matches
    sts_delegate_rs.Prelude.Text.trim_start sts_delegate_rs.Prelude.utf8_length
    sts_delegate_rs.Verify.Anchors.check_issuer_url sts_delegate_rs.Verify.Claims.audience_matches
    sts_delegate_rs.Verify.Claims.is_claimed_by_longer
    sts_delegate_rs.Verify.Claims.kid_belongs_to_claimed_identity
    sts_delegate_rs.Verify.Claims.prefix_match
    sts_delegate_rs.Verify.Claims.validate_assertion_lifetime
    sts_delegate_rs.Verify.Claims.validate_time_window sts_delegate_rs.Verify.Tokens.check_binding
    sts_delegate_rs.Verify.Tokens.map_jose_error sts_delegate_rs.Verify.Tokens.map_jose_error_kind
    sts_delegate_rs.Verify.Tokens.subject_token_hash sts_delegate_rs.Prelude.Text.is_blank
    sts_delegate_rs.Http.Exchange.exchange_delegation
    sts_delegate_rs.Http.Exchange.delegation_payload sts_delegate_rs.Http.Exchange.token_response
    sts_delegate_rs.Http.Exchange.verify_actor_token
    sts_delegate_rs.Http.Exchange.key_binding_registry
    sts_delegate_rs.Http.Exchange.client_assertion_jti
    sts_delegate_rs.Http.Exchange.record_client_assertion_replay
    sts_delegate_rs.Http.Exchange.record_dpop_replay sts_delegate_rs.Http.Service.◌>>=◌
    sts_delegate_rs.Http.Service.lift sts_delegate_rs.Http.Service.check_replay
    sts_delegate_rs.Http.Service.count_signing sts_delegate_rs.Http.Service.record_signing
    sts_delegate_rs.Http.Service.count_one sts_delegate_rs.Http.Policy.validate_actor_identity
    sts_delegate_rs.Http.Policy.gate_may_act sts_delegate_rs.Http.Policy.signing_decision_for_target
    sts_delegate_rs.Http.Policy.signing_decision sts_delegate_rs.Http.Policy.is_pqc_jws_alg
    sts_delegate_rs.Core.build_act sts_delegate_rs.Core.build_scoped_payload
    sts_delegate_rs.Replay.Memory.check_and_record sts_delegate_rs.Replay.Memory.count_call
    sts_delegate_rs.Replay.Memory.make_room sts_delegate_rs.Replay.Memory.record_key
    sts_delegate_rs.Replay.Memory.sweep_expired
exchange_delegation-IsDelegated_example =
    exchange_delegation-IsDelegated same_text https_url no_digest no_text_of (sample_backend actor)
      config signer sample_jwks memory_store around request verified (service []) response refl

held_actor_refused_example :
    (exchange same_text https_url no_digest no_text_of
      (sample_backend actor)
      config
      signer
      sample_jwks
      memory_store
      around
      request
      verified
      (service (("act:k:j", pos 1000) ∷ []))).1
    ≢ ok response
unfolding sts_delegate_rs.Verify.Tokens.verify_assertion_with_allowed_alg_refs
    sts_delegate_rs.Prelude.◌>>=◌ sts_delegate_rs.Prelude.map_err
    sts_delegate_rs.Jose.Verify.verify_claims_against_jwks_inner
    sts_delegate_rs.Jose.Verify.decode_compact_jws_header sts_delegate_rs.Jose.parse_compact_jws
    sts_delegate_rs.Prelude.Text.split sts_delegate_rs.Jose.Verify.decode_compact_segment
    sts_delegate_rs.Prelude.refuse_if sts_delegate_rs.Prelude.ok_or
    sts_delegate_rs.Jose.Verify.verify_by_alg
    sts_delegate_rs.Jose.Verify.verify_rs256_claims_against_jwk
    sts_delegate_rs.Jose.Keys.rsa_public_key_from_jwk sts_delegate_rs.Jose.Keys.decode_jwk_component
    sts_delegate_rs.Jose.Keys.decode_jwk_octets sts_delegate_rs.Jose.Keys.validate_public_components
    sts_delegate_rs.Verify.Anchors.validate_issuer sts_delegate_rs.Jose.Keys.akp_public_key_from_jwk
    sts_delegate_rs.Jose.Verify.decode_payload_claims
    sts_delegate_rs.Jose.Verify.map_jwt_decode_error
    sts_delegate_rs.Jose.Verify.openssl_public_key_from_raw_bytes
    sts_delegate_rs.Jose.Verify.verify_mldsa_claims_against_jwk
    sts_delegate_rs.Jose.Verify.verify_mldsa_with_openssl sts_delegate_rs.Jose.from_jose_alg
    sts_delegate_rs.Prelude.add_i64 sts_delegate_rs.Prelude.sub_i64
    sts_delegate_rs.Prelude.Text.Decimal.show_i64 sts_delegate_rs.Prelude.is_whitespace
    sts_delegate_rs.Prelude.strip_prefix sts_delegate_rs.Prelude.Text.trim
    sts_delegate_rs.Prelude.Text.trim_end sts_delegate_rs.Prelude.Text.trim_end_matches
    sts_delegate_rs.Prelude.Text.trim_start sts_delegate_rs.Prelude.utf8_length
    sts_delegate_rs.Verify.Anchors.check_issuer_url sts_delegate_rs.Verify.Claims.audience_matches
    sts_delegate_rs.Verify.Claims.is_claimed_by_longer
    sts_delegate_rs.Verify.Claims.kid_belongs_to_claimed_identity
    sts_delegate_rs.Verify.Claims.prefix_match
    sts_delegate_rs.Verify.Claims.validate_assertion_lifetime
    sts_delegate_rs.Verify.Claims.validate_time_window sts_delegate_rs.Verify.Tokens.check_binding
    sts_delegate_rs.Verify.Tokens.map_jose_error sts_delegate_rs.Verify.Tokens.map_jose_error_kind
    sts_delegate_rs.Verify.Tokens.subject_token_hash sts_delegate_rs.Prelude.Text.is_blank
    sts_delegate_rs.Http.Exchange.exchange_delegation
    sts_delegate_rs.Http.Exchange.delegation_payload sts_delegate_rs.Http.Exchange.token_response
    sts_delegate_rs.Http.Exchange.verify_actor_token
    sts_delegate_rs.Http.Exchange.key_binding_registry
    sts_delegate_rs.Http.Exchange.client_assertion_jti
    sts_delegate_rs.Http.Exchange.record_client_assertion_replay
    sts_delegate_rs.Http.Exchange.record_dpop_replay sts_delegate_rs.Http.Service.◌>>=◌
    sts_delegate_rs.Http.Service.lift sts_delegate_rs.Http.Service.check_replay
    sts_delegate_rs.Http.Service.count_signing sts_delegate_rs.Http.Service.record_signing
    sts_delegate_rs.Http.Service.count_one sts_delegate_rs.Http.Policy.validate_actor_identity
    sts_delegate_rs.Http.Policy.gate_may_act sts_delegate_rs.Http.Policy.signing_decision_for_target
    sts_delegate_rs.Http.Policy.signing_decision sts_delegate_rs.Http.Policy.is_pqc_jws_alg
    sts_delegate_rs.Core.build_act sts_delegate_rs.Core.build_scoped_payload
    sts_delegate_rs.Replay.Memory.check_and_record sts_delegate_rs.Replay.Memory.count_call
    sts_delegate_rs.Replay.Memory.make_room sts_delegate_rs.Replay.Memory.record_key
    sts_delegate_rs.Replay.Memory.sweep_expired
held_actor_refused_example =
    held_actor_refused same_text https_url no_digest no_text_of (sample_backend actor) config signer
      sample_jwks memory_store around request verified (service (("act:k:j", pos 1000) ∷ []))
      response "h.p.s" "j" actor (pos 1000) refl refl refl (omega arith) refl
