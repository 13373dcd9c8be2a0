-- ===== src/Http/Token/Tests.antt =====
-- Runs of the token endpoint of crates/sts-http/src/lib.rs.
use sts_delegate_rs.Prelude.{
  ℕ, String, ◌≡◌, refl, Bool, true, false, Option, some, none, List, [], ◌∷◌, ◌++◌, ok, err, Result,
}
use sts_delegate_rs.Core.{ExchangeRequest}
use sts_delegate_rs.Replay.Memory.Laws.{memory_store}
use sts_delegate_rs.Http.{HttpError, invalid_request, invalid_client, unsupported_authorization}
use sts_delegate_rs.Http.Headers.{Headers, reject_authorization_header_client_auth}
use sts_delegate_rs.Http.Service.{Service}
use sts_delegate_rs.Http.Exchange.{VerifiedExchange, TokenResponse}
use sts_delegate_rs.Http.Deployment.{Deployment}
use sts_delegate_rs.Http.Impersonation.{exchange_impersonation}
use sts_delegate_rs.Http.Impersonation.Impersonated.{
  IsImpersonated, exchange_impersonation-IsImpersonated,
}
use sts_delegate_rs.Http.Token.{token}
use sts_delegate_rs.Http.Token.Issued.{IsIssued, token-IsIssued}
use sts_delegate_rs.Http.Sample.{
  sample_deployment, around, fresh_service, form_headers, exchange_pairs, actor_pairs, client_pairs,
  response, subject, assertion_for,
}

basic_challenge :
    reject_authorization_header_client_auth
      (record form_headers { authorization = some (some "bAsic x") })
    ≡ err (
        unsupported_authorization
          "Authorization header client authentication is not supported; use private_key_jwt"
          "Basic")
unfolding reject_authorization_header_client_auth
    sts_delegate_rs.Prelude.Text.Ascii.eq_ignore_ascii_case
    sts_delegate_rs.Prelude.Text.split_whitespace
basic_challenge = refl

abbrev token_deployment : Deployment Unit Unit Unit Unit
token_deployment = sample_deployment "https://a.example/token"

abbrev run_token :
    Headers → List (String × String) → Service memory_store × Result TokenResponse HttpError
run_token headers pairs = token token_deployment memory_store around headers pairs fresh_service

delegated : (run_token form_headers actor_pairs).1 ≡ ok response
unfolding sts_delegate_rs.Verify.Tokens.verify_assertion_with_allowed_alg_refs
    sts_delegate_rs.Prelude.◌>>=◌ sts_delegate_rs.Prelude.map_err
    sts_delegate_rs.Jose.Verify.verify_claims_against_jwks_inner
    sts_delegate_rs.Jose.Verify.decode_compact_jws_header sts_delegate_rs.Jose.parse_compact_jws
    sts_delegate_rs.Prelude.Text.split sts_delegate_rs.Jose.Verify.decode_compact_segment
    sts_delegate_rs.Prelude.refuse_if sts_delegate_rs.Prelude.ok_or
    sts_delegate_rs.Jose.Verify.verify_by_alg
    sts_delegate_rs.Jose.Verify.verify_rs256_claims_against_jwk
    sts_delegate_rs.Jose.Keys.rsa_public_key_from_jwk sts_delegate_rs.Jose.Keys.decode_jwk_component
    sts_delegate_rs.Jose.Keys.decode_jwk_octets sts_delegate_rs.Jose.Keys.validate_public_components
    sts_delegate_rs.Verify.Anchors.validate_issuer sts_delegate_rs.Jose.Keys.akp_public_key_from_jwk
    sts_delegate_rs.Jose.Verify.decode_payload_claims
    sts_delegate_rs.Jose.Verify.map_jwt_decode_error
    sts_delegate_rs.Jose.Verify.openssl_public_key_from_raw_bytes
    sts_delegate_rs.Jose.Verify.verify_mldsa_claims_against_jwk
    sts_delegate_rs.Jose.Verify.verify_mldsa_with_openssl sts_delegate_rs.Jose.from_jose_alg
    sts_delegate_rs.Prelude.add_i64 sts_delegate_rs.Prelude.sub_i64
    sts_delegate_rs.Prelude.Text.Decimal.show_i64 sts_delegate_rs.Prelude.is_whitespace
    sts_delegate_rs.Prelude.strip_prefix sts_delegate_rs.Prelude.Text.trim
    sts_delegate_rs.Prelude.Text.trim_end sts_delegate_rs.Prelude.Text.trim_end_matches
    sts_delegate_rs.Prelude.Text.trim_start sts_delegate_rs.Prelude.utf8_length
    sts_delegate_rs.Verify.Anchors.check_issuer_url sts_delegate_rs.Verify.Claims.audience_matches
    sts_delegate_rs.Verify.Claims.is_claimed_by_longer
    sts_delegate_rs.Verify.Claims.kid_belongs_to_claimed_identity
    sts_delegate_rs.Verify.Claims.prefix_match
    sts_delegate_rs.Verify.Claims.validate_assertion_lifetime
    sts_delegate_rs.Verify.Claims.validate_time_window sts_delegate_rs.Verify.Tokens.check_binding
    sts_delegate_rs.Verify.Tokens.map_jose_error sts_delegate_rs.Verify.Tokens.map_jose_error_kind
    sts_delegate_rs.Verify.Tokens.subject_token_hash sts_delegate_rs.Prelude.Text.is_blank
    sts_delegate_rs.Http.Exchange.exchange_delegation
    sts_delegate_rs.Http.Exchange.delegation_payload sts_delegate_rs.Http.Exchange.token_response
    sts_delegate_rs.Http.Exchange.verify_actor_token
    sts_delegate_rs.Http.Exchange.key_binding_registry
    sts_delegate_rs.Http.Exchange.client_assertion_jti
    sts_delegate_rs.Http.Exchange.record_client_assertion_replay
    sts_delegate_rs.Http.Exchange.record_dpop_replay sts_delegate_rs.Http.Service.◌>>=◌
    sts_delegate_rs.Http.Service.lift sts_delegate_rs.Http.Service.check_replay
    sts_delegate_rs.Http.Service.count_signing sts_delegate_rs.Http.Service.record_signing
    sts_delegate_rs.Http.Service.count_one sts_delegate_rs.Http.Policy.validate_actor_identity
    sts_delegate_rs.Http.Policy.gate_may_act sts_delegate_rs.Http.Policy.signing_decision_for_target
    sts_delegate_rs.Http.Policy.signing_decision sts_delegate_rs.Http.Policy.is_pqc_jws_alg
    sts_delegate_rs.Core.build_act sts_delegate_rs.Core.build_scoped_payload
    sts_delegate_rs.Replay.Memory.check_and_record sts_delegate_rs.Replay.Memory.count_call
    sts_delegate_rs.Replay.Memory.make_room sts_delegate_rs.Replay.Memory.record_key
    sts_delegate_rs.Replay.Memory.sweep_expired token sts_delegate_rs.Http.Token.token_inner
    sts_delegate_rs.Http.Token.verify_request sts_delegate_rs.Http.Token.parse_token_form
    sts_delegate_rs.Http.Headers.require_form_urlencoded
    sts_delegate_rs.Prelude.Text.Ascii.to_ascii_lowercase reject_authorization_header_client_auth
    sts_delegate_rs.Http.Forms.take_pairs sts_delegate_rs.Http.Forms.take_pair
    sts_delegate_rs.Http.Forms.is_recognized_token_form_key
    sts_delegate_rs.Http.Request.validate_request_params
    sts_delegate_rs.Http.Forms.into_exchange_request
    sts_delegate_rs.Http.Forms.assign_token_form_value
    sts_delegate_rs.Http.Forms.non_empty_form_value
    sts_delegate_rs.Http.Request.is_supported_input_token_type
    sts_delegate_rs.Http.Clients.authenticate_client_if_present
    sts_delegate_rs.Http.Request.effective_exchange_mode
    sts_delegate_rs.Http.Token.validate_dpop_header
    sts_delegate_rs.Verify.Tokens.verify_subject_token
    sts_delegate_rs.Verify.Claims.ensure_audience_matches
    sts_delegate_rs.Http.Request.resolve_target_for_request sts_delegate_rs.Core.resolve_target
    sts_delegate_rs.Http.Request.resolve_scope_for_request
    sts_delegate_rs.Http.Request.subject_scope_string sts_delegate_rs.Core.downscope
    sts_delegate_rs.Prelude.extend_texts sts_delegate_rs.Prelude.Text.split_whitespace
    sts_delegate_rs.Core.intersect_scopes sts_delegate_rs.Core.split_scopes
    sts_delegate_rs.Core.join_scopes sts_delegate_rs.Prelude.Text.join_spaces
    sts_delegate_rs.Http.Token.exchange_by_mode
delegated = refl

token-IsIssued_example :
    IsIssued token_deployment memory_store around form_headers actor_pairs fresh_service response
token-IsIssued_example =
    token-IsIssued token_deployment memory_store around form_headers actor_pairs fresh_service
      response delegated

impersonated : (run_token form_headers (client_pairs ++ exchange_pairs)).1 ≡ ok response
unfolding sts_delegate_rs.Verify.Tokens.verify_assertion_with_allowed_alg_refs
    sts_delegate_rs.Prelude.◌>>=◌ sts_delegate_rs.Prelude.map_err
    sts_delegate_rs.Jose.Verify.verify_claims_against_jwks_inner
    sts_delegate_rs.Jose.Verify.decode_compact_jws_header sts_delegate_rs.Jose.parse_compact_jws
    sts_delegate_rs.Prelude.Text.split sts_delegate_rs.Jose.Verify.decode_compact_segment
    sts_delegate_rs.Prelude.refuse_if sts_delegate_rs.Prelude.ok_or
    sts_delegate_rs.Jose.Verify.verify_by_alg
    sts_delegate_rs.Jose.Verify.verify_rs256_claims_against_jwk
    sts_delegate_rs.Jose.Keys.rsa_public_key_from_jwk sts_delegate_rs.Jose.Keys.decode_jwk_component
    sts_delegate_rs.Jose.Keys.decode_jwk_octets sts_delegate_rs.Jose.Keys.validate_public_components
    sts_delegate_rs.Verify.Anchors.validate_issuer sts_delegate_rs.Jose.Keys.akp_public_key_from_jwk
    sts_delegate_rs.Jose.Verify.decode_payload_claims
    sts_delegate_rs.Jose.Verify.map_jwt_decode_error
    sts_delegate_rs.Jose.Verify.openssl_public_key_from_raw_bytes
    sts_delegate_rs.Jose.Verify.verify_mldsa_claims_against_jwk
    sts_delegate_rs.Jose.Verify.verify_mldsa_with_openssl sts_delegate_rs.Jose.from_jose_alg
    sts_delegate_rs.Prelude.add_i64 sts_delegate_rs.Prelude.sub_i64
    sts_delegate_rs.Prelude.Text.Decimal.show_i64 sts_delegate_rs.Prelude.is_whitespace
    sts_delegate_rs.Prelude.strip_prefix sts_delegate_rs.Prelude.Text.trim
    sts_delegate_rs.Prelude.Text.trim_end sts_delegate_rs.Prelude.Text.trim_end_matches
    sts_delegate_rs.Prelude.Text.trim_start sts_delegate_rs.Prelude.utf8_length
    sts_delegate_rs.Verify.Anchors.check_issuer_url sts_delegate_rs.Verify.Claims.audience_matches
    sts_delegate_rs.Verify.Claims.is_claimed_by_longer
    sts_delegate_rs.Verify.Claims.kid_belongs_to_claimed_identity
    sts_delegate_rs.Verify.Claims.prefix_match
    sts_delegate_rs.Verify.Claims.validate_assertion_lifetime
    sts_delegate_rs.Verify.Claims.validate_time_window sts_delegate_rs.Verify.Tokens.check_binding
    sts_delegate_rs.Verify.Tokens.map_jose_error sts_delegate_rs.Verify.Tokens.map_jose_error_kind
    sts_delegate_rs.Verify.Tokens.subject_token_hash sts_delegate_rs.Prelude.Text.is_blank
    sts_delegate_rs.Http.Exchange.exchange_delegation
    sts_delegate_rs.Http.Exchange.delegation_payload sts_delegate_rs.Http.Exchange.token_response
    sts_delegate_rs.Http.Exchange.verify_actor_token
    sts_delegate_rs.Http.Exchange.key_binding_registry
    sts_delegate_rs.Http.Exchange.client_assertion_jti
    sts_delegate_rs.Http.Exchange.record_client_assertion_replay
    sts_delegate_rs.Http.Exchange.record_dpop_replay sts_delegate_rs.Http.Service.◌>>=◌
    sts_delegate_rs.Http.Service.lift sts_delegate_rs.Http.Service.check_replay
    sts_delegate_rs.Http.Service.count_signing sts_delegate_rs.Http.Service.record_signing
    sts_delegate_rs.Http.Service.count_one sts_delegate_rs.Http.Policy.validate_actor_identity
    sts_delegate_rs.Http.Policy.gate_may_act sts_delegate_rs.Http.Policy.signing_decision_for_target
    sts_delegate_rs.Http.Policy.signing_decision sts_delegate_rs.Http.Policy.is_pqc_jws_alg
    sts_delegate_rs.Core.build_act sts_delegate_rs.Core.build_scoped_payload
    sts_delegate_rs.Replay.Memory.check_and_record sts_delegate_rs.Replay.Memory.count_call
    sts_delegate_rs.Replay.Memory.make_room sts_delegate_rs.Replay.Memory.record_key
    sts_delegate_rs.Replay.Memory.sweep_expired token sts_delegate_rs.Http.Token.token_inner
    sts_delegate_rs.Http.Token.verify_request sts_delegate_rs.Http.Token.parse_token_form
    sts_delegate_rs.Http.Headers.require_form_urlencoded
    sts_delegate_rs.Prelude.Text.Ascii.to_ascii_lowercase reject_authorization_header_client_auth
    sts_delegate_rs.Http.Forms.take_pairs sts_delegate_rs.Http.Forms.take_pair
    sts_delegate_rs.Http.Forms.is_recognized_token_form_key
    sts_delegate_rs.Http.Request.validate_request_params
    sts_delegate_rs.Http.Forms.into_exchange_request
    sts_delegate_rs.Http.Forms.assign_token_form_value
    sts_delegate_rs.Http.Forms.non_empty_form_value
    sts_delegate_rs.Http.Request.is_supported_input_token_type
    sts_delegate_rs.Http.Clients.authenticate_client_if_present
    sts_delegate_rs.Http.Request.effective_exchange_mode
    sts_delegate_rs.Http.Clients.verify_client_assertion
    sts_delegate_rs.Http.Request.validate_client_assertion_type
    sts_delegate_rs.Http.Token.validate_dpop_header
    sts_delegate_rs.Verify.Tokens.verify_subject_token
    sts_delegate_rs.Verify.Claims.ensure_audience_matches
    sts_delegate_rs.Http.Request.resolve_target_for_request sts_delegate_rs.Core.resolve_target
    sts_delegate_rs.Http.Request.resolve_scope_for_request
    sts_delegate_rs.Http.Request.subject_scope_string sts_delegate_rs.Core.downscope
    sts_delegate_rs.Prelude.extend_texts sts_delegate_rs.Prelude.Text.split_whitespace
    sts_delegate_rs.Core.intersect_scopes sts_delegate_rs.Core.split_scopes
    sts_delegate_rs.Core.join_scopes sts_delegate_rs.Prelude.Text.join_spaces
    sts_delegate_rs.Http.Token.exchange_by_mode exchange_impersonation
    sts_delegate_rs.Http.Impersonation.authorise_entry sts_delegate_rs.Config.allows
    sts_delegate_rs.Http.Impersonation.impersonation_payload
impersonated = refl

abbrev request : ExchangeRequest
request = record {
  grant_type = "";
  subject_token = "s.s.s";
  subject_token_type = "";
  actor_token = none;
  actor_token_type = none;
  audience = some "api";
  resource = none;
  scope = none;
  requested_token_type = none;
  client_id = none;
  client_assertion = some "h.p.s";
  client_assertion_type = none;
}

abbrev verified : VerifiedExchange
verified = record {
  subject_claims = subject;
  subject_sub = "user";
  target = "api";
  scope = "read";
  client_claims = some (assertion_for "https://a.example/token");
  dpop_binding = none;
}

impersonation_run :
    (exchange_impersonation token_deployment memory_store around.exchange request verified
      fresh_service).1
    ≡ ok response
unfolding sts_delegate_rs.Verify.Tokens.verify_assertion_with_allowed_alg_refs
    sts_delegate_rs.Prelude.◌>>=◌ sts_delegate_rs.Prelude.map_err
    sts_delegate_rs.Jose.Verify.verify_claims_against_jwks_inner
    sts_delegate_rs.Jose.Verify.decode_compact_jws_header sts_delegate_rs.Jose.parse_compact_jws
    sts_delegate_rs.Prelude.Text.split sts_delegate_rs.Jose.Verify.decode_compact_segment
    sts_delegate_rs.Prelude.refuse_if sts_delegate_rs.Prelude.ok_or
    sts_delegate_rs.Jose.Verify.verify_by_alg
    sts_delegate_rs.Jose.Verify.verify_rs256_claims_against_jwk
    sts_delegate_rs.Jose.Keys.rsa_public_key_from_jwk sts_delegate_rs.Jose.Keys.decode_jwk_component
    sts_delegate_rs.Jose.Keys.decode_jwk_octets sts_delegate_rs.Jose.Keys.validate_public_components
    sts_delegate_rs.Verify.Anchors.validate_issuer sts_delegate_rs.Jose.Keys.akp_public_key_from_jwk
    sts_delegate_rs.Jose.Verify.decode_payload_claims
    sts_delegate_rs.Jose.Verify.map_jwt_decode_error
    sts_delegate_rs.Jose.Verify.openssl_public_key_from_raw_bytes
    sts_delegate_rs.Jose.Verify.verify_mldsa_claims_against_jwk
    sts_delegate_rs.Jose.Verify.verify_mldsa_with_openssl sts_delegate_rs.Jose.from_jose_alg
    sts_delegate_rs.Prelude.add_i64 sts_delegate_rs.Prelude.sub_i64
    sts_delegate_rs.Prelude.Text.Decimal.show_i64 sts_delegate_rs.Prelude.is_whitespace
    sts_delegate_rs.Prelude.strip_prefix sts_delegate_rs.Prelude.Text.trim
    sts_delegate_rs.Prelude.Text.trim_end sts_delegate_rs.Prelude.Text.trim_end_matches
    sts_delegate_rs.Prelude.Text.trim_start sts_delegate_rs.Prelude.utf8_length
    sts_delegate_rs.Verify.Anchors.check_issuer_url sts_delegate_rs.Verify.Claims.audience_matches
    sts_delegate_rs.Verify.Claims.is_claimed_by_longer
    sts_delegate_rs.Verify.Claims.kid_belongs_to_claimed_identity
    sts_delegate_rs.Verify.Claims.prefix_match
    sts_delegate_rs.Verify.Claims.validate_assertion_lifetime
    sts_delegate_rs.Verify.Claims.validate_time_window sts_delegate_rs.Verify.Tokens.check_binding
    sts_delegate_rs.Verify.Tokens.map_jose_error sts_delegate_rs.Verify.Tokens.map_jose_error_kind
    sts_delegate_rs.Verify.Tokens.subject_token_hash sts_delegate_rs.Prelude.Text.is_blank
    sts_delegate_rs.Http.Exchange.exchange_delegation
    sts_delegate_rs.Http.Exchange.delegation_payload sts_delegate_rs.Http.Exchange.token_response
    sts_delegate_rs.Http.Exchange.verify_actor_token
    sts_delegate_rs.Http.Exchange.key_binding_registry
    sts_delegate_rs.Http.Exchange.client_assertion_jti
    sts_delegate_rs.Http.Exchange.record_client_assertion_replay
    sts_delegate_rs.Http.Exchange.record_dpop_replay sts_delegate_rs.Http.Service.◌>>=◌
    sts_delegate_rs.Http.Service.lift sts_delegate_rs.Http.Service.check_replay
    sts_delegate_rs.Http.Service.count_signing sts_delegate_rs.Http.Service.record_signing
    sts_delegate_rs.Http.Service.count_one sts_delegate_rs.Http.Policy.validate_actor_identity
    sts_delegate_rs.Http.Policy.gate_may_act sts_delegate_rs.Http.Policy.signing_decision_for_target
    sts_delegate_rs.Http.Policy.signing_decision sts_delegate_rs.Http.Policy.is_pqc_jws_alg
    sts_delegate_rs.Core.build_act sts_delegate_rs.Core.build_scoped_payload
    sts_delegate_rs.Replay.Memory.check_and_record sts_delegate_rs.Replay.Memory.count_call
    sts_delegate_rs.Replay.Memory.make_room sts_delegate_rs.Replay.Memory.record_key
    sts_delegate_rs.Replay.Memory.sweep_expired exchange_impersonation
    sts_delegate_rs.Http.Impersonation.authorise_entry sts_delegate_rs.Config.allows
    sts_delegate_rs.Http.Impersonation.impersonation_payload
impersonation_run = refl

exchange_impersonation-IsImpersonated_example :
    IsImpersonated token_deployment memory_store around.exchange request verified response
exchange_impersonation-IsImpersonated_example =
    exchange_impersonation-IsImpersonated token_deployment memory_store around.exchange request
      verified fresh_service response impersonation_run
