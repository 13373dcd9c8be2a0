-- ===== src/Http/Online/Tests.antt =====
-- Runs of introspection and revocation in crates/sts-http/src/lib.rs.
use sts_delegate_rs.Prelude.{
  ℕ, ℤ, pos, ◌≤ℤ◌, String, ◌≡◌, refl, ◌⊎◌, Bool, true, false, Option, some, none, List, [], ◌∷◌, ok,
  err, Result, arith,
}
use sts_delegate_rs.Core.{MintedClaims, direct, behind}
use sts_delegate_rs.Replay.Memory.Laws.{memory_store}
use sts_delegate_rs.Http.{HttpError, invalid_request}
use sts_delegate_rs.Http.Revocation.{RevocationState, no_revocations}
use sts_delegate_rs.Http.Revocation.Lasting.{done}
use sts_delegate_rs.Http.Service.{Service}
use sts_delegate_rs.Http.Deployment.{Deployment}
use sts_delegate_rs.Http.Online.{
  OnlineSurroundings, inactive_body, active_body, take_online_pairs, empty_online_form, introspect,
  revoke, revoke_active,
}
use sts_delegate_rs.Http.Online.Active.{
  IsFresh, body_at, revoked_at, introspection_answer, revoked_never_active,
}
use sts_delegate_rs.Http.Sample.{
  sample_deployment, around, fresh_service, form_headers, client_pairs, minted,
}

abbrev online : Deployment Unit Unit Unit Unit
online = sample_deployment "https://a.example/introspect"

abbrev online_around : OnlineSurroundings Unit
online_around = record {
  client_verify_now = pos 900;
  client_lifetime_now = pos 900;
  recording = around.exchange;
  token_now = pos 900;
  revoke_now = pos 900;
}

repeated_token :
    take_online_pairs
      (λ s. s)
      []
      empty_online_form
      (("token", "a") ∷ ("x", "") ∷ ("token", "b") ∷ [])
    ≡ err (invalid_request "parameter token is included more than once")
unfolding take_online_pairs sts_delegate_rs.Http.Online.is_online_token_param
repeated_token = refl

introspected :
    (introspect online memory_store online_around form_headers
      (("token", "h.p.s") ∷ client_pairs)
      fresh_service).1
    ≡ ok (active_body minted)
unfolding sts_delegate_rs.Verify.Tokens.verify_assertion_with_allowed_alg_refs
    sts_delegate_rs.Prelude.◌>>=◌ sts_delegate_rs.Prelude.map_err
    sts_delegate_rs.Jose.Verify.verify_claims_against_jwks_inner
    sts_delegate_rs.Jose.Verify.decode_compact_jws_header sts_delegate_rs.Jose.parse_compact_jws
    sts_delegate_rs.Prelude.Text.split sts_delegate_rs.Jose.Verify.decode_compact_segment
    sts_delegate_rs.Prelude.refuse_if sts_delegate_rs.Prelude.ok_or
    sts_delegate_rs.Jose.Verify.verify_by_alg
    sts_delegate_rs.Jose.Verify.verify_rs256_claims_against_jwk
    sts_delegate_rs.Jose.Keys.rsa_public_key_from_jwk sts_delegate_rs.Jose.Keys.decode_jwk_component
    sts_delegate_rs.Jose.Keys.decode_jwk_octets sts_delegate_rs.Jose.Keys.validate_public_components
    sts_delegate_rs.Verify.Anchors.validate_issuer sts_delegate_rs.Jose.Keys.akp_public_key_from_jwk
    sts_delegate_rs.Jose.Verify.decode_payload_claims
    sts_delegate_rs.Jose.Verify.map_jwt_decode_error
    sts_delegate_rs.Jose.Verify.openssl_public_key_from_raw_bytes
    sts_delegate_rs.Jose.Verify.verify_mldsa_claims_against_jwk
    sts_delegate_rs.Jose.Verify.verify_mldsa_with_openssl sts_delegate_rs.Jose.from_jose_alg
    sts_delegate_rs.Prelude.add_i64 sts_delegate_rs.Prelude.sub_i64
    sts_delegate_rs.Prelude.Text.Decimal.show_i64 sts_delegate_rs.Prelude.is_whitespace
    sts_delegate_rs.Prelude.strip_prefix sts_delegate_rs.Prelude.Text.trim
    sts_delegate_rs.Prelude.Text.trim_end sts_delegate_rs.Prelude.Text.trim_end_matches
    sts_delegate_rs.Prelude.Text.trim_start sts_delegate_rs.Prelude.utf8_length
    sts_delegate_rs.Verify.Anchors.check_issuer_url sts_delegate_rs.Verify.Claims.audience_matches
    sts_delegate_rs.Verify.Claims.is_claimed_by_longer
    sts_delegate_rs.Verify.Claims.kid_belongs_to_claimed_identity
    sts_delegate_rs.Verify.Claims.prefix_match
    sts_delegate_rs.Verify.Claims.validate_assertion_lifetime
    sts_delegate_rs.Verify.Claims.validate_time_window sts_delegate_rs.Verify.Tokens.check_binding
    sts_delegate_rs.Verify.Tokens.map_jose_error sts_delegate_rs.Verify.Tokens.map_jose_error_kind
    sts_delegate_rs.Verify.Tokens.subject_token_hash sts_delegate_rs.Prelude.Text.is_blank
    sts_delegate_rs.Http.Exchange.exchange_delegation
    sts_delegate_rs.Http.Exchange.delegation_payload sts_delegate_rs.Http.Exchange.token_response
    sts_delegate_rs.Http.Exchange.verify_actor_token
    sts_delegate_rs.Http.Exchange.key_binding_registry
    sts_delegate_rs.Http.Exchange.client_assertion_jti
    sts_delegate_rs.Http.Exchange.record_client_assertion_replay
    sts_delegate_rs.Http.Exchange.record_dpop_replay sts_delegate_rs.Http.Service.◌>>=◌
    sts_delegate_rs.Http.Service.lift sts_delegate_rs.Http.Service.check_replay
    sts_delegate_rs.Http.Service.count_signing sts_delegate_rs.Http.Service.record_signing
    sts_delegate_rs.Http.Service.count_one sts_delegate_rs.Http.Policy.validate_actor_identity
    sts_delegate_rs.Http.Policy.gate_may_act sts_delegate_rs.Http.Policy.signing_decision_for_target
    sts_delegate_rs.Http.Policy.signing_decision sts_delegate_rs.Http.Policy.is_pqc_jws_alg
    sts_delegate_rs.Core.build_act sts_delegate_rs.Core.build_scoped_payload
    sts_delegate_rs.Replay.Memory.check_and_record sts_delegate_rs.Replay.Memory.count_call
    sts_delegate_rs.Replay.Memory.make_room sts_delegate_rs.Replay.Memory.record_key
    sts_delegate_rs.Replay.Memory.sweep_expired introspect sts_delegate_rs.Http.Online.online_token
    sts_delegate_rs.Http.Online.parse_online_token_form
    sts_delegate_rs.Http.Headers.require_form_urlencoded
    sts_delegate_rs.Prelude.Text.Ascii.to_ascii_lowercase
    sts_delegate_rs.Http.Headers.reject_authorization_header_client_auth take_online_pairs
    sts_delegate_rs.Http.Online.is_online_token_param
    sts_delegate_rs.Http.Online.required_online_token
    sts_delegate_rs.Http.Online.assign_online_token_form_value
    sts_delegate_rs.Http.Forms.non_empty_form_value
    sts_delegate_rs.Http.Clients.authenticate_online_client
    sts_delegate_rs.Http.Clients.verify_client_assertion
    sts_delegate_rs.Http.Request.validate_client_assertion_type active_body
    sts_delegate_rs.Http.Online.introspection_response_for_token sts_delegate_rs.Http.Online.body_of
    sts_delegate_rs.Http.Online.verified_sts_access_token sts_delegate_rs.Http.Online.unless_revoked
    sts_delegate_rs.Http.Online.fresh_claims
    sts_delegate_rs.Http.Revocation.is_revoked_or_unavailable
    sts_delegate_rs.Http.Revocation.sweep_revoked
introspected = refl

introspection_answer_example :
    ((claims : MintedClaims) × IsFresh online "h.p.s" (pos 900) claims
      × (revoked_at online "h.p.s" (pos 900) no_revocations ≡ false)
      × (body_at online "h.p.s" (pos 900) no_revocations ≡ active_body claims))
    ⊎ ((body_at online "h.p.s" (pos 900) no_revocations ≡ inactive_body)
        × ((claims : MintedClaims)
            → IsFresh online "h.p.s" (pos 900) claims
            → revoked_at online "h.p.s" (pos 900) no_revocations ≡ true))
introspection_answer_example = introspection_answer online "h.p.s" (pos 900) no_revocations

abbrev after_revocation : RevocationState
after_revocation =
    (revoke_active online memory_store online_around "h.p.s" fresh_service).0.revocations

minted-IsFresh : IsFresh online "h.p.s" (pos 900) minted
unfolding sts_delegate_rs.Verify.Tokens.verify_assertion_with_allowed_alg_refs
    sts_delegate_rs.Prelude.◌>>=◌ sts_delegate_rs.Prelude.map_err
    sts_delegate_rs.Jose.Verify.verify_claims_against_jwks_inner
    sts_delegate_rs.Jose.Verify.decode_compact_jws_header sts_delegate_rs.Jose.parse_compact_jws
    sts_delegate_rs.Prelude.Text.split sts_delegate_rs.Jose.Verify.decode_compact_segment
    sts_delegate_rs.Prelude.refuse_if sts_delegate_rs.Prelude.ok_or
    sts_delegate_rs.Jose.Verify.verify_by_alg
    sts_delegate_rs.Jose.Verify.verify_rs256_claims_against_jwk
    sts_delegate_rs.Jose.Keys.rsa_public_key_from_jwk sts_delegate_rs.Jose.Keys.decode_jwk_component
    sts_delegate_rs.Jose.Keys.decode_jwk_octets sts_delegate_rs.Jose.Keys.validate_public_components
    sts_delegate_rs.Verify.Anchors.validate_issuer sts_delegate_rs.Jose.Keys.akp_public_key_from_jwk
    sts_delegate_rs.Jose.Verify.decode_payload_claims
    sts_delegate_rs.Jose.Verify.map_jwt_decode_error
    sts_delegate_rs.Jose.Verify.openssl_public_key_from_raw_bytes
    sts_delegate_rs.Jose.Verify.verify_mldsa_claims_against_jwk
    sts_delegate_rs.Jose.Verify.verify_mldsa_with_openssl sts_delegate_rs.Jose.from_jose_alg
    sts_delegate_rs.Prelude.add_i64 sts_delegate_rs.Prelude.sub_i64
    sts_delegate_rs.Prelude.Text.Decimal.show_i64 sts_delegate_rs.Prelude.is_whitespace
    sts_delegate_rs.Prelude.strip_prefix sts_delegate_rs.Prelude.Text.trim
    sts_delegate_rs.Prelude.Text.trim_end sts_delegate_rs.Prelude.Text.trim_end_matches
    sts_delegate_rs.Prelude.Text.trim_start sts_delegate_rs.Prelude.utf8_length
    sts_delegate_rs.Verify.Anchors.check_issuer_url sts_delegate_rs.Verify.Claims.audience_matches
    sts_delegate_rs.Verify.Claims.is_claimed_by_longer
    sts_delegate_rs.Verify.Claims.kid_belongs_to_claimed_identity
    sts_delegate_rs.Verify.Claims.prefix_match
    sts_delegate_rs.Verify.Claims.validate_assertion_lifetime
    sts_delegate_rs.Verify.Claims.validate_time_window sts_delegate_rs.Verify.Tokens.check_binding
    sts_delegate_rs.Verify.Tokens.map_jose_error sts_delegate_rs.Verify.Tokens.map_jose_error_kind
    sts_delegate_rs.Verify.Tokens.subject_token_hash sts_delegate_rs.Prelude.Text.is_blank
    sts_delegate_rs.Http.Exchange.exchange_delegation
    sts_delegate_rs.Http.Exchange.delegation_payload sts_delegate_rs.Http.Exchange.token_response
    sts_delegate_rs.Http.Exchange.verify_actor_token
    sts_delegate_rs.Http.Exchange.key_binding_registry
    sts_delegate_rs.Http.Exchange.client_assertion_jti
    sts_delegate_rs.Http.Exchange.record_client_assertion_replay
    sts_delegate_rs.Http.Exchange.record_dpop_replay sts_delegate_rs.Http.Service.◌>>=◌
    sts_delegate_rs.Http.Service.lift sts_delegate_rs.Http.Service.check_replay
    sts_delegate_rs.Http.Service.count_signing sts_delegate_rs.Http.Service.record_signing
    sts_delegate_rs.Http.Service.count_one sts_delegate_rs.Http.Policy.validate_actor_identity
    sts_delegate_rs.Http.Policy.gate_may_act sts_delegate_rs.Http.Policy.signing_decision_for_target
    sts_delegate_rs.Http.Policy.signing_decision sts_delegate_rs.Http.Policy.is_pqc_jws_alg
    sts_delegate_rs.Core.build_act sts_delegate_rs.Core.build_scoped_payload
    sts_delegate_rs.Replay.Memory.check_and_record sts_delegate_rs.Replay.Memory.count_call
    sts_delegate_rs.Replay.Memory.make_room sts_delegate_rs.Replay.Memory.record_key
    sts_delegate_rs.Replay.Memory.sweep_expired
minted-IsFresh = record {
  jws = record { claims = minted; alg = "RS256"; kid = "k"; typ = some "at+jwt" };
  verified = refl;
  carried = refl;
  typed = refl;
  own = refl;
  known_target = refl;
  named = (refl, refl);
  scoped = refl;
  unexpired = omega arith;
  issued = omega arith;
}

revoked_run : (revoke_active online memory_store online_around "h.p.s" fresh_service).1 ≡ ok tt
unfolding sts_delegate_rs.Verify.Tokens.verify_assertion_with_allowed_alg_refs
    sts_delegate_rs.Prelude.◌>>=◌ sts_delegate_rs.Prelude.map_err
    sts_delegate_rs.Jose.Verify.verify_claims_against_jwks_inner
    sts_delegate_rs.Jose.Verify.decode_compact_jws_header sts_delegate_rs.Jose.parse_compact_jws
    sts_delegate_rs.Prelude.Text.split sts_delegate_rs.Jose.Verify.decode_compact_segment
    sts_delegate_rs.Prelude.refuse_if sts_delegate_rs.Prelude.ok_or
    sts_delegate_rs.Jose.Verify.verify_by_alg
    sts_delegate_rs.Jose.Verify.verify_rs256_claims_against_jwk
    sts_delegate_rs.Jose.Keys.rsa_public_key_from_jwk sts_delegate_rs.Jose.Keys.decode_jwk_component
    sts_delegate_rs.Jose.Keys.decode_jwk_octets sts_delegate_rs.Jose.Keys.validate_public_components
    sts_delegate_rs.Verify.Anchors.validate_issuer sts_delegate_rs.Jose.Keys.akp_public_key_from_jwk
    sts_delegate_rs.Jose.Verify.decode_payload_claims
    sts_delegate_rs.Jose.Verify.map_jwt_decode_error
    sts_delegate_rs.Jose.Verify.openssl_public_key_from_raw_bytes
    sts_delegate_rs.Jose.Verify.verify_mldsa_claims_against_jwk
    sts_delegate_rs.Jose.Verify.verify_mldsa_with_openssl sts_delegate_rs.Jose.from_jose_alg
    sts_delegate_rs.Prelude.add_i64 sts_delegate_rs.Prelude.sub_i64
    sts_delegate_rs.Prelude.Text.Decimal.show_i64 sts_delegate_rs.Prelude.is_whitespace
    sts_delegate_rs.Prelude.strip_prefix sts_delegate_rs.Prelude.Text.trim
    sts_delegate_rs.Prelude.Text.trim_end sts_delegate_rs.Prelude.Text.trim_end_matches
    sts_delegate_rs.Prelude.Text.trim_start sts_delegate_rs.Prelude.utf8_length
    sts_delegate_rs.Verify.Anchors.check_issuer_url sts_delegate_rs.Verify.Claims.audience_matches
    sts_delegate_rs.Verify.Claims.is_claimed_by_longer
    sts_delegate_rs.Verify.Claims.kid_belongs_to_claimed_identity
    sts_delegate_rs.Verify.Claims.prefix_match
    sts_delegate_rs.Verify.Claims.validate_assertion_lifetime
    sts_delegate_rs.Verify.Claims.validate_time_window sts_delegate_rs.Verify.Tokens.check_binding
    sts_delegate_rs.Verify.Tokens.map_jose_error sts_delegate_rs.Verify.Tokens.map_jose_error_kind
    sts_delegate_rs.Verify.Tokens.subject_token_hash sts_delegate_rs.Prelude.Text.is_blank
    sts_delegate_rs.Http.Exchange.exchange_delegation
    sts_delegate_rs.Http.Exchange.delegation_payload sts_delegate_rs.Http.Exchange.token_response
    sts_delegate_rs.Http.Exchange.verify_actor_token
    sts_delegate_rs.Http.Exchange.key_binding_registry
    sts_delegate_rs.Http.Exchange.client_assertion_jti
    sts_delegate_rs.Http.Exchange.record_client_assertion_replay
    sts_delegate_rs.Http.Exchange.record_dpop_replay sts_delegate_rs.Http.Service.◌>>=◌
    sts_delegate_rs.Http.Service.lift sts_delegate_rs.Http.Service.check_replay
    sts_delegate_rs.Http.Service.count_signing sts_delegate_rs.Http.Service.record_signing
    sts_delegate_rs.Http.Service.count_one sts_delegate_rs.Http.Policy.validate_actor_identity
    sts_delegate_rs.Http.Policy.gate_may_act sts_delegate_rs.Http.Policy.signing_decision_for_target
    sts_delegate_rs.Http.Policy.signing_decision sts_delegate_rs.Http.Policy.is_pqc_jws_alg
    sts_delegate_rs.Core.build_act sts_delegate_rs.Core.build_scoped_payload
    sts_delegate_rs.Replay.Memory.check_and_record sts_delegate_rs.Replay.Memory.count_call
    sts_delegate_rs.Replay.Memory.make_room sts_delegate_rs.Replay.Memory.record_key
    sts_delegate_rs.Replay.Memory.sweep_expired revoke_active
    sts_delegate_rs.Http.Online.revoke_verified
    sts_delegate_rs.Http.Online.verified_sts_access_token sts_delegate_rs.Http.Online.fresh_claims
    sts_delegate_rs.Http.Revocation.revoke sts_delegate_rs.Http.Revocation.sweep_revoked
revoked_run = refl

revoked_never_active_example : body_at online "h.p.s" (pos 901) after_revocation ≡ inactive_body
revoked_never_active_example =
    revoked_never_active online memory_store online_around "h.p.s" (pos 901) minted fresh_service
      after_revocation minted-IsFresh revoked_run (λ h. done after_revocation)
