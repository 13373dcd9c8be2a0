-- ===== src/Http/Metrics/Tests.antt =====
-- Runs of the metrics text of crates/sts-http/src/lib.rs.
use sts_delegate_rs.Prelude.{ℕ, String, true, false, ◌≡◌, refl, List, [], ◌∷◌, text_ltb}
use sts_delegate_rs.Http.Metrics.{escape_prometheus_label, by_key, alg_ltb, render_denials}

escaped_test : escape_prometheus_label "a\"b\\c\nd" ≡ "a\\\"b\\\\c\\nd"
unfolding sts_delegate_rs.Verify.Tokens.verify_assertion_with_allowed_alg_refs
    sts_delegate_rs.Prelude.◌>>=◌ sts_delegate_rs.Prelude.map_err
    sts_delegate_rs.Jose.Verify.verify_claims_against_jwks_inner
    sts_delegate_rs.Jose.Verify.decode_compact_jws_header sts_delegate_rs.Jose.parse_compact_jws
    sts_delegate_rs.Prelude.Text.split sts_delegate_rs.Jose.Verify.decode_compact_segment
    sts_delegate_rs.Prelude.refuse_if sts_delegate_rs.Prelude.ok_or
    sts_delegate_rs.Jose.Verify.verify_by_alg
    sts_delegate_rs.Jose.Verify.verify_rs256_claims_against_jwk
    sts_delegate_rs.Jose.Keys.rsa_public_key_from_jwk sts_delegate_rs.Jose.Keys.decode_jwk_component
    sts_delegate_rs.Jose.Keys.decode_jwk_octets sts_delegate_rs.Jose.Keys.validate_public_components
    sts_delegate_rs.Verify.Anchors.validate_issuer sts_delegate_rs.Jose.Keys.akp_public_key_from_jwk
    sts_delegate_rs.Jose.Verify.decode_payload_claims
    sts_delegate_rs.Jose.Verify.map_jwt_decode_error
    sts_delegate_rs.Jose.Verify.openssl_public_key_from_raw_bytes
    sts_delegate_rs.Jose.Verify.verify_mldsa_claims_against_jwk
    sts_delegate_rs.Jose.Verify.verify_mldsa_with_openssl sts_delegate_rs.Jose.from_jose_alg
    sts_delegate_rs.Prelude.add_i64 sts_delegate_rs.Prelude.sub_i64
    sts_delegate_rs.Prelude.Text.Decimal.show_i64 sts_delegate_rs.Prelude.is_whitespace
    sts_delegate_rs.Prelude.strip_prefix sts_delegate_rs.Prelude.Text.trim
    sts_delegate_rs.Prelude.Text.trim_end sts_delegate_rs.Prelude.Text.trim_end_matches
    sts_delegate_rs.Prelude.Text.trim_start sts_delegate_rs.Prelude.utf8_length
    sts_delegate_rs.Verify.Anchors.check_issuer_url sts_delegate_rs.Verify.Claims.audience_matches
    sts_delegate_rs.Verify.Claims.is_claimed_by_longer
    sts_delegate_rs.Verify.Claims.kid_belongs_to_claimed_identity
    sts_delegate_rs.Verify.Claims.prefix_match
    sts_delegate_rs.Verify.Claims.validate_assertion_lifetime
    sts_delegate_rs.Verify.Claims.validate_time_window sts_delegate_rs.Verify.Tokens.check_binding
    sts_delegate_rs.Verify.Tokens.map_jose_error sts_delegate_rs.Verify.Tokens.map_jose_error_kind
    sts_delegate_rs.Verify.Tokens.subject_token_hash sts_delegate_rs.Prelude.Text.is_blank
    sts_delegate_rs.Http.Exchange.exchange_delegation
    sts_delegate_rs.Http.Exchange.delegation_payload sts_delegate_rs.Http.Exchange.token_response
    sts_delegate_rs.Http.Exchange.verify_actor_token
    sts_delegate_rs.Http.Exchange.key_binding_registry
    sts_delegate_rs.Http.Exchange.client_assertion_jti
    sts_delegate_rs.Http.Exchange.record_client_assertion_replay
    sts_delegate_rs.Http.Exchange.record_dpop_replay sts_delegate_rs.Http.Service.◌>>=◌
    sts_delegate_rs.Http.Service.lift sts_delegate_rs.Http.Service.check_replay
    sts_delegate_rs.Http.Service.count_signing sts_delegate_rs.Http.Service.record_signing
    sts_delegate_rs.Http.Service.count_one sts_delegate_rs.Http.Policy.validate_actor_identity
    sts_delegate_rs.Http.Policy.gate_may_act sts_delegate_rs.Http.Policy.signing_decision_for_target
    sts_delegate_rs.Http.Policy.signing_decision sts_delegate_rs.Http.Policy.is_pqc_jws_alg
    sts_delegate_rs.Core.build_act sts_delegate_rs.Core.build_scoped_payload
    sts_delegate_rs.Replay.Memory.check_and_record sts_delegate_rs.Replay.Memory.count_call
    sts_delegate_rs.Replay.Memory.make_room sts_delegate_rs.Replay.Memory.record_key
    sts_delegate_rs.Replay.Memory.sweep_expired escape_prometheus_label
escaped_test = refl

sorted_denials_test :
    render_denials (by_key text_ltb (("invalid_target", 2) ∷ ("invalid_client", 11) ∷ []))
    ≡ "sts_denials_total{error=\"invalid_client\"} 11\nsts_denials_total{error=\"invalid_target\"} 2\n"
unfolding sts_delegate_rs.Verify.Tokens.verify_assertion_with_allowed_alg_refs
    sts_delegate_rs.Prelude.◌>>=◌ sts_delegate_rs.Prelude.map_err
    sts_delegate_rs.Jose.Verify.verify_claims_against_jwks_inner
    sts_delegate_rs.Jose.Verify.decode_compact_jws_header sts_delegate_rs.Jose.parse_compact_jws
    sts_delegate_rs.Prelude.Text.split sts_delegate_rs.Jose.Verify.decode_compact_segment
    sts_delegate_rs.Prelude.refuse_if sts_delegate_rs.Prelude.ok_or
    sts_delegate_rs.Jose.Verify.verify_by_alg
    sts_delegate_rs.Jose.Verify.verify_rs256_claims_against_jwk
    sts_delegate_rs.Jose.Keys.rsa_public_key_from_jwk sts_delegate_rs.Jose.Keys.decode_jwk_component
    sts_delegate_rs.Jose.Keys.decode_jwk_octets sts_delegate_rs.Jose.Keys.validate_public_components
    sts_delegate_rs.Verify.Anchors.validate_issuer sts_delegate_rs.Jose.Keys.akp_public_key_from_jwk
    sts_delegate_rs.Jose.Verify.decode_payload_claims
    sts_delegate_rs.Jose.Verify.map_jwt_decode_error
    sts_delegate_rs.Jose.Verify.openssl_public_key_from_raw_bytes
    sts_delegate_rs.Jose.Verify.verify_mldsa_claims_against_jwk
    sts_delegate_rs.Jose.Verify.verify_mldsa_with_openssl sts_delegate_rs.Jose.from_jose_alg
    sts_delegate_rs.Prelude.add_i64 sts_delegate_rs.Prelude.sub_i64
    sts_delegate_rs.Prelude.Text.Decimal.show_i64 sts_delegate_rs.Prelude.is_whitespace
    sts_delegate_rs.Prelude.strip_prefix sts_delegate_rs.Prelude.Text.trim
    sts_delegate_rs.Prelude.Text.trim_end sts_delegate_rs.Prelude.Text.trim_end_matches
    sts_delegate_rs.Prelude.Text.trim_start sts_delegate_rs.Prelude.utf8_length
    sts_delegate_rs.Verify.Anchors.check_issuer_url sts_delegate_rs.Verify.Claims.audience_matches
    sts_delegate_rs.Verify.Claims.is_claimed_by_longer
    sts_delegate_rs.Verify.Claims.kid_belongs_to_claimed_identity
    sts_delegate_rs.Verify.Claims.prefix_match
    sts_delegate_rs.Verify.Claims.validate_assertion_lifetime
    sts_delegate_rs.Verify.Claims.validate_time_window sts_delegate_rs.Verify.Tokens.check_binding
    sts_delegate_rs.Verify.Tokens.map_jose_error sts_delegate_rs.Verify.Tokens.map_jose_error_kind
    sts_delegate_rs.Verify.Tokens.subject_token_hash sts_delegate_rs.Prelude.Text.is_blank
    sts_delegate_rs.Http.Exchange.exchange_delegation
    sts_delegate_rs.Http.Exchange.delegation_payload sts_delegate_rs.Http.Exchange.token_response
    sts_delegate_rs.Http.Exchange.verify_actor_token
    sts_delegate_rs.Http.Exchange.key_binding_registry
    sts_delegate_rs.Http.Exchange.client_assertion_jti
    sts_delegate_rs.Http.Exchange.record_client_assertion_replay
    sts_delegate_rs.Http.Exchange.record_dpop_replay sts_delegate_rs.Http.Service.◌>>=◌
    sts_delegate_rs.Http.Service.lift sts_delegate_rs.Http.Service.check_replay
    sts_delegate_rs.Http.Service.count_signing sts_delegate_rs.Http.Service.record_signing
    sts_delegate_rs.Http.Service.count_one sts_delegate_rs.Http.Policy.validate_actor_identity
    sts_delegate_rs.Http.Policy.gate_may_act sts_delegate_rs.Http.Policy.signing_decision_for_target
    sts_delegate_rs.Http.Policy.signing_decision sts_delegate_rs.Http.Policy.is_pqc_jws_alg
    sts_delegate_rs.Core.build_act sts_delegate_rs.Core.build_scoped_payload
    sts_delegate_rs.Replay.Memory.check_and_record sts_delegate_rs.Replay.Memory.count_call
    sts_delegate_rs.Replay.Memory.make_room sts_delegate_rs.Replay.Memory.record_key
    sts_delegate_rs.Replay.Memory.sweep_expired render_denials by_key text_ltb
    escape_prometheus_label sts_delegate_rs.Prelude.Text.Decimal.show_usize
sorted_denials_test = refl

sorted_algs_test :
    by_key alg_ltb ((("RS256", true), 1) ∷ (("RS256", false), 2) ∷ (("ML-DSA-65", false), 3) ∷ [])
    ≡ (("ML-DSA-65", false), 3) ∷ (("RS256", false), 2) ∷ (("RS256", true), 1) ∷ []
unfolding sts_delegate_rs.Verify.Tokens.verify_assertion_with_allowed_alg_refs
    sts_delegate_rs.Prelude.◌>>=◌ sts_delegate_rs.Prelude.map_err
    sts_delegate_rs.Jose.Verify.verify_claims_against_jwks_inner
    sts_delegate_rs.Jose.Verify.decode_compact_jws_header sts_delegate_rs.Jose.parse_compact_jws
    sts_delegate_rs.Prelude.Text.split sts_delegate_rs.Jose.Verify.decode_compact_segment
    sts_delegate_rs.Prelude.refuse_if sts_delegate_rs.Prelude.ok_or
    sts_delegate_rs.Jose.Verify.verify_by_alg
    sts_delegate_rs.Jose.Verify.verify_rs256_claims_against_jwk
    sts_delegate_rs.Jose.Keys.rsa_public_key_from_jwk sts_delegate_rs.Jose.Keys.decode_jwk_component
    sts_delegate_rs.Jose.Keys.decode_jwk_octets sts_delegate_rs.Jose.Keys.validate_public_components
    sts_delegate_rs.Verify.Anchors.validate_issuer sts_delegate_rs.Jose.Keys.akp_public_key_from_jwk
    sts_delegate_rs.Jose.Verify.decode_payload_claims
    sts_delegate_rs.Jose.Verify.map_jwt_decode_error
    sts_delegate_rs.Jose.Verify.openssl_public_key_from_raw_bytes
    sts_delegate_rs.Jose.Verify.verify_mldsa_claims_against_jwk
    sts_delegate_rs.Jose.Verify.verify_mldsa_with_openssl sts_delegate_rs.Jose.from_jose_alg
    sts_delegate_rs.Prelude.add_i64 sts_delegate_rs.Prelude.sub_i64
    sts_delegate_rs.Prelude.Text.Decimal.show_i64 sts_delegate_rs.Prelude.is_whitespace
    sts_delegate_rs.Prelude.strip_prefix sts_delegate_rs.Prelude.Text.trim
    sts_delegate_rs.Prelude.Text.trim_end sts_delegate_rs.Prelude.Text.trim_end_matches
    sts_delegate_rs.Prelude.Text.trim_start sts_delegate_rs.Prelude.utf8_length
    sts_delegate_rs.Verify.Anchors.check_issuer_url sts_delegate_rs.Verify.Claims.audience_matches
    sts_delegate_rs.Verify.Claims.is_claimed_by_longer
    sts_delegate_rs.Verify.Claims.kid_belongs_to_claimed_identity
    sts_delegate_rs.Verify.Claims.prefix_match
    sts_delegate_rs.Verify.Claims.validate_assertion_lifetime
    sts_delegate_rs.Verify.Claims.validate_time_window sts_delegate_rs.Verify.Tokens.check_binding
    sts_delegate_rs.Verify.Tokens.map_jose_error sts_delegate_rs.Verify.Tokens.map_jose_error_kind
    sts_delegate_rs.Verify.Tokens.subject_token_hash sts_delegate_rs.Prelude.Text.is_blank
    sts_delegate_rs.Http.Exchange.exchange_delegation
    sts_delegate_rs.Http.Exchange.delegation_payload sts_delegate_rs.Http.Exchange.token_response
    sts_delegate_rs.Http.Exchange.verify_actor_token
    sts_delegate_rs.Http.Exchange.key_binding_registry
    sts_delegate_rs.Http.Exchange.client_assertion_jti
    sts_delegate_rs.Http.Exchange.record_client_assertion_replay
    sts_delegate_rs.Http.Exchange.record_dpop_replay sts_delegate_rs.Http.Service.◌>>=◌
    sts_delegate_rs.Http.Service.lift sts_delegate_rs.Http.Service.check_replay
    sts_delegate_rs.Http.Service.count_signing sts_delegate_rs.Http.Service.record_signing
    sts_delegate_rs.Http.Service.count_one sts_delegate_rs.Http.Policy.validate_actor_identity
    sts_delegate_rs.Http.Policy.gate_may_act sts_delegate_rs.Http.Policy.signing_decision_for_target
    sts_delegate_rs.Http.Policy.signing_decision sts_delegate_rs.Http.Policy.is_pqc_jws_alg
    sts_delegate_rs.Core.build_act sts_delegate_rs.Core.build_scoped_payload
    sts_delegate_rs.Replay.Memory.check_and_record sts_delegate_rs.Replay.Memory.count_call
    sts_delegate_rs.Replay.Memory.make_room sts_delegate_rs.Replay.Memory.record_key
    sts_delegate_rs.Replay.Memory.sweep_expired by_key text_ltb
sorted_algs_test = refl
