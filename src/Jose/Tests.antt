-- ===== src/Jose/Tests.antt =====
-- Runs of crates/sts-jose/src/lib.rs on concrete tokens.
use sts_delegate_rs.Prelude.{ℕ, String, ◌≡◌, refl, some, none, List, [], ◌∷◌, ok, err}
use sts_delegate_rs.Jose.{VerifiedJws, parse_compact_jws, jose_error, invalid_compact_jws}
use sts_delegate_rs.Jose.Keys.{validate_public_jwk}
use sts_delegate_rs.Jose.Verify.{verify_claims_against_jwks_inner}
use sts_delegate_rs.Jose.Verify.Authentic.{IsAuthentic, verify_claims-IsAuthentic}
use sts_delegate_rs.Jose.Sample.{sample_backend, sample_jwk, sample_jwks}

parts_test : parse_compact_jws "h.p.s" ≡ ok ("h", "p", "s")
unfolding parse_compact_jws sts_delegate_rs.Prelude.Text.split
parts_test = refl

extra_part_test :
    parse_compact_jws "h.p.s.x"
    ≡ err (jose_error invalid_compact_jws "compact JWS must have exactly three parts")
unfolding parse_compact_jws sts_delegate_rs.Prelude.Text.split
extra_part_test = refl

sample_key_test : validate_public_jwk (sample_backend {T = ℕ} 7).base64_decode sample_jwk ≡ ok tt
unfolding validate_public_jwk sts_delegate_rs.Jose.Keys.rsa_public_key_from_jwk
    sts_delegate_rs.Prelude.◌>>=◌ sts_delegate_rs.Prelude.refuse_if sts_delegate_rs.Prelude.ok_or
    sts_delegate_rs.Jose.Keys.decode_jwk_component sts_delegate_rs.Jose.Keys.decode_jwk_octets
    sts_delegate_rs.Prelude.map_err sts_delegate_rs.Jose.Keys.validate_public_components
sample_key_test = refl

verify_claims-IsAuthentic_example :
    IsAuthentic
      (sample_backend {T = ℕ} 7)
      "h.p.s"
      sample_jwks
      (some ("RS256" ∷ []))
      (record { claims = 7; alg = "RS256"; kid = "k"; typ = none })
unfolding verify_claims_against_jwks_inner sts_delegate_rs.Prelude.◌>>=◌
    sts_delegate_rs.Jose.Verify.decode_compact_jws_header parse_compact_jws
    sts_delegate_rs.Prelude.Text.split sts_delegate_rs.Jose.Verify.decode_compact_segment
    sts_delegate_rs.Prelude.map_err sts_delegate_rs.Prelude.refuse_if sts_delegate_rs.Prelude.ok_or
    sts_delegate_rs.Jose.Verify.verify_by_alg
    sts_delegate_rs.Jose.Verify.verify_rs256_claims_against_jwk
    sts_delegate_rs.Jose.Keys.rsa_public_key_from_jwk sts_delegate_rs.Jose.Keys.decode_jwk_component
    sts_delegate_rs.Jose.Keys.decode_jwk_octets sts_delegate_rs.Jose.Keys.validate_public_components
verify_claims-IsAuthentic_example =
    verify_claims-IsAuthentic (sample_backend {T = ℕ} 7) "h.p.s" sample_jwks (some ("RS256" ∷ []))
      (record { claims = 7; alg = "RS256"; kid = "k"; typ = none }) refl
