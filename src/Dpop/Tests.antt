-- ===== src/Dpop/Tests.antt =====
-- Runs of crates/sts-dpop/src/lib.rs on a concrete proof, with stand-ins for the other crates that read
-- one header and one set of claims and verify every signature.
use sts_delegate_rs.Prelude.{
  ℕ, ℤ, pos, negsuc, String, ◌≡◌, ◌≢◌, refl, true, false, some, none, List, [], ◌∷◌, ok, err, arith,
}
use sts_delegate_rs.Json.{
  Json, Number, integer, float, number, string, object, no_members, member_of,
}
use sts_delegate_rs.Replay.Store.{Call, run}
use sts_delegate_rs.Replay.Memory.{default_store}
use sts_delegate_rs.Replay.Memory.Laws.{memory_store}
use sts_delegate_rs.Replay.Keys.{dpop_replay_key}
use sts_delegate_rs.Dpop.{
  DpopProofRequest, DpopBinding, VerifiedDpopClaims, Backend, es256, elliptic_curve, value_to_i64,
  canonical_htu,
}
use sts_delegate_rs.Dpop.Validated.{IsValidated, validate_dpop_proof-IsValidated}
use sts_delegate_rs.Dpop.Single.{proof_used_once}

abbrev header : Json
header = object (
    member_of "typ" (string "dpop+jwt") (
      member_of "alg" (string "ES256")
        (member_of "jwk" (object (member_of "kty" (string "EC") no_members)) no_members)))

abbrev claims : VerifiedDpopClaims
claims = record {
  jti = some (string "j");
  htm = some (string "POST");
  htu = some (string "https://a.example/token");
  iat = some (number (integer (pos 100)));
}

abbrev stand_in : Backend Unit Unit
stand_in = record {
  base64_decode = λ _. some [];
  json_from_slice = λ _. some header;
  algorithm_from_str = λ _. some es256;
  jwk_from_json = λ _. some tt;
  family = λ _. elliptic_curve;
  decoding_key = λ _. some tt;
  decode = λ _ _ _. some claims;
  thumbprint = λ _. "k";
  parse_url = λ _.
      some (record { scheme = "https"; host_str = some "a.example"; port = none; path = "/token" });
  lowercase = λ s. s;
  quoted = λ s. s;
}

abbrev request : ℕ → DpopProofRequest
request now = record {
  proof = "h.p.s";
  htm = "POST";
  htu = "https://a.example/token";
  now = pos now;
  clock_skew_leeway = pos 10;
}

abbrev sample_binding : DpopBinding
sample_binding = record { jkt = "k"; jti = "j"; iat = pos 100; replay_expires_at = pos 110 }

htu_test : canonical_htu stand_in "https://a.example:443/token?x" ≡ some "https://a.example/token"
unfolding canonical_htu
htu_test = refl

-- -5/2 is cut towards zero.
float_test : value_to_i64 (number (float true 5 (negsuc 0))) ≡ some (negsuc 1)
unfolding value_to_i64
float_test = refl

large_float_test : value_to_i64 (number (float false 1 (pos 64))) ≡ none
unfolding value_to_i64
large_float_test = refl

validate_dpop_proof-IsValidated_example : IsValidated stand_in (request 105) sample_binding
unfolding sts_delegate_rs.Dpop.validate_dpop_proof sts_delegate_rs.Prelude.◌>>=◌
    sts_delegate_rs.Dpop.check_proof_input sts_delegate_rs.Prelude.Text.is_blank
    sts_delegate_rs.Prelude.utf8_length sts_delegate_rs.Dpop.compact_parts
    sts_delegate_rs.Prelude.Text.split sts_delegate_rs.Dpop.decode_json_part
    sts_delegate_rs.Prelude.ok_or sts_delegate_rs.Dpop.validate_header
    sts_delegate_rs.Prelude.refuse_if sts_delegate_rs.Json.get sts_delegate_rs.Json.contains_key
    sts_delegate_rs.Dpop.ensure_asymmetric_key_matches_alg
    sts_delegate_rs.Dpop.verify_proof_signature sts_delegate_rs.Dpop.required_string_claim
    sts_delegate_rs.Dpop.validate_jti canonical_htu sts_delegate_rs.Dpop.default_port
    sts_delegate_rs.Dpop.float_to_i64 sts_delegate_rs.Dpop.validate_htm
    sts_delegate_rs.Dpop.validate_htu sts_delegate_rs.Dpop.validate_iat value_to_i64
    sts_delegate_rs.Prelude.saturating_add sts_delegate_rs.Prelude.Text.Decimal.show_i64
    sts_delegate_rs.Prelude.is_whitespace sts_delegate_rs.Prelude.Text.trim
    sts_delegate_rs.Prelude.Text.trim_end sts_delegate_rs.Prelude.Text.trim_start
validate_dpop_proof-IsValidated_example =
    validate_dpop_proof-IsValidated stand_in (request 105) sample_binding refl

abbrev no_digest : String → List ℕ
no_digest _ = []

abbrev recorded_at : ℕ → Call
recorded_at now = record { jti = dpop_replay_key no_digest "k" "j"; exp = pos 110; now = pos now }

proof_used_once_example :
    (memory_store.check_and_record tt
      (recorded_at 107)
      (run memory_store (memory_store.check_and_record tt (recorded_at 105) default_store).0 [])).1
    ≢ ok tt
unfolding sts_delegate_rs.Dpop.validate_dpop_proof sts_delegate_rs.Prelude.◌>>=◌
    sts_delegate_rs.Dpop.check_proof_input sts_delegate_rs.Prelude.Text.is_blank
    sts_delegate_rs.Prelude.utf8_length sts_delegate_rs.Dpop.compact_parts
    sts_delegate_rs.Prelude.Text.split sts_delegate_rs.Dpop.decode_json_part
    sts_delegate_rs.Prelude.ok_or sts_delegate_rs.Dpop.validate_header
    sts_delegate_rs.Prelude.refuse_if sts_delegate_rs.Json.get sts_delegate_rs.Json.contains_key
    sts_delegate_rs.Dpop.ensure_asymmetric_key_matches_alg
    sts_delegate_rs.Dpop.verify_proof_signature sts_delegate_rs.Dpop.required_string_claim
    sts_delegate_rs.Dpop.validate_jti canonical_htu sts_delegate_rs.Dpop.default_port
    sts_delegate_rs.Dpop.float_to_i64 sts_delegate_rs.Dpop.validate_htm
    sts_delegate_rs.Dpop.validate_htu sts_delegate_rs.Dpop.validate_iat value_to_i64
    sts_delegate_rs.Prelude.saturating_add sts_delegate_rs.Prelude.Text.Decimal.show_i64
    sts_delegate_rs.Prelude.is_whitespace sts_delegate_rs.Prelude.Text.trim
    sts_delegate_rs.Prelude.Text.trim_end sts_delegate_rs.Prelude.Text.trim_start
    sts_delegate_rs.Replay.Memory.check_and_record dpop_replay_key
    sts_delegate_rs.Replay.Keys.hex_lower default_store sts_delegate_rs.Replay.Memory.record_key
    sts_delegate_rs.Replay.Memory.make_room sts_delegate_rs.Replay.Memory.count_call
proof_used_once_example =
    proof_used_once stand_in no_digest memory_store (request 105) (request 107) sample_binding
      sample_binding default_store tt tt [] refl refl refl refl (omega arith, omega arith) refl tt
