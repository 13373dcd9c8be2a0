-- ===== src/Cli/Tests.antt =====
-- Runs of crates/sts-cli/src/main.rs: redaction, inspection, and a rotation.
use sts_delegate_rs.Prelude.{
  pos, member, ℕ, zero, suc, String, true, false, ◌≡◌, refl, arith, Option, none, some, List, [],
  ◌∷◌, Result, ok, err, ◌<◌, All, split_whitespace, text_eq, if◌then◌else◌, ◌⧺◌,
}
use sts_delegate_rs.Prelude.Text.Words.{IsSolid}
use sts_delegate_rs.Json.{
  Json, Members, member_of, number, integer, no_members, item, no_items, object, array, string,
}
use sts_delegate_rs.Jose.{PublicJwk, JwksDocument}
use sts_delegate_rs.Jose.Sample.{sample_jwk}
use sts_delegate_rs.Jose.Signer.{RsaBackend}
use sts_delegate_rs.Cli.{usage}
use sts_delegate_rs.Cli.Redaction.{char_count, take_shown, sanitize, sanitize_oauth_text}
use sts_delegate_rs.Cli.Redaction.Safe.{IsCompactToken, sanitize_oauth_text-no_token}
use sts_delegate_rs.Cli.Redaction.Leak.{long_word_printed}
use sts_delegate_rs.Cli.Claims.{safe_claims_summary}
use sts_delegate_rs.Cli.Canary.{required_names, render_canary_config_status}
use sts_delegate_rs.Cli.Exchange.{
  ExchangeArgs, ExchangeSecrets, resolve_token_endpoint, exchange_form,
}
use sts_delegate_rs.Cli.Report.{inspect_json, single_key_mode}
use sts_delegate_rs.Cli.Inspect.{Codecs, inspect_public_keys, normalize_jwks_value}
use sts_delegate_rs.Cli.Rotate.{
  KeyFiles, GeneratedRsaKey, RotationCalls, Staging, replace_keys, rotate_signing_key,
}
use sts_delegate_rs.Cli.Rotate.Rotated.{IsOutcome, replace_keys-IsOutcome}

-- Three segments of 50 characters: with its two dots, a token of 152.
abbrev segment : String
segment = "eyJhbGciOiJSUzI1NiIsImtpZCI6ImsifQeyJhbGciOiJSUzI1"

abbrev token_text : String
token_text = segment ⧺ "." ⧺ segment ⧺ "." ⧺ segment

abbrev short_token : String
short_token = "eyJhbGciOiJSUzI1NiIsImtpZCI6ImsifQ.eyJzdWIiOiJ1In0.c2ln"

redacted_test : sanitize_oauth_text ("bad token " ⧺ short_token) ≡ "bad token [redacted]"
unfolding sts_delegate_rs.Prelude.utf8_length sanitize_oauth_text
    sts_delegate_rs.Prelude.Text.join_spaces sts_delegate_rs.Prelude.Text.split_whitespace sanitize
    char_count take_shown sts_delegate_rs.Cli.Redaction.looks_like_compact_jwt
    sts_delegate_rs.Cli.Redaction.trim_token_end sts_delegate_rs.Cli.Redaction.trim_token_start
    sts_delegate_rs.Cli.Redaction.dots
redacted_test = refl

sanitize_oauth_text-no_token_example :
    All
      (λ w. ¬ IsCompactToken w)
      (split_whitespace (sanitize_oauth_text ("bad token " ⧺ short_token)))
sanitize_oauth_text-no_token_example = sanitize_oauth_text-no_token ("bad token " ⧺ short_token)

token_text-IsSolid : IsSolid token_text
unfolding sts_delegate_rs.Prelude.Text.is_blank
token_text-IsSolid = refl

token_text_long : char_count token_text ≡ 152
unfolding char_count
token_text_long = refl

long_word_printed_example : sanitize_oauth_text token_text ≡ take_shown 120 token_text ⧺ "..."
long_word_printed_example =
    long_word_printed token_text token_text-IsSolid (omega (arith, token_text_long))

abbrev zeros : ℕ → List ℕ
zeros zero = []
zeros (suc n) = 0 ∷ zeros n

abbrev new_jwk : PublicJwk
new_jwk = record sample_jwk { kid = "new" }

abbrev old_jwk : PublicJwk
old_jwk = record sample_jwk { kid = "old" }

abbrev private_members : Members
private_members =
    member_of "d" (string "AQ")
      (member_of "kid" (string "k") (member_of "kty" (string "RSA") no_members))

abbrev old_members : Members
old_members = member_of "e" (string "AQ") (
    member_of "kid" (string "old")
      (member_of "kty" (string "RSA") (member_of "n" (string "AQ") no_members)))

abbrev overlap_document : Json
overlap_document = object (member_of "keys" (array (item (object old_members) no_items)) no_members)

abbrev long_octets : List ℕ
long_octets = 128 ∷ zeros 255

abbrev sample_codecs : Codecs
sample_codecs = record {
  from_str =
      λ raw. if text_eq raw "private" then ok (object private_members) else ok overlap_document;
  jwk_from_value = λ value. ok old_jwk;
  jwk_members = λ jwk. no_members;
  base64_decode = λ s. ok long_octets;
  jose_error_text = λ e. e.message;
  sha256 = λ octets. octets;
}

abbrev sample_rsa : RsaBackend
sample_rsa = record {
  base64_decode = λ s. ok long_octets;
  base64_encode = λ octets. "AQ";
  private_from_json = λ raw. ok (record {
    kty = "RSA";
    kid = some "k";
    n = "AQ";
    e = "AQ";
    d = "AQ";
    p = "AQ";
    q = "AQ";
    dp = some "AQ";
    dq = some "AQ";
    qi = some "AQ";
  });
  to_der = λ integers. ok (1 ∷ []);
  key_pair_from_der = λ der. ok (record { public_modulus_len = 256; n = long_octets; e = 1 ∷ [] });
}

abbrev sample_files : KeyFiles
sample_files = record { key_file = ok "private"; extra_file = ok (some "overlap") }

abbrev sample_calls : RotationCalls
sample_calls = record {
  lock = ok tt;
  generated = ok (record { private_jwk_json = "new private"; public_jwk = new_jwk });
  write_extra = ok tt;
  write_key = ok tt;
}

abbrev new_staging : Staging
new_staging = record {
  current = sample_jwk;
  generated = record { private_jwk_json = "new private"; public_jwk = new_jwk };
  staged = record { keys = old_jwk ∷ sample_jwk ∷ [] };
}

rotated_test :
    replace_keys sample_codecs sample_rsa
      (λ document. "staged")
      "key"
      "extra"
      sample_files
      sample_calls
    ≡ (record { key_file = ok "new private"; extra_file = ok (some "staged") }, ok new_staging)
unfolding sts_delegate_rs.Prelude.◌>>=◌ sts_delegate_rs.Prelude.map_err
    sts_delegate_rs.Prelude.refuse_if sts_delegate_rs.Prelude.ok_or
    sts_delegate_rs.Jose.Keys.rsa_public_key_from_jwk sts_delegate_rs.Jose.Keys.decode_jwk_component
    sts_delegate_rs.Jose.Keys.decode_jwk_octets sts_delegate_rs.Jose.Keys.validate_public_components
    replace_keys sts_delegate_rs.Cli.Rotate.prepare
    sts_delegate_rs.Cli.Rotate.load_current_signing_key
    sts_delegate_rs.Cli.Rotate.parse_current_signing_key sts_delegate_rs.Json.contains_key
    sts_delegate_rs.Json.get sts_delegate_rs.Jose.Signer.from_private_jwk
    sts_delegate_rs.Jose.Keys.rsa_modulus_bits
    sts_delegate_rs.Jose.Signer.rsa_private_jwk_to_pkcs1_der
    sts_delegate_rs.Jose.Signer.decode_required_private_component
    sts_delegate_rs.Jose.Signer.positive_integer_block sts_delegate_rs.Jose.Signer.all_zero
    sts_delegate_rs.Jose.Signer.from_pkcs1_der sts_delegate_rs.Cli.Rotate.load_existing_overlap
    sts_delegate_rs.Cli.Inspect.parse_public_jwks_document normalize_jwks_value
    sts_delegate_rs.Cli.Inspect.objects inspect_public_keys
    sts_delegate_rs.Cli.Inspect.inspect_public_key sts_delegate_rs.Cli.Inspect.has_private_member
    sts_delegate_rs.Cli.Inspect.required_string sts_delegate_rs.Cli.Inspect.optional_string
    sts_delegate_rs.Cli.Inspect.rsa_modulus_bits_from_key
    sts_delegate_rs.Cli.Inspect.decode_base64url_uint
    sts_delegate_rs.Jose.Keys.rsa_public_key_bits_from_jwk sts_delegate_rs.Cli.Rotate.stage
rotated_test = refl

dry_run_test :
    rotate_signing_key sample_codecs sample_rsa
      (λ document. "staged")
      "key"
      "extra"
      true
      sample_files
      sample_calls
    ≡ (
      sample_files,
      ok
          "rotate_status=dry_run\ncurrent_kid=k\nwould_stage_kid=k\nwould_overlap_keys=2\nprivate_key_file=key\noverlap_jwks_file=extra\nrestart_required=true\n",
    )
unfolding sts_delegate_rs.Prelude.◌>>=◌ sts_delegate_rs.Prelude.map_err
    sts_delegate_rs.Prelude.refuse_if sts_delegate_rs.Prelude.ok_or
    sts_delegate_rs.Jose.Keys.rsa_public_key_from_jwk sts_delegate_rs.Jose.Keys.decode_jwk_component
    sts_delegate_rs.Jose.Keys.decode_jwk_octets sts_delegate_rs.Jose.Keys.validate_public_components
    rotate_signing_key sts_delegate_rs.Cli.Rotate.load_current_signing_key
    sts_delegate_rs.Cli.Rotate.parse_current_signing_key sts_delegate_rs.Json.contains_key
    sts_delegate_rs.Json.get sts_delegate_rs.Jose.Signer.from_private_jwk
    sts_delegate_rs.Jose.Keys.rsa_modulus_bits
    sts_delegate_rs.Jose.Signer.rsa_private_jwk_to_pkcs1_der
    sts_delegate_rs.Jose.Signer.decode_required_private_component
    sts_delegate_rs.Jose.Signer.positive_integer_block sts_delegate_rs.Jose.Signer.all_zero
    sts_delegate_rs.Jose.Signer.from_pkcs1_der sts_delegate_rs.Cli.Rotate.load_existing_overlap
    sts_delegate_rs.Cli.Inspect.parse_public_jwks_document normalize_jwks_value
    sts_delegate_rs.Cli.Inspect.objects inspect_public_keys
    sts_delegate_rs.Cli.Inspect.inspect_public_key sts_delegate_rs.Cli.Inspect.has_private_member
    sts_delegate_rs.Cli.Inspect.required_string sts_delegate_rs.Cli.Inspect.optional_string
    sts_delegate_rs.Cli.Inspect.rsa_modulus_bits_from_key
    sts_delegate_rs.Cli.Inspect.decode_base64url_uint
    sts_delegate_rs.Jose.Keys.rsa_public_key_bits_from_jwk
    sts_delegate_rs.Cli.Rotate.render_rotation_dry_run sanitize char_count take_shown
    sts_delegate_rs.Prelude.Text.Decimal.show_usize
dry_run_test = refl

private_inspected_test :
    inspect_public_keys sample_codecs 0 (private_members ∷ [])
    ≡ err (
        usage
          "key[0] contains non-public key material; refusing to inspect private or symmetric JWK input")
unfolding sts_delegate_rs.Prelude.◌>>=◌ sts_delegate_rs.Prelude.refuse_if inspect_public_keys
    sts_delegate_rs.Cli.Inspect.inspect_public_key sts_delegate_rs.Cli.Inspect.has_private_member
    sts_delegate_rs.Prelude.Text.Decimal.show_usize
private_inspected_test = refl

report_test :
    inspect_json sample_codecs "overlap" single_key_mode
    ≡ ok
        "key_status=public\nkey[0].kid=old\nkey[0].kty=RSA\nkey[0].use=(absent)\nkey[0].alg=(absent)\nkey[0].rsa_modulus_bits=2048\n"
unfolding sts_delegate_rs.Prelude.◌>>=◌ sts_delegate_rs.Prelude.map_err
    sts_delegate_rs.Prelude.refuse_if sts_delegate_rs.Prelude.ok_or inspect_json
    normalize_jwks_value sts_delegate_rs.Json.get sts_delegate_rs.Cli.Inspect.objects
    inspect_public_keys sts_delegate_rs.Cli.Inspect.inspect_public_key
    sts_delegate_rs.Cli.Inspect.has_private_member sts_delegate_rs.Cli.Inspect.required_string
    sts_delegate_rs.Cli.Inspect.optional_string
    sts_delegate_rs.Cli.Inspect.rsa_modulus_bits_from_key
    sts_delegate_rs.Cli.Inspect.decode_base64url_uint sts_delegate_rs.Cli.Report.render_inspection
    sts_delegate_rs.Cli.Report.render_keys sts_delegate_rs.Cli.Report.render_key
    sts_delegate_rs.Prelude.Text.Decimal.show_usize sanitize char_count take_shown
report_test = refl

abbrev token_claims : Json
token_claims = object (
    member_of "aud" (array (item (string "api") no_items)) (
      member_of "exp" (number (integer (pos 60)))
        (member_of "name" (string "Eve") (member_of "sub" (string "eve") no_members))))

summary_test :
    safe_claims_summary (λ s. 10 ∷ 11 ∷ []) token_claims
    ≡ object (
        member_of "aud" (array (item (string "api") no_items)) (
          member_of "exp"
            (number (integer (pos 60)))
            (member_of "sub_sha256_prefix" (string "0a0b") no_members)))
unfolding safe_claims_summary sts_delegate_rs.Json.get sts_delegate_rs.Json.insert_member
    sts_delegate_rs.Cli.Claims.insert_safe_string_claim
    sts_delegate_rs.Cli.Claims.insert_safe_audience_claim sts_delegate_rs.Prelude.text_ltb sanitize
    sts_delegate_rs.Cli.Claims.sha256_hex_prefix char_count sts_delegate_rs.Replay.Keys.hex_lower
    take_shown
summary_test = refl

canary_test :
    render_canary_config_status
      (λ name. member name ("CANARY_ACTOR_ID" ∷ "CANARY_SUBJECT_TOKEN" ∷ required_names))
    ≡ "canary_status=not_configured\nmissing=CANARY_ACTOR_PRIVATE_JWK or CANARY_ACTOR_PRIVATE_JWK_FILE\n"
unfolding render_canary_config_status sts_delegate_rs.Cli.Canary.missing_names
    sts_delegate_rs.Http.Startup.join_commas
canary_test = refl

abbrev sample_args : ExchangeArgs
sample_args = record {
  sts_url = some "https://a.example/ ";
  token_endpoint = none;
  subject_token_type = "jwt";
  actor_token_type = "jwt";
  client_assertion_type = "bearer";
  client_id = some "k";
  audience = "api" ∷ "api2" ∷ [];
  resource = [];
  scope = some "read";
  requested_token_type = none;
}

endpoint_test : resolve_token_endpoint sample_args ≡ ok "https://a.example/token"
unfolding sts_delegate_rs.Prelude.◌>>=◌ sts_delegate_rs.Prelude.refuse_if
    sts_delegate_rs.Prelude.Text.trim sts_delegate_rs.Prelude.Text.trim_end_matches
    resolve_token_endpoint
endpoint_test = refl

form_test :
    exchange_form sample_args
      (record { subject_token = "s"; actor_token = some "a"; client_assertion = none })
    ≡ ok (
        ("grant_type", "urn:ietf:params:oauth:grant-type:token-exchange")
        ∷ ("subject_token", "s")
        ∷ ("subject_token_type", "jwt")
        ∷ ("actor_token", "a")
        ∷ ("actor_token_type", "jwt")
        ∷ ("client_id", "k")
        ∷ ("audience", "api")
        ∷ ("audience", "api2")
        ∷ ("scope", "read")
        ∷ [])
unfolding sts_delegate_rs.Prelude.◌>>=◌ sts_delegate_rs.Prelude.refuse_if
    sts_delegate_rs.Prelude.Text.is_blank exchange_form sts_delegate_rs.Cli.Exchange.push_form_param
    sts_delegate_rs.Cli.Exchange.push_all
form_test = refl

blank_secret_test :
    exchange_form sample_args
      (record { subject_token = " "; actor_token = none; client_assertion = none })
    ≡ err (usage "exchange parameter subject_token must not be empty")
unfolding sts_delegate_rs.Prelude.◌>>=◌ sts_delegate_rs.Prelude.refuse_if
    sts_delegate_rs.Prelude.Text.is_blank exchange_form sts_delegate_rs.Cli.Exchange.push_form_param
blank_secret_test = refl

replace_keys-IsOutcome_example :
    IsOutcome sample_codecs sample_rsa
      (λ document. "staged")
      "key"
      "extra"
      sample_files
      (replace_keys sample_codecs sample_rsa
        (λ document. "staged")
        "key"
        "extra"
        sample_files
        sample_calls)
replace_keys-IsOutcome_example =
    replace_keys-IsOutcome sample_codecs sample_rsa (λ document. "staged") "key" "extra"
      sample_files sample_calls
