-- ===== src/Config/Load.antt =====
-- `RuntimeConfig::from_source` of crates/sts-config/src/lib.rs: the whole configuration, read from the
-- environment's variables.
pub mod Loaded
mod Tests
use sts_delegate_rs.Prelude.{
  ℕ, ℤ, pos, String, Bool, true, false, not, ◌&&◌, ◌||◌, Option, none, some, List, [], ◌∷◌, Result,
  ok, err, ◌>>=◌, ◌>>◌, refuse_if, map_err, map_ok, any_char, ◌==◌, if◌then◌else◌, text_eq,
  is_empty, trim, trim_end_matches, is_whitespace, ◌⧺◌,
}
use sts_delegate_rs.Prelude.Text.Ascii.{to_ascii_lowercase, eq_ignore_ascii_case}
use sts_delegate_rs.Json.{Json}
use sts_delegate_rs.Verify.Anchors.{ParsedUrl, UrlHost, domain, ipv4, ipv6, is_missing}
use sts_delegate_rs.Config.{
  ConfigError, config_error, missing_env, invalid_value, ConfigSource, get_var, TokenExchangeMode,
  ClientAuthPolicy, ReplayBackend, TargetPolicy, ImpersonationPolicy,
}
use sts_delegate_rs.Config.Source.{
  or_default, or_else, trimmed, parse_bool, parse_bool_with_fallback, parse_env_int,
  parse_env_usize, require_expected_aud, parse_actor_ids, parse_client_ids, parse_log_level,
  parse_token_exchange_mode, parse_client_auth_policy, parse_replay_backend,
}
use sts_delegate_rs.Config.Algs.{
  parse_allow_non_pqc, parse_pqc_preferred_algs, parse_allow_non_pqc_inbound,
  parse_inbound_assertion_algs,
}
use sts_delegate_rs.Config.Policies.{parse_impersonation_policy, load_target_policy_from_source}

pub record RuntimeConfig : Type 0 where
  pub idp_issuer : String
  pub expected_subject_aud : List String
  pub our_issuer : String
  pub our_kid : String
  pub sts_secrets_dir : String
  pub obo_sts_key_file : String
  pub idp_jwks_file : Option String
  pub idp_jwks_uri : Option String
  pub actor_jwks_file : String
  pub client_jwks_file : String
  pub obo_sts_extra_jwks_file : Option String
  pub actor_ids : List String
  pub actor_id : String
  pub client_ids : List String
  pub token_exchange_mode : TokenExchangeMode
  pub client_auth_policy : ClientAuthPolicy
  pub impersonation_policy : ImpersonationPolicy
  pub target_policy : TargetPolicy
  pub sts_signing_alg : String
  pub pqc_preferred : Bool
  pub allow_non_pqc : Bool
  pub pqc_preferred_algs : List String
  pub inbound_pqc_preferred : Bool
  pub allow_non_pqc_inbound : Bool
  pub inbound_assertion_algs : List String
  pub sts_signing_provider : String
  pub sts_signing_public_jwks_file : Option String
  pub mock_external_signer_key_file : Option String
  pub clock_skew_leeway : ℤ
  pub scoped_token_ttl : ℤ
  pub jwks_cache_max_age : ℤ
  pub assertion_max_ttl : ℤ
  pub max_seen_jti : ℕ
  pub replay_backend : ReplayBackend
  pub max_token_len : ℕ
  pub require_subject_binding : Bool
  pub subject_scope_bound_required : Bool
  pub allow_insecure_jwks : Bool
  pub allow_insecure_actor_jwks : Bool
  pub allow_insecure_client_jwks : Bool
  pub allow_insecure_key_file : Bool
  pub allow_insecure_http_bind : Bool
  pub actor_jwks_sha256 : Option String
  pub client_jwks_sha256 : Option String
  pub http_addr : String
  pub enable_metrics : Bool
  pub log_format_json : Bool
  pub log_level : String
  pub audit_hash_chain : Bool

abbrev pub first_or_empty : List String → String
first_or_empty [] = ""
first_or_empty (id ∷ ids) = id

abbrev is_json_format : Option String → Bool
is_json_format none = false
is_json_format (some v) = eq_ignore_ascii_case (trim v) "json"

-- `GATEWAY_ACTOR_ID`, or the first of the actor identities.
unfoldable pub default_actor_id : ConfigSource → List String → String
default_actor_id source actor_ids =
    or_default (trimmed (get_var "GATEWAY_ACTOR_ID" source)) (first_or_empty actor_ids)

-- The match on the host of crates/sts-config/src/lib.rs.
unfoldable pub is_loopback : Option UrlHost → Bool
is_loopback none = false
is_loopback (some (domain host)) = eq_ignore_ascii_case host "localhost"
is_loopback (some (ipv4 a b c d)) = a == 127
is_loopback (some (ipv6 n)) = n == 1

module _ (parse_url : String → Result ParsedUrl String) where
  -- The tests on a parsed issuer, and their messages.
  unfoldable pub check_issuer_url : String → ParsedUrl → Result Unit ConfigError
  check_issuer_url key parsed =
      if is_missing parsed.host_str
      then err (config_error invalid_value key "issuer must include a host")
      else if parsed.has_query || parsed.has_fragment
      then err
          (config_error invalid_value key "issuer must not contain a query or fragment component")
      else if not (text_eq parsed.scheme "https")
          && not (text_eq parsed.scheme "http" && is_loopback parsed.host)
      then err (
          config_error invalid_value key
            "issuer must use https, except http is allowed for loopback local development")
      else ok tt

  unfoldable pub validate_issuer : String → String → Result String ConfigError
  validate_issuer value key = do
    refuse_if (is_empty (trim value)) (config_error invalid_value key "issuer must not be empty")
    refuse_if (any_char is_whitespace (trim value))
        (config_error invalid_value key "issuer must not contain whitespace")
    parsed ←
        map_err (λ e. config_error invalid_value key ("issuer must be an absolute URL: " ⧺ e))
          (parse_url (trim value))
    check_issuer_url key parsed
    ok (trim_end_matches b'/' (trim value))

  issuer_of : Option String → Option String → Result String ConfigError
  issuer_of (some value) okta = validate_issuer value "IDP_ISSUER"
  issuer_of none (some value) = validate_issuer value "OKTA_ISSUER"
  issuer_of none none = err (
      config_error missing_env "IDP_ISSUER"
        "set IDP_ISSUER (or OKTA_ISSUER) to the OIDC issuer that signs subject tokens")

  unfoldable pub require_issuer : ConfigSource → Result String ConfigError
  unfolding issuer_of
  require_issuer source = issuer_of (get_var "IDP_ISSUER" source) (get_var "OKTA_ISSUER" source)

-- The `url` crate, `PathBuf::join`, the text `{:?}` of a string, serde_json and the file system.
module _ (parse_url : String → Result ParsedUrl String) (join : String → String → String)
    (quoted : String → String) (from_str : String → Result Json String)
    (read_to_string : String → Option String) where
  unfoldable pub from_source : ConfigSource → Result RuntimeConfig ConfigError
  from_source source = do
    idp_issuer ← require_issuer parse_url source
    expected_subject_aud ← require_expected_aud source
    let sts_secrets_dir = or_default (get_var "STS_SECRETS_DIR" source) "./secrets"
    let actor_jwks_file =
        or_default (get_var "ACTOR_JWKS_FILE" source) (join sts_secrets_dir "actor_jwks.json")
    actor_ids ← parse_actor_ids source
    refuse_if (is_empty (default_actor_id source actor_ids))
        (config_error missing_env "ACTOR_IDS" "no actor identities configured")
    let inbound_pqc_preferred = parse_bool source "STS_INBOUND_PQC_PREFERRED" true
    let allow_non_pqc_inbound = parse_allow_non_pqc_inbound source inbound_pqc_preferred
    inbound_assertion_algs ←
        parse_inbound_assertion_algs source inbound_pqc_preferred allow_non_pqc_inbound
    our_issuer ←
        validate_issuer parse_url
          (or_default (get_var "OBO_STS_ISSUER" source) "http://localhost:8888/") "OBO_STS_ISSUER"
    token_exchange_mode ← parse_token_exchange_mode quoted source
    client_auth_policy ← parse_client_auth_policy quoted source
    impersonation_policy ← parse_impersonation_policy from_str source
    target_policy ← load_target_policy_from_source from_str read_to_string source
    pqc_preferred_algs ← parse_pqc_preferred_algs source
    clock_skew_leeway ← parse_env_int source "CLOCK_SKEW_LEEWAY" (pos 30) (some (pos 0)) none
    scoped_token_ttl ←
        parse_env_int source "SCOPED_TOKEN_TTL" (pos 300) (some (pos 1)) (some (pos 3600))
    jwks_cache_max_age ← parse_env_int source "JWKS_CACHE_MAX_AGE" (pos 300) (some (pos 0)) none
    assertion_max_ttl ← parse_env_int source "ASSERTION_MAX_TTL" (pos 300) (some (pos 1)) none
    max_seen_jti ← parse_env_usize source "MAX_SEEN_JTI" 100000 (some 1) none
    replay_backend ← parse_replay_backend quoted source
    max_token_len ← parse_env_usize source "MAX_TOKEN_LEN" 8192 (some 1) none
    ok (record {
      idp_issuer = idp_issuer;
      expected_subject_aud = expected_subject_aud;
      our_issuer = our_issuer;
      our_kid = or_default (trimmed (get_var "STS_SIGNING_KID" source)) "sts-delegate-key-1";
      sts_secrets_dir = sts_secrets_dir;
      obo_sts_key_file =
          or_default (get_var "OBO_STS_KEY_FILE" source)
            (join sts_secrets_dir "obo_sts_private_key.json");
      idp_jwks_file = trimmed (get_var "IDP_JWKS_FILE" source);
      idp_jwks_uri =
          trimmed (or_else (get_var "IDP_JWKS_URI" source) (get_var "OKTA_JWKS_URL" source));
      actor_jwks_file = actor_jwks_file;
      client_jwks_file = or_default (get_var "CLIENT_JWKS_FILE" source) actor_jwks_file;
      obo_sts_extra_jwks_file = trimmed (get_var "OBO_STS_EXTRA_JWKS_FILE" source);
      actor_ids = actor_ids;
      actor_id = default_actor_id source actor_ids;
      client_ids = parse_client_ids source actor_ids;
      token_exchange_mode = token_exchange_mode;
      client_auth_policy = client_auth_policy;
      impersonation_policy = impersonation_policy;
      target_policy = target_policy;
      sts_signing_alg = or_default (trimmed (get_var "STS_SIGNING_ALG" source)) "ML-DSA-65";
      pqc_preferred = parse_bool source "STS_PQC_PREFERRED" true;
      allow_non_pqc = parse_allow_non_pqc source;
      pqc_preferred_algs = pqc_preferred_algs;
      inbound_pqc_preferred = inbound_pqc_preferred;
      allow_non_pqc_inbound = allow_non_pqc_inbound;
      inbound_assertion_algs = inbound_assertion_algs;
      sts_signing_provider =
          to_ascii_lowercase (trim (or_default (get_var "STS_SIGNING_PROVIDER" source) "file"));
      sts_signing_public_jwks_file = trimmed (get_var "STS_SIGNING_PUBLIC_JWKS_FILE" source);
      mock_external_signer_key_file = trimmed (get_var "STS_MOCK_EXTERNAL_SIGNER_KEY_FILE" source);
      clock_skew_leeway = clock_skew_leeway;
      scoped_token_ttl = scoped_token_ttl;
      jwks_cache_max_age = jwks_cache_max_age;
      assertion_max_ttl = assertion_max_ttl;
      max_seen_jti = max_seen_jti;
      replay_backend = replay_backend;
      max_token_len = max_token_len;
      require_subject_binding = parse_bool source "REQUIRE_SUBJECT_BINDING" true;
      subject_scope_bound_required = parse_bool source "SUBJECT_SCOPE_BOUND_REQUIRED" false;
      allow_insecure_jwks = parse_bool source "ALLOW_INSECURE_JWKS" false;
      allow_insecure_actor_jwks = parse_bool source "ALLOW_INSECURE_ACTOR_JWKS" false;
      allow_insecure_client_jwks =
          parse_bool_with_fallback source "ALLOW_INSECURE_CLIENT_JWKS" "ALLOW_INSECURE_ACTOR_JWKS"
            false;
      allow_insecure_key_file = parse_bool source "ALLOW_INSECURE_KEY_FILE" false;
      allow_insecure_http_bind = parse_bool source "ALLOW_INSECURE_HTTP_BIND" false;
      actor_jwks_sha256 = trimmed (get_var "ACTOR_JWKS_SHA256" source);
      client_jwks_sha256 =
          or_else (trimmed (get_var "CLIENT_JWKS_SHA256" source))
            (trimmed (get_var "ACTOR_JWKS_SHA256" source));
      http_addr = trim (or_default (get_var "STS_HTTP_ADDR" source) "127.0.0.1:8888");
      enable_metrics = parse_bool source "STS_ENABLE_METRICS" false;
      log_format_json =
          parse_bool source "LOG_FORMAT_JSON" false || is_json_format (get_var "LOG_FORMAT" source);
      log_level = parse_log_level source;
      audit_hash_chain = parse_bool source "STS_AUDIT_HASH_CHAIN" false;
    })
