-- ===== src/Config/Load/Tests.antt =====
-- Runs of the configuration of crates/sts-config/src/lib.rs on concrete variables.
use sts_delegate_rs.Prelude.{
  ℕ, ℤ, pos, ◌≤ℤ◌, String, ◌≡◌, refl, Bool, true, false, Option, none, some, List, [], ◌∷◌, Result,
  ok, err, map_err, lookup, text_eq, if◌then◌else◌, arith,
}
use sts_delegate_rs.Prelude.Text.Decimal.{show_i64}
use sts_delegate_rs.Json.{
  Json, Members, string, object, array, no_items, item, no_members, member_of, as_object,
}
use sts_delegate_rs.Verify.Anchors
use sts_delegate_rs.Verify.Anchors.{ParsedUrl, domain}
use sts_delegate_rs.Config.{
  ConfigSource, ConfigError, TargetPolicyEntry, ImpersonationPolicyEntry, any_value, values, auto,
  delegation, memory_backend, get_var, config_error, missing_env,
}
use sts_delegate_rs.Config.Source.{
  from_pairs, parse_env_int, parse_client_auth_policy, split_csv_set, parse_bool,
}
use sts_delegate_rs.Config.Source.Values.{parse_env_int-show_i64}
use sts_delegate_rs.Config.Algs.{parse_inbound_assertion_algs, dedup_preserving_order}
use sts_delegate_rs.Config.Policies.{load_target_policy_from_source, normalize_impersonation_policy}
use sts_delegate_rs.Config.Policies.Granted.{Granted, policy_document, load_target_policy-Granted}
use sts_delegate_rs.Config.Policies.Permitted.{Permitted, normalize_impersonation-Permitted}
use sts_delegate_rs.Config.Load.{RuntimeConfig, from_source, require_issuer, validate_issuer}
use sts_delegate_rs.Config.Load.Loaded.{
  IsLoaded, from_source-IsLoaded, validate_issuer-agrees, config_message, verify_message,
}

abbrev source : ConfigSource
source =
    ("IDP_ISSUER", "https://issuer.example/")
    ∷ ("EXPECTED_SUBJECT_AUD", "api://obo, ,api://b")
    ∷ ("ACTOR_IDS", "chat-mcp,agent")
    ∷ ("SCOPED_TOKEN_TTL", " 60 ")
    ∷ ("TARGET_POLICY_JSON", "{}")
    ∷ []

abbrev url : ParsedUrl
url = record {
  scheme = "https";
  host_str = some "issuer.example";
  has_query = false;
  has_fragment = false;
  host = some (domain "issuer.example");
}

abbrev parse_url : String → Result ParsedUrl String
parse_url s =
    if text_eq s "http://localhost:8888/"
    then ok (record url { scheme = "http"; host = some (domain "LocalHost") })
    else ok url

abbrev join : String → String → String
join dir file = file

abbrev quoted : String → String
quoted s = s

abbrev policy : Json
policy = object (
    member_of "https://api.example"
      (object (
        member_of "scopes" (array (item (string "read") (item (string "write") no_items)))
          no_members))
      no_members)

abbrev entry : TargetPolicyEntry
entry = record {
  allowed_scopes = "read" ∷ "write" ∷ [];
  default_scopes = [];
  accepted_token_signing_algs = [];
  pqc_required = false;
}

abbrev from_str : String → Result Json String
from_str raw = ok policy

abbrev read_to_string : String → Option String
read_to_string path = none

abbrev outcome : Result RuntimeConfig ConfigError
outcome = from_source parse_url join quoted from_str read_to_string source

-- The file `./secrets` plus a name, as `join` gives it here.
abbrev loaded : RuntimeConfig
loaded = record {
  idp_issuer = "https://issuer.example";
  expected_subject_aud = "api://b" ∷ "api://obo" ∷ [];
  our_issuer = "http://localhost:8888";
  our_kid = "sts-delegate-key-1";
  sts_secrets_dir = "./secrets";
  obo_sts_key_file = "obo_sts_private_key.json";
  idp_jwks_file = none;
  idp_jwks_uri = none;
  actor_jwks_file = "actor_jwks.json";
  client_jwks_file = "actor_jwks.json";
  obo_sts_extra_jwks_file = none;
  actor_ids = "agent" ∷ "chat-mcp" ∷ [];
  actor_id = "agent";
  client_ids = "agent" ∷ "chat-mcp" ∷ [];
  token_exchange_mode = delegation;
  client_auth_policy = auto;
  impersonation_policy = [];
  target_policy = ("https://api.example", entry) ∷ [];
  sts_signing_alg = "ML-DSA-65";
  pqc_preferred = true;
  allow_non_pqc = false;
  pqc_preferred_algs = "ML-DSA-65" ∷ "ML-DSA-87" ∷ "ML-DSA-44" ∷ [];
  inbound_pqc_preferred = true;
  allow_non_pqc_inbound = false;
  inbound_assertion_algs = "ML-DSA-65" ∷ [];
  sts_signing_provider = "file";
  sts_signing_public_jwks_file = none;
  mock_external_signer_key_file = none;
  clock_skew_leeway = pos 30;
  scoped_token_ttl = pos 60;
  jwks_cache_max_age = pos 300;
  assertion_max_ttl = pos 300;
  max_seen_jti = 100000;
  replay_backend = memory_backend;
  max_token_len = 8192;
  require_subject_binding = true;
  subject_scope_bound_required = false;
  allow_insecure_jwks = false;
  allow_insecure_actor_jwks = false;
  allow_insecure_client_jwks = false;
  allow_insecure_key_file = false;
  allow_insecure_http_bind = false;
  actor_jwks_sha256 = none;
  client_jwks_sha256 = none;
  http_addr = "127.0.0.1:8888";
  enable_metrics = false;
  log_format_json = false;
  log_level = "info";
  audit_hash_chain = false;
}

sorted_set : split_csv_set "b, a ,,b,ab" ≡ "a" ∷ "ab" ∷ "b" ∷ []
unfolding split_csv_set
sorted_set = refl

first_kept : dedup_preserving_order ("b" ∷ "a" ∷ "b" ∷ []) ≡ "b" ∷ "a" ∷ []
unfolding dedup_preserving_order sts_delegate_rs.Prelude.insert_text
first_kept = refl

flag_in_any_case : parse_bool (("A", " True ") ∷ []) "A" false ≡ true
unfolding parse_bool
flag_in_any_case = refl

client_auth_alias :
    parse_client_auth_policy quoted (("CLIENT_AUTH_POLICY", "ACTOR_TOKEN_ALLOWED") ∷ []) ≡ ok auto
unfolding parse_client_auth_policy sts_delegate_rs.Prelude.Text.Ascii.to_ascii_lowercase
    sts_delegate_rs.Prelude.trim
client_auth_alias = refl

no_issuer :
    require_issuer parse_url []
    ≡ err (
        config_error missing_env "IDP_ISSUER"
          "set IDP_ISSUER (or OKTA_ISSUER) to the OIDC issuer that signs subject tokens")
unfolding require_issuer
no_issuer = refl

whole_configuration : outcome ≡ ok loaded
unfolding from_source sts_delegate_rs.Prelude.◌>>=◌ require_issuer validate_issuer
    sts_delegate_rs.Prelude.refuse_if sts_delegate_rs.Prelude.trim map_err
    sts_delegate_rs.Config.Load.check_issuer_url sts_delegate_rs.Config.Source.require_expected_aud
    sts_delegate_rs.Prelude.ok_or split_csv_set sts_delegate_rs.Config.Source.parse_actor_ids
    sts_delegate_rs.Config.Load.default_actor_id parse_inbound_assertion_algs
    sts_delegate_rs.Config.Algs.check_inbound_algs dedup_preserving_order parse_bool
    sts_delegate_rs.Config.Algs.check_supported
    sts_delegate_rs.Config.Algs.is_pqc_inbound_assertion_alg
    sts_delegate_rs.Config.Algs.is_supported_inbound_assertion_alg
    sts_delegate_rs.Config.Algs.parse_allow_non_pqc
    sts_delegate_rs.Config.Algs.parse_allow_non_pqc_inbound
    sts_delegate_rs.Config.Algs.parse_pqc_preferred_algs sts_delegate_rs.Config.Load.issuer_of
    sts_delegate_rs.Config.Policies.collect_clients sts_delegate_rs.Config.Policies.collect_scopes
    sts_delegate_rs.Config.Policies.collect_strings sts_delegate_rs.Config.Policies.collect_targets
    sts_delegate_rs.Config.Policies.collect_values
    sts_delegate_rs.Config.Policies.impersonation_policy_entry load_target_policy_from_source
    normalize_impersonation_policy sts_delegate_rs.Config.Policies.normalize_target_policy
    sts_delegate_rs.Config.Policies.parse_impersonation_policy
    sts_delegate_rs.Config.Policies.parse_impersonation_selector
    sts_delegate_rs.Config.Policies.parse_policy_bool sts_delegate_rs.Config.Policies.parse_scopes
    sts_delegate_rs.Config.Policies.parse_string_set
    sts_delegate_rs.Config.Policies.target_policy_entry
    sts_delegate_rs.Config.Source.parse_bool_with_fallback parse_client_auth_policy
    sts_delegate_rs.Config.Source.parse_client_ids parse_env_int
    sts_delegate_rs.Config.Source.parse_env_usize sts_delegate_rs.Config.Source.parse_log_level
    sts_delegate_rs.Config.Source.parse_replay_backend
    sts_delegate_rs.Config.Source.parse_token_exchange_mode
    sts_delegate_rs.Config.Source.split_csv_vec sts_delegate_rs.Json.get
    sts_delegate_rs.Prelude.extend_texts sts_delegate_rs.Prelude.insert_text
    sts_delegate_rs.Prelude.Text.Ascii.eq_ignore_ascii_case
    sts_delegate_rs.Prelude.Text.Ascii.to_ascii_lowercase
    sts_delegate_rs.Prelude.Text.Decimal.parse_i64 sts_delegate_rs.Prelude.Text.Decimal.parse_usize
    show_i64 sts_delegate_rs.Prelude.Text.Decimal.show_usize sts_delegate_rs.Prelude.is_whitespace
    sts_delegate_rs.Prelude.split sts_delegate_rs.Prelude.Text.trim_end
    sts_delegate_rs.Prelude.Text.trim_end_matches sts_delegate_rs.Prelude.Text.trim_start
    sts_delegate_rs.Config.Load.is_loopback
whole_configuration = refl

from_source-IsLoaded_example : IsLoaded parse_url loaded
from_source-IsLoaded_example =
    from_source-IsLoaded parse_url join quoted from_str read_to_string source loaded
      whole_configuration

validate_issuer-agrees_example :
    map_err config_message (validate_issuer parse_url " https://issuer.example/" "IDP_ISSUER")
    ≡ map_err verify_message (Anchors.validate_issuer parse_url " https://issuer.example/")
validate_issuer-agrees_example =
    validate_issuer-agrees parse_url " https://issuer.example/" "IDP_ISSUER"

abbrev ttl_source : ConfigSource
ttl_source = ("SCOPED_TOKEN_TTL", "3600") ∷ []

shown_ttl : get_var "SCOPED_TOKEN_TTL" ttl_source ≡ some (show_i64 (pos 3600))
unfolding show_i64
shown_ttl = refl

parse_env_int-show_i64_example :
    parse_env_int ttl_source "SCOPED_TOKEN_TTL" (pos 300) (some (pos 1)) (some (pos 3600))
    ≡ ok (pos 3600)
parse_env_int-show_i64_example =
    parse_env_int-show_i64 ttl_source "SCOPED_TOKEN_TTL" (pos 300) (pos 1) (pos 3600) (pos 3600)
      shown_ttl (omega arith) (omega arith) (omega arith)

loaded_policy :
    load_target_policy_from_source from_str read_to_string source ≡ ok loaded.target_policy
unfolding load_target_policy_from_source sts_delegate_rs.Prelude.◌>>=◌ map_err
    sts_delegate_rs.Config.Policies.normalize_target_policy sts_delegate_rs.Prelude.ok_or
    sts_delegate_rs.Config.Policies.collect_targets
    sts_delegate_rs.Config.Policies.target_policy_entry sts_delegate_rs.Config.Policies.parse_scopes
    sts_delegate_rs.Json.get sts_delegate_rs.Config.Policies.collect_scopes
    sts_delegate_rs.Config.Policies.parse_string_set
    sts_delegate_rs.Config.Policies.parse_policy_bool sts_delegate_rs.Prelude.insert_text
loaded_policy = refl

load_target_policy-Granted_example :
    (raw : String) × (policy_document read_to_string source ≡ some raw)
    × ((parsed : Json) × (from_str raw ≡ ok parsed)
        × ((map : Members) × (as_object parsed ≡ some map)
            × Granted "https://api.example" entry map))
load_target_policy-Granted_example =
    load_target_policy-Granted from_str read_to_string source loaded.target_policy
      "https://api.example" entry loaded_policy refl

abbrev clients : Json
clients = object (
    member_of "web"
      (object (
        member_of "targets" (string "*")
          (member_of "subjects" (array (item (string "ann") no_items)) no_members)))
      no_members)

abbrev web : ImpersonationPolicyEntry
web = record { targets = any_value; subjects = values ("ann" ∷ []) }

read_clients : normalize_impersonation_policy clients ≡ ok (("web", web) ∷ [])
unfolding normalize_impersonation_policy sts_delegate_rs.Prelude.◌>>=◌ sts_delegate_rs.Prelude.ok_or
    sts_delegate_rs.Config.Policies.collect_clients
    sts_delegate_rs.Config.Policies.impersonation_policy_entry
    sts_delegate_rs.Config.Policies.parse_impersonation_selector sts_delegate_rs.Json.get
    sts_delegate_rs.Config.Policies.collect_values sts_delegate_rs.Prelude.insert_text
read_clients = refl

normalize_impersonation-Permitted_example :
    (map : Members) × (as_object clients ≡ some map) × Permitted "web" web map
normalize_impersonation-Permitted_example =
    normalize_impersonation-Permitted clients (("web", web) ∷ []) "web" web read_clients refl
