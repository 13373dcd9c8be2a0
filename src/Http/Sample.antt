-- ===== src/Http/Sample.antt =====
-- A deployment, a service and requests for runs of the handlers of crates/sts-http/src/lib.rs.
use sts_delegate_rs.Prelude.{pos, String, true, false, some, none, List, [], ◌∷◌, ok}
use sts_delegate_rs.Json.{string}
use sts_delegate_rs.Core.{MintedClaims}
use sts_delegate_rs.Jose.Sample.{sample_backend, sample_jwks}
use sts_delegate_rs.Verify.Claims.{SubjectTokenClaims, AssertionClaims}
use sts_delegate_rs.Verify.Anchors.{domain}
use sts_delegate_rs.Dpop
use sts_delegate_rs.Dpop.{VerifiedDpopClaims, es256, elliptic_curve}
use sts_delegate_rs.Config.{
  TargetPolicyEntry, ImpersonationPolicyEntry, both, auto, memory_backend, any_value, values,
}
use sts_delegate_rs.Config.Load.{RuntimeConfig}
use sts_delegate_rs.Replay.Memory.Laws.{memory_store}
use sts_delegate_rs.Http.Revocation.{no_revocations}
use sts_delegate_rs.Http.Headers.{Headers}
use sts_delegate_rs.Http.Service.{Service, no_metrics}
use sts_delegate_rs.Http.Exchange.{TokenResponse}
use sts_delegate_rs.Http.Deployment.{Deployment, RequestSurroundings}

abbrev pub read_entry : TargetPolicyEntry
read_entry = record {
  allowed_scopes = "read" ∷ "write" ∷ [];
  default_scopes = "read" ∷ [];
  accepted_token_signing_algs = [];
  pqc_required = false;
}

abbrev pub client_entry : ImpersonationPolicyEntry
client_entry = record { targets = any_value; subjects = values ("user" ∷ []) }

abbrev pub sample_config : RuntimeConfig
sample_config = record {
  idp_issuer = "https://a.example";
  expected_subject_aud = "api" ∷ [];
  our_issuer = "https://a.example";
  our_kid = "k";
  sts_secrets_dir = "./secrets";
  obo_sts_key_file = "key.json";
  idp_jwks_file = none;
  idp_jwks_uri = none;
  actor_jwks_file = "actor.json";
  client_jwks_file = "client.json";
  obo_sts_extra_jwks_file = none;
  actor_ids = "k" ∷ [];
  actor_id = "k";
  client_ids = "k" ∷ [];
  token_exchange_mode = both;
  client_auth_policy = auto;
  impersonation_policy = ("k", client_entry) ∷ [];
  target_policy = ("api", read_entry) ∷ [];
  sts_signing_alg = "RS256";
  pqc_preferred = false;
  allow_non_pqc = true;
  pqc_preferred_algs = "ML-DSA-65" ∷ [];
  inbound_pqc_preferred = false;
  allow_non_pqc_inbound = true;
  inbound_assertion_algs = "RS256" ∷ [];
  sts_signing_provider = "file";
  sts_signing_public_jwks_file = none;
  mock_external_signer_key_file = none;
  clock_skew_leeway = pos 10;
  scoped_token_ttl = pos 60;
  jwks_cache_max_age = pos 300;
  assertion_max_ttl = pos 300;
  max_seen_jti = 4;
  replay_backend = memory_backend;
  max_token_len = 64;
  require_subject_binding = false;
  subject_scope_bound_required = false;
  allow_insecure_jwks = false;
  allow_insecure_actor_jwks = false;
  allow_insecure_client_jwks = false;
  allow_insecure_key_file = false;
  allow_insecure_http_bind = false;
  actor_jwks_sha256 = none;
  client_jwks_sha256 = none;
  http_addr = "127.0.0.1:8888";
  enable_metrics = true;
  log_format_json = false;
  log_level = "info";
  audit_hash_chain = false;
}

-- An assertion of the identity "k" for an endpoint.
abbrev pub assertion_for : String → AssertionClaims
assertion_for audience = record {
  iss = "k";
  sub = "k";
  aud = string audience;
  exp = pos 1000;
  iat = none;
  jti = some "j";
  sub_tok_hash = none;
}

abbrev pub subject : SubjectTokenClaims
subject = record {
  iss = "https://a.example";
  sub = some "user";
  aud = string "api";
  scope = none;
  scp = none;
  exp = pos 950;
  nbf = none;
  iat = none;
  act = none;
  may_act = none;
  auth_time = none;
  acr = none;
  amr = none;
}

abbrev pub minted : MintedClaims
minted = record {
  iss = "https://a.example";
  sub = "user";
  aud = "api";
  scope = "read";
  iat = pos 900;
  exp = pos 950;
  jti = "n";
  client_id = "k";
  act = none;
  cnf_jkt = none;
  auth_time = none;
  acr = none;
  amr = [];
}

abbrev no_proof : VerifiedDpopClaims
no_proof = record { jti = none; htm = none; htu = none; iat = none }

abbrev dpop_stand_in : Dpop.Backend Unit Unit
dpop_stand_in = record {
  base64_decode = λ _. none;
  json_from_slice = λ _. none;
  algorithm_from_str = λ _. some es256;
  jwk_from_json = λ _. some tt;
  family = λ _. elliptic_curve;
  decoding_key = λ _. some tt;
  decode = λ _ _ _. some no_proof;
  thumbprint = λ _. "k";
  parse_url = λ _. none;
  lowercase = λ s. s;
  quoted = λ s. s;
}

abbrev pub sample_deployment : String → Deployment Unit Unit Unit Unit
sample_deployment audience = record {
  quoted = λ s. s;
  parse_url = λ _. ok (record {
    scheme = "https";
    host_str = some "a.example";
    has_query = false;
    has_fragment = false;
    host = some (domain "a.example");
  });
  sha256 = λ _. [];
  base64url = λ _. "";
  subject_backend = sample_backend subject;
  assertion_backend = sample_backend (assertion_for audience);
  minted_backend = record (sample_backend minted) {
    header_from_json = λ _. ok (record { alg = "RS256"; kid = some "k"; typ = some "at+jwt" });
  };
  dpop_backend = dpop_stand_in;
  config = sample_config;
  signer = record { alg = "RS256"; sign_claims = λ _. ok "signed" };
  published_jwks = sample_jwks;
  subject_jwks = sample_jwks;
  actor_jwks = sample_jwks;
  client_jwks = sample_jwks;
}

abbrev pub around : RequestSurroundings Unit
around = record {
  client_verify_now = pos 900;
  client_lifetime_now = pos 900;
  dpop_now = pos 900;
  subject_now = pos 900;
  exchange = record {
    verify_now = pos 900;
    lifetime_now = pos 900;
    now = pos 900;
    new_jti = "n";
    actor_env = tt;
    client_env = tt;
    dpop_env = tt;
  };
}

abbrev pub fresh_service : Service memory_store
fresh_service = record {
  replay = record {
    seen = [];
    calls_since_sweep = 0;
    max_seen = 4;
    sweep_every = 4;
    seen_poisoned = false;
    calls_poisoned = false;
  };
  revocations = no_revocations;
  metrics = no_metrics;
}

abbrev pub form_headers : Headers
form_headers = record {
  content_type = some "application/x-www-form-urlencoded; charset=utf-8";
  authorization = none;
  dpop = [];
}

abbrev pub exchange_pairs : List (String × String)
exchange_pairs =
    ("grant_type", "urn:ietf:params:oauth:grant-type:token-exchange")
    ∷ ("subject_token", "h.p.s")
    ∷ ("subject_token_type", "urn:ietf:params:oauth:token-type:access_token")
    ∷ ("audience", "api")
    ∷ []

abbrev pub actor_pairs : List (String × String)
actor_pairs =
    ("actor_token", "h.p.s")
    ∷ ("actor_token_type", "urn:ietf:params:oauth:token-type:jwt")
    ∷ exchange_pairs

abbrev pub client_pairs : List (String × String)
client_pairs =
    ("client_assertion", "h.p.s")
    ∷ ("client_assertion_type", "urn:ietf:params:oauth:client-assertion-type:jwt-bearer")
    ∷ []

-- The token expires with the subject's, before its own lifetime.
abbrev pub response : TokenResponse
response = record {
  access_token = "signed";
  issued_token_type = "urn:ietf:params:oauth:token-type:access_token";
  token_type = "Bearer";
  expires_in = pos 50;
  scope = "read";
  signing_alg_selected = "RS256";
  pqc_fallback = false;
  pqc_fallback_reason = none;
}
