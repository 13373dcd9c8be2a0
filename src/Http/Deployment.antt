-- ===== src/Http/Deployment.antt =====
-- `HttpState` of crates/sts-http/src/lib.rs but for what a request changes (Http/Service): the
-- configuration, the signer and the key sets, beside the functions of other crates.
use sts_delegate_rs.Prelude.{ℕ, ℤ, String, List, Result, ◌⧺◌, trim_end_matches}
use sts_delegate_rs.Core.{MintedClaims}
use sts_delegate_rs.Jose.{JwksDocument}
use sts_delegate_rs.Jose.Verify.{Backend}
use sts_delegate_rs.Verify.Anchors.{ParsedUrl}
use sts_delegate_rs.Verify.Claims.{SubjectTokenClaims, AssertionClaims}
use sts_delegate_rs.Dpop
use sts_delegate_rs.Config.Load.{RuntimeConfig}
use sts_delegate_rs.Http.Exchange.{ExchangeConfig, JoseSigner, Surroundings}

-- The functions are those of jsonwebtoken and OpenSSL for three types of claims, of the DPoP proof's
-- crates, of the url crate, SHA-256, base64url, and the text `{:?}` of a string.
pub record Deployment (RsaKey MlDsaKey Jwk Key : Type 0) : Type 0 where
  pub quoted : String → String
  pub parse_url : String → Result ParsedUrl String
  pub sha256 : String → List ℕ
  pub base64url : List ℕ → String
  pub subject_backend : Backend SubjectTokenClaims RsaKey MlDsaKey
  pub assertion_backend : Backend AssertionClaims RsaKey MlDsaKey
  pub minted_backend : Backend MintedClaims RsaKey MlDsaKey
  pub dpop_backend : Dpop.Backend Jwk Key
  pub config : RuntimeConfig
  pub signer : JoseSigner
  pub published_jwks : JwksDocument
  pub subject_jwks : JwksDocument
  pub actor_jwks : JwksDocument
  pub client_jwks : JwksDocument

-- The part of the configuration that an exchange reads.
abbrev pub exchange_config : RuntimeConfig → ExchangeConfig
exchange_config config = record {
  our_issuer = config.our_issuer;
  inbound_assertion_algs = config.inbound_assertion_algs;
  clock_skew_leeway = config.clock_skew_leeway;
  assertion_max_ttl = config.assertion_max_ttl;
  require_subject_binding = config.require_subject_binding;
  actor_ids = config.actor_ids;
  client_ids = config.client_ids;
  scoped_token_ttl = config.scoped_token_ttl;
  target_policy = config.target_policy;
  signing = record {
    pqc_preferred = config.pqc_preferred;
    pqc_preferred_algs = config.pqc_preferred_algs;
    allow_non_pqc = config.allow_non_pqc;
  };
}

abbrev pub endpoint : RuntimeConfig → String → String
endpoint config path = trim_end_matches b'/' config.our_issuer ⧺ path

abbrev pub introspection_endpoint : RuntimeConfig → String
introspection_endpoint config = endpoint config "/introspect"

abbrev pub revocation_endpoint : RuntimeConfig → String
revocation_endpoint config = endpoint config "/revoke"

-- What the environment gives to one request: the clock at its readings, and the rest.
pub record RequestSurroundings (Env : Type 0) : Type 0 where
  pub client_verify_now : ℤ
  pub client_lifetime_now : ℤ
  pub dpop_now : ℤ
  pub subject_now : ℤ
  pub exchange : Surroundings Env
