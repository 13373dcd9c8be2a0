-- ===== src/Http/Exchange.antt =====
-- The delegation exchange of crates/sts-http/src/lib.rs, after the request was authenticated and its
-- subject token verified. Signing is the `JoseSigner` interface; the new token's `jti` is random, an
-- argument; the clock is read three times.
pub mod Delegation
mod Tests
use sts_delegate_rs.Prelude.{
  ℕ, ℤ, pos, String, Bool, true, false, Option, none, some, List, [], ◌∷◌, ◌++◌, map, Result, ok,
  err, map_err, ok_or, traverse, if◌then◌else◌, add_i64, sub_i64, min_ℤ, max_ℤ, is_empty, is_blank,
  trim, trim_end_matches, ◌⧺◌,
}
use sts_delegate_rs.Core.{
  MintedClaims, ActClaim, ExchangeRequest, access_token_type, build_act, build_scoped_payload,
}
use sts_delegate_rs.Jose.{JoseError, JwksDocument}
use sts_delegate_rs.Jose.Verify.{Backend}
use sts_delegate_rs.Verify.Anchors.{ParsedUrl}
use sts_delegate_rs.Verify.Claims.{SubjectTokenClaims, AssertionClaims}
use sts_delegate_rs.Verify.Tokens.{verify_assertion_with_allowed_alg_refs}
use sts_delegate_rs.Dpop.{DpopBinding}
use sts_delegate_rs.Replay.Store.{Call, ReplayStore}
use sts_delegate_rs.Replay.Keys.{dpop_replay_key}
use sts_delegate_rs.Config.{TargetPolicy}
use sts_delegate_rs.Http.{
  HttpError, server_error, invalid_request, invalid_client, map_replay_error,
  map_client_assertion_replay_error, map_dpop_replay_error,
}
use sts_delegate_rs.Http.Policy.{
  SigningConfig, SigningDecision, validate_actor_identity, gate_may_act, act_claim_from_value,
  signing_decision_for_target,
}
use sts_delegate_rs.Http.Service.{Handler, ◌>>=◌, ◌>>◌, lift, check_replay, count_signing}

-- The fields of the configuration that the exchange reads.
pub record ExchangeConfig : Type 0 where
  pub our_issuer : String
  pub inbound_assertion_algs : List String
  pub clock_skew_leeway : ℤ
  pub assertion_max_ttl : ℤ
  pub require_subject_binding : Bool
  pub actor_ids : List String
  pub client_ids : List String
  pub scoped_token_ttl : ℤ
  pub target_policy : TargetPolicy
  pub signing : SigningConfig

-- The part of `JoseSigner` that an exchange uses.
pub record JoseSigner : Type 0 where
  pub alg : String
  pub sign_claims : MintedClaims → Result String JoseError

pub record VerifiedExchange : Type 0 where
  pub subject_claims : SubjectTokenClaims
  pub subject_sub : String
  pub target : String
  pub scope : String
  pub client_claims : Option AssertionClaims
  pub dpop_binding : Option DpopBinding

pub record TokenResponse : Type 0 where
  pub access_token : String
  pub issued_token_type : String
  pub token_type : String
  pub expires_in : ℤ
  pub scope : String
  pub signing_alg_selected : String
  pub pqc_fallback : Bool
  pub pqc_fallback_reason : Option String

abbrev token_type_for_sender : Option DpopBinding → String
token_type_for_sender none = "Bearer"
token_type_for_sender (some _) = "DPoP"

abbrev pub jkt_of : Option DpopBinding → Option String
jkt_of none = none
jkt_of (some binding) = some binding.jkt

abbrev pub or_no_amr : Option (List String) → List String
or_no_amr none = []
or_no_amr (some amr) = amr

abbrev is_present : Option AssertionClaims → Bool
is_present none = false
is_present (some _) = true

-- `filter(|value| !value.trim().is_empty())`, and the same of the trimmed text.
abbrev pub not_blank : Option String → Option String
not_blank none = none
not_blank (some value) = if is_blank value then none else some value

abbrev trimmed_not_blank : Option String → Option String
trimmed_not_blank none = none
trimmed_not_blank (some value) = if is_blank value then none else some (trim value)

unfoldable pub client_assertion_jti : AssertionClaims → Result String HttpError
client_assertion_jti claims =
    ok_or (trimmed_not_blank claims.jti)
      (invalid_client "client_assertion jti must be a non-empty string")

-- `BTreeSet::extend`: as a set, the identities of both lists.
unfoldable pub key_binding_registry : ExchangeConfig → List String
key_binding_registry config = config.actor_ids ++ config.client_ids

abbrev pub token_endpoint : ExchangeConfig → String
token_endpoint config = trim_end_matches b'/' config.our_issuer ⧺ "/token"

-- The earliest of the three expiries.
abbrev pub earliest : ℤ → ℤ → ℤ → ℤ
earliest a b c = min_ℤ (min_ℤ a b) c

-- The claims of the new token.
unfoldable pub delegation_payload :
    ExchangeConfig → VerifiedExchange → AssertionClaims → ActClaim → String → ℤ → MintedClaims
unfolding build_scoped_payload
delegation_payload config exchange actor_claims act jti now =
    let exp =
      earliest (add_i64 now config.scoped_token_ttl) exchange.subject_claims.exp actor_claims.exp in
    let payload =
      build_scoped_payload config.our_issuer exchange.subject_sub exchange.target exchange.scope now
        exp jti actor_claims.sub (some act) (jkt_of exchange.dpop_binding) in
    record payload {
      auth_time = exchange.subject_claims.auth_time;
      acr = exchange.subject_claims.acr;
      amr = or_no_amr exchange.subject_claims.amr;
    }

-- What the environment gives to one exchange: the clock at its three readings, the random `jti`, and
-- the environments of the replay store's calls.
pub record Surroundings (Env : Type 0) : Type 0 where
  pub verify_now : ℤ
  pub lifetime_now : ℤ
  pub now : ℤ
  pub new_jti : String
  pub actor_env : Env
  pub client_env : Env
  pub dpop_env : Env

module _ (quoted : String → String) (parse_url : String → Result ParsedUrl String)
    (sha256 : String → List ℕ) (base64url : List ℕ → String) {RsaKey MlDsaKey : Type 0}
    (backend : Backend AssertionClaims RsaKey MlDsaKey) (config : ExchangeConfig)
    (signer : JoseSigner) (actor_jwks : JwksDocument) (r : ReplayStore)
    (around : Surroundings r.Env) where
  unfoldable pub verify_actor_token : String → String → Result AssertionClaims HttpError
  verify_actor_token actor_token subject_token =
      map_err (λ e. invalid_client e.message)
        (verify_assertion_with_allowed_alg_refs parse_url sha256 base64url backend actor_token
          actor_jwks config.inbound_assertion_algs
          (record {
            expected_issuer = config.our_issuer;
            expected_audiences = config.our_issuer ∷ token_endpoint config ∷ [];
            clock_skew_leeway = config.clock_skew_leeway;
            max_ttl = config.assertion_max_ttl;
            binding_subject_token = some subject_token;
            require_subject_binding = config.require_subject_binding;
            key_binding_registry = some (key_binding_registry config);
          })
          around.verify_now around.lifetime_now)

  unfoldable pub record_client_assertion_replay : AssertionClaims → Handler r Unit
  record_client_assertion_replay claims = lift (client_assertion_jti claims) >>= λ jti.
      check_replay around.client_env map_client_assertion_replay_error
        (record { jti = "ca:" ⧺ claims.sub ⧺ ":" ⧺ jti; exp = claims.exp; now = around.now })

  unfoldable pub record_dpop_replay : DpopBinding → Handler r Unit
  record_dpop_replay binding = check_replay around.dpop_env map_dpop_replay_error (record {
    jti = dpop_replay_key sha256 binding.jkt binding.jti;
    exp = binding.replay_expires_at;
    now = around.now;
  })

  abbrev record_client : Option AssertionClaims → Handler r Unit
  record_client none = lift (ok tt)
  record_client (some client_claims) = record_client_assertion_replay client_claims

  abbrev pub record_dpop : Option DpopBinding → Handler r Unit
  record_dpop none = lift (ok tt)
  record_dpop (some binding) = record_dpop_replay binding

  -- The call that records an actor assertion.
  abbrev pub actor_call : AssertionClaims → String → Call
  actor_call actor_claims actor_jti = record {
    jti = "act:" ⧺ actor_claims.sub ⧺ ":" ⧺ actor_jti;
    exp = actor_claims.exp;
    now = around.now;
  }

  unfoldable pub token_response :
      VerifiedExchange → SigningDecision → MintedClaims → String → TokenResponse
  token_response exchange decision payload access_token = record {
    access_token = access_token;
    issued_token_type = access_token_type;
    token_type = token_type_for_sender exchange.dpop_binding;
    expires_in = max_ℤ (sub_i64 payload.exp around.now) (pos 0);
    scope = exchange.scope;
    signing_alg_selected = decision.alg;
    pqc_fallback = decision.pqc_fallback;
    pqc_fallback_reason = decision.pqc_fallback_reason;
  }

  unfoldable pub exchange_delegation : ExchangeRequest → VerifiedExchange → Handler r TokenResponse
  exchange_delegation request exchange =
      lift (
        ok_or request.actor_token (
          if is_present exchange.client_claims
          then invalid_request "actor_token required for delegation"
          else invalid_client
              "no client authentication: send a client_assertion or an actor_token"))
      >>= λ actor_token.
          lift (verify_actor_token actor_token request.subject_token) >>= λ actor_claims.
          lift (validate_actor_identity quoted config.actor_ids actor_claims) >>= λ _.
          lift (gate_may_act exchange.subject_claims actor_claims) >>= λ _.
          lift (
            signing_decision_for_target quoted config.target_policy config.signing signer.alg
              exchange.target)
          >>= λ decision.
              lift (traverse act_claim_from_value exchange.subject_claims.act) >>= λ prior_act.
              lift (
                ok_or (not_blank actor_claims.jti)
                  (invalid_client "actor_token jti must be a non-empty string"))
              >>= λ actor_jti.
                  check_replay around.actor_env map_replay_error (actor_call actor_claims actor_jti)
                  >>= λ _. record_client exchange.client_claims >>= λ _.
                      record_dpop exchange.dpop_binding >>= λ _.
                      let payload =
                        delegation_payload config exchange actor_claims
                          (build_act actor_claims.sub prior_act) around.new_jti around.now in
                      lift
                        (map_err (λ _. server_error "internal error") (signer.sign_claims payload))
                      >>= λ access_token. count_signing decision >>= λ _.
                          lift (ok (token_response exchange decision payload access_token))
