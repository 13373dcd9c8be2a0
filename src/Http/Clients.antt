-- ===== src/Http/Clients.antt =====
-- The authentication of clients by `private_key_jwt` in crates/sts-http/src/lib.rs, at the token
-- endpoint and at the online ones.
pub mod Authenticated
use sts_delegate_rs.Prelude.{
  ℤ, String, Bool, true, false, not, ◌&&◌, ◌||◌, Option, none, some, List, [], ◌∷◌, Result, ok, err,
  ◌>>=◌, ◌>>◌, refuse_if, ok_or, map_err, map_ok, member, if◌then◌else◌, text_eq, is_blank, ◌⧺◌,
}
use sts_delegate_rs.Core.{ExchangeRequest}
use sts_delegate_rs.Verify.Claims.{AssertionClaims}
use sts_delegate_rs.Verify.Tokens.{verify_assertion_with_allowed_alg_refs}
use sts_delegate_rs.Config.{ClientAuthPolicy, auto, private_key_jwt_required, actor_token_allowed}
use sts_delegate_rs.Http.{HttpError, invalid_client, invalid_request}
use sts_delegate_rs.Http.Exchange.{client_assertion_jti, key_binding_registry, token_endpoint}
use sts_delegate_rs.Http.Deployment.{Deployment, exchange_config}
use sts_delegate_rs.Http.Request.{
  EffectiveExchangeMode, by_delegation, by_impersonation, is_given, validate_client_assertion_type,
}

abbrev pub has_client_auth : ExchangeRequest → Bool
has_client_auth request =
    is_given request.client_assertion
    || is_given request.client_assertion_type
    || is_given request.client_id

-- The loop over the parameters that may not be blank.
refuse_blank : List (String × Option String) → Result Unit HttpError
refuse_blank [] = ok tt
refuse_blank ((field, none) ∷ fields) = refuse_blank fields
refuse_blank ((field, some value) ∷ fields) =
    let rest = refuse_blank fields in
    if is_blank value then err (invalid_client (field ⧺ " present but empty")) else rest

-- `client_id` is given and is another one.
abbrev pub is_other_client : Option String → String → Bool
is_other_client none sub = false
is_other_client (some client_id) sub = not (text_eq client_id sub)

-- The tests that come before, by the exchange's mode.
check_mode : ExchangeRequest → EffectiveExchangeMode → Result Unit HttpError
check_mode request by_delegation = ok tt
check_mode request by_impersonation =
    if is_given request.actor_token
    then err (invalid_client "impersonation requires client_assertion, not actor_token")
    else refuse_if (not (has_client_auth request))
        (invalid_client "impersonation requires client_assertion")

abbrev pub demands_client : ClientAuthPolicy → Bool
demands_client private_key_jwt_required = true
demands_client auto = false
demands_client actor_token_allowed = false

abbrev pub is_delegation : EffectiveExchangeMode → Bool
is_delegation by_delegation = true
is_delegation by_impersonation = false

module _ {RsaKey MlDsaKey Jwk Key : Type 0} (d : Deployment RsaKey MlDsaKey Jwk Key) where
  -- The assertion of a client that authenticates for the endpoint, at the clock's two readings.
  unfoldable pub verify_client_assertion :
      ExchangeRequest → String → ℤ → ℤ → Result AssertionClaims HttpError
  unfolding refuse_blank
  verify_client_assertion request endpoint now later = do
    refuse_blank (
        ("client_assertion", request.client_assertion)
        ∷ ("client_assertion_type", request.client_assertion_type)
        ∷ ("client_id", request.client_id)
        ∷ [])
    validate_client_assertion_type request
    assertion ← ok_or request.client_assertion (invalid_client "client_assertion required")
    claims ←
        map_err (λ e. invalid_client e.message)
          (verify_assertion_with_allowed_alg_refs d.parse_url d.sha256 d.base64url
            d.assertion_backend assertion d.client_jwks d.config.inbound_assertion_algs
            (record {
              expected_issuer = d.config.our_issuer;
              expected_audiences = d.config.our_issuer ∷ endpoint ∷ [];
              clock_skew_leeway = d.config.clock_skew_leeway;
              max_ttl = d.config.assertion_max_ttl;
              binding_subject_token = none;
              require_subject_binding = false;
              key_binding_registry = some (key_binding_registry (exchange_config d.config));
            })
            now later)
    refuse_if (not (member claims.sub d.config.client_ids))
        (invalid_client ("client " ⧺ d.quoted claims.sub ⧺ " not permitted"))
    refuse_if (is_other_client request.client_id claims.sub)
        (invalid_client "client_id does not match the authenticated client_assertion")
    client_assertion_jti claims
    ok claims

  unfoldable pub authenticate_online_client :
      ExchangeRequest → String → ℤ → ℤ → Result AssertionClaims HttpError
  authenticate_online_client request endpoint now later = do
    refuse_if (not (has_client_auth request)) (invalid_client "client_assertion required")
    verify_client_assertion request endpoint now later

  -- A client that is there is authenticated; a delegation needs an actor's token beside it.
  authenticate_client :
      ExchangeRequest → EffectiveExchangeMode → ℤ → ℤ → Result (Option AssertionClaims) HttpError
  authenticate_client request mode now later = do
    claims ← verify_client_assertion request (token_endpoint (exchange_config d.config)) now later
    refuse_if (is_delegation mode && not (is_given request.actor_token))
        (invalid_request "actor_token required for delegation")
    ok (some claims)

  unfoldable pub authenticate_client_if_present :
      ExchangeRequest → EffectiveExchangeMode → ℤ → ℤ → Result (Option AssertionClaims) HttpError
  unfolding check_mode authenticate_client
  authenticate_client_if_present request mode now later = do
    check_mode request mode
    refuse_if (demands_client d.config.client_auth_policy && not (has_client_auth request))
        (invalid_client "client_assertion required by CLIENT_AUTH_POLICY")
    if has_client_auth request then authenticate_client request mode now later else ok none
