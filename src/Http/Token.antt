-- ===== src/Http/Token.antt =====
-- The token endpoint of crates/sts-http/src/lib.rs as a whole: headers, form, parameters, client, DPoP proof,
-- subject token, target, scope, and then the exchange of the request's mode. The pairs are what
-- `url::form_urlencoded::parse` gives of the body.
pub mod Issued
mod Tests
use sts_delegate_rs.Prelude.{
  ℤ, String, Bool, Option, none, some, List, [], ◌∷◌, Result, ok, err, ◌>>=◌, ◌>>◌, map_err, map_ok,
  ok_or,
}
use sts_delegate_rs.Core.{ExchangeRequest}
use sts_delegate_rs.Verify.Claims.{SubjectTokenClaims, AssertionClaims}
use sts_delegate_rs.Verify.Tokens.{verify_subject_token}
use sts_delegate_rs.Dpop.{DpopBinding, validate_dpop_proof}
use sts_delegate_rs.Replay.Store.{ReplayStore}
use sts_delegate_rs.Http.{
  HttpError, invalid_grant, invalid_dpop_proof, map_dpop_error, map_subject_verify_error,
}
use sts_delegate_rs.Http.Forms.{TokenForm, empty_form, take_pairs, into_exchange_request}
use sts_delegate_rs.Http.Headers.{
  Headers, require_form_urlencoded, reject_authorization_header_client_auth,
}
use sts_delegate_rs.Http.Request.{
  EffectiveExchangeMode, by_delegation, by_impersonation, effective_exchange_mode,
  validate_request_params, resolve_target_for_request, resolve_scope_for_request,
}
use sts_delegate_rs.Http.Service
use sts_delegate_rs.Http.Service.{Handler, Service, lift, record_exchange}
use sts_delegate_rs.Http.Exchange.{
  VerifiedExchange, TokenResponse, token_endpoint, not_blank, exchange_delegation,
}
use sts_delegate_rs.Http.Impersonation.{exchange_impersonation}
use sts_delegate_rs.Http.Clients.{authenticate_client_if_present}
use sts_delegate_rs.Http.Deployment.{Deployment, exchange_config, RequestSurroundings}

form_of : Result (List String × TokenForm) HttpError → Result TokenForm HttpError
form_of (ok (seen, form)) = ok form
form_of (err e) = err e

module _ {RsaKey MlDsaKey Jwk Key : Type 0} (d : Deployment RsaKey MlDsaKey Jwk Key) where
  unfoldable pub parse_token_form : Headers → List (String × String) → Result TokenForm HttpError
  unfolding form_of
  parse_token_form headers pairs = do
    require_form_urlencoded headers
    reject_authorization_header_client_auth headers
    form_of (take_pairs d.quoted ([], empty_form) pairs)

  validate_proof : ℤ → Option String → Result (Option DpopBinding) HttpError
  validate_proof now none = err (invalid_dpop_proof "DPoP proof missing or not a string")
  validate_proof now (some proof) = map_err map_dpop_error (
      map_ok some (
        validate_dpop_proof d.dpop_backend (record {
          proof = proof;
          htm = "POST";
          htu = token_endpoint (exchange_config d.config);
          now = now;
          clock_skew_leeway = d.config.clock_skew_leeway;
        })))

  validate_proofs : ℤ → List (Option String) → Result (Option DpopBinding) HttpError
  unfolding validate_proof
  validate_proofs now [] = ok none
  validate_proofs now (proof ∷ []) = validate_proof now proof
  validate_proofs now (proof ∷ other ∷ proofs) =
      err (invalid_dpop_proof "multiple DPoP header fields are not allowed")

  unfoldable pub validate_dpop_header : Headers → ℤ → Result (Option DpopBinding) HttpError
  unfolding validate_proofs
  validate_dpop_header headers now = validate_proofs now headers.dpop

  module _ {Env : Type 0} (around : RequestSurroundings Env) where
    -- All that comes before the exchange, which changes nothing: the request, the mode and what was
    -- verified.
    unfoldable pub verify_request :
        Headers
        → List (String × String)
        → Result (ExchangeRequest × EffectiveExchangeMode × VerifiedExchange) HttpError
    verify_request headers pairs = do
      form ← parse_token_form headers pairs
      let request = into_exchange_request form
      validate_request_params request d.config.max_token_len
      let mode =
          effective_exchange_mode d.config.token_exchange_mode request
            form.empty_actor_token_supplied
      client_claims ←
          authenticate_client_if_present d request mode around.client_verify_now
            around.client_lifetime_now
      dpop_binding ← validate_dpop_header headers around.dpop_now
      subject_claims ← map_err map_subject_verify_error (
          verify_subject_token d.parse_url d.subject_backend request.subject_token d.subject_jwks
            d.config.idp_issuer d.config.expected_subject_aud d.config.clock_skew_leeway
            around.subject_now)
      target ← resolve_target_for_request d.quoted d.config.target_policy request
      scope ←
          resolve_scope_for_request d.quoted d.config.target_policy
            d.config.subject_scope_bound_required request subject_claims target
      subject_sub ← ok_or (not_blank subject_claims.sub) (invalid_grant "subject token missing sub")
      ok (
        request,
        mode,
        record {
          subject_claims = subject_claims;
          subject_sub = subject_sub;
          target = target;
          scope = scope;
          client_claims = client_claims;
          dpop_binding = dpop_binding;
        },
      )

  module _ (r : ReplayStore) (around : RequestSurroundings r.Env) where
    unfoldable pub exchange_by_mode :
        ExchangeRequest × EffectiveExchangeMode × VerifiedExchange → Handler r TokenResponse
    exchange_by_mode (request, by_delegation, exchange) =
        exchange_delegation d.quoted d.parse_url d.sha256 d.base64url d.assertion_backend
          (exchange_config d.config) d.signer d.actor_jwks r around.exchange request exchange
    exchange_by_mode (request, by_impersonation, exchange) =
        exchange_impersonation d r around.exchange request exchange

    unfoldable pub token_inner : Headers → List (String × String) → Handler r TokenResponse
    token_inner headers pairs =
        Service.◌>>=◌ (lift (verify_request around headers pairs)) exchange_by_mode

    unfoldable pub token : Headers → List (String × String) → Handler r TokenResponse
    token headers pairs s =
        let (s', result) = token_inner headers pairs s in
        (record s' { metrics = record_exchange result s'.metrics }, result)
