-- ===== src/Http/Impersonation.antt =====
-- The impersonation exchange of crates/sts-http/src/lib.rs, after the request was authenticated and its
-- subject token verified. What it shares with the delegation exchange is in Http/Exchange.
pub mod Impersonated
use sts_delegate_rs.Prelude.{
  ℤ, pos, String, Bool, not, Option, none, some, Result, ok, err, map_err, ok_or, refuse_if, lookup,
  add_i64, sub_i64, max_ℤ, if◌then◌else◌, ◌⧺◌,
}
use sts_delegate_rs.Core.{MintedClaims, ExchangeRequest, build_scoped_payload}
use sts_delegate_rs.Verify.Claims.{AssertionClaims}
use sts_delegate_rs.Config.{ImpersonationPolicyEntry, allows}
use sts_delegate_rs.Replay.Store.{ReplayStore}
use sts_delegate_rs.Http.{HttpError, server_error, invalid_client, invalid_request, invalid_target}
use sts_delegate_rs.Http.Policy.{signing_decision_for_target}
use sts_delegate_rs.Http.Service.{Handler, ◌>>=◌, ◌>>◌, lift, count_signing}
use sts_delegate_rs.Http.Exchange.{
  VerifiedExchange, TokenResponse, Surroundings, earliest, jkt_of, or_no_amr,
  record_client_assertion_replay, record_dpop, token_response,
}
use sts_delegate_rs.Http.Deployment.{Deployment, exchange_config}
use sts_delegate_rs.Http.Request.{is_given}

-- The claims of the new token: the client acts as the subject, and no actor is named.
unfoldable pub impersonation_payload :
    String → ℤ → VerifiedExchange → AssertionClaims → String → ℤ → MintedClaims
unfolding build_scoped_payload
impersonation_payload our_issuer ttl exchange client_claims jti now =
    let exp = earliest (add_i64 now ttl) exchange.subject_claims.exp client_claims.exp in
    let payload =
      build_scoped_payload our_issuer exchange.subject_sub exchange.target exchange.scope now exp
        jti client_claims.sub none (jkt_of exchange.dpop_binding) in
    record payload {
      auth_time = exchange.subject_claims.auth_time;
      acr = exchange.subject_claims.acr;
      amr = or_no_amr exchange.subject_claims.amr;
    }

-- The policy's tests on the target and the subject, with the client's entry.
unfoldable pub authorise_entry :
    (String → String)
    → AssertionClaims
    → VerifiedExchange
    → Option ImpersonationPolicyEntry
    → Result Unit HttpError
authorise_entry quoted client_claims exchange none =
    err (invalid_request ("impersonation not authorized for client " ⧺ quoted client_claims.sub))
authorise_entry quoted client_claims exchange (some policy_entry) =
    if not (allows policy_entry.targets exchange.target)
    then err (
        invalid_target (
          "impersonation to "
          ⧺ quoted exchange.target
          ⧺ " not authorized for client "
          ⧺ quoted client_claims.sub))
    else if not (allows policy_entry.subjects exchange.subject_sub)
    then err (
        invalid_request (
          "impersonation of subject "
          ⧺ quoted exchange.subject_sub
          ⧺ " not authorized for client "
          ⧺ quoted client_claims.sub))
    else ok tt

module _ {RsaKey MlDsaKey Jwk Key : Type 0} (d : Deployment RsaKey MlDsaKey Jwk Key)
    (r : ReplayStore) (around : Surroundings r.Env) where
  unfoldable pub exchange_impersonation :
      ExchangeRequest → VerifiedExchange → Handler r TokenResponse
  exchange_impersonation request exchange =
      lift (
        refuse_if (is_given request.actor_token)
          (invalid_client "impersonation requires client_assertion, not actor_token"))
      >>= λ _.
          lift (
            ok_or exchange.client_claims (invalid_client "impersonation requires client_assertion"))
          >>= λ client_claims.
              lift (
                authorise_entry d.quoted client_claims exchange
                  (lookup client_claims.sub d.config.impersonation_policy))
              >>= λ _.
                  lift (
                    signing_decision_for_target d.quoted d.config.target_policy
                      (exchange_config d.config).signing d.signer.alg exchange.target)
                  >>= λ decision.
                      record_client_assertion_replay d.quoted d.parse_url d.sha256 d.base64url
                        d.assertion_backend (exchange_config d.config) d.signer d.actor_jwks r
                        around client_claims
                      >>= λ _.
                          record_dpop d.quoted d.parse_url d.sha256 d.base64url d.assertion_backend
                            (exchange_config d.config) d.signer d.actor_jwks r around
                            exchange.dpop_binding
                          >>= λ _.
                              let payload =
                                impersonation_payload d.config.our_issuer d.config.scoped_token_ttl
                                  exchange client_claims around.new_jti around.now in
                              lift (
                                map_err (λ _. server_error "internal error")
                                  (d.signer.sign_claims payload))
                              >>= λ access_token. count_signing decision >>= λ _. lift (
                                  ok (
                                    token_response d.quoted d.parse_url d.sha256 d.base64url
                                      d.assertion_backend (exchange_config d.config) d.signer
                                      d.actor_jwks r around exchange decision payload access_token))
