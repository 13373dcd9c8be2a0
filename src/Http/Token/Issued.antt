-- ===== src/Http/Token/Issued.antt =====
-- What a response of the token endpoint guarantees.
use sts_delegate_rs.Prelude.{
  ℤ, String, ◌≡◌, ◌↔◌, ◌∙◌, refl, ap, subst, Bool, true, Option, none, some, List, [], ◌∷◌, Result,
  ok, after_ok, after_map_ok, after_refuse_if, ok_or-eq-ok, map_err-eq-ok, member, lookup,
  split_whitespace,
}
use sts_delegate_rs.Core.{ExchangeRequest, resolve_target, join_scopes}
use sts_delegate_rs.Core.Scopes.{IsIssuable, downscope-issues_iff}
use sts_delegate_rs.Verify.Claims.{SubjectTokenClaims, AssertionClaims}
use sts_delegate_rs.Verify.Tokens.Accepted.{
  IsAcceptedSubject, verify_subject_token-IsAcceptedSubject,
}
use sts_delegate_rs.Dpop.{DpopBinding, DpopProofRequest, validate_dpop_proof}
use sts_delegate_rs.Dpop.Validated.{IsValidated, validate_dpop_proof-IsValidated}
use sts_delegate_rs.Config.{TargetPolicy, TargetPolicyEntry, private_key_jwt_required}
use sts_delegate_rs.Replay.Store.{ReplayStore}
use sts_delegate_rs.Http.{HttpError}
use sts_delegate_rs.Http.Forms.{TokenForm, into_exchange_request}
use sts_delegate_rs.Http.Headers.{Headers}
use sts_delegate_rs.Http.Request.{
  EffectiveExchangeMode, by_delegation, by_impersonation, effective_exchange_mode,
  validate_request_params, resolve_target_for_request, resolve_scope_for_request, scope_or_default,
  subject_scope_string,
}
use sts_delegate_rs.Http.Service.{Service, lift, after_step}
use sts_delegate_rs.Http.Exchange.{VerifiedExchange, TokenResponse, token_endpoint, not_blank}
use sts_delegate_rs.Http.Exchange.Delegation.{IsDelegated, exchange_delegation-IsDelegated}
use sts_delegate_rs.Http.Impersonation.Impersonated.{
  IsImpersonated, exchange_impersonation-IsImpersonated,
}
use sts_delegate_rs.Http.Clients.Authenticated.{
  IsClient, PresentsClient, Authenticated, presented-Authenticated, demanded-PresentsClient,
  impersonating-PresentsClient, authenticate_client_if_present-IsClient,
}
use sts_delegate_rs.Http.Deployment.{Deployment, exchange_config, RequestSurroundings}
use sts_delegate_rs.Http.Token.{
  parse_token_form, validate_proof, validate_proofs, validate_dpop_header, verify_request,
  exchange_by_mode, token_inner, token,
}

-- The scopes are those that the policy's entry for the target, the request and the subject's token let
-- through.
pub record IsScoped (policies : TargetPolicy) (required : Bool) (request : ExchangeRequest)
    (subject : SubjectTokenClaims) (target scope : String) : Type 0 where
  pub policy : TargetPolicyEntry
  pub known : lookup target policies ≡ some policy
  pub subject_scopes : Option String
  pub of_subject : subject_scope_string subject ≡ ok subject_scopes
  pub issued :
      (s : String)
      → (member s (split_whitespace scope) ≡ true)
        ↔ IsIssuable
            (scope_or_default request.scope (join_scopes policy.default_scopes))
            (join_scopes policy.allowed_scopes)
            subject_scopes
            required
            s

module _ (quoted : String → String) (policies : TargetPolicy) where
  resolve_scope-IsScoped :
      (required : Bool) (request : ExchangeRequest) (subject : SubjectTokenClaims)
      (target scope : String)
      → resolve_scope_for_request quoted policies required request subject target ≡ ok scope
      → IsScoped policies required request subject target scope
  unfolding resolve_scope_for_request
  resolve_scope-IsScoped required request subject target scope h = after_ok h λ policy known h₁.
      after_ok h₁ λ subject_scopes of_subject h₂. record {
        policy = policy;
        known = ok_or-eq-ok _ _ known;
        subject_scopes = subject_scopes;
        of_subject = of_subject;
        issued =
            λ s. downscope-issues_iff _ _ subject_scopes required scope s (map_err-eq-ok _ _ h₂);
      }

  resolve_target-resolved :
      (request : ExchangeRequest) (target : String)
      → resolve_target_for_request quoted policies request ≡ ok target
      → resolve_target request.audience request.resource ≡ ok target
  unfolding resolve_target_for_request
  resolve_target-resolved request target h = after_refuse_if _ h λ _ h₁.
      after_refuse_if _ h₁ λ _ h₂. after_ok h₂ λ found resolved h₃.
        after_ok h₃
          λ _ _ h₄. let same : found ≡ target = cc in map_err-eq-ok _ _ resolved ∙ ap ok same

ok-injective :
    {a b : ExchangeRequest × EffectiveExchangeMode × VerifiedExchange}
    → ◌≡◌ {A = Result (ExchangeRequest × EffectiveExchangeMode × VerifiedExchange) HttpError}
        (ok a)
        (ok b)
    → a ≡ b
ok-injective h = cc

module _ {RsaKey MlDsaKey Jwk Key : Type 0} (d : Deployment RsaKey MlDsaKey Jwk Key) where
  -- What a proof is validated for.
  abbrev pub proof_input : String → ℤ → DpopProofRequest
  proof_input proof now = record {
    proof = proof;
    htm = "POST";
    htu = token_endpoint (exchange_config d.config);
    now = now;
    clock_skew_leeway = d.config.clock_skew_leeway;
  }

  -- No DPoP header and no binding, or one header with a validated proof and its binding.
  abbrev pub IsProof : List (Option String) → ℤ → Option DpopBinding → Type 0
  IsProof [] now none = Unit
  IsProof (some proof ∷ []) now (some binding) =
      IsValidated d.dpop_backend (proof_input proof now) binding
  IsProof _ now _ = ⊥

  validate_proofs-IsProof :
      (proofs : List (Option String)) (now : ℤ) (binding : Option DpopBinding)
      → validate_proofs d now proofs ≡ ok binding
      → IsProof proofs now binding
  unfolding validate_proofs validate_proof
  validate_proofs-IsProof [] now none h = tt
  validate_proofs-IsProof [] now (some binding) h = cc
  validate_proofs-IsProof (none ∷ []) now binding h = cc
  validate_proofs-IsProof (some proof ∷ []) now none h =
      after_map_ok some (validate_dpop_proof d.dpop_backend (proof_input proof now))
        (map_err-eq-ok _ _ h) λ b _ same. cc
  validate_proofs-IsProof (some proof ∷ []) now (some binding) h =
      after_map_ok some (validate_dpop_proof d.dpop_backend (proof_input proof now))
        (map_err-eq-ok _ _ h)
        λ b e same.
          let here : b ≡ binding = cc in
          validate_dpop_proof-IsValidated d.dpop_backend (proof_input proof now) binding
            (e ∙ ap ok here)
  validate_proofs-IsProof (proof ∷ other ∷ proofs) now binding h = cc

  validate_dpop_header-IsProof :
      (headers : Headers) (now : ℤ) (binding : Option DpopBinding)
      → validate_dpop_header d headers now ≡ ok binding
      → IsProof headers.dpop now binding
  unfolding validate_dpop_header
  validate_dpop_header-IsProof headers now binding h =
      validate_proofs-IsProof headers.dpop now binding h

  module _ {Env : Type 0} (around : RequestSurroundings Env) where
    pub record IsVerified (headers : Headers) (pairs : List (String × String))
        (request : ExchangeRequest) (mode : EffectiveExchangeMode) (exchange : VerifiedExchange)
        : Type 0 where
      pub form : TokenForm
      pub parsed : parse_token_form d headers pairs ≡ ok form
      pub asked : into_exchange_request form ≡ request
      pub valid : validate_request_params request d.config.max_token_len ≡ ok tt
      pub chosen :
          effective_exchange_mode d.config.token_exchange_mode request
            form.empty_actor_token_supplied
          ≡ mode
      pub client :
          (claims : AssertionClaims)
          → exchange.client_claims ≡ some claims
          → IsClient d request
              (token_endpoint (exchange_config d.config))
              around.client_verify_now
              around.client_lifetime_now
              claims
      pub presented : PresentsClient request → Authenticated exchange.client_claims
      pub demanded :
          d.config.client_auth_policy ≡ private_key_jwt_required
          → Authenticated exchange.client_claims
      pub impersonating : mode ≡ by_impersonation → Authenticated exchange.client_claims
      pub proof : IsProof headers.dpop around.dpop_now exchange.dpop_binding
      pub subject :
          IsAcceptedSubject d.parse_url d.subject_backend request.subject_token d.subject_jwks
            d.config.idp_issuer d.config.expected_subject_aud d.config.clock_skew_leeway
            around.subject_now exchange.subject_claims
      pub named : not_blank exchange.subject_claims.sub ≡ some exchange.subject_sub
      pub target : resolve_target request.audience request.resource ≡ ok exchange.target
      pub scope :
          IsScoped d.config.target_policy d.config.subject_scope_bound_required request
            exchange.subject_claims exchange.target exchange.scope

    abbrev pub IsVerifiedRequest :
        Headers
        → List (String × String)
        → ExchangeRequest × EffectiveExchangeMode × VerifiedExchange
        → Type 0
    IsVerifiedRequest headers pairs (request, mode, exchange) =
        IsVerified headers pairs request mode exchange

    verify_request-IsVerified :
        (headers : Headers) (pairs : List (String × String))
        (all : ExchangeRequest × EffectiveExchangeMode × VerifiedExchange)
        → verify_request d around headers pairs ≡ ok all
        → IsVerifiedRequest headers pairs all
    unfolding verify_request
    verify_request-IsVerified headers pairs all h = after_ok h λ form parsed h₁.
        after_ok h₁ λ _ valid h₂. after_ok h₂ λ client_claims client h₃.
          after_ok h₃ λ dpop_binding proof h₄. after_ok h₄ λ subject accepted h₅.
            after_ok h₅ λ target resolved h₆. after_ok h₆ λ scope scoped h₇.
              after_ok h₇ λ sub named h₈.
                let request = into_exchange_request form in
                subst (IsVerifiedRequest headers pairs) (ok-injective h₈) (record {
                  form = form;
                  parsed = parsed;
                  asked = refl;
                  valid = valid;
                  chosen = refl;
                  client = λ claims e.
                      authenticate_client_if_present-IsClient d request _ around.client_verify_now
                        around.client_lifetime_now claims (client ∙ ap ok e);
                  presented =
                      presented-Authenticated d request _ around.client_verify_now
                        around.client_lifetime_now client_claims client;
                  demanded = λ policy.
                      presented-Authenticated d request _ around.client_verify_now
                        around.client_lifetime_now client_claims client
                        (demanded-PresentsClient d request _ around.client_verify_now
                          around.client_lifetime_now client_claims client policy);
                  impersonating = λ same.
                      presented-Authenticated d request _ around.client_verify_now
                        around.client_lifetime_now client_claims client
                        (impersonating-PresentsClient d request around.client_verify_now
                          around.client_lifetime_now client_claims (rw same at client));
                  proof = validate_dpop_header-IsProof headers around.dpop_now dpop_binding proof;
                  subject =
                      verify_subject_token-IsAcceptedSubject d.parse_url d.subject_backend
                        request.subject_token d.subject_jwks d.config.idp_issuer
                        d.config.expected_subject_aud d.config.clock_skew_leeway around.subject_now
                        subject (map_err-eq-ok _ _ accepted);
                  named = ok_or-eq-ok _ _ named;
                  target =
                      resolve_target-resolved d.quoted d.config.target_policy request target
                        resolved;
                  scope =
                      resolve_scope-IsScoped d.quoted d.config.target_policy _ request subject
                        target scope scoped;
                })

  module _ (r : ReplayStore) (around : RequestSurroundings r.Env) where
    -- What the exchange of each mode guarantees.
    abbrev pub Exchanged :
        ExchangeRequest × EffectiveExchangeMode × VerifiedExchange
        → Service r
        → TokenResponse
        → Type 0
    Exchanged (request, by_delegation, exchange) s response =
        IsDelegated d.quoted d.parse_url d.sha256 d.base64url d.assertion_backend
          (exchange_config d.config) d.signer d.actor_jwks r around.exchange request exchange s
          response
    Exchanged (request, by_impersonation, exchange) s response =
        IsImpersonated d r around.exchange request exchange response

    exchange_by_mode-Exchanged :
        (all : ExchangeRequest × EffectiveExchangeMode × VerifiedExchange) (s : Service r)
        (response : TokenResponse)
        → (exchange_by_mode d r around all s).1 ≡ ok response
        → Exchanged all s response
    unfolding exchange_by_mode
    exchange_by_mode-Exchanged (request, by_delegation, exchange) s response h =
        exchange_delegation-IsDelegated d.quoted d.parse_url d.sha256 d.base64url
          d.assertion_backend (exchange_config d.config) d.signer d.actor_jwks r around.exchange
          request exchange s response h
    exchange_by_mode-Exchanged (request, by_impersonation, exchange) s response h =
        exchange_impersonation-IsImpersonated d r around.exchange request exchange s response h

    pub record IsIssued (headers : Headers) (pairs : List (String × String)) (s : Service r)
        (response : TokenResponse) : Type 0 where
      pub all : ExchangeRequest × EffectiveExchangeMode × VerifiedExchange
      pub verified : IsVerifiedRequest around headers pairs all
      pub exchanged : Exchanged all s response

    -- The token endpoint issues a token only for a form with valid parameters, with an authenticated client
    -- where the request has any parameter of a client, the deployment's policy demands one or the mode is
    -- impersonation, whose DPoP header, if any, is single and validated for the endpoint, whose subject token was
    -- accepted from the configured issuer, whose target is in the target policy, and with exactly the scopes
    -- that this policy, the request and the subject's token let through; the exchange itself is a
    -- delegation or an impersonation as the deployment's mode and the request determine, with all that
    -- either guarantees.
    pub token-IsIssued :
        (headers : Headers) (pairs : List (String × String)) (s : Service r)
        (response : TokenResponse)
        → (token d r around headers pairs s).1 ≡ ok response
        → IsIssued headers pairs s response
    unfolding token token_inner lift
    token-IsIssued headers pairs s response h = after_step _ _ _ _ h λ all verified h₁. record {
      all = all;
      verified = verify_request-IsVerified around headers pairs all verified;
      exchanged = exchange_by_mode-Exchanged all s response h₁;
    }
