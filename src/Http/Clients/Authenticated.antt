-- ===== src/Http/Clients/Authenticated.antt =====
-- What the authentication of a client guarantees.
use sts_delegate_rs.Prelude.{
  ℤ, String, ◌≡◌, refl, sym, ◌∙◌, ap, subst, ◌⊎◌, ◌||◌, true_of_||, true, false, Option, none, some,
  [], ◌∷◌, ◌++◌, ok, refuse_if, Bool-cases, inl, inr, after_ok, after_refuse_if, ok_or-eq-ok,
  map_err-eq-ok, true_of_not, member, is_some_text, arith,
}
use sts_delegate_rs.Core.{ExchangeRequest}
use sts_delegate_rs.Verify.Claims.{AssertionClaims}
use sts_delegate_rs.Verify.Tokens.{AssertionVerificationOptions}
use sts_delegate_rs.Verify.Tokens.Accepted.{
  IsAcceptedAssertion, verify_assertion-IsAcceptedAssertion,
}
use sts_delegate_rs.Config.{private_key_jwt_required}
use sts_delegate_rs.Http.Exchange.{client_assertion_jti, key_binding_registry, token_endpoint}
use sts_delegate_rs.Http.Deployment.{Deployment, exchange_config}
use sts_delegate_rs.Http.Request.{
  EffectiveExchangeMode, by_impersonation, is_given, client_assertion_type_bearer,
  validate_client_assertion_type,
}
use sts_delegate_rs.Http.Clients.{
  verify_client_assertion, authenticate_online_client, authenticate_client,
  authenticate_client_if_present, is_other_client, has_client_auth, check_mode,
}

validate_client_assertion_type-eq :
    (request : ExchangeRequest)
    → validate_client_assertion_type request ≡ ok tt
    → is_some_text client_assertion_type_bearer request.client_assertion_type ≡ true
unfolding validate_client_assertion_type refuse_if
validate_client_assertion_type-eq request h = ground (arith, h)

abbrev pub IsGiven : Option String → Type 0
IsGiven o = (text : String) × (o ≡ some text)

-- A request presents a client by any of its three parameters.
abbrev pub PresentsClient : ExchangeRequest → Type 0
PresentsClient request =
    IsGiven request.client_assertion
    ⊎ (IsGiven request.client_assertion_type ⊎ IsGiven request.client_id)

abbrev pub Authenticated : Option AssertionClaims → Type 0
Authenticated result = (claims : AssertionClaims) × (result ≡ some claims)

is_given-IsGiven : (o : Option String) → is_given o ≡ true → IsGiven o
is_given-IsGiven none h = cc
is_given-IsGiven (some text) h = (text, refl)

IsGiven-is_given : (o : Option String) → IsGiven o → is_given o ≡ true
IsGiven-is_given o (text, e) = rw e refl

has_client_auth-PresentsClient :
    (request : ExchangeRequest) → has_client_auth request ≡ true → PresentsClient request
has_client_auth-PresentsClient request h =
    elim (true_of_|| (is_given request.client_assertion || is_given request.client_assertion_type)
      (is_given request.client_id) h) [
        | inl two ↦
            elim (true_of_|| (is_given request.client_assertion)
              (is_given request.client_assertion_type) two) [
                | inl assertion ↦ inl (is_given-IsGiven request.client_assertion assertion)
                | inr typed ↦ inr (inl (is_given-IsGiven request.client_assertion_type typed))
              ]
        | inr named ↦ inr (inr (is_given-IsGiven request.client_id named))
      ]

PresentsClient-has_client_auth :
    (request : ExchangeRequest) → PresentsClient request → has_client_auth request ≡ true
PresentsClient-has_client_auth request (inl a) =
    let given = IsGiven-is_given request.client_assertion a in ground (arith, given)
PresentsClient-has_client_auth request (inr (inl t)) =
    let given = IsGiven-is_given request.client_assertion_type t in ground (arith, given)
PresentsClient-has_client_auth request (inr (inr i)) =
    let given = IsGiven-is_given request.client_id i in ground (arith, given)

module _ {RsaKey MlDsaKey Jwk Key : Type 0} (d : Deployment RsaKey MlDsaKey Jwk Key) where
  -- What a client's assertion is verified against at an endpoint.
  abbrev pub client_options : String → AssertionVerificationOptions
  client_options endpoint = record {
    expected_issuer = d.config.our_issuer;
    expected_audiences = d.config.our_issuer ∷ endpoint ∷ [];
    clock_skew_leeway = d.config.clock_skew_leeway;
    max_ttl = d.config.assertion_max_ttl;
    binding_subject_token = none;
    require_subject_binding = false;
    key_binding_registry = some (d.config.actor_ids ++ d.config.client_ids);
  }

  pub record IsClient (request : ExchangeRequest) (endpoint : String) (now later : ℤ)
      (claims : AssertionClaims) : Type 0 where
    pub assertion : String
    pub presented : request.client_assertion ≡ some assertion
    pub typed : is_some_text client_assertion_type_bearer request.client_assertion_type ≡ true
    pub accepted :
        IsAcceptedAssertion d.parse_url d.sha256 d.base64url d.assertion_backend assertion
          d.client_jwks d.config.inbound_assertion_algs
          (client_options endpoint)
          now
          later
          claims
    pub registered : member claims.sub d.config.client_ids ≡ true
    pub same_client : is_other_client request.client_id claims.sub ≡ false
    pub jti : String
    pub named : client_assertion_jti claims ≡ ok jti

  verify_client_assertion-IsClient :
      (request : ExchangeRequest) (endpoint : String) (now later : ℤ) (claims : AssertionClaims)
      → verify_client_assertion d request endpoint now later ≡ ok claims
      → IsClient request endpoint now later claims
  unfolding verify_client_assertion key_binding_registry
  verify_client_assertion-IsClient request endpoint now later claims h = after_ok h λ _ _ h₁.
      after_ok h₁ λ _ typed h₂. after_ok h₂ λ assertion presented h₃.
        after_ok h₃ λ verified accepted h₄. after_refuse_if _ h₄ λ registered h₅.
          after_refuse_if _ h₅ λ same_client h₆. after_ok h₆ λ jti named h₇.
            let same : verified ≡ claims = cc in
            subst (IsClient request endpoint now later) same (record {
              assertion = assertion;
              presented = ok_or-eq-ok _ _ presented;
              typed = validate_client_assertion_type-eq request typed;
              accepted =
                  verify_assertion-IsAcceptedAssertion d.parse_url d.sha256 d.base64url
                    d.assertion_backend assertion d.client_jwks d.config.inbound_assertion_algs
                    (client_options endpoint) now later verified (map_err-eq-ok _ _ accepted);
              registered = true_of_not _ registered;
              same_client = same_client;
              jti = jti;
              named = named;
            })

  -- At an online endpoint only a client passes whose assertion was accepted for that endpoint.
  pub authenticate_online_client-IsClient :
      (request : ExchangeRequest) (endpoint : String) (now later : ℤ) (claims : AssertionClaims)
      → authenticate_online_client d request endpoint now later ≡ ok claims
      → IsClient request endpoint now later claims
  unfolding authenticate_online_client
  authenticate_online_client-IsClient request endpoint now later claims h =
      after_refuse_if _ h
        λ _ h₁. verify_client_assertion-IsClient request endpoint now later claims h₁

  authenticate_client-IsClient :
      (request : ExchangeRequest) (mode : EffectiveExchangeMode) (now later : ℤ)
      (claims : AssertionClaims)
      → authenticate_client d request mode now later ≡ ok (some claims)
      → IsClient request (token_endpoint (exchange_config d.config)) now later claims
  unfolding authenticate_client
  authenticate_client-IsClient request mode now later claims h = after_ok h λ verified e h₁.
      after_refuse_if _ h₁ λ _ h₂.
        let same : verified ≡ claims = cc in
        verify_client_assertion-IsClient request (token_endpoint (exchange_config d.config)) now
          later claims (e ∙ ap ok same)

  -- A client that the token endpoint has authenticated had its assertion accepted for it.
  pub authenticate_client_if_present-IsClient :
      (request : ExchangeRequest) (mode : EffectiveExchangeMode) (now later : ℤ)
      (claims : AssertionClaims)
      → authenticate_client_if_present d request mode now later ≡ ok (some claims)
      → IsClient request (token_endpoint (exchange_config d.config)) now later claims
  unfolding authenticate_client_if_present
  authenticate_client_if_present-IsClient request mode now later claims h = after_ok h λ _ _ h₁.
      after_refuse_if _ h₁ λ _ h₂. elim (Bool-cases (has_client_auth request)) [
        | inl given ↦ authenticate_client-IsClient request mode now later claims (rw given at h₂)
        | inr absent ↦ let no_claims : none ≡ some claims = ground (arith, h₂, absent) in cc
      ]

  authenticate_client-Authenticated :
      (request : ExchangeRequest) (mode : EffectiveExchangeMode) (now later : ℤ)
      (result : Option AssertionClaims)
      → authenticate_client d request mode now later ≡ ok result
      → Authenticated result
  unfolding authenticate_client
  authenticate_client-Authenticated request mode now later result h = after_ok h λ verified _ h₁.
      after_refuse_if _ h₁ λ _ h₂. let same : some verified ≡ result = cc in (verified, sym same)

  pub presented-Authenticated :
      (request : ExchangeRequest) (mode : EffectiveExchangeMode) (now later : ℤ)
      (result : Option AssertionClaims)
      → authenticate_client_if_present d request mode now later ≡ ok result
      → PresentsClient request
      → Authenticated result
  unfolding authenticate_client_if_present
  presented-Authenticated request mode now later result h given = after_ok h λ _ _ h₁.
      after_refuse_if _ h₁ λ _ h₂.
        authenticate_client-Authenticated request mode now later result
          (rw (PresentsClient-has_client_auth request given) at h₂)

  pub demanded-PresentsClient :
      (request : ExchangeRequest) (mode : EffectiveExchangeMode) (now later : ℤ)
      (result : Option AssertionClaims)
      → authenticate_client_if_present d request mode now later ≡ ok result
      → d.config.client_auth_policy ≡ private_key_jwt_required
      → PresentsClient request
  unfolding authenticate_client_if_present
  demanded-PresentsClient request mode now later result h policy = after_ok h λ _ _ h₁.
      after_refuse_if _ h₁
        λ passed _. has_client_auth-PresentsClient request (ground (arith, rw policy at passed))

  pub impersonating-PresentsClient :
      (request : ExchangeRequest) (now later : ℤ) (result : Option AssertionClaims)
      → authenticate_client_if_present d request by_impersonation now later ≡ ok result
      → PresentsClient request
  unfolding authenticate_client_if_present check_mode refuse_if
  impersonating-PresentsClient request now later result h =
      after_ok h λ _ checked _. has_client_auth-PresentsClient request (ground (arith, checked))
