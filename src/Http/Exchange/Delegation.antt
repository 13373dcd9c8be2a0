-- ===== src/Http/Exchange/Delegation.antt =====
-- What a successful delegation exchange guarantees.
use sts_delegate_rs.Prelude.{
  ℕ, ℤ, ◌≤ℤ◌, String, ◌≡◌, ◌≢◌, refl, sym, ap, ◌∙◌, Option, some, List, [], ◌∷◌, ◌++◌, true, member,
  trim_end_matches, Result, ok, traverse, add_i64, min_ℤ, arith, ok_or-eq-ok, map_err-eq-ok, ◌⧺◌,
}
use sts_delegate_rs.Core.{MintedClaims, ActClaim, ExchangeRequest, build_act, build_scoped_payload}
use sts_delegate_rs.Jose.{JwksDocument}
use sts_delegate_rs.Jose.Verify.{Backend}
use sts_delegate_rs.Verify.Anchors.{ParsedUrl}
use sts_delegate_rs.Verify.Claims.{AssertionClaims}
use sts_delegate_rs.Verify.Tokens.{AssertionVerificationOptions}
use sts_delegate_rs.Verify.Tokens.Accepted.{
  IsAcceptedAssertion, verify_assertion-IsAcceptedAssertion,
}
use sts_delegate_rs.Replay.Store.{ReplayStore}
use sts_delegate_rs.Http.{HttpError}
use sts_delegate_rs.Http.Policy.{
  validate_actor_identity, gate_may_act, act_claim_from_value, signing_decision_for_target,
  SigningDecision,
}
use sts_delegate_rs.Http.Service.{Service, lift, check_replay, count_signing, after_step}
use sts_delegate_rs.Http.Exchange.{
  ExchangeConfig, JoseSigner, VerifiedExchange, TokenResponse, Surroundings, delegation_payload,
  verify_actor_token, actor_call, exchange_delegation, token_response, not_blank,
  key_binding_registry,
}

pub min-le-left : (a b : ℤ) → min_ℤ a b ≤ℤ a
min-le-left a b = ground arith

pub min-le-right : (a b : ℤ) → min_ℤ a b ≤ℤ b
min-le-right a b = ground arith

pub ≤ℤ_trans : (a b c : ℤ) → a ≤ℤ b → b ≤ℤ c → a ≤ℤ c
≤ℤ_trans a b c h k = omega arith

module _ (quoted : String → String) (parse_url : String → Result ParsedUrl String)
    (sha256 : String → List ℕ) (base64url : List ℕ → String) {RsaKey MlDsaKey : Type 0}
    (backend : Backend AssertionClaims RsaKey MlDsaKey) (config : ExchangeConfig)
    (signer : JoseSigner) (actor_jwks : JwksDocument) (r : ReplayStore)
    (around : Surroundings r.Env) where
  -- The exchange of the section's deployment, and the verification of its actors.
  abbrev pub exchange :
      ExchangeRequest → VerifiedExchange → Service r → Service r × Result TokenResponse HttpError
  exchange =
      exchange_delegation quoted parse_url sha256 base64url backend config signer actor_jwks r
        around

  abbrev pub verify_actor : String → String → Result AssertionClaims HttpError
  verify_actor =
      verify_actor_token quoted parse_url sha256 base64url backend config signer actor_jwks r around

  -- What an actor's assertion is verified against, beside a subject token.
  abbrev pub actor_options : String → AssertionVerificationOptions
  actor_options subject_token = record {
    expected_issuer = config.our_issuer;
    expected_audiences =
        config.our_issuer ∷ (trim_end_matches b'/' config.our_issuer ⧺ "/token") ∷ [];
    clock_skew_leeway = config.clock_skew_leeway;
    max_ttl = config.assertion_max_ttl;
    binding_subject_token = some subject_token;
    require_subject_binding = config.require_subject_binding;
    key_binding_registry = some (config.actor_ids ++ config.client_ids);
  }

  verify_actor-IsAcceptedAssertion :
      (actor_token subject_token : String) (actor : AssertionClaims)
      → verify_actor actor_token subject_token ≡ ok actor
      → IsAcceptedAssertion parse_url sha256 base64url backend actor_token actor_jwks
          config.inbound_assertion_algs
          (actor_options subject_token)
          around.verify_now
          around.lifetime_now
          actor
  unfolding verify_actor_token key_binding_registry
  verify_actor-IsAcceptedAssertion actor_token subject_token actor h =
      verify_assertion-IsAcceptedAssertion parse_url sha256 base64url backend actor_token actor_jwks
        config.inbound_assertion_algs (actor_options subject_token) around.verify_now
        around.lifetime_now actor (map_err-eq-ok _ _ h)

  permitted-member :
      (actor : AssertionClaims)
      → validate_actor_identity quoted config.actor_ids actor ≡ ok tt
      → member actor.sub config.actor_ids ≡ true
  unfolding validate_actor_identity
  permitted-member actor h = ground (arith, h)

  pub record IsDelegated (request : ExchangeRequest) (verified : VerifiedExchange) (s : Service r)
      (response : TokenResponse) : Type 0 where
    pub actor_token : String
    pub presented : request.actor_token ≡ some actor_token
    pub actor : AssertionClaims
    pub authenticated : verify_actor actor_token request.subject_token ≡ ok actor
    pub accepted :
        IsAcceptedAssertion parse_url sha256 base64url backend actor_token actor_jwks
          config.inbound_assertion_algs
          (actor_options request.subject_token)
          around.verify_now
          around.lifetime_now
          actor
    pub permitted : member actor.sub config.actor_ids ≡ true
    pub authorised : gate_may_act verified.subject_claims actor ≡ ok tt
    pub prior_act : Option ActClaim
    pub prior : traverse act_claim_from_value verified.subject_claims.act ≡ ok prior_act
    pub jti : String
    pub named : not_blank actor.jti ≡ some jti
    pub first_use :
        (r.check_and_record around.actor_env
          (actor_call quoted parse_url sha256 base64url backend config signer actor_jwks r around
            actor jti)
          s.replay).1
        ≡ ok tt
    pub payload : MintedClaims
    pub signed : signer.sign_claims payload ≡ ok response.access_token
    pub subject : payload.sub ≡ verified.subject_sub
    pub target : payload.aud ≡ verified.target
    pub scope : payload.scope ≡ verified.scope
    pub chain : payload.act ≡ some (build_act actor.sub prior_act)
    pub within_subject : payload.exp ≤ℤ verified.subject_claims.exp
    pub within_actor : payload.exp ≤ℤ actor.exp
    pub within_ttl : payload.exp ≤ℤ add_i64 around.now config.scoped_token_ttl
    pub decision : SigningDecision
    pub decided :
        signing_decision_for_target quoted config.target_policy config.signing signer.alg
          verified.target
        ≡ ok decision
    pub reported : response.signing_alg_selected ≡ decision.alg

  -- A delegation succeeds only if the actor's token was accepted as an assertion for this service, bound to
  -- the subject token where that is required and signed with a key of the actor's among the registered
  -- identities, the actor is listed and authorised by `may_act`, its prior chain is well formed, and its assertion was recorded
  -- in the replay store. The token that is signed then names the verified subject, target and scope,
  -- carries the actor in front of the prior chain, and expires no later than the subject token, the
  -- actor's assertion and the configured lifetime; its algorithm is the one decided for the target.
  pub exchange_delegation-IsDelegated :
      (request : ExchangeRequest) (verified : VerifiedExchange) (s : Service r)
      (response : TokenResponse)
      → (exchange request verified s).1 ≡ ok response
      → IsDelegated request verified s response
  unfolding exchange_delegation build_scoped_payload lift check_replay count_signing token_response
      delegation_payload
  exchange_delegation-IsDelegated request verified s response h =
      after_step _ _ _ _ h λ actor_token presented h₁.
        after_step _ _ _ _ h₁ λ actor authenticated h₂. after_step _ _ _ _ h₂ λ _ permitted h₃.
          after_step _ _ _ _ h₃ λ _ authorised h₄. after_step _ _ _ _ h₄ λ decision decided h₅.
            after_step _ _ _ _ h₅ λ prior_act prior h₆. after_step _ _ _ _ h₆ λ jti named h₇.
              after_step _ _ _ _ h₇ λ _ first_use h₈. after_step _ _ _ _ h₈ λ _ _ h₉.
                after_step _ _ _ _ h₉ λ _ _ h₁₀. after_step _ _ _ _ h₁₀ λ access_token signed h₁₁.
                  after_step _ _ _ _ h₁₁ λ _ _ h₁₂.
                    let ttl = add_i64 around.now config.scoped_token_ttl in
                    let first = min_ℤ ttl verified.subject_claims.exp in
                    let e : access_token ≡ response.access_token = cc in
                    let a : decision.alg ≡ response.signing_alg_selected = cc in
                    record {
                      actor_token = actor_token;
                      presented = ok_or-eq-ok _ _ presented;
                      actor = actor;
                      authenticated = authenticated;
                      accepted =
                          verify_actor-IsAcceptedAssertion actor_token request.subject_token actor
                            authenticated;
                      permitted = permitted-member actor permitted;
                      authorised = authorised;
                      prior_act = prior_act;
                      prior = prior;
                      jti = jti;
                      named = ok_or-eq-ok _ _ named;
                      first_use = map_err-eq-ok _ _ first_use;
                      payload =
                          delegation_payload config verified actor (build_act actor.sub prior_act)
                            around.new_jti around.now;
                      signed = map_err-eq-ok _ _ signed ∙ ap ok e;
                      subject = refl;
                      target = refl;
                      scope = refl;
                      chain = refl;
                      within_subject =
                          ≤ℤ_trans _ first _ (min-le-left first actor.exp)
                            (min-le-right ttl verified.subject_claims.exp);
                      within_actor = min-le-right first actor.exp;
                      within_ttl =
                          ≤ℤ_trans _ first _ (min-le-left first actor.exp)
                            (min-le-left ttl verified.subject_claims.exp);
                      decision = decision;
                      decided = decided;
                      reported = sym a;
                    }

  -- While the replay store holds the key of an actor's assertion, an exchange with an assertion of that
  -- actor and that `jti` fails.
  pub held_actor_refused :
      (request : ExchangeRequest) (verified : VerifiedExchange) (s : Service r)
      (response : TokenResponse) (actor_token jti : String) (actor : AssertionClaims) (exp : ℤ)
      → request.actor_token ≡ some actor_token
      → verify_actor actor_token request.subject_token ≡ ok actor
      → not_blank actor.jti ≡ some jti
      → around.now ≤ℤ exp
      → r.IsHeld ("act:" ⧺ actor.sub ⧺ ":" ⧺ jti) exp s.replay
      → (exchange request verified s).1 ≢ ok response
  held_actor_refused request verified s response actor_token jti actor exp presented authenticated
        named fresh held h =
      let d = exchange_delegation-IsDelegated request verified s response h in
      let same_token : d.actor_token ≡ actor_token = let k = d.presented in cc in
      let same_actor : d.actor ≡ actor = let k = d.authenticated in cc in
      let same_jti : d.jti ≡ jti = let k = d.named in cc in
      r.refused_when_held exp around.actor_env
        (actor_call quoted parse_url sha256 base64url backend config signer actor_jwks r around
          d.actor d.jti)
        s.replay fresh (rw same_actor (rw same_jti held)) d.first_use
