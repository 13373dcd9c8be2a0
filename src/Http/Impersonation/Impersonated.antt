-- ===== src/Http/Impersonation/Impersonated.antt =====
-- What a successful impersonation exchange guarantees.
use sts_delegate_rs.Prelude.{
  ◌≤ℤ◌, String, ◌≡◌, refl, sym, ap, ◌∙◌, true, Option, none, some, ok, lookup, add_i64, min_ℤ,
  arith, ok_or-eq-ok, map_err-eq-ok, refuse_if,
}
use sts_delegate_rs.Core.{MintedClaims, ExchangeRequest, build_scoped_payload}
use sts_delegate_rs.Verify.Claims.{AssertionClaims}
use sts_delegate_rs.Config.{ImpersonationPolicyEntry, allows}
use sts_delegate_rs.Replay.Store.{ReplayStore}
use sts_delegate_rs.Http.{HttpError}
use sts_delegate_rs.Http.Policy.{SigningDecision, signing_decision_for_target}
use sts_delegate_rs.Http.Service.{Service, lift, count_signing, after_step}
use sts_delegate_rs.Http.Exchange.{VerifiedExchange, TokenResponse, Surroundings, token_response}
use sts_delegate_rs.Http.Exchange.Delegation.{min-le-left, min-le-right, ≤ℤ_trans}
use sts_delegate_rs.Http.Deployment.{Deployment, exchange_config}
use sts_delegate_rs.Http.Request.{is_given}
use sts_delegate_rs.Http.Impersonation.{
  authorise_entry, impersonation_payload, exchange_impersonation,
}

-- The client's entry allows the target and the subject.
pub record IsAuthorised (entry : Option ImpersonationPolicyEntry) (target subject : String)
    : Type 0 where
  pub policy : ImpersonationPolicyEntry
  pub known : entry ≡ some policy
  pub to_target : allows policy.targets target ≡ true
  pub of_subject : allows policy.subjects subject ≡ true

authorise_entry-IsAuthorised :
    (quoted : String → String) (client : AssertionClaims) (verified : VerifiedExchange)
    (entry : Option ImpersonationPolicyEntry)
    → authorise_entry quoted client verified entry ≡ ok tt
    → IsAuthorised entry verified.target verified.subject_sub
unfolding authorise_entry
authorise_entry-IsAuthorised quoted client verified none h = cc
authorise_entry-IsAuthorised quoted client verified (some policy) h = record {
  policy = policy;
  known = refl;
  to_target = ground (arith, h);
  of_subject = ground (arith, h);
}

not_given : (o : Option String) (e : HttpError) → refuse_if (is_given o) e ≡ ok tt → o ≡ none
unfolding refuse_if
not_given none e h = refl
not_given (some s) e h = cc

module _ {RsaKey MlDsaKey Jwk Key : Type 0} (d : Deployment RsaKey MlDsaKey Jwk Key)
    (r : ReplayStore) (around : Surroundings r.Env) where
  pub record IsImpersonated (request : ExchangeRequest) (verified : VerifiedExchange)
      (response : TokenResponse) : Type 0 where
    pub no_actor : request.actor_token ≡ none
    pub client : AssertionClaims
    pub authenticated : verified.client_claims ≡ some client
    pub authorised :
        IsAuthorised
          (lookup client.sub d.config.impersonation_policy)
          verified.target
          verified.subject_sub
    pub payload : MintedClaims
    pub signed : d.signer.sign_claims payload ≡ ok response.access_token
    pub subject : payload.sub ≡ verified.subject_sub
    pub target : payload.aud ≡ verified.target
    pub scope : payload.scope ≡ verified.scope
    pub by_client : payload.client_id ≡ client.sub
    pub no_chain : payload.act ≡ none
    pub within_subject : payload.exp ≤ℤ verified.subject_claims.exp
    pub within_client : payload.exp ≤ℤ client.exp
    pub within_ttl : payload.exp ≤ℤ add_i64 around.now d.config.scoped_token_ttl
    pub decision : SigningDecision
    pub decided :
        signing_decision_for_target d.quoted d.config.target_policy
          (exchange_config d.config).signing
          d.signer.alg
          verified.target
        ≡ ok decision
    pub reported : response.signing_alg_selected ≡ decision.alg

  -- An impersonation succeeds only without an actor's token, for an authenticated client whose entry in the
  -- impersonation policy allows the target and the subject. The token that is signed then names the
  -- verified subject, target and scope and the client, carries no actor, and expires no later than
  -- the subject token, the client's assertion and the configured lifetime; its algorithm is the one decided
  -- for the target.
  pub exchange_impersonation-IsImpersonated :
      (request : ExchangeRequest) (verified : VerifiedExchange) (s : Service r)
      (response : TokenResponse)
      → (exchange_impersonation d r around request verified s).1 ≡ ok response
      → IsImpersonated request verified response
  unfolding exchange_impersonation build_scoped_payload lift count_signing token_response
      impersonation_payload
  exchange_impersonation-IsImpersonated request verified s response h =
      after_step _ _ _ _ h λ _ no_actor h₁. after_step _ _ _ _ h₁ λ client authenticated h₂.
        after_step _ _ _ _ h₂ λ _ authorised h₃. after_step _ _ _ _ h₃ λ decision decided h₄.
          after_step _ _ _ _ h₄ λ _ _ h₅. after_step _ _ _ _ h₅ λ _ _ h₆.
            after_step _ _ _ _ h₆ λ access_token signed h₇. after_step _ _ _ _ h₇ λ _ _ h₈.
              let ttl = add_i64 around.now d.config.scoped_token_ttl in
              let first = min_ℤ ttl verified.subject_claims.exp in
              let e : access_token ≡ response.access_token = cc in
              let a : decision.alg ≡ response.signing_alg_selected = cc in
              record {
                no_actor = not_given request.actor_token _ no_actor;
                client = client;
                authenticated = ok_or-eq-ok _ _ authenticated;
                authorised = authorise_entry-IsAuthorised d.quoted client verified _ authorised;
                payload =
                    impersonation_payload d.config.our_issuer d.config.scoped_token_ttl verified
                      client around.new_jti around.now;
                signed = map_err-eq-ok _ _ signed ∙ ap ok e;
                subject = refl;
                target = refl;
                scope = refl;
                by_client = refl;
                no_chain = refl;
                within_subject =
                    ≤ℤ_trans _ first _ (min-le-left first client.exp)
                      (min-le-right ttl verified.subject_claims.exp);
                within_client = min-le-right first client.exp;
                within_ttl =
                    ≤ℤ_trans _ first _ (min-le-left first client.exp)
                      (min-le-left ttl verified.subject_claims.exp);
                decision = decision;
                decided = decided;
                reported = sym a;
              }
