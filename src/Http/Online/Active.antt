-- ===== src/Http/Online/Active.antt =====
-- Which tokens introspection calls active, and that revocation ends this.
use sts_delegate_rs.Prelude.{
  ℤ, ◌≤ℤ◌, ◌<ℤ◌, String, ◌≡◌, ◌∙◌, ap, sym, Bool, true, false, none, some, ◌⊎◌, inl, inr, ok,
  has_key, add_i64, text_eq, is_some_text, is_blank, arith, eq_iff, Bool-cases, Result-cases,
  Option-cases,
}
use sts_delegate_rs.Json.{Json}
use sts_delegate_rs.Core.{MintedClaims}
use sts_delegate_rs.Jose.{VerifiedJws}
use sts_delegate_rs.Jose.Verify.{verify_claims_against_jwks_inner}
use sts_delegate_rs.Replay.Store.{ReplayStore}
use sts_delegate_rs.Http.Revocation.{RevocationState, is_revoked_or_unavailable}
use sts_delegate_rs.Http.Revocation
use sts_delegate_rs.Http.Revocation.Lasting.{Steps, revoked_until_expiry}
use sts_delegate_rs.Http.Deployment.{Deployment}
use sts_delegate_rs.Http.Online.{
  inactive_body, active_body, body_of, fresh_claims, of_verified, unless_revoked,
  verified_sts_access_token, introspection_response_for_token, OnlineSurroundings, revoke_active,
  revoke_verified,
}
use sts_delegate_rs.Http.Service.{Service}

module _ {RsaKey MlDsaKey Jwk Key : Type 0} (d : Deployment RsaKey MlDsaKey Jwk Key) where
  -- The conditions on a token under which it is active but for a revocation.
  pub record IsFresh (token : String) (now : ℤ) (claims : MintedClaims) : Type 0 where
    pub jws : VerifiedJws MintedClaims
    pub verified :
        verify_claims_against_jwks_inner d.minted_backend token d.published_jwks none ≡ ok jws
    pub carried : jws.claims ≡ claims
    pub typed : is_some_text "at+jwt" jws.typ ≡ true
    pub own : claims.iss ≡ d.config.our_issuer
    pub known_target : has_key claims.aud d.config.target_policy ≡ true
    pub named : (is_blank claims.sub ≡ false) × (is_blank claims.client_id ≡ false)
    pub scoped : is_blank claims.scope ≡ false
    pub unexpired : now <ℤ claims.exp
    pub issued : claims.iat ≤ℤ add_i64 now d.config.clock_skew_leeway

  fresh_claims-IsFresh :
      (token : String) (now : ℤ) (jws : VerifiedJws MintedClaims) (claims : MintedClaims)
      → verify_claims_against_jwks_inner d.minted_backend token d.published_jwks none ≡ ok jws
      → fresh_claims d jws now ≡ some claims
      → IsFresh token now claims
  unfolding fresh_claims
  fresh_claims-IsFresh token now jws claims v h =
      let carried : jws.claims ≡ claims = ground (arith, h) in
      record {
        jws = jws;
        verified = v;
        carried = carried;
        typed = ground (arith, h);
        own =
            ap (λ c. c.iss) (sym carried)
            ∙ ground (arith, h, eq_iff jws.claims.iss d.config.our_issuer);
        known_target = rw (sym carried) (ground (arith, h));
        named = rw (sym carried) (ground (arith, h));
        scoped = rw (sym carried) (ground (arith, h));
        unexpired = rw (sym carried) (ground (arith, h));
        issued = rw (sym carried) (ground (arith, h));
      }

  IsFresh-found :
      (token : String) (now : ℤ) (claims : MintedClaims)
      → IsFresh token now claims
      → of_verified d
          (verify_claims_against_jwks_inner d.minted_backend token d.published_jwks none)
          now
        ≡ some claims
  unfolding fresh_claims
  IsFresh-found token now claims f =
      let e = f.carried in
      let own : text_eq f.jws.claims.iss d.config.our_issuer ≡ true =
        (eq_iff _ _).1 (ap (λ c. c.iss) e ∙ f.own) in
      let unexpired : f.jws.claims.exp ≡ claims.exp = ap (λ c. c.exp) e in
      let issued : f.jws.claims.iat ≡ claims.iat = ap (λ c. c.iat) e in
      rw f.verified
        (ground (arith, f.typed, own, f.known_target, f.named, f.scoped, f.unexpired, f.issued, e))

  of_verified-IsFresh :
      (token : String) (now : ℤ) (claims : MintedClaims)
      → of_verified d
          (verify_claims_against_jwks_inner d.minted_backend token d.published_jwks none)
          now
        ≡ some claims
      → IsFresh token now claims
  of_verified-IsFresh token now claims h =
      elim (Result-cases
        (verify_claims_against_jwks_inner d.minted_backend token d.published_jwks none)) [
          | inl (jws, v) ↦ fresh_claims-IsFresh token now jws claims v (rw v at h)
          | inr (why, v) ↦ let no_claims : none ≡ some claims = rw v at h in cc
        ]

  abbrev pub body_at : String → ℤ → RevocationState → Json
  body_at token now s = (introspection_response_for_token d token now s).1

  abbrev pub revoked_at : String → ℤ → RevocationState → Bool
  revoked_at token now s = (is_revoked_or_unavailable d.sha256 token now s).1

  -- Introspection answers with a token's claims exactly when the token verifies under the published keys
  -- as an access token of this service, for a target of the policy and not blank in its subject, client
  -- and scope, its expiry is to come, it was not issued later than the leeway allows, and the list of
  -- revocations can be read and does not hold it. In every other case the answer is that it is not active, and nothing else.
  pub introspection_answer :
      (token : String) (now : ℤ) (s : RevocationState)
      → ((claims : MintedClaims) × IsFresh token now claims
          × (revoked_at token now s ≡ false)
          × (body_at token now s ≡ active_body claims))
        ⊎ ((body_at token now s ≡ inactive_body)
            × ((claims : MintedClaims) → IsFresh token now claims → revoked_at token now s ≡ true))
  unfolding introspection_response_for_token verified_sts_access_token unless_revoked body_of
  introspection_answer token now s =
      elim (Option-cases (
        of_verified d
          (verify_claims_against_jwks_inner d.minted_backend token d.published_jwks none) now)) [
            | inl nothing ↦
                inr (rw nothing, λ claims f. let found = IsFresh-found token now claims f in cc)
            | inr (claims, found) ↦ elim (Bool-cases (revoked_at token now s)) [
              | inl gone ↦ inr (rw (found, gone), λ other f. gone)
              | inr live ↦
                  inl (claims, of_verified-IsFresh token now claims found, live, rw (found, live))
            ]
          ]

  same_claims :
      (token : String) (now later : ℤ) (claims other : MintedClaims)
      → IsFresh token now claims
      → IsFresh token later other
      → claims ≡ other
  same_claims token now later claims other f g =
      let e = f.verified in let e' = g.verified in let c = f.carried in let c' = g.carried in cc

  -- Until its expiry it is held, and after its expiry it has expired.
  revoked_entry-inactive :
      (token : String) (now then_now later : ℤ) (claims : MintedClaims) (s t : RevocationState)
      → IsFresh token now claims
      → (Revocation.revoke d.sha256 token claims.exp then_now d.config.max_seen_jti s).1 ≡ ok tt
      → (later ≤ℤ claims.exp
          → Steps d.sha256 token claims.exp
              (Revocation.revoke d.sha256 token claims.exp then_now d.config.max_seen_jti s).0
              t)
      → body_at token later t ≡ inactive_body
  revoked_entry-inactive token now then_now later claims s t fresh revoked steps =
      elim (introspection_answer token later t) [
        | inl (other, g, live, body) ↦
            let same : claims ≡ other = same_claims token now later claims other fresh g in
            let before : later <ℤ claims.exp = rw same g.unexpired in
            let until : later ≤ℤ claims.exp = omega arith in
            let gone : revoked_at token later t ≡ true =
              revoked_until_expiry d.sha256 token claims.exp then_now later d.config.max_seen_jti s
                t revoked (steps until) until in
            cc
        | inr (body, none_live) ↦ body
      ]

module _ {RsaKey MlDsaKey Jwk Key : Type 0} (d : Deployment RsaKey MlDsaKey Jwk Key)
    (r : ReplayStore) (around : OnlineSurroundings r.Env) where
  -- Once the revocation of an active token has succeeded, introspection never again calls it active,
  -- neither after its expiry nor, whatever is revoked or checked in between by calls that are not later than
  -- its expiry and where a revocation under the same key has the same expiry, before.
  pub revoked_never_active :
      (token : String) (later : ℤ) (claims : MintedClaims) (s : Service r) (t : RevocationState)
      → IsFresh d token around.token_now claims
      → (revoke_active d r around token s).1 ≡ ok tt
      → (later ≤ℤ claims.exp
          → Steps d.sha256 token claims.exp (revoke_active d r around token s).0.revocations t)
      → body_at d token later t ≡ inactive_body
  unfolding revoke_active revoke_verified verified_sts_access_token
  revoked_never_active token later claims s t fresh revoked steps =
      let found = IsFresh-found d token around.token_now claims fresh in
      revoked_entry-inactive d token around.token_now around.revoke_now later claims s.revocations t
        fresh (rw found at revoked) (rw found at steps)
