-- ===== src/Verify/Tokens/Accepted.antt =====
-- What the acceptance of a subject token or of an assertion guarantees.
use sts_delegate_rs.Prelude.{
  ℕ, ℤ, String, ◌≡◌, ◌∙◌, sym, ap, true, ◌≤ℤ◌, add_i64, sub_i64, Option, none, some, List, [], ◌∷◌,
  Result, ok, refuse_if, after_ok, after_refuse_if, map_err-eq-ok, arith, eq_iff, true_of_not,
}
use sts_delegate_rs.Jose.{JwksDocument, VerifiedJws}
use sts_delegate_rs.Jose.Verify.{Backend}
use sts_delegate_rs.Jose.Verify.Authentic.{IsAuthentic, verify_claims-IsAuthentic}
use sts_delegate_rs.Verify.Anchors.{ParsedUrl, validate_issuer}
use sts_delegate_rs.Verify.Claims.{
  SubjectTokenClaims, AssertionClaims, kid_belongs_to_claimed_identity, ensure_audience_matches,
}
use sts_delegate_rs.Verify.Claims.Audience.{NamesAudience, any-NamesAudience}
use sts_delegate_rs.Verify.Claims.Window.{
  issued, IsWithin, validate_time_window-IsWithin, validate_assertion_lifetime-le,
}
use sts_delegate_rs.Verify.Tokens.{
  AssertionVerificationOptions, verify_subject_token, verify_assertion_with_allowed_alg_refs,
  owns_key, or_empty, check_binding, subject_token_hash,
}

-- The key belongs to the identity, where there is a registry.
abbrev pub OwnsKey : Option (List String) → String → String → Type 0
OwnsKey none kid sub = Unit
OwnsKey (some registry) kid sub = kid_belongs_to_claimed_identity kid sub registry ≡ true

owns_key-OwnsKey :
    (registry : Option (List String)) (kid sub : String)
    → owns_key registry kid sub ≡ true
    → OwnsKey registry kid sub
owns_key-OwnsKey none kid sub h = tt
owns_key-OwnsKey (some registry) kid sub h = h

module _ (sha256 : String → List ℕ) (base64url : List ℕ → String) where
  check_binding-bound :
      (options : AssertionVerificationOptions) (claims : AssertionClaims)
      → check_binding sha256 base64url options claims ≡ ok tt
      → options.require_subject_binding ≡ true
      → or_empty claims.sub_tok_hash
        ≡ subject_token_hash sha256 base64url (or_empty options.binding_subject_token)
  unfolding check_binding refuse_if
  check_binding-bound options claims h on = (eq_iff _ _).0 (ground (arith, h, on))

module _ (parse_url : String → Result ParsedUrl String) {RsaKey MlDsaKey : Type 0} where
  pub record IsAcceptedSubject (backend : Backend SubjectTokenClaims RsaKey MlDsaKey)
      (token : String) (jwks : JwksDocument) (issuer : String) (audiences : List String)
      (leeway now : ℤ) (claims : SubjectTokenClaims) : Type 0 where
    pub jws : VerifiedJws SubjectTokenClaims
    pub authentic : IsAuthentic backend token jwks (some ("RS256" ∷ [])) jws
    pub carried : jws.claims ≡ claims
    pub from_issuer : validate_issuer parse_url issuer ≡ ok claims.iss
    pub in_window : IsWithin claims.exp claims.nbf leeway now
    pub for_us : NamesAudience claims.aud audiences

  -- A subject token is accepted only if its RS256 signature was verified under a key of the JWKS, it was
  -- issued by the expected issuer, now is at most its `exp` plus the leeway and at least its `nbf`, if any,
  -- less the leeway, and its `aud` is an expected audience or an array that has one.
  pub verify_subject_token-IsAcceptedSubject :
      (backend : Backend SubjectTokenClaims RsaKey MlDsaKey) (token : String) (jwks : JwksDocument)
      (issuer : String) (audiences : List String) (leeway now : ℤ) (claims : SubjectTokenClaims)
      → verify_subject_token parse_url backend token jwks issuer audiences leeway now ≡ ok claims
      → IsAcceptedSubject backend token jwks issuer audiences leeway now claims
  unfolding verify_subject_token ensure_audience_matches
  verify_subject_token-IsAcceptedSubject backend token jwks issuer audiences leeway now claims h =
      after_ok h λ v verified h₁. after_ok h₁ λ iss known h₂. after_refuse_if _ h₂ λ same h₃.
        after_ok h₃ λ _ window h₄. after_ok h₄ λ _ named h₅.
          let carried : v.claims ≡ claims = cc in
          let from : v.claims.iss ≡ iss = (eq_iff _ _).0 (true_of_not _ same) in
          record {
            jws = v;
            authentic =
                verify_claims-IsAuthentic backend token jwks _ v (map_err-eq-ok _ _ verified);
            carried = carried;
            from_issuer = known ∙ ap ok (sym from ∙ ap (λ c. c.iss) carried);
            in_window =
                validate_time_window-IsWithin claims.exp claims.nbf leeway now
                  (rw (sym carried) window);
            for_us =
                any-NamesAudience claims.aud audiences (rw (sym carried) (ground (arith, named)));
          }

module _ (parse_url : String → Result ParsedUrl String) (sha256 : String → List ℕ)
    (base64url : List ℕ → String) {RsaKey MlDsaKey : Type 0} where
  pub record IsAcceptedAssertion (backend : Backend AssertionClaims RsaKey MlDsaKey)
      (token : String) (jwks : JwksDocument) (allowed : List String)
      (options : AssertionVerificationOptions) (now later : ℤ) (claims : AssertionClaims)
      : Type 0 where
    pub jws : VerifiedJws AssertionClaims
    pub authentic : IsAuthentic backend token jwks (some allowed) jws
    pub carried : jws.claims ≡ claims
    pub self_issued : claims.iss ≡ claims.sub
    pub for_us : NamesAudience claims.aud options.expected_audiences
    pub own_key : OwnsKey options.key_binding_registry jws.kid claims.sub
    pub unexpired : now ≤ℤ add_i64 claims.exp options.clock_skew_leeway
    pub short_lived :
        sub_i64 claims.exp (issued claims.iat later)
        ≤ℤ add_i64 options.max_ttl options.clock_skew_leeway
    pub bound :
        options.require_subject_binding ≡ true
        → or_empty claims.sub_tok_hash
          ≡ subject_token_hash sha256 base64url (or_empty options.binding_subject_token)

  pub verify_assertion-IsAcceptedAssertion :
      (backend : Backend AssertionClaims RsaKey MlDsaKey) (token : String) (jwks : JwksDocument)
      (allowed : List String) (options : AssertionVerificationOptions) (now later : ℤ)
      (claims : AssertionClaims)
      → verify_assertion_with_allowed_alg_refs parse_url sha256 base64url backend token jwks allowed
          options now later
        ≡ ok claims
      → IsAcceptedAssertion backend token jwks allowed options now later claims
  unfolding verify_assertion_with_allowed_alg_refs
  verify_assertion-IsAcceptedAssertion backend token jwks allowed options now later claims h =
      after_ok h λ v verified h₁. after_ok h₁ λ _ _ h₂. after_refuse_if _ h₂ λ same h₃.
        after_refuse_if _ h₃ λ named h₄. after_refuse_if _ h₄ λ own h₅. after_ok h₅ λ _ window h₆.
          after_ok h₆ λ _ short h₇. after_ok h₇ λ _ bound h₈.
            let carried : v.claims ≡ claims = cc in
            record {
              jws = v;
              authentic =
                  verify_claims-IsAuthentic backend token jwks _ v (map_err-eq-ok _ _ verified);
              carried = carried;
              self_issued = rw (sym carried) ((eq_iff _ _).0 (true_of_not _ same));
              for_us =
                  any-NamesAudience claims.aud options.expected_audiences
                    (rw (sym carried) (true_of_not _ named));
              own_key =
                  owns_key-OwnsKey options.key_binding_registry v.kid claims.sub
                    (rw (sym carried) (true_of_not _ own));
              unexpired =
                  (validate_time_window-IsWithin claims.exp none options.clock_skew_leeway now
                    (rw (sym carried) window)).0;
              short_lived =
                  validate_assertion_lifetime-le claims options.max_ttl options.clock_skew_leeway
                    later (rw (sym carried) short);
              bound = check_binding-bound sha256 base64url options claims (rw (sym carried) bound);
            }
