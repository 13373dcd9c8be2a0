-- ===== src/Http/Tests.antt =====
-- Runs of the gates of crates/sts-http/src/lib.rs on concrete claims.
use sts_delegate_rs.Prelude.{
  ℕ, zero, suc, ℤ, pos, ◌≤◌, String, ◌≡◌, ◌↔◌, ◌⊎◌, refl, Bool, true, false, Option, some, none,
  List, [], ◌∷◌, Result, ok, err, arith, lookup,
}
use sts_delegate_rs.Json.{as_object, Json, string, object, no_members, member_of}
use sts_delegate_rs.Core.{direct, behind}
use sts_delegate_rs.Verify.Claims.{SubjectTokenClaims, AssertionClaims}
use sts_delegate_rs.Http.{invalid_request}
use sts_delegate_rs.Config.{TargetPolicyEntry}
use sts_delegate_rs.Http.Policy.{SigningConfig, SigningDecision, gate_may_act, act_claim_from_value}
use sts_delegate_rs.Http.Policy.Gates.{
  Authorises, IsSound, chain_length, act_claim_from_value-le, gate_may_act_iff,
  signing_decision_for_target-IsSound,
}
use sts_delegate_rs.Http.Forms.{TokenForm, empty_form, is_recognized_token_form_key, take_pairs}
use sts_delegate_rs.Http.Forms.Unique.{occurrences, accepted_form_iff}
use sts_delegate_rs.Http.Revocation.{no_revocations, revoke, is_revoked_or_unavailable}
use sts_delegate_rs.Http.Revocation.Lasting.{check_step, next, done, revoked_until_expiry}

-- A chain of `n` actors.
abbrev chain : ℕ → Json
chain zero = object (member_of "sub" (string "svc") no_members)
chain (suc n) = object (member_of "sub" (string "svc") (member_of "act" (chain n) no_members))

eleven_test :
    act_claim_from_value (chain 10) ≡ err (invalid_request "act delegation chain too deep")
unfolding act_claim_from_value sts_delegate_rs.Http.Policy.act_claim_from_value_at_depth
    sts_delegate_rs.Prelude.◌>>=◌ sts_delegate_rs.Prelude.ok_or sts_delegate_rs.Json.get
eleven_test = refl

abbrev two_actors : Json
two_actors = object (
    member_of "sub" (string "b")
      (member_of "act" (object (member_of "sub" (string "a") no_members)) no_members))

act_claim_from_value-le_example : chain_length (behind "b" none (direct "a" none)) ≤ 10
unfolding act_claim_from_value sts_delegate_rs.Http.Policy.act_claim_from_value_at_depth
    sts_delegate_rs.Prelude.◌>>=◌ sts_delegate_rs.Prelude.ok_or sts_delegate_rs.Json.get
act_claim_from_value-le_example =
    act_claim_from_value-le two_actors (behind "b" none (direct "a" none)) refl

abbrev may_act : Json
may_act = object (member_of "sub" (string "svc") no_members)

abbrev subject : SubjectTokenClaims
subject = record {
  iss = "https://a.example";
  sub = some "user";
  aud = string "api";
  scope = none;
  scp = none;
  exp = pos 1000;
  nbf = none;
  iat = none;
  act = none;
  may_act = some may_act;
  auth_time = none;
  acr = none;
  amr = none;
}

abbrev actor : AssertionClaims
actor = record {
  iss = "svc";
  sub = "svc";
  aud = string "https://a.example";
  exp = pos 1000;
  iat = none;
  jti = some "j";
  sub_tok_hash = none;
}

gate_test : gate_may_act subject actor ≡ ok tt
unfolding gate_may_act sts_delegate_rs.Http.Policy.check_may_act sts_delegate_rs.Json.get
gate_test = refl

gate_may_act_iff_example : (gate_may_act subject actor ≡ ok tt) ↔ (
    (subject.may_act ≡ none)
    ⊎ ((value : Json) × (subject.may_act ≡ some value) × Authorises (as_object value) actor))
gate_may_act_iff_example = gate_may_act_iff subject actor

abbrev entry : TargetPolicyEntry
entry = record {
  allowed_scopes = "read" ∷ [];
  default_scopes = [];
  accepted_token_signing_algs = "RS256" ∷ [];
  pqc_required = false;
}

abbrev fallback_config : SigningConfig
fallback_config = record { pqc_preferred = true; pqc_preferred_algs = []; allow_non_pqc = true }

abbrev fallback_decision : SigningDecision
fallback_decision = record {
  alg = "RS256";
  pqc_fallback = true;
  pqc_fallback_reason = some "pqc_signer_not_selected";
}

signing_decision_for_target-IsSound_example :
    (policy : TargetPolicyEntry) × (◌≡◌ {A = Option TargetPolicyEntry}
      (lookup "api" (("api", entry) ∷ []))
      (some policy))
    × IsSound fallback_config policy "RS256" fallback_decision
unfolding sts_delegate_rs.Http.Policy.signing_decision_for_target sts_delegate_rs.Prelude.◌>>=◌
    sts_delegate_rs.Prelude.ok_or sts_delegate_rs.Http.Policy.signing_decision
    sts_delegate_rs.Http.Policy.is_pqc_jws_alg sts_delegate_rs.Jose.from_jose_alg
signing_decision_for_target-IsSound_example =
    signing_decision_for_target-IsSound (λ s. s) (("api", entry) ∷ []) fallback_config "RS256" "api"
      fallback_decision refl

abbrev no_digest : String → List ℕ
no_digest _ = []

revoked_until_expiry_example :
    (is_revoked_or_unavailable no_digest "t"
      (pos 200)
      (is_revoked_or_unavailable no_digest "t"
        (pos 150)
        (revoke no_digest "t" (pos 200) (pos 100) 4 no_revocations).0).0).1
    ≡ true
unfolding revoke sts_delegate_rs.Http.Revocation.sweep_revoked
revoked_until_expiry_example =
    revoked_until_expiry no_digest "t" (pos 200) (pos 100) (pos 200) 4 no_revocations
      (is_revoked_or_unavailable no_digest "t" (pos 150)
        (revoke no_digest "t" (pos 200) (pos 100) 4 no_revocations).0).0
      refl
      (next _ _ _
        (check_step "t" (pos 150) (revoke no_digest "t" (pos 200) (pos 100) 4 no_revocations).0
          (omega arith))
        (done _))
      (omega arith)

abbrev two_audiences : List (String × String)
two_audiences = ("audience", "a") ∷ ("x", "1") ∷ ("x", "2") ∷ ("audience", "b") ∷ []

accepted_form_iff_example :
    ((done : List String × TokenForm) × (take_pairs (λ s. s) ([], empty_form) two_audiences
        ≡ ok done))
    ↔ ((k : String) → is_recognized_token_form_key k ≡ true → occurrences k two_audiences ≤ 1)
accepted_form_iff_example = accepted_form_iff (λ s. s) two_audiences
