-- ===== src/Http/Policy.antt =====
-- The policy gates of crates/sts-http/src/lib.rs: `may_act`, the prior delegation chain, and the signing
-- algorithm of a target. `quoted` is the text `{:?}` of a string.
pub mod Gates
use sts_delegate_rs.Prelude.{
  ℕ, zero, suc, String, Bool, true, false, not, ◌&&◌, ◌||◌, Option, none, some, List, [], ◌∷◌,
  Result, ok, err, ◌>>=◌, ◌>>◌, refuse_if, ok_or, traverse, member, lookup, if◌then◌else◌, text_eq,
  is_empty, ◌⧺◌,
}
use sts_delegate_rs.Json.{
  Json, Members, object, no_members, member_of, as_str, and_as_str, get, as_object,
}
use sts_delegate_rs.Config.{TargetPolicy, TargetPolicyEntry}
use sts_delegate_rs.Core.{ActClaim, act_claim}
use sts_delegate_rs.Jose.{MlDsaAlgorithm, from_jose_alg}
use sts_delegate_rs.Verify.Claims.{SubjectTokenClaims, AssertionClaims}
use sts_delegate_rs.Dpop.{is_text, non_empty_string}
use sts_delegate_rs.Http.{HttpError, invalid_request, invalid_client, invalid_target}

unfoldable pub validate_actor_identity :
    (String → String) → List String → AssertionClaims → Result Unit HttpError
validate_actor_identity quoted actor_ids actor_claims =
    if not (member actor_claims.sub actor_ids)
    then err (invalid_client ("actor identity " ⧺ quoted actor_claims.sub ⧺ " not permitted"))
    else if not (text_eq actor_claims.iss actor_claims.sub)
    then err (invalid_client "actor_token iss and sub must match")
    else ok tt

abbrev is_empty_object : Members → Bool
is_empty_object no_members = true
is_empty_object (member_of _ _ _) = false

-- `may_act` names an issuer, and it is not this one.
abbrev pub names_other_issuer : Option Json → String → Bool
names_other_issuer none iss = false
names_other_issuer (some want_iss) iss = not (is_text (as_str want_iss) iss)

unfoldable pub check_may_act : Option Members → AssertionClaims → Result Unit HttpError
check_may_act none actor_claims = err (invalid_request "may_act must be a JSON object")
check_may_act (some may_act) actor_claims =
    if is_empty_object may_act
    then err (invalid_request "may_act present but empty: no actor authorized")
    else if not (is_text (and_as_str (get "sub" may_act)) actor_claims.sub)
    then err (invalid_request "may_act does not authorize this actor")
    else if names_other_issuer (get "iss" may_act) actor_claims.iss
    then err (invalid_request "may_act issuer does not match this actor")
    else ok tt

abbrev gate : Option Json → AssertionClaims → Result Unit HttpError
gate none actor_claims = ok tt
gate (some may_act) actor_claims = check_may_act (as_object may_act) actor_claims

unfoldable pub gate_may_act : SubjectTokenClaims → AssertionClaims → Result Unit HttpError
gate_may_act subject_claims actor_claims = gate subject_claims.may_act actor_claims

-- `act_claim_from_value_at_depth` at depth 11 - `left`: its test `depth > 10` is that none is left.
unfoldable pub act_claim_from_value_at_depth : ℕ → Json → Result ActClaim HttpError
act_claim_from_value_at_depth zero value = err (invalid_request "act delegation chain too deep")
act_claim_from_value_at_depth (suc left) value = do
  members ← ok_or (as_object value) (invalid_request "malformed prior act claim")
  sub ←
      ok_or (non_empty_string (and_as_str (get "sub" members)))
        (invalid_request "malformed prior act claim")
  act ← traverse (act_claim_from_value_at_depth left) (get "act" members)
  ok (act_claim sub (and_as_str (get "iss" members)) act)

unfoldable pub act_claim_from_value : Json → Result ActClaim HttpError
act_claim_from_value value = act_claim_from_value_at_depth 10 value

-- The fields of the configuration that the signing decision reads.
pub record SigningConfig : Type 0 where
  pub pqc_preferred : Bool
  pub pqc_preferred_algs : List String
  pub allow_non_pqc : Bool

pub record SigningDecision : Type 0 where
  pub alg : String
  pub pqc_fallback : Bool
  pub pqc_fallback_reason : Option String

abbrev pub is_none_listed : List String → Bool
is_none_listed [] = true
is_none_listed (a ∷ rest) = false

abbrev is_known : Option MlDsaAlgorithm → Bool
is_known none = false
is_known (some _) = true

unfoldable pub is_pqc_jws_alg : String → Bool
is_pqc_jws_alg alg = is_known (from_jose_alg alg)

unfoldable pub signing_decision :
    SigningConfig → TargetPolicyEntry → String → Result SigningDecision HttpError
signing_decision config policy alg =
    if not (is_none_listed policy.accepted_token_signing_algs)
      && not (member alg policy.accepted_token_signing_algs)
    then err (invalid_target "target does not accept the configured token signing algorithm")
    else if policy.pqc_required && not (is_pqc_jws_alg alg)
    then err (invalid_target "target requires PQC token signing but the runtime signer is non-PQC")
    else if config.pqc_preferred && is_pqc_jws_alg alg && not (member alg config.pqc_preferred_algs)
    then err (
        invalid_target
          "configured PQC token signing algorithm is not allowed by STS_PQC_PREFERRED_ALGS")
    else if config.pqc_preferred && not (is_pqc_jws_alg alg)
    then (if not config.allow_non_pqc
        then err (invalid_target "PQC token signing is preferred and non-PQC fallback is disabled")
        else ok (record {
          alg = alg;
          pqc_fallback = true;
          pqc_fallback_reason = some "pqc_signer_not_selected";
        }))
    else ok (record { alg = alg; pqc_fallback = false; pqc_fallback_reason = none })

-- `alg` is what the signer's `alg()` gives.
unfoldable pub signing_decision_for_target :
    (String → String)
    → TargetPolicy
    → SigningConfig
    → String
    → String
    → Result SigningDecision HttpError
signing_decision_for_target quoted policies config alg target = do
  policy ←
      ok_or (lookup target policies) (invalid_target ("unknown/forbidden target " ⧺ quoted target))
  signing_decision config policy alg
