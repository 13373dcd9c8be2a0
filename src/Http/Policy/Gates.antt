-- ===== src/Http/Policy/Gates.antt =====
-- What passing the gates guarantees.
use sts_delegate_rs.Prelude.{
  ℕ, zero, suc, ◌≤◌, String, ap, ◌∙◌, ◌≡◌, ◌↔◌, refl, sym, subst, ◌⊎◌, inl, inr, true, false,
  Option, none, some, Result, ok, after_ok, ok_or-eq-ok, traverse, Result-cases, Option-cases,
  member, lookup, arith, eq_iff,
}
use sts_delegate_rs.Json.{Json, Members, as_object, as_str, and_as_str, get, no_members, member_of}
use sts_delegate_rs.Core.{ActClaim, direct, behind, act_claim}
use sts_delegate_rs.Verify.Claims.{SubjectTokenClaims, AssertionClaims}
use sts_delegate_rs.Dpop.{is_text}
use sts_delegate_rs.Config.{TargetPolicy, TargetPolicyEntry}
use sts_delegate_rs.Http.Policy.{
  gate_may_act, check_may_act, names_other_issuer, act_claim_from_value_at_depth,
  act_claim_from_value, SigningConfig, SigningDecision, is_none_listed, is_pqc_jws_alg,
  signing_decision, signing_decision_for_target,
}

-- The number of actors of a chain.
abbrev pub chain_length : ActClaim → ℕ
chain_length (direct _ _) = 1
chain_length (behind _ _ act) = suc (chain_length act)

chain_length-act_claim :
    (sub : String) (iss : Option String) (act : Option ActClaim) (n : ℕ)
    → ((c : ActClaim) → act ≡ some c → chain_length c ≤ n)
    → chain_length (act_claim sub iss act) ≤ suc n
chain_length-act_claim sub iss none n h = omega arith
chain_length-act_claim sub iss (some c) n h = let b = h c refl in omega arith

traverse-some :
    {A B E : Type 0} (f : A → Result B E) (o : Option A) (b : B)
    → traverse f o ≡ ok (some b)
    → (a : A) × (f a ≡ ok b)
traverse-some f none b h = cc
traverse-some f (some a) b h = elim (Result-cases (f a)) [
  | inl (c, e) ↦ (a, e ∙ ground (arith, e, h))
  | inr (w, e) ↦ absurd (ground (arith, e, h))
]

at_depth-le :
    (left : ℕ) (value : Json) (c : ActClaim)
    → act_claim_from_value_at_depth left value ≡ ok c
    → chain_length c ≤ left
unfolding act_claim_from_value_at_depth
at_depth-le zero value c h = cc
at_depth-le (suc left) value c h = after_ok h λ members _ h₁. after_ok h₁ λ sub _ h₂.
    after_ok h₂ λ act nested h₃.
      let same : act_claim sub (and_as_str (get "iss" members)) act ≡ c = cc in
      rw (sym same) (
        chain_length-act_claim sub (and_as_str (get "iss" members)) act left (λ d e.
          let (a, inner) =
            traverse-some (act_claim_from_value_at_depth left) (get "act" members) d
              (nested ∙ ap ok e) in
          at_depth-le left a d inner))

-- An accepted prior delegation chain names at most ten actors.
pub act_claim_from_value-le :
    (value : Json) (c : ActClaim) → act_claim_from_value value ≡ ok c → chain_length c ≤ 10
unfolding act_claim_from_value
act_claim_from_value-le value c h = at_depth-le 10 value c h

-- What a `may_act` claim must say to authorise an actor.
abbrev pub Authorises : Option Members → AssertionClaims → Type 0
Authorises none actor = ⊥
Authorises (some may_act) actor =
    (and_as_str (get "sub" may_act) ≡ some actor.sub)
    × ((get "iss" may_act ≡ none) ⊎ (and_as_str (get "iss" may_act) ≡ some actor.iss))

is_text_iff : (o : Option String) (t : String) → (is_text o t ≡ true) ↔ (o ≡ some t)
is_text_iff none t = (λ h. cc, λ h. cc)
is_text_iff (some s) t = ground (arith, eq_iff s t)

names_other_issuer_iff :
    (o : Option Json) (iss : String)
    → (names_other_issuer o iss ≡ false) ↔ ((o ≡ none) ⊎ (and_as_str o ≡ some iss))
names_other_issuer_iff none iss = (λ h. inl refl, λ h. refl)
names_other_issuer_iff (some v) iss = ground (arith, is_text_iff (as_str v) iss)

check_may_act_iff :
    (m : Option Members) (actor : AssertionClaims)
    → (check_may_act m actor ≡ ok tt) ↔ Authorises m actor
unfolding check_may_act get
check_may_act_iff none actor = (λ h. cc, λ h. absurd h)
check_may_act_iff (some no_members) actor = (λ h. cc, λ (h, _). cc)
check_may_act_iff (some (member_of k v m)) actor = ground (
  arith,
  is_text_iff (and_as_str (get "sub" (member_of k v m))) actor.sub,
  names_other_issuer_iff (get "iss" (member_of k v m)) actor.iss,
)

-- The gate lets an actor pass exactly when the subject token has no `may_act`, or has one that is an
-- object whose `sub` is the actor and whose `iss`, if any, is the actor's issuer.
pub gate_may_act_iff :
    (subject : SubjectTokenClaims) (actor : AssertionClaims)
    → (gate_may_act subject actor ≡ ok tt) ↔ (
        (subject.may_act ≡ none)
        ⊎ ((value : Json) × (subject.may_act ≡ some value) × Authorises (as_object value) actor))
unfolding gate_may_act
gate_may_act_iff subject actor = elim (Option-cases subject.may_act) [
  | inl e ↦ rw e (λ _. inl refl, λ _. refl)
  | inr (v, e) ↦ rw e (
    λ h. inr (v, refl, (check_may_act_iff (as_object v) actor).0 h),
    λ h. elim h [
      | inl absent ↦ cc
      | inr (w, same, auth) ↦
          let eq : w ≡ v = cc in
          (check_may_act_iff (as_object v) actor).1
            (subst (λ x. Authorises (as_object x) actor) eq auth)
    ],
  )
]

-- What a decision about the signing algorithm respects.
pub record IsSound (config : SigningConfig) (policy : TargetPolicyEntry) (alg : String)
    (d : SigningDecision) : Type 0 where
  pub own : d.alg ≡ alg
  pub accepted :
      (is_none_listed policy.accepted_token_signing_algs ≡ true)
      ⊎ (member alg policy.accepted_token_signing_algs ≡ true)
  pub required : policy.pqc_required ≡ true → is_pqc_jws_alg alg ≡ true
  pub preferred :
      config.pqc_preferred ≡ true
      → is_pqc_jws_alg alg ≡ true
      → member alg config.pqc_preferred_algs ≡ true
  pub fallback :
      (d.pqc_fallback ≡ true) ↔ ((config.pqc_preferred ≡ true) × (is_pqc_jws_alg alg ≡ false))
  pub permitted : d.pqc_fallback ≡ true → config.allow_non_pqc ≡ true

signing_decision-IsSound :
    (config : SigningConfig) (policy : TargetPolicyEntry) (alg : String) (d : SigningDecision)
    → signing_decision config policy alg ≡ ok d
    → IsSound config policy alg d
unfolding signing_decision
signing_decision-IsSound config policy alg d h = record {
  own = ground (arith, h);
  accepted = ground (arith, h);
  required = ground (arith, h);
  preferred = ground (arith, h);
  fallback = ground (arith, h);
  permitted = ground (arith, h);
}

-- A token is signed only for a known target and by the signer's algorithm, which the target accepts, is
-- post-quantum where the target requires it, and is a preferred one where it is post-quantum and
-- preference is on. The decision reports a fallback exactly when preference is on and the algorithm is not
-- post-quantum, and only where the deployment allows that.
pub signing_decision_for_target-IsSound :
    (quoted : String → String) (policies : TargetPolicy) (config : SigningConfig)
    (alg target : String) (d : SigningDecision)
    → signing_decision_for_target quoted policies config alg target ≡ ok d
    → (policy : TargetPolicyEntry) × (lookup target policies ≡ some policy)
      × IsSound config policy alg d
unfolding signing_decision_for_target
signing_decision_for_target-IsSound quoted policies config alg target d h =
    after_ok h λ policy known h₁.
      (policy, ok_or-eq-ok _ _ known, signing_decision-IsSound config policy alg d h₁)
