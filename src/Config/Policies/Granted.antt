-- ===== src/Config/Policies/Granted.antt =====
-- What a loaded target policy of crates/sts-config/src/lib.rs permits: what the JSON document lists, and
-- nothing else.
use sts_delegate_rs.Prelude.{
  String, ◌≡◌, refl, subst, ◌⊎◌, inl, inr, false, Option, none, some, [], Result, ok, after_ok,
  ok_or-eq-ok, map_err-eq-ok, text_eq, starts_with, member, lookup, insert, lookup-insert, arith,
  eq_iff, Bool-cases,
}
use sts_delegate_rs.Json.{Json, Members, no_members, member_of, as_object, get}
use sts_delegate_rs.Config.{TargetPolicy, TargetPolicyEntry, ConfigSource, get_var, ConfigError}
use sts_delegate_rs.Config.Source.{or_else}
use sts_delegate_rs.Config.Policies.{
  target_policy_entry, collect_targets, normalize_target_policy, target_policy_of,
  load_target_policy_from_source, and_then,
}
use sts_delegate_rs.Config.Policies.Arrays.{
  lists, lists_trimmed, says_yes, parse_scopes-member, parse_string_set-member,
  parse_policy_bool_lem,
}

-- An entry grants what its object lists: `scopes` stands in for a missing `allowed_scopes`.
pub record Grants (policy : Json) (entry : TargetPolicyEntry) : Type 0 where
  pub members : Members
  pub is_object : as_object policy ≡ some members
  pub allowed :
      (s : String)
      → member s entry.allowed_scopes
        ≡ lists s (or_else (get "allowed_scopes" members) (get "scopes" members))
  pub defaults :
      (s : String) → member s entry.default_scopes ≡ lists s (get "default_scopes" members)
  pub algs :
      (s : String)
      → member s entry.accepted_token_signing_algs
        ≡ lists_trimmed s (get "accepted_token_signing_algs" members)
  pub pqc : entry.pqc_required ≡ says_yes (get "pqc_required" members)

entry-injective :
    {a b : TargetPolicyEntry} → ◌≡◌ {A = Result TargetPolicyEntry ConfigError} (ok a) (ok b) → a ≡ b
entry-injective h = cc

target_policy_entry-Grants :
    (aud : String) (policy : Json) (entry : TargetPolicyEntry)
    → target_policy_entry aud policy ≡ ok entry
    → Grants policy entry
unfolding target_policy_entry
target_policy_entry-Grants aud policy entry h = after_ok h λ members is_object h₁.
    after_ok h₁ λ allowed e₁ h₂. after_ok h₂ λ defaults e₂ h₃. after_ok h₃ λ algs e₃ h₄.
      after_ok h₄ λ pqc e₄ h₅. subst (Grants policy) (entry-injective h₅) (record {
        members = members;
        is_object = ok_or-eq-ok _ _ is_object;
        allowed = λ s. parse_scopes-member s aud _ _ allowed e₁;
        defaults = λ s. parse_scopes-member s aud _ _ defaults e₂;
        algs = λ s. parse_string_set-member s aud _ _ algs e₃;
        pqc = parse_policy_bool_lem aud _ _ pqc e₄;
      })

-- The object has the member.
abbrev pub HasMember : String → Json → Members → Type 0
HasMember k v no_members = ⊥
HasMember k v (member_of j w m) = ((j ≡ k) × (w ≡ v)) ⊎ HasMember k v m

-- The document has a member for the target that grants the entry, and whose key is not a comment.
abbrev pub Granted : String → TargetPolicyEntry → Members → Type 0
Granted aud entry map =
    (policy : Json) × HasMember aud policy map × (starts_with aud "_" ≡ false) × Grants policy entry

Granted-later :
    (aud j : String) (w : Json) (entry : TargetPolicyEntry) (map : Members)
    → Granted aud entry map
    → Granted aud entry (member_of j w map)
Granted-later aud j w entry map (policy, has, key, grants) = (policy, inr has, key, grants)

later :
    (aud j : String) (w : Json) (entry : TargetPolicyEntry) (map : Members) (targets : TargetPolicy)
    → (lookup aud targets ≡ some entry) ⊎ Granted aud entry map
    → (lookup aud targets ≡ some entry) ⊎ Granted aud entry (member_of j w map)
later aud j w entry map targets (inl old) = inl old
later aud j w entry map targets (inr granted) = inr (Granted-later aud j w entry map granted)

new_or_later :
    (aud j : String) (w : Json) (entry e : TargetPolicyEntry) (map : Members)
    (targets : TargetPolicy)
    → starts_with j "_" ≡ false
    → Grants w e
    → (lookup aud (insert j e targets) ≡ some entry) ⊎ Granted aud entry map
    → (lookup aud targets ≡ some entry) ⊎ Granted aud entry (member_of j w map)
new_or_later aud j w entry e map targets key grants (inr granted) =
    inr (Granted-later aud j w entry map granted)
new_or_later aud j w entry e map targets key grants (inl l) = elim (Bool-cases (text_eq j aud)) [
  | inl same ↦
      let here : j ≡ aud = (eq_iff j aud).0 same in
      let it : e ≡ entry = ground (arith, l, same, lookup-insert j aud e targets) in
      inr (w, inl (here, refl), rw (← here) key, subst (Grants w) it grants)
  | inr other ↦ inl (ground (arith, l, other, lookup-insert j aud e targets))
]

-- An entry that is found was there before, or comes from the document.
collect_targets-Granted :
    (map : Members) (targets found : TargetPolicy) (aud : String) (entry : TargetPolicyEntry)
    → collect_targets map targets ≡ ok found
    → lookup aud found ≡ some entry
    → (lookup aud targets ≡ some entry) ⊎ Granted aud entry map
unfolding collect_targets
collect_targets-Granted no_members targets found aud entry h l =
    let same : targets ≡ found = cc in inl (rw same l)
collect_targets-Granted (member_of j w map) targets found aud entry h l =
    elim (Bool-cases (starts_with j "_")) [
      | inl comment ↦
          later aud j w entry map targets
            (collect_targets-Granted map targets found aud entry (rw comment at h) l)
      | inr target ↦ after_ok (rw target at h) λ e parsed h₁.
          new_or_later aud j w entry e map targets target (target_policy_entry-Grants j w e parsed)
            (collect_targets-Granted map (insert j e targets) found aud entry h₁ l)
    ]

from_empty :
    (aud : String) (entry : TargetPolicyEntry) (map : Members)
    → (none ≡ some entry) ⊎ Granted aud entry map
    → Granted aud entry map
from_empty aud entry map (inl no_entry) = cc
from_empty aud entry map (inr granted) = granted

-- The documents that a deployment may give.
abbrev pub policy_document : (String → Option String) → ConfigSource → Option String
policy_document read_to_string source =
    or_else (get_var "TARGET_POLICY_JSON" source)
      (and_then (get_var "TARGET_POLICY_FILE" source) read_to_string)

module _ (from_str : String → Result Json String) where
  target_policy_of-Granted :
      (document : Option String) (targets : TargetPolicy) (aud : String) (entry : TargetPolicyEntry)
      → target_policy_of from_str document ≡ ok targets
      → lookup aud targets ≡ some entry
      → (raw : String) × (document ≡ some raw)
        × ((parsed : Json) × (from_str raw ≡ ok parsed)
            × ((map : Members) × (as_object parsed ≡ some map) × Granted aud entry map))
  unfolding target_policy_of normalize_target_policy
  target_policy_of-Granted none targets aud entry h l =
      let same : targets ≡ [] = cc in let no_entry : none ≡ some entry = rw same at l in cc
  target_policy_of-Granted (some raw) targets aud entry h l = after_ok h λ parsed e h₁.
      after_ok h₁ λ map m h₂.
        let granted =
          from_empty aud entry map (collect_targets-Granted map [] targets aud entry h₂ l) in
        (raw, refl, (parsed, map_err-eq-ok _ _ e, (map, ok_or-eq-ok _ _ m, granted)))

  -- A target is known only if the deployment gives a policy document that is a JSON object with a member
  -- for it whose key does not start with an underscore. Its scopes, default scopes and algorithms are
  -- the texts that this member lists, the algorithms trimmed, and it requires post-quantum signing exactly
  -- if the member says so.
  pub load_target_policy-Granted :
      (read_to_string : String → Option String) (source : ConfigSource) (targets : TargetPolicy)
      (aud : String) (entry : TargetPolicyEntry)
      → load_target_policy_from_source from_str read_to_string source ≡ ok targets
      → lookup aud targets ≡ some entry
      → (raw : String) × (policy_document read_to_string source ≡ some raw)
        × ((parsed : Json) × (from_str raw ≡ ok parsed)
            × ((map : Members) × (as_object parsed ≡ some map) × Granted aud entry map))
  unfolding load_target_policy_from_source
  load_target_policy-Granted read_to_string source targets aud entry h l =
      target_policy_of-Granted (policy_document read_to_string source) targets aud entry h l
