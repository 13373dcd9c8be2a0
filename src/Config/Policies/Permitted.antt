-- ===== src/Config/Policies/Permitted.antt =====
-- Whom a loaded impersonation policy of crates/sts-config/src/lib.rs lets a client impersonate, and where.
use sts_delegate_rs.Prelude.{
  String, ◌≡◌, refl, subst, ◌∙◌, ◌⊎◌, inl, inr, Bool, false, ◌||◌, Option, none, some, List, [],
  Result, ok, after_ok, ok_or-eq-ok, text_eq, is_some_text, member, lookup, insert, lookup-insert,
  insert_text, member-insert_text, arith, eq_iff, Bool-cases,
}
use sts_delegate_rs.Json.{
  Json, Items, Members, no_items, item, no_members, member_of, as_str, as_object, get,
}
use sts_delegate_rs.Config.{
  ImpersonationSelector, values, allows, ImpersonationPolicy, ImpersonationPolicyEntry, ConfigError,
}
use sts_delegate_rs.Config.Policies.{
  collect_values, listed_values, parse_impersonation_selector, impersonation_policy_entry,
  collect_clients, normalize_impersonation_policy,
}
use sts_delegate_rs.Config.Policies.Arrays.{holds_text, lists, or_false}
use sts_delegate_rs.Config.Policies.Granted.{HasMember}

collect_values-member :
    (s client_id field : String) (arr : Items) (found result : List String)
    → collect_values client_id field arr found ≡ ok result
    → member s result ≡ (holds_text s arr || member s found)
unfolding collect_values
collect_values-member s client_id field no_items found result h = ground (arith, h)
collect_values-member s client_id field (item value arr) found result h = after_ok h λ text e h₁.
    ground (
      arith,
      ok_or-eq-ok _ _ e,
      eq_iff text s,
      member-insert_text s text found,
      collect_values-member s client_id field arr (insert_text text found) result h₁,
    )

-- An absent selector allows nothing, "*" everything, and an array what it lists.
abbrev pub selected : String → Option Json → Bool
selected x none = false
selected x (some value) = is_some_text "*" (as_str value) || lists x (some value)

listed_values-allows :
    (x client_id field : String) (value : Json) (selector : ImpersonationSelector)
    → listed_values client_id field value ≡ ok selector
    → allows selector x ≡ lists x (some value)
unfolding listed_values allows
listed_values-allows x client_id field value selector h = after_ok h λ arr e h₁.
    after_ok h₁ λ found all h₂.
      let same : values found ≡ selector = cc in
      rw (← same)
        (rw (ok_or-eq-ok _ _ e) (collect_values-member x _ _ arr [] found all ∙ or_false _))

parse_impersonation_selector-allows :
    (x client_id field : String) (value : Option Json) (selector : ImpersonationSelector)
    → parse_impersonation_selector client_id field value ≡ ok selector
    → allows selector x ≡ selected x value
unfolding parse_impersonation_selector allows
parse_impersonation_selector-allows x client_id field none selector h = ground (arith, h)
parse_impersonation_selector-allows x client_id field (some value) selector h =
    ground (arith, h, listed_values-allows x client_id field value selector)

-- An entry permits the targets and the subjects that its object selects.
pub record Permits (policy : Json) (entry : ImpersonationPolicyEntry) : Type 0 where
  pub members : Members
  pub is_object : as_object policy ≡ some members
  pub targets : (x : String) → allows entry.targets x ≡ selected x (get "targets" members)
  pub subjects : (x : String) → allows entry.subjects x ≡ selected x (get "subjects" members)

entry-injective :
    {a b : ImpersonationPolicyEntry}
    → ◌≡◌ {A = Result ImpersonationPolicyEntry ConfigError} (ok a) (ok b)
    → a ≡ b
entry-injective h = cc

impersonation_policy_entry-Permits :
    (client_id : String) (policy : Json) (entry : ImpersonationPolicyEntry)
    → impersonation_policy_entry client_id policy ≡ ok entry
    → Permits policy entry
unfolding impersonation_policy_entry
impersonation_policy_entry-Permits client_id policy entry h = after_ok h λ members is_object h₁.
    after_ok h₁ λ targets e₁ h₂. after_ok h₂ λ subjects e₂ h₃.
      subst (Permits policy) (entry-injective h₃) (record {
        members = members;
        is_object = ok_or-eq-ok _ _ is_object;
        targets = λ x. parse_impersonation_selector-allows x client_id _ _ targets e₁;
        subjects = λ x. parse_impersonation_selector-allows x client_id _ _ subjects e₂;
      })

-- The document has a member for the client that permits the entry.
abbrev pub Permitted : String → ImpersonationPolicyEntry → Members → Type 0
Permitted client_id entry map =
    (policy : Json) × HasMember client_id policy map × Permits policy entry

from_empty :
    (client_id : String) (entry : ImpersonationPolicyEntry) (map : Members)
    → (none ≡ some entry) ⊎ Permitted client_id entry map
    → Permitted client_id entry map
from_empty client_id entry map (inl no_entry) = cc
from_empty client_id entry map (inr permitted) = permitted

new_or_later :
    (client_id j : String) (w : Json) (entry e : ImpersonationPolicyEntry) (map : Members)
    (clients : ImpersonationPolicy)
    → Permits w e
    → (lookup client_id (insert j e clients) ≡ some entry) ⊎ Permitted client_id entry map
    → (lookup client_id clients ≡ some entry) ⊎ Permitted client_id entry (member_of j w map)
new_or_later client_id j w entry e map clients permits (inr (policy, has, permitted)) =
    inr (policy, inr has, permitted)
new_or_later client_id j w entry e map clients permits (inl l) =
    elim (Bool-cases (text_eq j client_id)) [
      | inl same ↦
          let here : j ≡ client_id = (eq_iff j client_id).0 same in
          let it : e ≡ entry = ground (arith, l, same, lookup-insert j client_id e clients) in
          inr (w, inl (here, refl), subst (Permits w) it permits)
      | inr other ↦ inl (ground (arith, l, other, lookup-insert j client_id e clients))
    ]

collect_clients-Permitted :
    (map : Members) (clients found : ImpersonationPolicy) (client_id : String)
    (entry : ImpersonationPolicyEntry)
    → collect_clients map clients ≡ ok found
    → lookup client_id found ≡ some entry
    → (lookup client_id clients ≡ some entry) ⊎ Permitted client_id entry map
unfolding collect_clients
collect_clients-Permitted no_members clients found client_id entry h l =
    let same : clients ≡ found = cc in inl (rw same l)
collect_clients-Permitted (member_of j w map) clients found client_id entry h l =
    after_ok h λ e parsed h₁.
      new_or_later client_id j w entry e map clients
        (impersonation_policy_entry-Permits j w e parsed)
        (collect_clients-Permitted map (insert j e clients) found client_id entry h₁ l)

-- A client may impersonate only if the policy is a JSON object with a member for it. It may then act on the
-- targets and for the subjects that this member selects: those of its arrays, all of them for "*",
-- and none where the selector is absent.
pub normalize_impersonation-Permitted :
    (parsed : Json) (clients : ImpersonationPolicy) (client_id : String)
    (entry : ImpersonationPolicyEntry)
    → normalize_impersonation_policy parsed ≡ ok clients
    → lookup client_id clients ≡ some entry
    → (map : Members) × (as_object parsed ≡ some map) × Permitted client_id entry map
unfolding normalize_impersonation_policy
normalize_impersonation-Permitted parsed clients client_id entry h l = after_ok h λ map m h₁. (
  map,
  ok_or-eq-ok _ _ m,
  from_empty client_id entry map (collect_clients-Permitted map [] clients client_id entry h₁ l),
)
