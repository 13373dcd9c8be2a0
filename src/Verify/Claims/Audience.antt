-- ===== src/Verify/Claims/Audience.antt =====
-- The audience test of crates/sts-verify/src/lib.rs.
use sts_delegate_rs.Prelude.{
  String, ◌≡◌, ap, ◌⊎◌, inl, inr, true, List, [], ◌∷◌, any, member, member_cons, Bool-cases,
  text_eq, arith, eq_iff, eq_refl,
}
use sts_delegate_rs.Json.{Json, Items, no_items, item, string, array}
use sts_delegate_rs.Verify.Claims.{any_item, audience_matches}

-- The array has the text.
abbrev pub HasText : String → Items → Type 0
HasText expected no_items = ⊥
HasText expected (item value rest) = (value ≡ string expected) ⊎ HasText expected rest

-- An `aud` claim names an audience: it is that text, or an array that has it.
abbrev pub Names : Json → String → Type 0
Names (string value) expected = value ≡ expected
Names (array values) expected = HasText expected values
Names _ expected = ⊥

-- Some expected audience is named.
pub record NamesAudience (aud : Json) (expected : List String) : Type 0 where
  pub audience : String
  pub is_expected : member audience expected ≡ true
  pub is_named : Names aud audience

any_item-HasText :
    (expected : String) (values : Items) → any_item expected values ≡ true → HasText expected values
unfolding any_item
any_item-HasText expected no_items h = cc
any_item-HasText expected (item (string value) rest) h =
    elim (Bool-cases (text_eq value expected)) [
      | inl same ↦ inl (ap string ((eq_iff value expected).0 same))
      | inr other ↦ inr (any_item-HasText expected rest (ground (arith, h, other)))
    ]
any_item-HasText expected (item _ rest) h = inr (any_item-HasText expected rest h)

audience_matches-Names :
    (aud : Json) (expected : String) → audience_matches aud expected ≡ true → Names aud expected
unfolding audience_matches
audience_matches-Names (string value) expected h = (eq_iff value expected).0 h
audience_matches-Names (array values) expected h = any_item-HasText expected values h
audience_matches-Names _ expected h = cc

pub any-NamesAudience :
    (aud : Json) (expected : List String)
    → any (λ value. audience_matches aud value) expected ≡ true
    → NamesAudience aud expected
any-NamesAudience aud [] h = cc
any-NamesAudience aud (e ∷ expected) h = elim (Bool-cases (audience_matches aud e)) [
  | inl named ↦ record {
    audience = e;
    is_expected = rw eq_refl;
    is_named = audience_matches-Names aud e named;
  }
  | inr other ↦
      let later = any-NamesAudience aud expected (ground (arith, h, other)) in
      record {
        audience = later.audience;
        is_expected = member_cons later.audience e expected later.is_expected;
        is_named = later.is_named;
      }
]
