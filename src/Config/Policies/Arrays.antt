-- ===== src/Config/Policies/Arrays.antt =====
-- What the arrays of texts in a policy of crates/sts-config/src/lib.rs hold.
use sts_delegate_rs.Prelude.{
  String, ◌≡◌, refl, ◌∙◌, Bool, true, false, ◌||◌, Option, none, some, List, [], ok, after_ok,
  after_refuse_if, ok_or-eq-ok, is_some_text, trim, member, insert_text, member-insert_text, arith,
  eq_iff,
}
use sts_delegate_rs.Json.{
  Json, Items, null, bool, number, string, array, object, no_items, item, as_str, as_array, as_bool,
}
use sts_delegate_rs.Config.Policies.{
  collect_scopes, parse_scopes, collect_strings, parse_string_set, parse_policy_bool,
}

-- The array holds the text, and the same of the trimmed texts.
abbrev pub holds_text : String → Items → Bool
holds_text s no_items = false
holds_text s (item value arr) = is_some_text s (as_str value) || holds_text s arr

abbrev pub trimmed_text : Option String → Option String
trimmed_text none = none
trimmed_text (some s) = some (trim s)

abbrev pub holds_trimmed : String → Items → Bool
holds_trimmed s no_items = false
holds_trimmed s (item value arr) =
    is_some_text s (trimmed_text (as_str value)) || holds_trimmed s arr

abbrev pub under_array : (Items → Bool) → Option Items → Bool
under_array p none = false
under_array p (some arr) = p arr

-- The value is there, and is an array that holds the text.
abbrev pub lists : String → Option Json → Bool
lists s none = false
lists s (some value) = under_array (holds_text s) (as_array value)

abbrev pub lists_trimmed : String → Option Json → Bool
lists_trimmed s none = false
lists_trimmed s (some value) = under_array (holds_trimmed s) (as_array value)

abbrev pub says_yes : Option Json → Bool
says_yes none = false
says_yes (some (bool true)) = true
says_yes (some _) = false

pub collect_scopes-member :
    (s aud key : String) (arr : Items) (scopes found : List String)
    → collect_scopes aud key arr scopes ≡ ok found
    → member s found ≡ (holds_text s arr || member s scopes)
unfolding collect_scopes
collect_scopes-member s aud key no_items scopes found h = ground (arith, h)
collect_scopes-member s aud key (item value arr) scopes found h = after_ok h λ scope e h₁. ground (
  arith,
  ok_or-eq-ok _ _ e,
  eq_iff scope s,
  member-insert_text s scope scopes,
  collect_scopes-member s aud key arr (insert_text scope scopes) found h₁,
)

collect_strings-member :
    (s aud key : String) (arr : Items) (found result : List String)
    → collect_strings aud key arr found ≡ ok result
    → member s result ≡ (holds_trimmed s arr || member s found)
unfolding collect_strings
collect_strings-member s aud key no_items found result h = ground (arith, h)
collect_strings-member s aud key (item value arr) found result h = after_ok h λ text e h₁.
    after_refuse_if _ h₁ λ _ h₂. ground (
      arith,
      ok_or-eq-ok _ _ e,
      eq_iff (trim text) s,
      member-insert_text s (trim text) found,
      collect_strings-member s aud key arr (insert_text (trim text) found) result h₂,
    )

pub or_false : (b : Bool) → (b || false) ≡ b
or_false true = refl
or_false false = refl

pub parse_scopes-member :
    (s aud key : String) (value : Option Json) (scopes : List String)
    → parse_scopes aud key value ≡ ok scopes
    → member s scopes ≡ lists s value
unfolding parse_scopes
parse_scopes-member s aud key none scopes h = ground (arith, h)
parse_scopes-member s aud key (some value) scopes h = after_ok h λ arr e h₁.
    rw (ok_or-eq-ok _ _ e) (collect_scopes-member s aud key arr [] scopes h₁ ∙ or_false _)

pub parse_string_set-member :
    (s aud key : String) (value : Option Json) (found : List String)
    → parse_string_set aud key value ≡ ok found
    → member s found ≡ lists_trimmed s value
unfolding parse_string_set
parse_string_set-member s aud key none found h = ground (arith, h)
parse_string_set-member s aud key (some value) found h = after_ok h λ arr e h₁.
    rw (ok_or-eq-ok _ _ e) (collect_strings-member s aud key arr [] found h₁ ∙ or_false _)

as_bool-yes : (value : Json) (b : Bool) → as_bool value ≡ some b → b ≡ says_yes (some value)
as_bool-yes null b h = cc
as_bool-yes (bool true) b h = cc
as_bool-yes (bool false) b h = cc
as_bool-yes (number n) b h = cc
as_bool-yes (string s) b h = cc
as_bool-yes (array arr) b h = cc
as_bool-yes (object m) b h = cc

pub parse_policy_bool_lem :
    (aud key : String) (value : Option Json) (b : Bool)
    → parse_policy_bool aud key value ≡ ok b
    → b ≡ says_yes value
unfolding parse_policy_bool
parse_policy_bool_lem aud key none b h = cc
parse_policy_bool_lem aud key (some value) b h = as_bool-yes value b (ok_or-eq-ok _ _ h)
