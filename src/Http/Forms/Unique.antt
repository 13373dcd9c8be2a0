-- ===== src/Http/Forms/Unique.antt =====
-- No parameter of a form is taken twice.
use sts_delegate_rs.Prelude.{
  ℕ, suc, ◌+◌, ◌≤◌, String, ◌≡◌, ◌↔◌, refl, Bool, true, false, List, [], ◌∷◌, ok, ◌>>=◌, after_ok,
  if◌then◌else◌, member, text_eq, arith, eq_iff, Bool-cases, inl, inr,
}
use sts_delegate_rs.Http.Forms.{
  TokenForm, empty_form, is_recognized_token_form_key, assign_token_form_value, take_pair,
  take_pairs,
}

-- How often a key occurs.
abbrev pub occurrences : String → List (String × String) → ℕ
occurrences k [] = 0
occurrences k ((j, v) ∷ pairs) =
    let rest = occurrences k pairs in if text_eq j k then suc rest else rest

abbrev once : Bool → ℕ
once true = 1
once false = 0

module _ (quoted : String → String) where
  take_pair-le :
      (k : String) (seen : List String) (form : TokenForm) (pair : String × String)
      (pairs : List (String × String)) (next : List String × TokenForm)
      → is_recognized_token_form_key k ≡ true
      → take_pair quoted (seen, form) pair ≡ ok next
      → once (member k next.0) + occurrences k pairs ≤ 1
      → once (member k seen) + occurrences k (pair ∷ pairs) ≤ 1
  unfolding take_pair
  take_pair-le k seen form (key, value) pairs next known h le =
      ground (arith, eq_iff key k, known, h, le)

  take_pairs-le :
      (k : String) (state done : List String × TokenForm) (pairs : List (String × String))
      → is_recognized_token_form_key k ≡ true
      → take_pairs quoted state pairs ≡ ok done
      → once (member k state.0) + occurrences k pairs ≤ 1
  unfolding take_pairs
  take_pairs-le k (seen, form) done [] known h = ground arith
  take_pairs-le k (seen, form) done (pair ∷ pairs) known h = after_ok h λ next taken rest.
      take_pair-le k seen form pair pairs next known taken
        (take_pairs-le k next done pairs known rest)

  -- No recognised parameter is left to occur twice.
  abbrev IsUnique : List String → List (String × String) → Type 0
  IsUnique seen pairs =
      (k : String)
      → is_recognized_token_form_key k ≡ true
      → once (member k seen) + occurrences k pairs ≤ 1

  take_pair-accepts :
      (seen : List String) (form : TokenForm) (key value : String) (pairs : List (String × String))
      → IsUnique seen ((key, value) ∷ pairs)
      → (next : List String × TokenForm) × (take_pair quoted (seen, form) (key, value) ≡ ok next)
        × IsUnique next.0 pairs
  unfolding take_pair
  take_pair-accepts seen form key value pairs h =
      elim (Bool-cases (is_recognized_token_form_key key)) [
        | inr unknown ↦ (
          (seen, form),
          ground (arith, unknown),
          λ k known. ground (arith, h k known, eq_iff key k, known, unknown),
        )
        | inl known ↦
            let fresh : member key seen ≡ false = ground (arith, h key known, eq_iff key key) in
            (
              (key ∷ seen, assign_token_form_value form key value),
              ground (arith, known, fresh),
              λ k here. ground (arith, h k here, h key known, eq_iff key k, fresh),
            )
      ]

  take_pairs-accepts :
      (seen : List String) (form : TokenForm) (pairs : List (String × String))
      → IsUnique seen pairs
      → (done : List String × TokenForm) × (take_pairs quoted (seen, form) pairs ≡ ok done)
  unfolding take_pairs ◌>>=◌
  take_pairs-accepts seen form [] h = ((seen, form), refl)
  take_pairs-accepts seen form ((key, value) ∷ pairs) h =
      let ((seen', form'), taken, unique) = take_pair-accepts seen form key value pairs h in
      let (done, rest) = take_pairs-accepts seen' form' pairs unique in (done, rw taken rest)

  -- The pairs of a form are accepted exactly when every recognised parameter occurs at most once.
  pub accepted_form_iff :
      (pairs : List (String × String))
      → ((done : List String × TokenForm) × (take_pairs quoted ([], empty_form) pairs ≡ ok done))
        ↔ ((k : String) → is_recognized_token_form_key k ≡ true → occurrences k pairs ≤ 1)
  accepted_form_iff pairs = (
    λ (done, h) k known.
        let le = take_pairs-le k ([], empty_form) done pairs known h in omega arith,
    λ h. take_pairs-accepts [] empty_form pairs (λ k known. let le = h k known in omega arith),
  )
