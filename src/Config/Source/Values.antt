-- ===== src/Config/Source/Values.antt =====
-- Which numbers and identities are read from the variables of crates/sts-config/src/lib.rs.
use sts_delegate_rs.Prelude.{
  ℕ, ℤ, ◌≤◌, ◌≤ℤ◌, String, ◌≡◌, refl, ◌∙◌, inl, inr, true, false, Option, some, List, [], ◌∷◌, ok,
  after_ok, after_refuse_if, IsI64, ◌>>=◌, refuse_if, ok_or, ltb_ℤ→ge, member, arith, eq_refl,
  insert_text, extend_texts, member-insert_text, member-extend_texts, false_of_||, Bool-cases,
}
use sts_delegate_rs.Prelude.Text.Decimal.{show_i64, parse_i64-show_i64, show_i64-solid}
use sts_delegate_rs.Prelude.Text.Words.{trim_of_IsSolid}
use sts_delegate_rs.Config.{ConfigSource, get_var}
use sts_delegate_rs.Config.Source.{
  parse_env_int, parse_env_usize, is_none_of, trimmed, or_default, parse_actor_ids,
  parse_client_ids, split_csv_set, require_expected_aud,
}

module _ (source : ConfigSource) (key : String) where
  -- A number that is read respects the bounds that are asked for.
  pub parse_env_int-least :
      (default least value : ℤ) (maximum : Option ℤ)
      → parse_env_int source key default (some least) maximum ≡ ok value
      → least ≤ℤ value
  unfolding parse_env_int
  parse_env_int-least default least value maximum h = after_ok h λ v _ h₁.
      after_refuse_if _ h₁ λ inside h₂.
        let same : v ≡ value = cc in
        let (low, _) = false_of_|| _ _ inside in rw (← same) (ltb_ℤ→ge v least low)

  pub parse_env_int-most :
      (default value most : ℤ) (minimum : Option ℤ)
      → parse_env_int source key default minimum (some most) ≡ ok value
      → value ≤ℤ most
  unfolding parse_env_int
  parse_env_int-most default value most minimum h = after_ok h λ v _ h₁.
      after_refuse_if _ h₁ λ inside h₂.
        let same : v ≡ value = cc in
        let (_, high) = false_of_|| _ _ inside in rw (← same) (ltb_ℤ→ge most v high)

  pub parse_env_usize-least :
      (default least value : ℕ) (maximum : Option ℕ)
      → parse_env_usize source key default (some least) maximum ≡ ok value
      → least ≤ value
  unfolding parse_env_usize
  parse_env_usize-least default least value maximum h = after_ok h λ v _ h₁.
      after_refuse_if _ h₁
        λ inside h₂. let same : v ≡ value = cc in rw (← same) (ground (arith, inside))

member_of_some : (ids : List String) (x : String) → member x ids ≡ true → is_none_of ids ≡ false
member_of_some [] x h = cc
member_of_some (id ∷ ids) x h = refl

first_or_single :
    (ids : List String) → is_none_of ids ≡ false → (id : String) × (member id ids ≡ true)
first_or_single [] h = cc
first_or_single (id ∷ ids) h = (id, rw eq_refl)

-- Clients default to the actors, so that there is one if there is an actor.
pub parse_client_ids-some :
    (source : ConfigSource) (actor_ids : List String)
    → is_none_of actor_ids ≡ false
    → is_none_of (parse_client_ids source actor_ids) ≡ false
unfolding parse_client_ids
parse_client_ids-some source actor_ids h =
    let ids = split_csv_set (or_default (get_var "CLIENT_IDS" source) "") in
    elim (Bool-cases (is_none_of ids)) [
      | inl empty ↦
          let (id, known) = first_or_single actor_ids h in
          let there : member id (extend_texts actor_ids ids) ≡ true =
            member-extend_texts id actor_ids ids ∙ rw known in
          rw empty (member_of_some _ id there)
      | inr full ↦ rw full full
    ]

pub parse_actor_ids-some :
    (source : ConfigSource) (ids : List String)
    → parse_actor_ids source ≡ ok ids
    → is_none_of ids ≡ false
unfolding parse_actor_ids
parse_actor_ids-some source ids h = after_refuse_if _ h λ full h₁. ground (arith, full, h₁)

pub require_expected_aud-some :
    (source : ConfigSource) (audiences : List String)
    → require_expected_aud source ≡ ok audiences
    → is_none_of audiences ≡ false
unfolding require_expected_aud
require_expected_aud-some source audiences h =
    after_ok h λ raw _ h₁. after_refuse_if _ h₁ λ full h₂. ground (arith, full, h₂)

-- The single actor's identity is among the identities.
pub parse_actor_ids-member :
    (source : ConfigSource) (ids : List String) (single : String)
    → parse_actor_ids source ≡ ok ids
    → trimmed (get_var "GATEWAY_ACTOR_ID" source) ≡ some single
    → member single ids ≡ true
unfolding parse_actor_ids
parse_actor_ids-member source ids single h given = after_refuse_if _ (rw given at h) λ _ h₁.
    let others = split_csv_set (or_default (get_var "ACTOR_IDS" source) "") in
    let same : insert_text single others ≡ ids = cc in
    rw (← same) (member-insert_text single single others ∙ rw eq_refl)

-- A variable that holds a printed number within the bounds is read as that number, whatever the
-- default is.
pub parse_env_int-show_i64 :
    (source : ConfigSource) (key : String) (default least most value : ℤ)
    → get_var key source ≡ some (show_i64 value)
    → IsI64 value
    → least ≤ℤ value
    → value ≤ℤ most
    → parse_env_int source key default (some least) (some most) ≡ ok value
unfolding parse_env_int ◌>>=◌ refuse_if ok_or
parse_env_int-show_i64 source key default least most value held fits low high =
    let (full, solid) = show_i64-solid value in
    rw held (
      rw full (
        rw (trim_of_IsSolid (show_i64 value) solid)
          (rw (parse_i64-show_i64 value fits) (ground (arith, low, high)))))
