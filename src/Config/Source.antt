-- ===== src/Config/Source.antt =====
-- How crates/sts-config/src/lib.rs reads one variable: flags, numbers, lists and choices.
pub mod Values
use sts_delegate_rs.Prelude.{
  ℕ, ℤ, String, Bool, true, false, not, ◌||◌, Option, none, some, List, [], ◌∷◌, map, Result, ok,
  err, ◌>>=◌, ◌>>◌, refuse_if, ok_or, filter, insert, ltb, ltb_ℤ, if◌then◌else◌, text_eq, is_empty,
  trim, split, ◌⧺◌, extend_texts, insert_text,
}
use sts_delegate_rs.Prelude.Text.Decimal.{show_i64, parse_i64, show_usize, parse_usize}
use sts_delegate_rs.Prelude.Text.Ascii.{to_ascii_lowercase, eq_ignore_ascii_case}
use sts_delegate_rs.Config.{
  ConfigError, config_error, missing_env, invalid_value, ConfigSource, get_var, TokenExchangeMode,
  delegation, impersonation, both, ClientAuthPolicy, auto, private_key_jwt_required, ReplayBackend,
  memory_backend, file_backend,
}

-- `ConfigSource::from_pairs`: the later pair of a key wins.
insert_pairs : List (String × String) → ConfigSource → ConfigSource
insert_pairs [] values = values
insert_pairs ((k, v) ∷ pairs) values = insert_pairs pairs (insert k v values)

unfoldable pub from_pairs : List (String × String) → ConfigSource
unfolding insert_pairs
from_pairs pairs = insert_pairs pairs []

-- `unwrap_or`.
abbrev pub or_default {ℓ} : {A : Type ℓ} → Option A → A → A
or_default none d = d
or_default (some a) d = a

-- `or_else`.
abbrev pub or_else {ℓ} : {A : Type ℓ} → Option A → Option A → Option A
or_else none other = other
or_else (some a) other = some a

-- `.map(str::trim).filter(|value| !value.is_empty())`.
abbrev pub trimmed : Option String → Option String
trimmed none = none
trimmed (some value) = if is_empty (trim value) then none else some (trim value)

abbrev says_true : Option String → Option Bool
says_true none = none
says_true (some value) = some (eq_ignore_ascii_case (trim value) "true")

unfoldable pub parse_bool : ConfigSource → String → Bool → Bool
unfolding eq_ignore_ascii_case trim
parse_bool source key default = or_default (says_true (get_var key source)) default

unfoldable pub parse_bool_with_fallback : ConfigSource → String → String → Bool → Bool
unfolding eq_ignore_ascii_case trim
parse_bool_with_fallback source key fallback_key default =
    or_default (says_true (or_else (get_var key source) (get_var fallback_key source))) default

-- `let raw = source.get(key).unwrap_or(""); if raw.is_empty() { default } else { raw }`.
abbrev raw_value : Option String → String → String
raw_value var default = let raw = or_default var "" in if is_empty raw then default else raw

abbrev below_ℤ : Option ℤ → ℤ → Bool
below_ℤ none value = false
below_ℤ (some min) value = ltb_ℤ value min

abbrev above_ℤ : Option ℤ → ℤ → Bool
above_ℤ none value = false
above_ℤ (some max) value = ltb_ℤ max value

unfoldable pub parse_env_int :
    ConfigSource → String → ℤ → Option ℤ → Option ℤ → Result ℤ ConfigError
parse_env_int source key default minimum maximum = do
  value ←
      ok_or (parse_i64 (trim (raw_value (get_var key source) (show_i64 default))))
        (config_error invalid_value key (key ⧺ " must be an integer"))
  refuse_if (below_ℤ minimum value || above_ℤ maximum value)
      (config_error invalid_value key (key ⧺ " out of range"))
  ok value

abbrev below : Option ℕ → ℕ → Bool
below none value = false
below (some min) value = ltb value min

abbrev above : Option ℕ → ℕ → Bool
above none value = false
above (some max) value = ltb max value

unfoldable pub parse_env_usize :
    ConfigSource → String → ℕ → Option ℕ → Option ℕ → Result ℕ ConfigError
parse_env_usize source key default minimum maximum = do
  value ←
      ok_or (parse_usize (trim (raw_value (get_var key source) (show_usize default))))
        (config_error invalid_value key (key ⧺ " must be a non-negative integer"))
  refuse_if (below minimum value || above maximum value)
      (config_error invalid_value key (key ⧺ " out of range"))
  ok value

unfoldable pub split_csv_vec : String → List String
unfolding split trim
split_csv_vec raw = filter (λ value. not (is_empty value)) (map trim (split b',' raw))

unfoldable pub split_csv_set : String → List String
unfolding split_csv_vec extend_texts
split_csv_set raw = extend_texts (split_csv_vec raw) []

abbrev pub is_none_of : List String → Bool
is_none_of [] = true
is_none_of (value ∷ rest) = false

unfoldable pub require_expected_aud : ConfigSource → Result (List String) ConfigError
require_expected_aud source = do
  raw ← ok_or (get_var "EXPECTED_SUBJECT_AUD" source) (
      config_error missing_env "EXPECTED_SUBJECT_AUD"
        "set EXPECTED_SUBJECT_AUD to the subject-token audience")
  refuse_if (is_none_of (split_csv_set raw)) (
      config_error invalid_value "EXPECTED_SUBJECT_AUD"
        "EXPECTED_SUBJECT_AUD contains no non-empty entries")
  ok (split_csv_set raw)

abbrev with_single : Option String → List String → List String
with_single none ids = ids
with_single (some single) ids = insert_text single ids

unfoldable pub parse_actor_ids : ConfigSource → Result (List String) ConfigError
parse_actor_ids source =
    let ids =
      with_single (trimmed (get_var "GATEWAY_ACTOR_ID" source))
        (split_csv_set (or_default (get_var "ACTOR_IDS" source) "")) in
    do
      refuse_if (is_none_of ids) (
          config_error missing_env "ACTOR_IDS"
            "set ACTOR_IDS (or GATEWAY_ACTOR_ID) to at least one actor identity")
      ok ids

unfoldable pub parse_client_ids : ConfigSource → List String → List String
parse_client_ids source actor_ids =
    let ids = split_csv_set (or_default (get_var "CLIENT_IDS" source) "") in
    if is_none_of ids then extend_texts actor_ids ids else ids

unfoldable pub parse_log_level : ConfigSource → String
parse_log_level source = trim (or_default (get_var "LOG_LEVEL" source) "info")

-- `quoted` is the text `{:?}` of a string.
module _ (quoted : String → String) where
  exchange_mode_of : String → Result TokenExchangeMode ConfigError
  exchange_mode_of raw =
      if text_eq raw "delegation"
      then ok delegation
      else if text_eq raw "impersonation"
      then ok impersonation
      else if text_eq raw "both"
      then ok both
      else err (
          config_error invalid_value "STS_TOKEN_EXCHANGE_MODE"
            ("must be delegation, impersonation, or both; got " ⧺ quoted raw))

  unfoldable pub parse_token_exchange_mode : ConfigSource → Result TokenExchangeMode ConfigError
  unfolding exchange_mode_of
  parse_token_exchange_mode source = exchange_mode_of (
      to_ascii_lowercase
        (trim (or_default (get_var "STS_TOKEN_EXCHANGE_MODE" source) "delegation")))

  client_auth_policy_of : String → Result ClientAuthPolicy ConfigError
  client_auth_policy_of raw =
      if text_eq raw "auto" || text_eq raw "actor_token_allowed"
      then ok auto
      else if text_eq raw "private_key_jwt_required"
      then ok private_key_jwt_required
      else err (
          config_error invalid_value "CLIENT_AUTH_POLICY"
            ("must be auto, actor_token_allowed, or private_key_jwt_required; got " ⧺ quoted raw))

  unfoldable pub parse_client_auth_policy : ConfigSource → Result ClientAuthPolicy ConfigError
  unfolding client_auth_policy_of
  parse_client_auth_policy source =
      client_auth_policy_of
        (to_ascii_lowercase (trim (or_default (get_var "CLIENT_AUTH_POLICY" source) "auto")))

  file_backend_of : Option String → Result ReplayBackend ConfigError
  file_backend_of none =
      err (
        config_error missing_env "STS_REPLAY_DIR" "set STS_REPLAY_DIR when STS_REPLAY_BACKEND=file")
  file_backend_of (some raw_dir) = ok (file_backend raw_dir)

  replay_backend_of : String → Option String → Result ReplayBackend ConfigError
  unfolding file_backend_of
  replay_backend_of raw dir =
      if is_empty raw || text_eq raw "memory" || text_eq raw "in_memory"
      then ok memory_backend
      else if text_eq raw "file"
      then file_backend_of dir
      else err (
          config_error invalid_value "STS_REPLAY_BACKEND"
            ("must be memory or file; got " ⧺ quoted raw))

  unfoldable pub parse_replay_backend : ConfigSource → Result ReplayBackend ConfigError
  unfolding replay_backend_of
  parse_replay_backend source =
      replay_backend_of
        (to_ascii_lowercase (trim (or_default (get_var "STS_REPLAY_BACKEND" source) "memory")))
        (trimmed (get_var "STS_REPLAY_DIR" source))
