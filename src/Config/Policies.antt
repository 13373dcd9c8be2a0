-- ===== src/Config/Policies.antt =====
-- The target and impersonation policies of crates/sts-config/src/lib.rs, read from JSON. The members of
-- an object stand in the order in which serde_json iterates over them, and have distinct keys.
pub mod Arrays
pub mod Granted
pub mod Permitted
use sts_delegate_rs.Prelude.{
  String, Bool, true, false, Option, none, some, List, [], ◌∷◌, Result, ok, err, ◌>>=◌, ◌>>◌,
  refuse_if, ok_or, map_err, insert, if◌then◌else◌, is_empty, is_some_text, trim, starts_with, ◌⧺◌,
  insert_text,
}
use sts_delegate_rs.Json.{
  Json, Items, Members, no_items, item, no_members, member_of, as_str, as_object, as_array, as_bool,
  get,
}
use sts_delegate_rs.Config.{
  ConfigError, config_error, invalid_policy, invalid_json, TargetPolicy, TargetPolicyEntry,
  ImpersonationSelector, any_value, values, ImpersonationPolicy, ImpersonationPolicyEntry,
  ConfigSource, get_var,
}
use sts_delegate_rs.Config.Source.{or_else, trimmed}

-- `Option::and_then`.
abbrev and_then : Option String → (String → Option String) → Option String
and_then none f = none
and_then (some s) f = f s

unfoldable pub collect_scopes :
    String → String → Items → List String → Result (List String) ConfigError
collect_scopes aud key no_items scopes = ok scopes
collect_scopes aud key (item value arr) scopes = do
  scope ←
      ok_or (as_str value) (config_error invalid_policy aud (key ⧺ " must contain only strings"))
  collect_scopes aud key arr (insert_text scope scopes)

unfoldable pub parse_scopes : String → String → Option Json → Result (List String) ConfigError
parse_scopes aud key none = ok []
parse_scopes aud key (some value) = do
  arr ←
      ok_or (as_array value)
        (config_error invalid_policy aud (key ⧺ " must be a JSON array of strings"))
  collect_scopes aud key arr []

unfoldable pub collect_strings :
    String → String → Items → List String → Result (List String) ConfigError
collect_strings aud key no_items found = ok found
collect_strings aud key (item value arr) found = do
  text ← ok_or (as_str value) (config_error invalid_policy aud (key ⧺ " must contain only strings"))
  refuse_if (is_empty (trim text))
      (config_error invalid_policy aud (key ⧺ " must not contain empty strings"))
  collect_strings aud key arr (insert_text (trim text) found)

unfoldable pub parse_string_set : String → String → Option Json → Result (List String) ConfigError
parse_string_set aud key none = ok []
parse_string_set aud key (some value) = do
  arr ←
      ok_or (as_array value)
        (config_error invalid_policy aud (key ⧺ " must be a JSON array of strings"))
  collect_strings aud key arr []

unfoldable pub parse_policy_bool : String → String → Option Json → Result Bool ConfigError
parse_policy_bool aud key none = ok false
parse_policy_bool aud key (some value) =
    ok_or (as_bool value) (config_error invalid_policy aud (key ⧺ " must be a boolean"))

-- One entry of the target policy.
unfoldable pub target_policy_entry : String → Json → Result TargetPolicyEntry ConfigError
target_policy_entry aud policy = do
  entry ←
      ok_or (as_object policy)
        (config_error invalid_policy aud "target policy entry must be an object")
  allowed_scopes ←
      parse_scopes aud "allowed_scopes" (or_else (get "allowed_scopes" entry) (get "scopes" entry))
  default_scopes ← parse_scopes aud "default_scopes" (get "default_scopes" entry)
  accepted_token_signing_algs ←
      parse_string_set aud "accepted_token_signing_algs" (get "accepted_token_signing_algs" entry)
  pqc_required ← parse_policy_bool aud "pqc_required" (get "pqc_required" entry)
  ok (record {
    allowed_scopes = allowed_scopes;
    default_scopes = default_scopes;
    accepted_token_signing_algs = accepted_token_signing_algs;
    pqc_required = pqc_required;
  })

unfoldable pub collect_targets : Members → TargetPolicy → Result TargetPolicy ConfigError
collect_targets no_members targets = ok targets
collect_targets (member_of aud policy map) targets =
    let skipped = collect_targets map targets in
    let kept =
      target_policy_entry aud policy >>= λ entry. collect_targets map (insert aud entry targets) in
    if starts_with aud "_" then skipped else kept

unfoldable pub normalize_target_policy : Json → Result TargetPolicy ConfigError
normalize_target_policy parsed = do
  map ←
      ok_or (as_object parsed)
        (config_error invalid_policy "TARGET_POLICY_JSON" "target policy must be a JSON object")
  collect_targets map []

abbrev selector_error : String → String → ConfigError
selector_error client_id message =
    config_error invalid_policy client_id ("impersonation policy " ⧺ message)

unfoldable pub collect_values :
    String → String → Items → List String → Result (List String) ConfigError
collect_values client_id field no_items parsed = ok parsed
collect_values client_id field (item value arr) parsed = do
  text ← ok_or (as_str value) (selector_error client_id (field ⧺ " must contain only strings"))
  collect_values client_id field arr (insert_text text parsed)

listed_values : String → String → Json → Result ImpersonationSelector ConfigError
listed_values client_id field value = do
  arr ←
      ok_or (as_array value)
        (selector_error client_id (field ⧺ " must be a JSON array of strings or \"*\""))
  parsed ← collect_values client_id field arr []
  ok (values parsed)

unfoldable pub parse_impersonation_selector :
    String → String → Option Json → Result ImpersonationSelector ConfigError
unfolding listed_values
parse_impersonation_selector client_id field none = ok (values [])
parse_impersonation_selector client_id field (some value) =
    if is_some_text "*" (as_str value) then ok any_value else listed_values client_id field value

unfoldable pub impersonation_policy_entry :
    String → Json → Result ImpersonationPolicyEntry ConfigError
impersonation_policy_entry client_id policy = do
  entry ←
      ok_or (as_object policy)
        (config_error invalid_policy client_id "impersonation policy entry must be an object")
  targets ← parse_impersonation_selector client_id "targets" (get "targets" entry)
  subjects ← parse_impersonation_selector client_id "subjects" (get "subjects" entry)
  ok (record { targets = targets; subjects = subjects })

unfoldable pub collect_clients :
    Members → ImpersonationPolicy → Result ImpersonationPolicy ConfigError
collect_clients no_members clients = ok clients
collect_clients (member_of client_id policy map) clients = do
  entry ← impersonation_policy_entry client_id policy
  collect_clients map (insert client_id entry clients)

unfoldable pub normalize_impersonation_policy : Json → Result ImpersonationPolicy ConfigError
normalize_impersonation_policy parsed = do
  map ← ok_or (as_object parsed) (
      config_error invalid_policy "IMPERSONATION_POLICY_JSON"
        "impersonation policy must be a JSON object")
  collect_clients map []

abbrev json_error : String → String → String → ConfigError
json_error key policy why =
    config_error invalid_json key (policy ⧺ " policy JSON could not be parsed: " ⧺ why)

-- serde_json's `from_str`, with the text of its error, and `fs::read_to_string(path).ok()`.
module _ (from_str : String → Result Json String) where
  impersonation_policy_of : Option String → Result ImpersonationPolicy ConfigError
  impersonation_policy_of none = ok []
  impersonation_policy_of (some raw) = do
    parsed ← map_err (json_error "IMPERSONATION_POLICY_JSON" "impersonation") (from_str raw)
    normalize_impersonation_policy parsed

  unfoldable pub parse_impersonation_policy : ConfigSource → Result ImpersonationPolicy ConfigError
  unfolding impersonation_policy_of
  parse_impersonation_policy source =
      impersonation_policy_of (trimmed (get_var "IMPERSONATION_POLICY_JSON" source))

  target_policy_of : Option String → Result TargetPolicy ConfigError
  target_policy_of none = ok []
  target_policy_of (some raw) = do
    parsed ← map_err (json_error "TARGET_POLICY_JSON" "target") (from_str raw)
    normalize_target_policy parsed

  unfoldable pub load_target_policy_from_source :
      (String → Option String) → ConfigSource → Result TargetPolicy ConfigError
  unfolding target_policy_of
  load_target_policy_from_source read_to_string source = target_policy_of (
      or_else (get_var "TARGET_POLICY_JSON" source)
        (and_then (get_var "TARGET_POLICY_FILE" source) read_to_string))
