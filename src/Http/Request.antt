-- ===== src/Http/Request.antt =====
-- What crates/sts-http/src/lib.rs decides from an exchange request alone or with the target policy: its
-- parameters, the exchange's mode, the target and the scope. `quoted` is the text `{:?}` of a string.
use sts_delegate_rs.Prelude.{
  ℕ, String, Bool, true, false, not, ◌&&◌, ◌||◌, Option, none, some, List, [], ◌∷◌, Result, ok, err,
  ◌>>=◌, ◌>>◌, refuse_if, ok_or, map_err, lookup, ltb, if◌then◌else◌, text_eq, is_some_text,
  is_empty, trim, split_whitespace, utf8_length, extend_texts, ◌⧺◌,
}
use sts_delegate_rs.Json.{
  Json, Items, null, string, array, no_items, item, bool, number, object, as_str,
}
use sts_delegate_rs.Core.{
  ExchangeRequest, token_exchange_grant_type, access_token_type, jwt_token_type, resolve_target,
  downscope, join_scopes,
}
use sts_delegate_rs.Verify.Claims.{SubjectTokenClaims}
use sts_delegate_rs.Config.{TargetPolicy, TokenExchangeMode, delegation, impersonation, both}
use sts_delegate_rs.Http.{
  HttpError, invalid_request, invalid_client, invalid_target, unsupported_grant_type,
  map_core_error,
}

pub data EffectiveExchangeMode : Type 0 where
  by_delegation by_impersonation : EffectiveExchangeMode

abbrev pub is_given : Option String → Bool
is_given none = false
is_given (some _) = true

abbrev mode_of : TokenExchangeMode → Bool → EffectiveExchangeMode
mode_of delegation with_actor = by_delegation
mode_of impersonation with_actor = by_impersonation
mode_of both with_actor = if with_actor then by_delegation else by_impersonation

unfoldable pub effective_exchange_mode :
    TokenExchangeMode → ExchangeRequest → Bool → EffectiveExchangeMode
effective_exchange_mode mode request empty_actor_token_supplied =
    mode_of mode (is_given request.actor_token || empty_actor_token_supplied)

unfoldable pub is_supported_input_token_type : String → Bool
is_supported_input_token_type value =
    text_eq value access_token_type || text_eq value jwt_token_type

unfoldable pub is_supported_requested_token_type : String → Bool
is_supported_requested_token_type value = text_eq value access_token_type

abbrev text_or_empty : Option String → String
text_or_empty none = ""
text_or_empty (some s) = s

-- The tests on an actor token that is there.
check_actor_token : ExchangeRequest → ℕ → Option String → Result Unit HttpError
check_actor_token request max_token_len none = ok tt
check_actor_token request max_token_len (some actor_token) =
    if is_empty actor_token
    then err (invalid_request "actor_token must be a non-empty string")
    else if ltb max_token_len (utf8_length actor_token)
    then err (invalid_request "actor_token too large")
    else if is_empty (text_or_empty request.actor_token_type)
    then err (invalid_request "actor_token_type required when actor_token is present")
    else ok tt

abbrev pub is_unsupported : (String → Bool) → Option String → Bool
is_unsupported supported none = false
is_unsupported supported (some value) = not (supported value)

-- The loop over the fields whose size is bounded.
check_sizes : ℕ → List (String × Option String) → Result Unit HttpError
check_sizes max_token_len [] = ok tt
check_sizes max_token_len ((field, none) ∷ fields) = check_sizes max_token_len fields
check_sizes max_token_len ((field, some value) ∷ fields) =
    let rest = check_sizes max_token_len fields in
    if ltb max_token_len (utf8_length value)
    then err (invalid_request (field ⧺ " too large"))
    else rest

unfoldable pub validate_request_params : ExchangeRequest → ℕ → Result Unit HttpError
unfolding check_actor_token check_sizes
validate_request_params request max_token_len = do
  refuse_if (is_empty request.grant_type) (invalid_request "grant_type is required")
  refuse_if (not (text_eq request.grant_type token_exchange_grant_type))
      (unsupported_grant_type ("grant_type must be " ⧺ token_exchange_grant_type))
  refuse_if (is_empty request.subject_token || is_empty request.subject_token_type)
      (invalid_request "subject_token and subject_token_type are required")
  refuse_if (ltb max_token_len (utf8_length request.subject_token))
      (invalid_request "subject_token too large")
  check_actor_token request max_token_len request.actor_token
  refuse_if (is_given request.actor_token_type && not (is_given request.actor_token))
      (invalid_request "actor_token_type present without actor_token")
  refuse_if (not (is_supported_input_token_type request.subject_token_type))
      (invalid_request ("unsupported subject_token_type " ⧺ request.subject_token_type))
  refuse_if (is_unsupported is_supported_input_token_type request.actor_token_type)
      (invalid_request ("unsupported actor_token_type " ⧺ text_or_empty request.actor_token_type))
  refuse_if (is_unsupported is_supported_requested_token_type request.requested_token_type) (
      invalid_request
        ("unsupported requested_token_type " ⧺ text_or_empty request.requested_token_type))
  check_sizes max_token_len (
      ("scope", request.scope)
      ∷ ("audience", request.audience)
      ∷ ("resource", request.resource)
      ∷ ("client_assertion", request.client_assertion)
      ∷ [])

abbrev pub client_assertion_type_bearer : String
client_assertion_type_bearer = "urn:ietf:params:oauth:client-assertion-type:jwt-bearer"

unfoldable pub validate_client_assertion_type : ExchangeRequest → Result Unit HttpError
validate_client_assertion_type request =
    refuse_if (not (is_some_text client_assertion_type_bearer request.client_assertion_type))
      (invalid_client ("client_assertion_type must be " ⧺ client_assertion_type_bearer))

-- The texts of an `scp` array, added to the scopes.
collect_scp : Items → List String → Result (List String) HttpError
collect_scp no_items scopes = ok scopes
collect_scp (item value arr) scopes = do
  scope ← ok_or (as_str value) (invalid_request "malformed scope claim")
  collect_scp arr (extend_texts (split_whitespace scope) scopes)

add_scp : Option Json → List String → Result (List String) HttpError
unfolding collect_scp
add_scp none scopes = ok scopes
add_scp (some null) scopes = ok scopes
add_scp (some (string scope)) scopes = ok (extend_texts (split_whitespace scope) scopes)
add_scp (some (array arr)) scopes = collect_scp arr scopes
add_scp (some (bool _)) scopes = err (invalid_request "malformed scope claim")
add_scp (some (number _)) scopes = err (invalid_request "malformed scope claim")
add_scp (some (object _)) scopes = err (invalid_request "malformed scope claim")

abbrev is_no_scope : List String → Bool
is_no_scope [] = true
is_no_scope (scope ∷ scopes) = false

unfoldable pub subject_scope_string : SubjectTokenClaims → Result (Option String) HttpError
unfolding add_scp
subject_scope_string claims = do
  scopes ← add_scp claims.scp (extend_texts (split_whitespace (text_or_empty claims.scope)) [])
  ok (if is_no_scope scopes then none else some (join_scopes scopes))

-- `.map(str::trim).filter(|value| !value.is_empty()).or_else(default)`.
abbrev pub scope_or_default : Option String → String → Option String
scope_or_default none default = if is_empty default then none else some default
scope_or_default (some scope) default =
    if is_empty (trim scope)
    then (if is_empty default then none else some default)
    else some (trim scope)

module _ (quoted : String → String) (policies : TargetPolicy) where
  abbrev pub unknown_target : String → HttpError
  unknown_target target = invalid_target ("unknown/forbidden target " ⧺ quoted target)

  unfoldable pub resolve_target_for_request : ExchangeRequest → Result String HttpError
  resolve_target_for_request request = do
    refuse_if (is_some_text "" request.audience) (invalid_request "audience must not be empty")
    refuse_if (is_some_text "" request.resource) (invalid_target "resource must not be empty")
    target ← map_err map_core_error (resolve_target request.audience request.resource)
    ok_or (lookup target policies) (unknown_target target)
    ok target

  unfoldable pub resolve_scope_for_request :
      Bool → ExchangeRequest → SubjectTokenClaims → String → Result String HttpError
  resolve_scope_for_request bound_required request subject_claims target = do
    policy ← ok_or (lookup target policies) (unknown_target target)
    subject_scopes ← subject_scope_string subject_claims
    map_err map_core_error (
        downscope (scope_or_default request.scope (join_scopes policy.default_scopes))
          (join_scopes policy.allowed_scopes) subject_scopes bound_required)
