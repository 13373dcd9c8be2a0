-- ===== src/Core.antt =====
-- crates/sts-core/src/lib.rs: target resolution, scope downscoping and claim shaping. The proofs are
-- in the modules below.

pub mod Resource
pub mod Target
pub mod Scopes
mod Tests
use sts_delegate_rs.Prelude.{
  ℕ, ℤ, String, Bool, true, false, not, ◌&&◌, ◌||◌, Option, none, some, List, [], ◌∷◌, map, Result,
  ok, err, ◌>>=◌, ◌>>◌, refuse_if, if◌then◌else◌, filter, member, any, trim, is_blank, is_empty,
  contains, contains_char, starts_with, split_whitespace, join_spaces, text_eq,
}

abbrev pub token_exchange_grant_type : String
token_exchange_grant_type = "urn:ietf:params:oauth:grant-type:token-exchange"

abbrev pub access_token_type : String
access_token_type = "urn:ietf:params:oauth:token-type:access_token"

abbrev pub jwt_token_type : String
jwt_token_type = "urn:ietf:params:oauth:token-type:jwt"

pub record ExchangeRequest : Type 0 where
  pub grant_type : String
  pub subject_token : String
  pub subject_token_type : String
  pub actor_token : Option String
  pub actor_token_type : Option String
  pub audience : Option String
  pub resource : Option String
  pub scope : Option String
  pub requested_token_type : Option String
  pub client_id : Option String
  pub client_assertion : Option String
  pub client_assertion_type : Option String

-- `ActClaim`, by whether its `act` field is `None` (`direct sub iss`) or `Some(inner)`
-- (`behind sub iss inner`).
pub data ActClaim : Type 0 where
  direct : String → Option String → ActClaim
  behind : String → Option String → ActClaim → ActClaim

-- `ActClaim { sub, iss, act }`.
abbrev pub act_claim : String → Option String → Option ActClaim → ActClaim
act_claim sub iss none = direct sub iss
act_claim sub iss (some act) = behind sub iss act

pub record MintedClaims : Type 0 where
  pub iss : String
  pub sub : String
  pub aud : String
  pub scope : String
  pub iat : ℤ
  pub exp : ℤ
  pub jti : String
  pub client_id : String
  pub act : Option ActClaim
  pub cnf_jkt : Option String
  pub auth_time : Option ℤ
  pub acr : Option String
  pub amr : List String

pub data CoreErrorKind : Type 0 where
  invalid_request invalid_client invalid_target invalid_scope : CoreErrorKind

pub record CoreError : Type 0 where
  pub kind : CoreErrorKind
  pub message : String

abbrev pub core_error : CoreErrorKind → String → CoreError
core_error kind message = record { kind = kind; message = message }

-- The `Display` text of an error kind.
unfoldable pub core_error_code : CoreErrorKind → String
core_error_code invalid_request = "invalid_request"
core_error_code invalid_client = "invalid_client"
core_error_code invalid_target = "invalid_target"
core_error_code invalid_scope = "invalid_scope"

unfoldable pub validate_target_value : String → Result String CoreError
validate_target_value value =
    if is_empty (trim value)
    then err (core_error invalid_target "target must not be empty")
    else ok (trim value)

unfoldable pub validate_resource_value : String → Result String CoreError
validate_resource_value value =
    let trimmed = trim value in
    if is_empty trimmed
    then err (core_error invalid_target "resource must not be empty")
    else if not (contains trimmed "://") || starts_with trimmed "/"
    then err (core_error invalid_target "resource must be an absolute URI")
    else if contains_char trimmed b'#'
    then err (core_error invalid_target "resource must not contain a fragment")
    else ok trimmed

unfoldable pub resolve_target : Option String → Option String → Result String CoreError
unfolding validate_target_value validate_resource_value
resolve_target (some aud) none = validate_target_value aud
resolve_target none (some res) = validate_resource_value res
resolve_target (some aud) (some res) = do
  aud' ← validate_target_value aud
  res' ← validate_resource_value res
  if text_eq aud' res'
      then ok aud'
      else err (core_error invalid_target "audience and resource must agree when both are present")
resolve_target none none = err (core_error invalid_target "no target audience supplied")

-- The text that `unwrap_or("")` gives.
abbrev text_or_empty : Option String → String
text_or_empty none = ""
text_or_empty (some s) = s

unfoldable pub split_scopes : Option String → List String
split_scopes input =
    map trim (filter (λ s. not (is_blank s)) (split_whitespace (text_or_empty input)))

unfoldable pub intersect_scopes : List String → List String → List String
intersect_scopes left right =
    filter (λ scope. any (λ candidate. text_eq candidate scope) right) left

unfoldable pub join_scopes : List String → String
join_scopes scopes = join_spaces scopes

abbrev is_empty_list : List String → Bool
is_empty_list [] = true
is_empty_list (x ∷ xs) = false

-- The subject's bound on the scopes kept so far.
bound_by_subject : List String → List String → Option String → Bool → List String
bound_by_subject result target_allowed none required = result
bound_by_subject result target_allowed (some subject) required =
    let common = intersect_scopes target_allowed (split_scopes (some subject)) in
    if required || not (is_empty_list common) then intersect_scopes result common else result

-- The scopes that are left after both intersections.
kept_scopes : Option String → String → Option String → Bool → List String
unfolding bound_by_subject
kept_scopes requested target_allowed subject_scopes required =
    let allowed = split_scopes (some target_allowed) in
    bound_by_subject (intersect_scopes (split_scopes requested) allowed) allowed subject_scopes
      required

unfoldable pub downscope : Option String → String → Option String → Bool → Result String CoreError
unfolding kept_scopes
downscope requested target_allowed subject_scopes subject_scope_bound_required =
    let result = kept_scopes requested target_allowed subject_scopes subject_scope_bound_required in
    if is_empty_list result
    then err (core_error invalid_scope "no scopes remain after downscoping")
    else ok (join_scopes result)

unfoldable pub build_act : String → Option ActClaim → ActClaim
build_act actor_sub prior_act = act_claim actor_sub none prior_act

unfoldable pub build_scoped_payload :
    String
    → String
    → String
    → String
    → ℤ
    → ℤ
    → String
    → String
    → Option ActClaim
    → Option String
    → MintedClaims
build_scoped_payload iss sub aud scope iat exp jti client_id act cnf_jkt = record {
  iss = iss;
  sub = sub;
  aud = aud;
  scope = scope;
  iat = iat;
  exp = exp;
  jti = jti;
  client_id = client_id;
  act = act;
  cnf_jkt = cnf_jkt;
  auth_time = none;
  acr = none;
  amr = [];
}
