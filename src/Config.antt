-- ===== src/Config.antt =====
-- The data types and errors of crates/sts-config/src/lib.rs. A path is its text; a map is an association
-- list and a set a sorted list.
pub mod Source
pub mod Algs
pub mod Policies
pub mod Load
use sts_delegate_rs.Prelude.{String, Bool, true, Option, none, some, List, member, lookup, ◌⧺◌}

pub data ConfigErrorKind : Type 0 where
  missing_env invalid_value invalid_json invalid_policy not_found : ConfigErrorKind

-- The `Display` text of an error's kind, and of an error.
unfoldable pub config_error_code : ConfigErrorKind → String
config_error_code missing_env = "missing_env"
config_error_code invalid_value = "invalid_value"
config_error_code invalid_json = "invalid_json"
config_error_code invalid_policy = "invalid_policy"
config_error_code not_found = "not_found"

pub record ConfigError : Type 0 where
  pub kind : ConfigErrorKind
  pub key : Option String
  pub message : String

abbrev pub config_error : ConfigErrorKind → String → String → ConfigError
config_error kind key message = record { kind = kind; key = some key; message = message }

abbrev with_key : Option String → String
with_key none = ""
with_key (some key) = "(" ⧺ key ⧺ ")"

unfoldable pub config_error_text : ConfigError → String
unfolding config_error_code
config_error_text e = config_error_code e.kind ⧺ with_key e.key ⧺ ": " ⧺ e.message

pub data TokenExchangeMode : Type 0 where
  delegation impersonation both : TokenExchangeMode

pub data ClientAuthPolicy : Type 0 where
  auto private_key_jwt_required actor_token_allowed : ClientAuthPolicy

pub data ReplayBackend : Type 0 where
  memory_backend : ReplayBackend
  file_backend : String → ReplayBackend

pub record TargetPolicyEntry : Type 0 where
  pub allowed_scopes : List String
  pub default_scopes : List String
  pub accepted_token_signing_algs : List String
  pub pqc_required : Bool

abbrev pub TargetPolicy : Type 0
TargetPolicy = List (String × TargetPolicyEntry)

pub data ImpersonationSelector : Type 0 where
  any_value : ImpersonationSelector
  values : List String → ImpersonationSelector

unfoldable pub allows : ImpersonationSelector → String → Bool
allows any_value value = true
allows (values vs) value = member value vs

pub record ImpersonationPolicyEntry : Type 0 where
  pub targets : ImpersonationSelector
  pub subjects : ImpersonationSelector

abbrev pub ImpersonationPolicy : Type 0
ImpersonationPolicy = List (String × ImpersonationPolicyEntry)

-- `ConfigSource`: the environment's variables.
abbrev pub ConfigSource : Type 0
ConfigSource = List (String × String)

abbrev pub get_var : String → ConfigSource → Option String
get_var key source = lookup key source
