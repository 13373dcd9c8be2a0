-- ===== src/Cli/Canary.antt =====
-- The canary report of crates/sts-cli/src/main.rs: which variables of the environment it misses.
use sts_delegate_rs.Prelude.{
  String, Bool, not, ◌&&◌, List, [], ◌∷◌, ◌++◌, if◌then◌else◌, filter, ◌⧺◌,
}
use sts_delegate_rs.Http.Startup.{join_commas, is_no_text}

abbrev pub required_names : List String
required_names =
    "CANARY_STS_BASE_URL" ∷ "CANARY_IDP_ISSUER" ∷ "CANARY_EXPECTED_SUBJECT_AUD"
    ∷ "CANARY_TARGET_AUDIENCE" ∷ "CANARY_TARGET_SCOPE" ∷ "CANARY_ACTOR_ID" ∷ []

-- `present` says whether a variable is there and not empty.
abbrev unless_either : (String → Bool) → String → String → List String
unless_either present a b = if not (present a) && not (present b) then (a ⧺ " or " ⧺ b) ∷ [] else []

unfoldable pub missing_names : (String → Bool) → List String
missing_names present =
    filter (λ name. not (present name)) required_names
    ++ unless_either present "CANARY_SUBJECT_TOKEN" "CANARY_SUBJECT_TOKEN_FILE"
    ++ unless_either present "CANARY_ACTOR_PRIVATE_JWK" "CANARY_ACTOR_PRIVATE_JWK_FILE"

unfoldable pub render_canary_config_status : (String → Bool) → String
render_canary_config_status present =
    if is_no_text (missing_names present)
    then "canary_status=configured\nnetwork=disabled\n"
    else "canary_status=not_configured\nmissing=" ⧺ join_commas (missing_names present) ⧺ "\n"
