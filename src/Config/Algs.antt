-- ===== src/Config/Algs.antt =====
-- Which signature algorithms crates/sts-config/src/lib.rs lets a deployment configure.
pub mod Inbound
use sts_delegate_rs.Prelude.{
  String, Bool, true, not, ◌&&◌, ◌||◌, Option, none, some, List, [], ◌∷◌, ◌++◌, Result, ok, err,
  ◌>>◌, refuse_if, any, member, if◌then◌else◌, text_eq, ◌⧺◌, insert_text,
}
use sts_delegate_rs.Config.{ConfigError, config_error, invalid_value, ConfigSource, get_var}
use sts_delegate_rs.Config.Source.{parse_bool, split_csv_vec, or_default, trimmed, is_none_of}

unfoldable pub parse_allow_non_pqc : ConfigSource → Bool
parse_allow_non_pqc source =
    let pqc_preferred = parse_bool source "STS_PQC_PREFERRED" true in
    parse_bool source "STS_ALLOW_NON_PQC" (not pqc_preferred)

unfoldable pub parse_pqc_preferred_algs : ConfigSource → Result (List String) ConfigError
parse_pqc_preferred_algs source =
    let algs =
      split_csv_vec
        (or_default (get_var "STS_PQC_PREFERRED_ALGS" source) "ML-DSA-65,ML-DSA-87,ML-DSA-44") in
    do
      refuse_if (is_none_of algs) (
          config_error invalid_value "STS_PQC_PREFERRED_ALGS"
            "STS_PQC_PREFERRED_ALGS must contain at least one algorithm")
      ok algs

unfoldable pub parse_allow_non_pqc_inbound : ConfigSource → Bool → Bool
parse_allow_non_pqc_inbound source inbound_pqc_preferred =
    parse_bool source "STS_ALLOW_NON_PQC_INBOUND" (not inbound_pqc_preferred)

unfoldable pub is_pqc_inbound_assertion_alg : String → Bool
is_pqc_inbound_assertion_alg alg =
    text_eq alg "ML-DSA-44" || text_eq alg "ML-DSA-65" || text_eq alg "ML-DSA-87"

unfoldable pub is_supported_inbound_assertion_alg : String → Bool
is_supported_inbound_assertion_alg alg = text_eq alg "RS256" || is_pqc_inbound_assertion_alg alg

-- `values.retain(|value| seen.insert(value.clone()))`.
retain_new : List String → List String → List String
retain_new seen [] = []
retain_new seen (value ∷ values) =
    let rest = retain_new (insert_text value seen) values in
    if member value seen then rest else value ∷ rest

unfoldable pub dedup_preserving_order : List String → List String
unfolding retain_new
dedup_preserving_order values = retain_new [] values

-- The algorithms that are named, or the defaults.
listed_algs : Option String → Bool → Bool → List String
listed_algs (some raw) inbound_pqc_preferred allow_non_pqc_inbound = split_csv_vec raw
listed_algs none inbound_pqc_preferred allow_non_pqc_inbound =
    (if inbound_pqc_preferred then "ML-DSA-65" ∷ [] else [])
    ++ (if allow_non_pqc_inbound then "RS256" ∷ [] else [])

abbrev inbound_error : String → ConfigError
inbound_error message = config_error invalid_value "STS_INBOUND_ASSERTION_ALGS" message

-- The loop that refuses an unsupported algorithm.
unfoldable pub check_supported : List String → Result Unit ConfigError
check_supported [] = ok tt
check_supported (alg ∷ algs) =
    let rest = check_supported algs in
    if is_supported_inbound_assertion_alg alg
    then rest
    else err (inbound_error ("unsupported inbound assertion signing algorithm " ⧺ alg))

unfoldable pub check_inbound_algs : Bool → List String → Result (List String) ConfigError
check_inbound_algs allow_non_pqc_inbound algs = do
  refuse_if (is_none_of algs)
      (inbound_error "STS_INBOUND_ASSERTION_ALGS must contain at least one algorithm")
  check_supported algs
  refuse_if (any (λ alg. text_eq alg "RS256") algs && not allow_non_pqc_inbound)
      (inbound_error "RS256 inbound assertions require STS_ALLOW_NON_PQC_INBOUND=true")
  refuse_if (not allow_non_pqc_inbound && not (any is_pqc_inbound_assertion_alg algs)) (
      inbound_error
        ("non-PQC inbound assertions are disabled, but no PQC assertion algorithm is configured"))
  ok algs

unfoldable pub parse_inbound_assertion_algs :
    ConfigSource → Bool → Bool → Result (List String) ConfigError
unfolding listed_algs
parse_inbound_assertion_algs source inbound_pqc_preferred allow_non_pqc_inbound =
    check_inbound_algs allow_non_pqc_inbound (
      dedup_preserving_order (
        listed_algs (trimmed (get_var "STS_INBOUND_ASSERTION_ALGS" source)) inbound_pqc_preferred
          allow_non_pqc_inbound))
