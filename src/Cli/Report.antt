-- ===== src/Cli/Report.antt =====
-- The report of an inspection in crates/sts-cli/src/main.rs.
use sts_delegate_rs.Prelude.{
  ℕ, String, Bool, true, false, not, ◌&&◌, Option, none, some, List, [], ◌∷◌, Result, ok, ◌>>=◌,
  ◌>>◌, refuse_if, map_err, ◌==◌, length, ◌⧺◌,
}
use sts_delegate_rs.Prelude.Text.Decimal.{show_usize}
use sts_delegate_rs.Cli.{CliError, usage}
use sts_delegate_rs.Cli.Redaction.{sanitize, display_optional}
use sts_delegate_rs.Cli.Inspect.{Codecs, InspectedKey, normalize_jwks_value, inspect_public_keys}

pub data InspectMode : Type 0 where
  jwks_mode single_key_mode : InspectMode

abbrev is_single : InspectMode → Bool
is_single jwks_mode = false
is_single single_key_mode = true

-- `key[{index}].{name}={value}`.
abbrev field : ℕ → String → String → String
field index name value = "key[" ⧺ show_usize index ⧺ "]." ⧺ name ⧺ "=" ⧺ value ⧺ "\n"

abbrev size_field : ℕ → String → Option ℕ → String
size_field index name none = ""
size_field index name (some n) = field index name (show_usize n)

abbrev hash_field : ℕ → Option String → String
hash_field index none = ""
hash_field index (some prefix) = field index "akp_public_sha256_prefix" (sanitize prefix)

unfoldable pub render_key : InspectedKey → String
render_key key =
    field key.index "kid" (display_optional key.kid)
    ⧺ field key.index "kty" (sanitize key.kty)
    ⧺ field key.index "use" (display_optional key.use_)
    ⧺ field key.index "alg" (display_optional key.alg)
    ⧺ size_field key.index "rsa_modulus_bits" key.rsa_modulus_bits
    ⧺ size_field key.index "akp_public_bytes" key.akp_public_bytes
    ⧺ hash_field key.index key.akp_public_sha256_prefix

unfoldable pub render_keys : List InspectedKey → String
render_keys [] = ""
render_keys (key ∷ keys) = render_key key ⧺ render_keys keys

abbrev heading : List InspectedKey → InspectMode → String
heading keys jwks_mode = "jwks_status=public\nkey_count=" ⧺ show_usize (length keys) ⧺ "\n"
heading keys single_key_mode = "key_status=public\n"

unfoldable pub render_inspection : List InspectedKey → InspectMode → String
render_inspection keys mode = heading keys mode ⧺ render_keys keys

unfoldable pub inspect_json : Codecs → String → InspectMode → Result String CliError
inspect_json codecs raw mode = do
  value ← map_err (λ e. usage ("invalid JSON: " ⧺ e)) (codecs.from_str raw)
  keys ← normalize_jwks_value value
  refuse_if (is_single mode && not (length keys == 1))
      (usage "key inspect requires exactly one public JWK")
  inspected ← inspect_public_keys codecs 0 keys
  ok (render_inspection inspected mode)
