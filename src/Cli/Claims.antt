-- ===== src/Cli/Claims.antt =====
-- What crates/sts-cli/src/main.rs shows of a token's claims: identifiers of persons and tokens only as the
-- first octets of their SHA-256, which is a parameter.
use sts_delegate_rs.Prelude.{
  ℕ, ℤ, pos, negsuc, String, Option, none, some, List, [], ◌∷◌, Result, ok, ◌>>=◌, map_err,
  if◌then◌else◌, ltb, ◌^◌, split, ◌⧺◌,
}
use sts_delegate_rs.Json.{
  Json, Members, Items, no_items, item, no_members, array, object, string, number, integer, as_str,
  get, insert_member,
}
use sts_delegate_rs.Replay.Keys.{hex_lower}
use sts_delegate_rs.Cli.{CliError, runtime}
use sts_delegate_rs.Cli.Redaction.{sanitize}
use sts_delegate_rs.Cli.Inspect.{first_octets}

-- `Value::get` with a key, on an optional value, and `Value::as_str` on the result.
abbrev value_get : String → Option Json → Option Json
value_get name (some (object m)) = get name m
value_get name _ = none

abbrev text_of : Option Json → Option String
text_of none = none
text_of (some value) = as_str value

-- `Value::as_i64`.
abbrev integer_of : Option Json → Option ℤ
integer_of (some (number (integer (pos n)))) = if ltb n (2 ^ 63) then some (pos n) else none
integer_of (some (number (integer (negsuc n)))) = if ltb n (2 ^ 63) then some (negsuc n) else none
integer_of _ = none

abbrev insert_text_as : (String → String) → String → Option String → Members → Members
insert_text_as shown name none safe = safe
insert_text_as shown name (some value) safe = insert_member name (string (shown value)) safe

abbrev insert_integer : String → Option ℤ → Members → Members
insert_integer name none safe = safe
insert_integer name (some z) safe = insert_member name (number (integer z)) safe

-- The texts of an array, sanitized.
sanitized_texts : Items → Items
sanitized_texts no_items = no_items
sanitized_texts (item (string value) rest) = item (string (sanitize value)) (sanitized_texts rest)
sanitized_texts (item _ rest) = sanitized_texts rest

unfoldable pub insert_safe_string_claim : Members → Json → String → Members
insert_safe_string_claim safe claims name =
    insert_text_as sanitize name (text_of (value_get name (some claims))) safe

abbrev insert_audience : Members → Option Json → Members
insert_audience safe (some (string value)) = insert_member "aud" (string (sanitize value)) safe
insert_audience safe (some (array values)) =
    insert_member "aud" (array (sanitized_texts values)) safe
insert_audience safe _ = safe

unfoldable pub insert_safe_audience_claim : Members → Json → Members
unfolding sanitized_texts
insert_safe_audience_claim safe claims = insert_audience safe (value_get "aud" (some claims))

-- `sha256` takes the bytes of a text.
module _ (sha256 : String → List ℕ) where
  unfoldable pub sha256_hex_prefix : String → String
  sha256_hex_prefix value = hex_lower (first_octets 8 (sha256 value))

  unfoldable pub safe_claims_summary : Json → Json
  safe_claims_summary claims =
      let claim : String → Option Json = λ name. value_get name (some claims) in
      let issuer = insert_safe_string_claim no_members claims "iss" in
      let audience = insert_safe_audience_claim issuer claims in
      let scope = insert_safe_string_claim audience claims "scope" in
      let client = insert_safe_string_claim scope claims "client_id" in
      let subject =
        insert_text_as sha256_hex_prefix "sub_sha256_prefix" (text_of (claim "sub")) client in
      let token_id =
        insert_text_as sha256_hex_prefix "jti_sha256_prefix" (text_of (claim "jti")) subject in
      let actor =
        insert_text_as sanitize "act_sub" (text_of (value_get "sub" (claim "act"))) token_id in
      let holder =
        insert_text_as sha256_hex_prefix "cnf_jkt_sha256_prefix"
          (text_of (value_get "jkt" (claim "cnf"))) actor in
      let issued = insert_integer "iat" (integer_of (claim "iat")) holder in
      object (insert_integer "exp" (integer_of (claim "exp")) issued)

-- base64url and serde_json are parameters.
module _ (base64_decode : String → Result (List ℕ) String)
    (from_slice : List ℕ → Result Json String) where
  unfoldable pub decode_compact_jwt_json_part : String → String → Result Json CliError
  decode_compact_jwt_json_part part label = do
    bytes ←
        map_err (λ _. runtime ("minted " ⧺ label ⧺ " is not valid base64url")) (base64_decode part)
    map_err (λ e. runtime ("minted " ⧺ label ⧺ " is not JSON: " ⧺ e)) (from_slice bytes)

  abbrev header_and_payload : List String → Result (Option (Json × Json)) CliError
  header_and_payload (header ∷ payload ∷ signature ∷ []) = do
    h ← decode_compact_jwt_json_part header "JWT header"
    p ← decode_compact_jwt_json_part payload "JWT payload"
    ok (some (h, p))
  header_and_payload _ = ok none

  -- Of a text that is not of three parts nothing is decoded.
  unfoldable pub decode_compact_jwt : String → Result (Option (Json × Json)) CliError
  decode_compact_jwt token = header_and_payload (split b'.' token)
