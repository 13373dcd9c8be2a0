-- ===== src/Cli/Inspect.antt =====
-- Reading public keys in crates/sts-cli/src/main.rs: inspection, and the documents of retiring keys.
-- serde_json and base64 are parameters, as is the derived reader of `PublicJwk`.
use sts_delegate_rs.Prelude.{
  ℕ, zero, suc, String, Bool, true, false, not, ◌||◌, Option, none, some, List, [], ◌∷◌, Result, ok,
  err, ◌>>=◌, ◌>>◌, refuse_if, ok_or, map_err, map_ok, traverse, if◌then◌else◌, ◌==◌, ltb, ◌+◌, ◌-◌,
  ◌*◌, length, any, member, text_eq, ◌⧺◌,
}
use sts_delegate_rs.Prelude.Text.Decimal.{show_usize}
use sts_delegate_rs.Json.{
  Json, Members, Items, no_items, item, no_members, member_of, object, array, as_object, as_str,
  get, contains_key,
}
use sts_delegate_rs.Jose.{JoseError, PublicJwk, from_jose_alg, jose_alg, public_key_len}
use sts_delegate_rs.Jose.Keys.{is_empty_bytes, leading_zeros, rsa_public_key_bits_from_jwk}
use sts_delegate_rs.Replay.Keys.{hex_lower}
use sts_delegate_rs.Cli.{CliError, usage}
use mathlib.Core.Option

abbrev pub private_jwk_members : List String
private_jwk_members = "d" ∷ "p" ∷ "q" ∷ "dp" ∷ "dq" ∷ "qi" ∷ "oth" ∷ "k" ∷ "priv" ∷ []

-- The functions of other crates: `jwk_members` is the derived writer of `PublicJwk`.
pub record Codecs : Type 0 where
  pub from_str : String → Result Json String
  pub jwk_from_value : Json → Result PublicJwk String
  pub jwk_members : PublicJwk → Members
  pub base64_decode : String → Result (List ℕ) String
  pub jose_error_text : JoseError → String
  pub sha256 : List ℕ → List ℕ

-- `key[{index}]` in front of a message.
abbrev pub at_key : ℕ → String → String
at_key index message = "key[" ⧺ show_usize index ⧺ "] " ⧺ message

abbrev entries : Json → Option Json → Result Items CliError
entries value none = ok (item value no_items)
entries value (some (array keys)) = ok keys
entries value (some _) = err (usage "JWKS keys member must be an array")

unfoldable pub objects : Items → Result (List Members) CliError
objects no_items = ok []
objects (item key rest) =
    let later = objects rest in
    ok_or (as_object key) (usage "JWK entries must be JSON objects") >>= λ entry.
    map_ok (λ keys. entry ∷ keys) later

abbrev is_no_item : Items → Bool
is_no_item no_items = true
is_no_item (item key rest) = false

unfoldable pub normalize_jwks_value : Json → Result (List Members) CliError
normalize_jwks_value value = do
  document ← ok_or (as_object value) (usage "JWK input must be a JSON object")
  raw_keys ← entries value (get "keys" document)
  refuse_if (is_no_item raw_keys) (usage "JWKS contains no keys")
  objects raw_keys

abbrev text_member : ℕ → String → Option Json → Result (Option String) CliError
text_member index name found =
    traverse
      (λ value.
        ok_or (as_str value) (usage (at_key index ("member " ⧺ name ⧺ " must be a string"))))
      found

unfoldable pub optional_string : Members → String → ℕ → Result (Option String) CliError
optional_string key name index = text_member index name (get name key)

unfoldable pub required_string : Members → String → ℕ → Result String CliError
required_string key name index = optional_string key name index >>= λ value.
    ok_or value (usage (at_key index ("missing required member " ⧺ name)))

unfoldable pub has_private_member : Members → Bool
has_private_member no_members = false
has_private_member (member_of name value m) =
    member name private_jwk_members || has_private_member m

abbrev pub all_octets_zero : List ℕ → Bool
all_octets_zero octets = not (any (λ octet. not (octet == 0)) octets)

-- The bits of a modulus that has an octet: those of the first octet, and eight for each later one.
abbrev pub modulus_bits : List ℕ → ℕ
modulus_bits [] = 0
modulus_bits (b ∷ octets) = length octets * 8 + (8 - leading_zeros b)

-- `iter().take(n)`.
abbrev pub first_octets : ℕ → List ℕ → List ℕ
first_octets zero octets = []
first_octets (suc n) [] = []
first_octets (suc n) (b ∷ octets) = b ∷ first_octets n octets

pub record InspectedKey : Type 0 where
  pub index : ℕ
  pub kid : Option String
  pub kty : String
  pub use_ : Option String
  pub alg : Option String
  pub rsa_modulus_bits : Option ℕ
  pub akp_public_bytes : Option ℕ
  pub akp_public_sha256_prefix : Option String

module _ (codecs : Codecs) where
  unfoldable pub decode_base64url_uint : String → String → ℕ → Result (List ℕ) CliError
  decode_base64url_uint name value index =
      map_err (λ _. usage (at_key index ("member " ⧺ name ⧺ " is not base64url")))
        (codecs.base64_decode value)

  unfoldable pub rsa_modulus_bits_from_key : Members → ℕ → Result ℕ CliError
  rsa_modulus_bits_from_key key index = do
    n ← required_string key "n" index
    e ← required_string key "e" index
    modulus ← decode_base64url_uint "n" n index
    exponent ← decode_base64url_uint "e" e index
    refuse_if (is_empty_bytes exponent || all_octets_zero exponent)
        (usage (at_key index "RSA exponent is invalid"))
    refuse_if (is_empty_bytes modulus || all_octets_zero modulus)
        (usage (at_key index "RSA modulus is invalid"))
    ok (modulus_bits modulus)

  unfoldable pub akp_public_from_key : Members → ℕ → Result (List ℕ) CliError
  akp_public_from_key key index = do
    refuse_if (contains_key "n" key || contains_key "e" key)
        (usage (at_key index "AKP key must not contain RSA n/e members"))
    alg ← required_string key "alg" index
    algorithm ← ok_or (from_jose_alg alg) (usage (at_key index ("unsupported AKP alg " ⧺ alg)))
    public ← required_string key "pub" index
    bytes ← decode_base64url_uint "pub" public index
    refuse_if (not (length bytes == public_key_len algorithm)) (
        usage (
          at_key index (
            "AKP pub length must be "
            ⧺ show_usize (public_key_len algorithm)
            ⧺ " bytes for "
            ⧺ jose_alg algorithm)))
    ok bytes

  abbrev rsa_bits : String → Members → ℕ → Result (Option ℕ) CliError
  rsa_bits kty key index =
      if text_eq kty "RSA" then map_ok some (rsa_modulus_bits_from_key key index) else ok none

  abbrev akp_bytes : String → Members → ℕ → Result (Option (List ℕ)) CliError
  akp_bytes kty key index =
      if text_eq kty "AKP" then map_ok some (akp_public_from_key key index) else ok none

  unfoldable pub sha256_bytes_hex_prefix : List ℕ → String
  sha256_bytes_hex_prefix value = hex_lower (first_octets 8 (codecs.sha256 value))

  unfoldable pub inspect_public_key : Members → ℕ → Result InspectedKey CliError
  inspect_public_key key index = do
    refuse_if (has_private_member key) (
        usage (
          at_key index
            "contains non-public key material; refusing to inspect private or symmetric JWK input"))
    kty ← required_string key "kty" index
    kid ← optional_string key "kid" index
    use_ ← optional_string key "use" index
    alg ← optional_string key "alg" index
    rsa ← rsa_bits kty key index
    akp ← akp_bytes kty key index
    ok (record {
      index = index;
      kid = kid;
      kty = kty;
      use_ = use_;
      alg = alg;
      rsa_modulus_bits = rsa;
      akp_public_bytes = Option.map length akp;
      akp_public_sha256_prefix = Option.map sha256_bytes_hex_prefix akp;
    })

  unfoldable pub inspect_public_keys : ℕ → List Members → Result (List InspectedKey) CliError
  inspect_public_keys index [] = ok []
  inspect_public_keys index (key ∷ keys) = inspect_public_key key index >>= λ inspected.
      map_ok (λ later. inspected ∷ later) (inspect_public_keys (suc index) keys)

  abbrev with_label : String → ℕ → String → String
  with_label label index message = label ⧺ " " ⧺ at_key index message

  check_kty : String → ℕ → PublicJwk → Result Unit CliError
  check_kty label index jwk =
      if text_eq jwk.kty "RSA"
      then (map_err
            (λ e. usage (
              with_label label index
                ("is not a valid RSA public JWK: " ⧺ codecs.jose_error_text e)))
            (rsa_public_key_bits_from_jwk codecs.base64_decode jwk)
          >>= λ bits.
              refuse_if (ltb bits 2048)
                (usage (with_label label index "RSA modulus must be at least 2048 bits")))
      else if text_eq jwk.kty "AKP"
      then map_ok (λ _. tt) (akp_public_from_key (codecs.jwk_members jwk) 0)
      else err (usage (with_label label index ("unsupported JWK kty " ⧺ jwk.kty)))

  read_keys : String → ℕ → List Members → Result (List PublicJwk) CliError
  unfolding check_kty
  read_keys label index [] = ok []
  read_keys label index (key ∷ keys) = do
    jwk ←
        map_err (λ e. usage (with_label label index ("is not a valid public JWK: " ⧺ e)))
          (codecs.jwk_from_value (object key))
    check_kty label index jwk
    later ← read_keys label (suc index) keys
    ok (jwk ∷ later)

  unfoldable pub parse_public_jwks_document : String → String → Result (List PublicJwk) CliError
  unfolding read_keys
  parse_public_jwks_document raw label = do
    value ← map_err (λ e. usage (label ⧺ " is invalid JSON: " ⧺ e)) (codecs.from_str raw)
    keys ← normalize_jwks_value value
    inspect_public_keys 0 keys
    read_keys label 0 keys
