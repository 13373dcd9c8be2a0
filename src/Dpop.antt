-- ===== src/Dpop.antt =====
-- crates/sts-dpop/src/lib.rs: the validation of a DPoP proof (RFC 9449). base64, serde_json, jsonwebtoken
-- and the url crate are parameters, gathered in `Backend`; keys are the caller's type.
pub mod Uri
pub mod Validated
pub mod Single
mod Tests
use sts_delegate_rs.Prelude.{
  ℕ, ℤ, pos, negsuc, ◌+◌, ◌-◌, ◌*◌, ◌/◌, ◌^◌, String, Bool, true, false, not, ◌&&◌, ◌||◌, Option,
  none, some, List, [], ◌∷◌, Result, ok, err, ◌>>=◌, ◌>>◌, refuse_if, ok_or, map_err, any, member,
  leb, ltb, ltb_ℤ, ◌==◌, max_ℤ, pos_part, abs_diff, saturating_add, half_word, if◌then◌else◌,
  text_eq, is_blank, is_empty, split, utf8_length, ◌⧺◌,
}
use sts_delegate_rs.Prelude.Text.Decimal.{show_i64}
use sts_delegate_rs.Json.{
  Json, Number, Members, integer, float, number, object, as_str, and_as_str, get, contains_key,
  as_object,
}

abbrev pub dpop_signing_algs_supported : List String
dpop_signing_algs_supported =
    "RS256" ∷ "RS384" ∷ "RS512" ∷ "PS256" ∷ "PS384" ∷ "PS512" ∷ "ES256" ∷ "ES384" ∷ "EdDSA" ∷ []

abbrev pub max_dpop_proof_len : ℕ
max_dpop_proof_len = 8192

abbrev pub max_dpop_jti_len : ℕ
max_dpop_jti_len = 128

abbrev pub dpop_typ : String
dpop_typ = "dpop+jwt"

abbrev pub private_jwk_members : List String
private_jwk_members = "d" ∷ "p" ∷ "q" ∷ "dp" ∷ "dq" ∷ "qi" ∷ "oth" ∷ "k" ∷ []

pub record DpopProofRequest : Type 0 where
  pub proof : String
  pub htm : String
  pub htu : String
  pub now : ℤ
  pub clock_skew_leeway : ℤ

pub record DpopBinding : Type 0 where
  pub jkt : String
  pub jti : String
  pub iat : ℤ
  pub replay_expires_at : ℤ

-- `DpopError` has the one kind `InvalidProof`.
pub record DpopError : Type 0 where
  pub message : String

abbrev pub invalid : String → DpopError
invalid message = record { message = message }

pub record VerifiedDpopClaims : Type 0 where
  pub jti : Option Json
  pub htm : Option Json
  pub htu : Option Json
  pub iat : Option Json

-- The algorithms of jsonwebtoken, and the key families that a JWK's parameters name.
pub data Algorithm : Type 0 where
  rs256 rs384 rs512 ps256 ps384 ps512 es256 es384 ed_dsa hs256 hs384 hs512 : Algorithm

pub data KeyFamily : Type 0 where
  rsa elliptic_curve octet_key_pair octet_key : KeyFamily

pub record ParsedHtu : Type 0 where
  pub scheme : String
  pub host_str : Option String
  pub port : Option ℕ
  pub path : String

-- What other crates provide. `decode` is jsonwebtoken's with the checks of the standard claims turned
-- off, its `Validation` made for the algorithm; `lowercase` is `to_ascii_lowercase`; `quoted` is
-- the text `{:?}` of a string.
pub record Backend (Jwk Key : Type 0) : Type 0 where
  pub base64_decode : String → Option (List ℕ)
  pub json_from_slice : List ℕ → Option Json
  pub algorithm_from_str : String → Option Algorithm
  pub jwk_from_json : Json → Option Jwk
  pub family : Jwk → KeyFamily
  pub decoding_key : Jwk → Option Key
  pub decode : String → Key → Algorithm → Option VerifiedDpopClaims
  pub thumbprint : Jwk → String
  pub parse_url : String → Option ParsedHtu
  pub lowercase : String → String
  pub quoted : String → String

unfoldable pub check_proof_input : DpopProofRequest → Result Unit DpopError
check_proof_input input =
    if is_blank input.proof
    then err (invalid "DPoP proof missing or not a string")
    else if ltb max_dpop_proof_len (utf8_length input.proof)
    then err (invalid "DPoP proof exceeds maximum allowed length")
    else if is_blank input.htm || is_blank input.htu
    then err (invalid "DPoP request method/URI not available for proof validation")
    else ok tt

-- Exactly three segments, none of them empty.
abbrev three_segments : List String → Result (String × String × String) DpopError
three_segments (header ∷ payload ∷ signature ∷ []) =
    if is_empty header || is_empty payload || is_empty signature
    then err (invalid "DPoP proof must be a compact JWT")
    else ok (header, payload, signature)
three_segments _ = err (invalid "DPoP proof must be a compact JWT")

unfoldable pub compact_parts : String → Result (String × String × String) DpopError
compact_parts proof = three_segments (split b'.' proof)

abbrev pub non_empty_string : Option String → Option String
non_empty_string none = none
non_empty_string (some s) = if is_empty s then none else some s

unfoldable pub required_string_claim : Option Json → String → Result String DpopError
required_string_claim value claim =
    ok_or (non_empty_string (and_as_str value))
      (invalid ("DPoP proof " ⧺ claim ⧺ " must be a non-empty string"))

unfoldable pub validate_jti : String → Result String DpopError
validate_jti jti =
    if ltb max_dpop_jti_len (utf8_length jti)
    then err (invalid "DPoP proof jti exceeds maximum allowed length")
    else ok jti

unfoldable pub validate_htm : String → String → Result Unit DpopError
validate_htm claim_htm htm =
    if not (text_eq claim_htm htm)
    then err (invalid "DPoP proof htm does not match the request method")
    else ok tt

-- `value as i64` of a finite float: truncation towards zero, saturated.
abbrev truncate : Bool → ℕ → ℤ
truncate negative n =
    if negative
    then (if leb half_word n
        then negsuc (half_word - 1)
        else if n == 0
        then pos 0
        else negsuc (n - 1))
    else if leb half_word n
    then pos (half_word - 1)
    else pos n

-- A float of mantissa m and exponent e, tested against 2^63 in magnitude.
float_to_i64 : Bool → ℕ → ℤ → Option ℤ
float_to_i64 negative m (pos e) =
    if leb (m * 2 ^ e) half_word then some (truncate negative (m * 2 ^ e)) else none
float_to_i64 negative m (negsuc e) =
    if leb m (half_word * 2 ^ (e + 1)) then some (truncate negative (m / 2 ^ (e + 1))) else none

-- An integer above the range of an i64 is a u64, whose conversion fails.
abbrev integer_to_i64 : ℤ → Option ℤ
integer_to_i64 z = if leb half_word (pos_part z) then none else some z

unfoldable pub value_to_i64 : Json → Option ℤ
unfolding float_to_i64
value_to_i64 (number (integer z)) = integer_to_i64 z
value_to_i64 (number (float negative m e)) = float_to_i64 negative m e
value_to_i64 _ = none

unfoldable pub validate_iat : Option Json → ℤ → ℤ → Result ℤ DpopError
validate_iat value now leeway = do
  value' ← ok_or value (invalid "DPoP proof missing required claim iat")
  iat ← ok_or (value_to_i64 value') (invalid "DPoP proof iat must be a finite number")
  refuse_if (ltb (pos_part (max_ℤ leeway (pos 0))) (abs_diff now iat))
      (invalid "DPoP proof iat is outside the acceptable window")
  ok iat

unfoldable pub default_port : String → Option ℕ
default_port scheme =
    if text_eq scheme "https" then some 443 else if text_eq scheme "http" then some 80 else none

abbrev pub same_port : Option ℕ → Option ℕ → Bool
same_port none none = true
same_port (some p) (some q) = p == q
same_port _ _ = false

abbrev pub netloc : String → Option ℕ → Option ℕ → String
netloc host none usual = host
netloc host (some port) usual =
    if same_port (some port) usual then host else host ⧺ ":" ⧺ show_i64 (pos port)

unfoldable pub ensure_asymmetric_key_matches_alg : KeyFamily → Algorithm → Result Unit DpopError
ensure_asymmetric_key_matches_alg rsa rs256 = ok tt
ensure_asymmetric_key_matches_alg rsa rs384 = ok tt
ensure_asymmetric_key_matches_alg rsa rs512 = ok tt
ensure_asymmetric_key_matches_alg rsa ps256 = ok tt
ensure_asymmetric_key_matches_alg rsa ps384 = ok tt
ensure_asymmetric_key_matches_alg rsa ps512 = ok tt
ensure_asymmetric_key_matches_alg elliptic_curve es256 = ok tt
ensure_asymmetric_key_matches_alg elliptic_curve es384 = ok tt
ensure_asymmetric_key_matches_alg octet_key_pair ed_dsa = ok tt
ensure_asymmetric_key_matches_alg _ _ =
    err (invalid "DPoP proof jwk key type is not compatible with header alg")

-- The key's own `alg`, where it is a string, is another one.
abbrev pub names_other_alg : Option String → String → Bool
names_other_alg none alg_name = false
names_other_alg (some jwk_alg) alg_name = not (text_eq jwk_alg alg_name)

abbrev pub is_text : Option String → String → Bool
is_text none t = false
is_text (some s) t = text_eq s t

module _ {Jwk Key : Type 0} (backend : Backend Jwk Key) where
  unfoldable pub decode_json_part : String → String → Result Json DpopError
  decode_json_part part name = do
    bytes ←
        ok_or (backend.base64_decode part)
          (invalid ("DPoP proof " ⧺ name ⧺ " is not valid base64url JSON"))
    ok_or (backend.json_from_slice bytes) (invalid ("DPoP proof " ⧺ name ⧺ " is not valid JSON"))

  unfoldable pub validate_header : Json → Result (Algorithm × Jwk) DpopError
  validate_header value = do
    header ← ok_or (as_object value) (invalid "DPoP proof header is not a JSON object")
    refuse_if (not (is_text (and_as_str (get "typ" header)) dpop_typ))
        (invalid "DPoP proof typ must be dpop+jwt")
    alg_name ← ok_or (and_as_str (get "alg" header)) (invalid "DPoP proof alg is required")
    refuse_if (not (member alg_name dpop_signing_algs_supported)) (
        invalid
          ("DPoP proof alg " ⧺ backend.quoted alg_name ⧺ " is not an allowed asymmetric algorithm"))
    alg ← ok_or (backend.algorithm_from_str alg_name) (invalid "DPoP proof alg is not supported")
    jwk_value ← ok_or (get "jwk" header) (invalid "DPoP proof header must carry a public jwk")
    jwk_object ← ok_or (as_object jwk_value) (invalid "DPoP proof header must carry a public jwk")
    refuse_if (any (λ name. contains_key name jwk_object) private_jwk_members)
        (invalid "DPoP proof jwk must not contain private key material")
    refuse_if (names_other_alg (and_as_str (get "alg" jwk_object)) alg_name)
        (invalid "DPoP proof jwk alg does not match header alg")
    jwk ←
        ok_or (backend.jwk_from_json jwk_value) (invalid "DPoP proof jwk is not a valid public key")
    ensure_asymmetric_key_matches_alg (backend.family jwk) alg
    ok (alg, jwk)

  unfoldable pub verify_proof_signature :
      String → Algorithm → Jwk → Result VerifiedDpopClaims DpopError
  verify_proof_signature proof alg jwk = do
    key ← ok_or (backend.decoding_key jwk) (invalid "DPoP proof jwk is not a valid public key")
    ok_or (backend.decode proof key alg) (invalid "DPoP proof signature does not verify")

  abbrev pub canonical_text : String → Option String → ParsedHtu → Option String
  canonical_text scheme none parsed = none
  canonical_text scheme (some host) parsed = some (
      scheme
      ⧺ "://"
      ⧺ netloc (backend.lowercase host) parsed.port (default_port scheme)
      ⧺ parsed.path)

  abbrev canonical_parsed : Option ParsedHtu → Option String
  canonical_parsed none = none
  canonical_parsed (some parsed) =
      canonical_text (backend.lowercase parsed.scheme) parsed.host_str parsed

  unfoldable pub canonical_htu : String → Option String
  canonical_htu value = canonical_parsed (backend.parse_url value)

  unfoldable pub validate_htu : String → String → Result Unit DpopError
  validate_htu claim_htu htu = do
    claim ← ok_or (canonical_htu claim_htu) (invalid "DPoP proof htu is not a valid absolute URI")
    request ← ok_or (canonical_htu htu) (invalid "DPoP request URI is not a valid absolute URI")
    refuse_if (not (text_eq claim request))
        (invalid "DPoP proof htu does not match the request URI")
    ok tt

  unfoldable pub validate_dpop_proof : DpopProofRequest → Result DpopBinding DpopError
  validate_dpop_proof input = do
    check_proof_input input
    (header_b64, _, _) ← compact_parts input.proof
    header ← decode_json_part header_b64 "header"
    (alg, jwk) ← validate_header header
    claims ← verify_proof_signature input.proof alg jwk
    jti_text ← required_string_claim claims.jti "jti"
    jti ← validate_jti jti_text
    htm ← required_string_claim claims.htm "htm"
    validate_htm htm input.htm
    htu ← required_string_claim claims.htu "htu"
    validate_htu htu input.htu
    iat ← validate_iat claims.iat input.now input.clock_skew_leeway
    ok (record {
      jkt = backend.thumbprint jwk;
      jti = jti;
      iat = iat;
      replay_expires_at = saturating_add iat (max_ℤ input.clock_skew_leeway (pos 0));
    })
