-- ===== src/Verify/Claims.antt =====
-- The claims of inbound tokens in crates/sts-verify/src/lib.rs and the tests on one of them. The
-- clock is an argument, `now`, where the code reads it.
pub mod Ownership
pub mod Audience
pub mod Window
use Prim.Native.Char.{Char, code}
use Prim.Native.String.{[] as no_text, ◌∷◌ as push_char}
use sts_delegate_rs.Prelude.{
  ℕ, ℤ, String, Bool, true, false, not, ◌&&◌, ◌||◌, Option, none, some, List, [], ◌∷◌, Result, ok,
  err, any, add_i64, sub_i64, ltb_ℤ, ltb, ◌==◌, if◌then◌else◌, text_eq, is_empty, strip_prefix,
  utf8_length,
}
use sts_delegate_rs.Json.{Json, Items, string, array, no_items, item}
use sts_delegate_rs.Verify.{VerifyError, verify_error, invalid_lifetime, invalid_audience}

pub record SubjectTokenClaims : Type 0 where
  pub iss : String
  pub sub : Option String
  pub aud : Json
  pub scope : Option String
  pub scp : Option Json
  pub exp : ℤ
  pub nbf : Option ℤ
  pub iat : Option ℤ
  pub act : Option Json
  pub may_act : Option Json
  pub auth_time : Option ℤ
  pub acr : Option String
  pub amr : Option (List String)

pub record AssertionClaims : Type 0 where
  pub iss : String
  pub sub : String
  pub aud : Json
  pub exp : ℤ
  pub iat : Option ℤ
  pub jti : Option String
  pub sub_tok_hash : Option String

-- The suffix behind an identity begins with one of the separators.
abbrev pub is_separated : Option String → Bool
is_separated none = false
is_separated (some no_text) = false
is_separated (some (push_char c s)) = code c == b'-' || code c == b'/' || code c == b'.'

unfoldable pub prefix_match : String → String → Bool
prefix_match kid identity = text_eq kid identity || is_separated (strip_prefix identity kid)

-- A longer registered identity claims the key too.
unfoldable pub is_claimed_by_longer : String → String → List String → Bool
is_claimed_by_longer kid claimed registry =
    any
      (λ other.
        not (text_eq other claimed)
        && ltb (utf8_length claimed) (utf8_length other)
        && prefix_match kid other)
      registry

unfoldable pub kid_belongs_to_claimed_identity : String → String → List String → Bool
kid_belongs_to_claimed_identity kid claimed_identity registry =
    if is_empty kid || is_empty claimed_identity
    then false
    else if not (prefix_match kid claimed_identity)
    then false
    else not (is_claimed_by_longer kid claimed_identity registry)

-- `nbf - clock_skew_leeway > now`.
abbrev pub is_early : Option ℤ → ℤ → ℤ → Bool
is_early none leeway now = false
is_early (some nbf) leeway now = ltb_ℤ now (sub_i64 nbf leeway)

unfoldable pub validate_time_window : ℤ → Option ℤ → ℤ → ℤ → Result Unit VerifyError
validate_time_window exp nbf clock_skew_leeway now =
    if ltb_ℤ (add_i64 exp clock_skew_leeway) now
    then err (verify_error invalid_lifetime "token has expired")
    else if is_early nbf clock_skew_leeway now
    then err (verify_error invalid_lifetime "token is not yet valid")
    else ok tt

abbrev pub span : ℤ → Option ℤ → ℤ → ℤ
span exp none now = sub_i64 exp now
span exp (some iat) now = sub_i64 exp iat

unfoldable pub validate_assertion_lifetime : AssertionClaims → ℤ → ℤ → ℤ → Result Unit VerifyError
validate_assertion_lifetime claims max_ttl clock_skew_leeway now =
    if ltb_ℤ (add_i64 max_ttl clock_skew_leeway) (span claims.exp claims.iat now)
    then err (verify_error invalid_lifetime "assertion lifetime exceeds the allowed maximum")
    else ok tt

abbrev is_text : String → Json → Bool
is_text expected (string value) = text_eq value expected
is_text expected _ = false

pub any_item : String → Items → Bool
any_item expected no_items = false
any_item expected (item v vs) = is_text expected v || any_item expected vs

unfoldable pub audience_matches : Json → String → Bool
unfolding any_item
audience_matches (string value) expected = text_eq value expected
audience_matches (array values) expected = any_item expected values
audience_matches _ expected = false

unfoldable pub ensure_audience_matches : Json → List String → Result Unit VerifyError
ensure_audience_matches aud expected =
    if any (λ value. audience_matches aud value) expected
    then ok tt
    else err (verify_error invalid_audience "subject token audience not accepted")
