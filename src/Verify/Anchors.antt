-- ===== src/Verify/Anchors.antt =====
-- Issuers, JWKS addresses and trust anchors of crates/sts-verify/src/lib.rs. `Url::parse` is the url
-- crate's: the model takes it as an argument that yields the parts the code asks for, or the text of
-- its error.
pub mod Issuer
use sts_delegate_rs.Prelude.{
  ℕ, String, Bool, true, false, not, ◌&&◌, ◌||◌, Option, none, some, List, Result, ok, err, ◌>>=◌,
  ◌>>◌, refuse_if, map_err, traverse, if◌then◌else◌, text_eq, is_empty, trim, any_char,
  contains_char, starts_with, ◌==◌, trim_end_matches, is_whitespace, ◌⧺◌,
}
use sts_delegate_rs.Prelude.Text.Ascii.{eq_ignore_ascii_case}
use sts_delegate_rs.Verify.{
  VerifyError, verify_error, invalid_issuer, invalid_url, invalid_anchor, anchor_collision,
}

pub data TrustAnchorKind : Type 0 where
  idp actor client : TrustAnchorKind

-- The `Display` text of an anchor kind.
unfoldable pub anchor_kind_text : TrustAnchorKind → String
anchor_kind_text idp = "idp"
anchor_kind_text actor = "actor"
anchor_kind_text client = "client"

pub record TrustAnchorRef : Type 0 where
  pub kind : TrustAnchorKind
  pub issuer : Option String
  pub jwks_url : Option String
  pub jwks_file : Option String

pub record VerificationPlan : Type 0 where
  pub idp : TrustAnchorRef
  pub actor : TrustAnchorRef
  pub client : TrustAnchorRef

-- The url crate's `Host`: a domain, the octets of an IPv4 address, or an IPv6 address as its number.
pub data UrlHost : Type 0 where
  domain : String → UrlHost
  ipv4 : ℕ → ℕ → ℕ → ℕ → UrlHost
  ipv6 : ℕ → UrlHost

-- What the code reads from a parsed URL.
pub record ParsedUrl : Type 0 where
  pub scheme : String
  pub host_str : Option String
  pub has_query : Bool
  pub has_fragment : Bool
  pub host : Option UrlHost

abbrev pub is_missing : Option String → Bool
is_missing none = true
is_missing (some _) = false

-- The standard library's `is_loopback` holds of 127.0.0.0/8 and of ::1.
unfoldable pub is_loopback : Option UrlHost → Bool
is_loopback none = false
is_loopback (some (domain host)) = eq_ignore_ascii_case host "localhost"
is_loopback (some (ipv4 a b c d)) = a == 127
is_loopback (some (ipv6 n)) = n == 1

module _ (parse_url : String → Result ParsedUrl String) where
  -- The tests on a parsed issuer.
  unfoldable pub check_issuer_url : ParsedUrl → Result Unit VerifyError
  check_issuer_url parsed =
      if is_missing parsed.host_str
      then err (verify_error invalid_issuer "issuer must include a host")
      else if parsed.has_query || parsed.has_fragment
      then err (verify_error invalid_issuer "issuer must not contain a query or fragment component")
      else if not (text_eq parsed.scheme "https")
          && not (text_eq parsed.scheme "http" && is_loopback parsed.host)
      then err (
          verify_error invalid_issuer
            "issuer must use https, except http is allowed for loopback local development")
      else ok tt

  unfoldable pub validate_issuer : String → Result String VerifyError
  validate_issuer value = do
    refuse_if (is_empty (trim value)) (verify_error invalid_issuer "issuer must not be empty")
    refuse_if (any_char is_whitespace (trim value))
        (verify_error invalid_issuer "issuer must not contain whitespace")
    parsed ←
        map_err (λ e. verify_error invalid_issuer ("issuer must be an absolute URL: " ⧺ e))
          (parse_url (trim value))
    check_issuer_url parsed
    ok (trim_end_matches b'/' (trim value))

  unfoldable pub validate_jwks_url : String → Result String VerifyError
  validate_jwks_url value =
      let trimmed = trim value in
      if is_empty trimmed
      then err (verify_error invalid_url "JWKS URL must not be empty")
      else if not (starts_with trimmed "https://")
      then err (verify_error invalid_url "JWKS URL must use https://")
      else if contains_char trimmed b'#'
      then err (verify_error invalid_url "JWKS URL must not contain a fragment")
      else ok trimmed

  -- `map(str::trim).filter(|value| !value.is_empty())`.
  abbrev non_empty : Option String → Option String
  non_empty none = none
  non_empty (some value) = if is_empty (trim value) then none else some (trim value)

  unfoldable pub build_anchor_ref :
      TrustAnchorKind
      → Option String
      → Option String
      → Option String
      → Result TrustAnchorRef VerifyError
  build_anchor_ref kind issuer jwks_url jwks_file = do
    issuer' ← traverse validate_issuer issuer
    jwks_url' ← traverse validate_jwks_url jwks_url
    refuse_if (is_missing jwks_url' && is_missing (non_empty jwks_file)) (
        verify_error invalid_anchor
          (anchor_kind_text kind ⧺ " anchor needs at least one JWKS source"))
    ok (record {
      kind = kind;
      issuer = issuer';
      jwks_url = jwks_url';
      jwks_file = non_empty jwks_file;
    })

-- `==` on `Option<String>`.
abbrev pub option_eq : Option String → Option String → Bool
option_eq none none = true
option_eq (some s) (some t) = text_eq s t
option_eq _ _ = false

unfoldable pub require_distinct_actor_client_anchors :
    TrustAnchorRef → TrustAnchorRef → Result Unit VerifyError
require_distinct_actor_client_anchors actor_ref client_ref =
    if option_eq actor_ref.jwks_file client_ref.jwks_file
      && option_eq actor_ref.jwks_url client_ref.jwks_url
    then err (verify_error anchor_collision "actor and client anchors must remain distinct")
    else ok tt

unfoldable pub build_verification_plan :
    TrustAnchorRef → TrustAnchorRef → TrustAnchorRef → Result VerificationPlan VerifyError
build_verification_plan idp_ref actor_ref client_ref = do
  require_distinct_actor_client_anchors actor_ref client_ref
  ok (record { idp = idp_ref; actor = actor_ref; client = client_ref })
