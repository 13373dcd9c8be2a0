-- ===== src/Http/Headers.antt =====
-- The request's headers that crates/sts-http/src/lib.rs reads before a form is parsed. `to_str` of a value
-- is none where it is not visible ASCII; of a header with several values `get` reads the first.
use sts_delegate_rs.Prelude.{
  String, not, Option, none, some, List, [], ◌∷◌, Result, ok, err, refuse_if, if◌then◌else◌,
  text_eq, trim, split, split_whitespace,
}
use sts_delegate_rs.Prelude.Text.Ascii.{to_ascii_lowercase, eq_ignore_ascii_case}
use sts_delegate_rs.Http.{HttpError, invalid_request, unsupported_authorization}

-- The values of three header fields, as texts where they are.
pub record Headers : Type 0 where
  pub content_type : Option String
  pub authorization : Option (Option String)
  pub dpop : List (Option String)

abbrev text_or : String → Option String → String
text_or d none = d
text_or d (some s) = s

abbrev first_or : String → List String → String
first_or d [] = d
first_or d (s ∷ rest) = s

unfoldable pub require_form_urlencoded : Headers → Result Unit HttpError
require_form_urlencoded headers =
    let media_type =
      to_ascii_lowercase (trim (first_or "" (split b';' (text_or "" headers.content_type)))) in
    refuse_if (not (text_eq media_type "application/x-www-form-urlencoded"))
      (invalid_request "Content-Type must be application/x-www-form-urlencoded")

refuse_authorization : Option (Option String) → Result Unit HttpError
refuse_authorization none = ok tt
refuse_authorization (some value) =
    let scheme = first_or "Basic" (split_whitespace (text_or "" value)) in
    err (
      unsupported_authorization
        "Authorization header client authentication is not supported; use private_key_jwt"
        (if eq_ignore_ascii_case scheme "basic" then "Basic" else scheme))

unfoldable pub reject_authorization_header_client_auth : Headers → Result Unit HttpError
unfolding refuse_authorization
reject_authorization_header_client_auth headers = refuse_authorization headers.authorization
