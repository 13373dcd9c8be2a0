-- ===== src/Verify.antt =====
-- crates/sts-verify/src/lib.rs: trust anchors, and the policy for inbound tokens and assertions. The
-- parts and the proofs are in the modules below.
pub mod Anchors
pub mod Claims
pub mod Tokens
mod Tests
use sts_delegate_rs.Prelude.{String}

pub data VerifyErrorKind : Type 0 where
  invalid_issuer invalid_url invalid_anchor anchor_collision invalid_token invalid_claims :
      VerifyErrorKind
  invalid_audience invalid_lifetime key_binding_mismatch discovery_failed fetch_failed :
      VerifyErrorKind

pub record VerifyError : Type 0 where
  pub kind : VerifyErrorKind
  pub message : String

abbrev pub verify_error : VerifyErrorKind → String → VerifyError
verify_error kind message = record { kind = kind; message = message }

-- The `Display` text of an error kind.
unfoldable pub verify_error_code : VerifyErrorKind → String
verify_error_code invalid_issuer = "invalid_issuer"
verify_error_code invalid_url = "invalid_url"
verify_error_code invalid_anchor = "invalid_anchor"
verify_error_code anchor_collision = "anchor_collision"
verify_error_code invalid_token = "invalid_token"
verify_error_code invalid_claims = "invalid_claims"
verify_error_code invalid_audience = "invalid_audience"
verify_error_code invalid_lifetime = "invalid_lifetime"
verify_error_code key_binding_mismatch = "key_binding_mismatch"
verify_error_code discovery_failed = "discovery_failed"
verify_error_code fetch_failed = "fetch_failed"
