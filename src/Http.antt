-- ===== src/Http.antt =====
-- crates/sts-http/src/lib.rs: errors, the gates of an exchange, the choice of the signing algorithm and
-- the revocation list. The parts and the proofs are in the modules below.
pub mod Policy
pub mod Revocation
pub mod Forms
pub mod Headers
pub mod Request
pub mod Service
pub mod Exchange
pub mod Deployment
pub mod Clients
pub mod Impersonation
pub mod Token
pub mod Online
pub mod Startup
pub mod Metrics
pub mod Sample
mod Tests
use sts_delegate_rs.Prelude.{ℕ, String, Option, none, some}
use sts_delegate_rs.Core.{CoreError}
use sts_delegate_rs.Core
use sts_delegate_rs.Replay.Errors.{ReplayError}
use sts_delegate_rs.Replay.Errors
use sts_delegate_rs.Verify.{VerifyError}
use sts_delegate_rs.Verify
use sts_delegate_rs.Dpop.{DpopError}

pub record HttpError : Type 0 where
  pub status : ℕ
  pub error : Option String
  pub description : String
  pub retry_after : Option String
  pub www_authenticate : Option String

abbrev pub oauth : ℕ → String → String → HttpError
oauth status error description = record {
  status = status;
  error = some error;
  description = description;
  retry_after = none;
  www_authenticate = none;
}

abbrev pub server_error : String → HttpError
server_error description = oauth 500 "server_error" description

abbrev pub invalid_request : String → HttpError
invalid_request description = oauth 400 "invalid_request" description

abbrev pub invalid_client : String → HttpError
invalid_client description = oauth 401 "invalid_client" description

abbrev pub invalid_target : String → HttpError
invalid_target description = oauth 400 "invalid_target" description

abbrev pub invalid_scope : String → HttpError
invalid_scope description = oauth 400 "invalid_scope" description

abbrev pub invalid_grant : String → HttpError
invalid_grant description = oauth 400 "invalid_grant" description

-- `unsupported_authorization_client_auth`.
abbrev pub unsupported_authorization : String → String → HttpError
unsupported_authorization description challenge = record {
  status = 401;
  error = some "invalid_client";
  description = description;
  retry_after = none;
  www_authenticate = some challenge;
}

abbrev pub unsupported_grant_type : String → HttpError
unsupported_grant_type description = oauth 400 "unsupported_grant_type" description

abbrev pub invalid_dpop_proof : String → HttpError
invalid_dpop_proof description = oauth 400 "invalid_dpop_proof" description

abbrev pub service_unavailable : String → HttpError
service_unavailable description = record {
  status = 503;
  error = none;
  description = description;
  retry_after = some "2";
  www_authenticate = none;
}

unfoldable pub map_core_error : CoreError → HttpError
map_core_error e = elim e.kind [
  | Core.invalid_request ↦ invalid_request e.message
  | Core.invalid_client ↦ invalid_client e.message
  | Core.invalid_target ↦ invalid_target e.message
  | Core.invalid_scope ↦ invalid_scope e.message
]

unfoldable pub map_subject_verify_error : VerifyError → HttpError
map_subject_verify_error e = elim e.kind [
  | Verify.invalid_audience ↦ invalid_grant e.message
  | Verify.invalid_issuer ↦ invalid_grant e.message
  | Verify.invalid_lifetime ↦ invalid_grant e.message
  | Verify.invalid_token ↦ invalid_grant e.message
  | Verify.invalid_claims ↦ invalid_grant e.message
  | _ ↦ invalid_request e.message
]

unfoldable pub map_replay_error : ReplayError → HttpError
map_replay_error e = elim e.kind [
  | Errors.invalid_request ↦ invalid_request e.message
  | Errors.replay_detected ↦ invalid_request e.message
  | Errors.store_full ↦ service_unavailable e.message
]

unfoldable pub map_client_assertion_replay_error : ReplayError → HttpError
map_client_assertion_replay_error e = elim e.kind [
  | Errors.invalid_request ↦ invalid_client e.message
  | Errors.replay_detected ↦ invalid_client "client_assertion replay detected"
  | Errors.store_full ↦ service_unavailable e.message
]

unfoldable pub map_dpop_error : DpopError → HttpError
map_dpop_error e = invalid_dpop_proof e.message

unfoldable pub map_dpop_replay_error : ReplayError → HttpError
map_dpop_replay_error e = elim e.kind [
  | Errors.invalid_request ↦ invalid_dpop_proof "DPoP proof replay detected"
  | Errors.replay_detected ↦ invalid_dpop_proof "DPoP proof replay detected"
  | Errors.store_full ↦ service_unavailable e.message
]
