-- ===== src/Replay/Errors.antt =====
-- The errors of crates/sts-replay/src/lib.rs.
use sts_delegate_rs.Prelude.{String}

pub data ReplayErrorKind : Type 0 where
  invalid_request replay_detected store_full : ReplayErrorKind

pub record ReplayError : Type 0 where
  pub kind : ReplayErrorKind
  pub message : String

abbrev pub replay_error : ReplayErrorKind → String → ReplayError
replay_error kind message = record { kind = kind; message = message }

-- The `Display` text of an error kind.
unfoldable pub replay_error_code : ReplayErrorKind → String
replay_error_code invalid_request = "invalid_request"
replay_error_code replay_detected = "invalid_request"
replay_error_code store_full = "service_unavailable"

abbrev pub replay_store_unavailable : ReplayError
replay_store_unavailable = replay_error store_full "replay store unavailable, retry shortly"

abbrev pub empty_jti : ReplayError
empty_jti = replay_error invalid_request "jti must not be empty"

abbrev pub already_seen : ReplayError
already_seen = replay_error replay_detected "actor_token replay detected"

abbrev pub no_room : ReplayError
no_room = replay_error store_full "replay store full, retry shortly"
