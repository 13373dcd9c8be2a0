-- ===== src/Cli.antt =====
-- Parts of the command line, crates/sts-cli/src/main.rs, that decide something: what is printed of texts
-- and keys, and the rotation of the signing key.
pub mod Redaction
pub mod Inspect
pub mod Claims
pub mod Report
pub mod Exchange
pub mod Canary
pub mod Rotate
mod Tests
use sts_delegate_rs.Prelude.{ℕ, String}

-- `code` is the exit code.
pub record CliError : Type 0 where
  pub code : ℕ
  pub message : String

abbrev pub usage : String → CliError
usage message = record { code = 2; message = message }

abbrev pub runtime : String → CliError
runtime message = record { code = 1; message = message }
