-- ===== src/Cli/Rotate.antt =====
-- The rotation of the signing key in crates/sts-cli/src/main.rs. The state is what reading the two files
-- answers. A file is replaced by a rename, so that a write that fails leaves the old file.
pub mod Rotated
use sts_delegate_rs.Prelude.{
  ℕ, String, Bool, true, false, not, ◌&&◌, ◌||◌, Option, none, some, List, [], ◌∷◌, ◌++◌, Result,
  ok, err, ◌>>=◌, ◌>>◌, refuse_if, ok_or, map_err, map_ok, if◌then◌else◌, ◌+◌, length, filter,
  is_empty, text_eq, ◌⧺◌,
}
use sts_delegate_rs.Prelude.Text.Decimal.{show_usize}
use sts_delegate_rs.Json.{Json, Members, as_object, get, contains_key, and_as_str}
use sts_delegate_rs.Jose.{JoseError, PublicJwk, JwksDocument}
use sts_delegate_rs.Jose.Signer.{RsaBackend, RsaJoseSigner, from_private_jwk}
use sts_delegate_rs.Cli.{CliError, usage, runtime}
use sts_delegate_rs.Cli.Redaction.{sanitize}
use sts_delegate_rs.Cli.Inspect.{Codecs, parse_public_jwks_document}

-- What reading the files answers; the file of retiring keys may be absent.
pub record KeyFiles : Type 0 where
  pub key_file : Result String String
  pub extra_file : Result (Option String) String

pub record GeneratedRsaKey : Type 0 where
  pub private_jwk_json : String
  pub public_jwk : PublicJwk

-- What the calls answer that depend on the machine: the lock, the random key and the two writes.
pub record RotationCalls : Type 0 where
  pub lock : Result Unit CliError
  pub generated : Result GeneratedRsaKey JoseError
  pub write_extra : Result Unit CliError
  pub write_key : Result Unit CliError

-- What a rotation puts in place.
pub record Staging : Type 0 where
  pub current : PublicJwk
  pub generated : GeneratedRsaKey
  pub staged : JwksDocument

-- `Some(kid) if !kid.is_empty()`.
abbrev pub is_kid : Option String → Bool
is_kid none = false
is_kid (some kid) = not (is_empty kid)

unfoldable pub stage : PublicJwk → PublicJwk → List PublicJwk → List PublicJwk
stage current generated overlap =
    filter (λ key. not (text_eq key.kid current.kid) && not (text_eq key.kid generated.kid)) overlap
    ++ (current ∷ [])

-- `path` and `extra_path` are the files' names; `encode` is the text that is written for a document.
module _ (codecs : Codecs) (backend : RsaBackend) (encode : JwksDocument → String)
    (path extra_path : String) where
  abbrev pub current_key : String → String
  current_key message = "current signing key " ⧺ path ⧺ " " ⧺ message

  unfoldable pub parse_current_signing_key : String → Result PublicJwk CliError
  parse_current_signing_key raw = do
    value ←
        map_err (λ e. usage (current_key ("must be an RSA private JWK JSON object: " ⧺ e)))
          (codecs.from_str raw)
    entry ← ok_or (as_object value) (usage (current_key "must be an RSA private JWK JSON object"))
    refuse_if (contains_key "k" entry || not (contains_key "d" entry))
        (usage (current_key "must be an RSA private JWK"))
    refuse_if (not (is_kid (and_as_str (get "kid" entry))))
        (usage (current_key "must include a non-empty kid for overlap staging"))
    signer ←
        map_err (λ e. usage (current_key ("is invalid: " ⧺ codecs.jose_error_text e)))
          (from_private_jwk backend raw "unused")
    ok signer.public_jwk

  unfoldable pub load_current_signing_key : KeyFiles → Result PublicJwk CliError
  load_current_signing_key files =
      map_err (λ e. runtime ("failed to read current signing key " ⧺ path ⧺ ": " ⧺ e))
        files.key_file
      >>= parse_current_signing_key

  abbrev pub overlap_of : Option String → Result (List PublicJwk) CliError
  overlap_of none = ok []
  overlap_of (some raw) = parse_public_jwks_document codecs raw "overlap JWKS"

  unfoldable pub load_existing_overlap : KeyFiles → Result (List PublicJwk) CliError
  load_existing_overlap files =
      map_err (λ e. runtime ("failed to read overlap JWKS " ⧺ extra_path ⧺ ": " ⧺ e))
        files.extra_file
      >>= overlap_of

  -- The rotation up to its first write.
  unfoldable pub prepare : KeyFiles → RotationCalls → Result Staging CliError
  prepare files calls = do
    calls.lock
    current ← load_current_signing_key files
    generated ←
        map_err (λ e. runtime ("failed to generate replacement key: " ⧺ codecs.jose_error_text e))
          calls.generated
    overlap ← load_existing_overlap files
    ok (record {
      current = current;
      generated = generated;
      staged = record { keys = stage current generated.public_jwk overlap };
    })

  abbrev pub after_extra : KeyFiles → Staging → KeyFiles
  after_extra files staging = record files { extra_file = ok (some (encode staging.staged)) }

  abbrev pub write_second :
      KeyFiles → Staging → Result Unit CliError → KeyFiles × Result Staging CliError
  write_second files staging (err e) = (files, err e)
  write_second files staging (ok _) =
      (record files { key_file = ok staging.generated.private_jwk_json }, ok staging)

  -- The retiring keys are written first.
  abbrev pub write_first :
      KeyFiles
      → Staging
      → Result Unit CliError
      → Result Unit CliError
      → KeyFiles × Result Staging CliError
  write_first files staging (err e) second = (files, err e)
  write_first files staging (ok _) second = write_second (after_extra files staging) staging second

  abbrev pub write_staging :
      KeyFiles → RotationCalls → Result Staging CliError → KeyFiles × Result Staging CliError
  write_staging files calls (err e) = (files, err e)
  write_staging files calls (ok staging) =
      write_first files staging calls.write_extra calls.write_key

  unfoldable pub replace_keys : KeyFiles → RotationCalls → KeyFiles × Result Staging CliError
  replace_keys files calls = write_staging files calls (prepare files calls)

  -- What the command prints, with the old and the new kid.
  unfoldable pub render_rotation_success : Staging → String
  render_rotation_success staging =
      "rotate_status=rotated\nold_kid="
      ⧺ sanitize staging.current.kid
      ⧺ "\nnew_kid="
      ⧺ sanitize staging.generated.public_jwk.kid
      ⧺ "\nprivate_key_file="
      ⧺ sanitize path
      ⧺ "\nprivate_key_mode=0600\noverlap_jwks_file="
      ⧺ sanitize extra_path
      ⧺ "\noverlap_keys="
      ⧺ show_usize (length staging.staged.keys)
      ⧺ "\nrestart_required=true\n"

  unfoldable pub render_rotation_dry_run : PublicJwk → List PublicJwk → String
  render_rotation_dry_run current overlap =
      "rotate_status=dry_run\ncurrent_kid="
      ⧺ sanitize current.kid
      ⧺ "\nwould_stage_kid="
      ⧺ sanitize current.kid
      ⧺ "\nwould_overlap_keys="
      ⧺ show_usize (length (filter (λ key. not (text_eq key.kid current.kid)) overlap) + 1)
      ⧺ "\nprivate_key_file="
      ⧺ sanitize path
      ⧺ "\noverlap_jwks_file="
      ⧺ sanitize extra_path
      ⧺ "\nrestart_required=true\n"

  dry_run_text : KeyFiles → Result String CliError
  dry_run_text files = do
    current ← load_current_signing_key files
    overlap ← load_existing_overlap files
    ok (render_rotation_dry_run current overlap)

  -- The command: a dry run writes nothing.
  unfoldable pub rotate_signing_key :
      Bool → KeyFiles → RotationCalls → KeyFiles × Result String CliError
  unfolding dry_run_text
  rotate_signing_key true files calls = (files, dry_run_text files)
  rotate_signing_key false files calls =
      let (after, outcome) = replace_keys files calls in
      (after, map_ok render_rotation_success outcome)
