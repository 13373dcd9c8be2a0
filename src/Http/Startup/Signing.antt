-- ===== src/Http/Startup/Signing.antt =====
-- The loading of a signing key from a file in crates/sts-http/src/lib.rs, in a build without the feature
-- `pqc-openssl-unstable`.
use sts_delegate_rs.Prelude.{
  ℕ, String, false, List, Result, err, ◌>>=◌, ◌>>◌, map_err, if◌then◌else◌, trim_start, starts_with,
  trim, ◌⧺◌,
}
use sts_delegate_rs.Jose.{JoseError, jose_error, invalid_key, unsupported_algorithm}
use sts_delegate_rs.Jose.Signer.{
  BackendSelection, classical, requested_pqc, parse, resolve_backend, ensure_classical_backend,
  RsaBackend, RsaJoseSigner, from_pkcs1_der, from_private_jwk_for_backend,
}
use sts_delegate_rs.Config.Load.{RuntimeConfig}
use sts_delegate_rs.Http.Startup.{BootstrapError, jose_failed, Machine, read_checked_file}

-- `der_from_pem` is what jsonwebtoken's `EncodingKey::from_rsa_pem` holds of a PEM text.
module _ (machine : Machine) (backend : RsaBackend)
    (der_from_pem : String → Result (List ℕ) String) where
  unfoldable pub from_pkcs1_pem : String → String → Result RsaJoseSigner JoseError
  from_pkcs1_pem private_pem kid =
      map_err (λ e. jose_error invalid_key ("invalid RSA private key: " ⧺ e))
        (der_from_pem (trim private_pem))
      >>= λ der. from_pkcs1_der backend der kid

  unfoldable pub from_pkcs1_pem_for_backend :
      BackendSelection → String → String → Result RsaJoseSigner JoseError
  from_pkcs1_pem_for_backend selection private_pem kid =
      ensure_classical_backend machine.quoted selection >> from_pkcs1_pem private_pem kid

  unfoldable pub load_pqc_signer : BackendSelection → Result RsaJoseSigner BootstrapError
  load_pqc_signer selection =
      map_err jose_failed (resolve_backend machine.quoted false selection)
      >> err (
          jose_failed
            (jose_error unsupported_algorithm "PQC signing backend is not available in this build"))

  abbrev load_selected : BackendSelection → String → String → Result RsaJoseSigner BootstrapError
  load_selected (requested_pqc requested) raw kid = load_pqc_signer (requested_pqc requested)
  load_selected classical raw kid = map_err jose_failed (
      if starts_with (trim_start raw) "-----BEGIN"
      then from_pkcs1_pem_for_backend classical raw kid
      else from_private_jwk_for_backend backend machine.quoted classical raw kid)

  unfoldable pub load_file_signer : RuntimeConfig → Result RsaJoseSigner BootstrapError
  load_file_signer config =
      read_checked_file machine config.obo_sts_key_file "STS signing key"
        config.allow_insecure_key_file
      >>= λ raw. load_selected (parse config.sts_signing_alg) raw config.our_kid
