-- ===== src/Http/Startup.antt =====
-- The start of the service in crates/sts-http/src/lib.rs: the checks of the configuration's algorithms and
-- address, and the public keys that are read from files and published. A path is its text.
pub mod Loaded
pub mod Published
pub mod Signing
mod Tests
use sts_delegate_rs.Prelude.{
  ℕ, String, Bool, true, false, not, ◌&&◌, ◌||◌, Option, none, some, List, [], ◌∷◌, ◌++◌, Result,
  ok, err, ◌>>=◌, ◌>>◌, refuse_if, ok_or, map_err, map_ok, if◌then◌else◌, ◌==◌, ltb, ◌+◌, ◌*◌, ◌/◌,
  ◌%◌, any, filter, text_eq, starts_with, ◌⧺◌,
}
use sts_delegate_rs.Json.{
  Json, Members, Items, no_items, item, object, array, as_object, get, contains_key,
}
use sts_delegate_rs.Jose.{JoseError, jose_error, unsupported_algorithm, PublicJwk, JwksDocument}
use sts_delegate_rs.Jose.Keys.{validate_public_jwk, rsa_public_key_bits_from_jwk}
use sts_delegate_rs.Verify.{VerifyError}
use sts_delegate_rs.Replay.Errors.{ReplayError}
use sts_delegate_rs.Config.{ConfigError}
use sts_delegate_rs.Config.Load.{RuntimeConfig}
use sts_delegate_rs.Http.Policy.{is_pqc_jws_alg}

pub data BootstrapError : Type 0 where
  config_failed : ConfigError → BootstrapError
  jose_failed : JoseError → BootstrapError
  verify_failed : VerifyError → BootstrapError
  replay_failed : ReplayError → BootstrapError
  io : String → String → BootstrapError
  invalid_jwks : String → String → BootstrapError
  invalid_bind : String → BootstrapError

-- The address types of the standard library: an IPv6 address is its 128-bit number.
pub data IpAddr : Type 0 where
  v4 : ℕ → ℕ → ℕ → ℕ → IpAddr
  v6 : ℕ → IpAddr

pub record SocketAddr : Type 0 where
  pub ip : IpAddr
  pub port : ℕ

-- The file system and the functions of other crates. `mode` has the permission bits of a file where
-- `fs::metadata` finds it; `jwk_from_value` is the derived reader of `PublicJwk`.
pub record Machine : Type 0 where
  pub quoted : String → String
  pub parse_socket_addr : String → Result SocketAddr String
  pub mode : String → Option ℕ
  pub read_to_string : String → Result String String
  pub from_str : String → Result Json String
  pub jwk_from_value : Json → Result PublicJwk String
  pub base64_decode : String → Result (List ℕ) String

-- `IpAddr::is_loopback`.
abbrev pub is_loopback_ip : IpAddr → Bool
is_loopback_ip (v4 a b c d) = a == 127
is_loopback_ip (v6 n) = n == 1

-- `pqc` says whether the build has the feature `pqc-openssl-unstable`.
abbrev validate_pqc_inbound_assertion_backend : Bool → String → Result Unit BootstrapError
validate_pqc_inbound_assertion_backend true alg = ok tt
validate_pqc_inbound_assertion_backend false alg = err (
    jose_failed (
      jose_error unsupported_algorithm
        ("PQC inbound assertion verification backend is not available for " ⧺ alg)))

unfoldable pub check_backends : Bool → List String → Result Unit BootstrapError
check_backends pqc [] = ok tt
check_backends pqc (alg ∷ algs) =
    let later = check_backends pqc algs in
    if is_pqc_jws_alg alg then validate_pqc_inbound_assertion_backend pqc alg >> later else later

abbrev pub validate_inbound_assertion_algorithms : Bool → RuntimeConfig → Result Unit BootstrapError
validate_inbound_assertion_algorithms pqc config = check_backends pqc config.inbound_assertion_algs

abbrev pub private_jwk_members : List String
private_jwk_members = "d" ∷ "p" ∷ "q" ∷ "dp" ∷ "dq" ∷ "qi" ∷ "oth" ∷ "k" ∷ "priv" ∷ []

abbrev pub is_no_text : List String → Bool
is_no_text [] = true
is_no_text (s ∷ texts) = false

unfoldable pub join_commas : List String → String
join_commas [] = ""
join_commas (s ∷ []) = s
join_commas (s ∷ t ∷ texts) = s ⧺ "," ⧺ join_commas (t ∷ texts)

unfoldable pub private_found : Members → List String
private_found members = filter (λ name. contains_key name members) private_jwk_members

-- Write permission for the group or for others: `mode & 0o022`.
abbrev pub is_shared_writable : ℕ → Bool
is_shared_writable mode = (mode / 16) % 2 == 1 || (mode / 2) % 2 == 1

-- `{:o}` of the mode's nine bits.
abbrev octal_digit : ℕ → String
octal_digit d =
    if d == 0
    then "0"
    else if d == 1
    then "1"
    else if d == 2
    then "2"
    else if d == 3
    then "3"
    else if d == 4
    then "4"
    else if d == 5
    then "5"
    else if d == 6
    then "6"
    else "7"

unfoldable pub show_mode : ℕ → String
show_mode mode =
    let low = octal_digit (mode % 8) in
    let middle = octal_digit ((mode / 8) % 8) in
    let high = octal_digit ((mode / 64) % 8) in
    if ltb (mode % 512) 8
    then low
    else if ltb (mode % 512) 64
    then middle ⧺ low
    else high ⧺ middle ⧺ low

-- Signer keys come first, and of the extra keys those with a new `kid`.
unfoldable pub add_extra : List PublicJwk → List PublicJwk → List PublicJwk
add_extra published [] = published
add_extra published (key ∷ extra) =
    add_extra
      (if any (λ existing. text_eq existing.kid key.kid) published
        then published
        else published ++ (key ∷ []))
      extra

module _ (machine : Machine) where
  unfoldable pub parse_bind_addr : RuntimeConfig → Result SocketAddr BootstrapError
  parse_bind_addr config = do
    addr ←
        map_err
          (λ e.
            invalid_bind (
              "STS_HTTP_ADDR must be host:port, got " ⧺ machine.quoted config.http_addr ⧺ ": " ⧺ e))
          (machine.parse_socket_addr config.http_addr)
    refuse_if
        (starts_with config.our_issuer "http://"
          && not (is_loopback_ip addr.ip)
          && not config.allow_insecure_http_bind)
        (invalid_bind
          "refusing non-loopback plaintext bind for http issuer; use https issuer or set ALLOW_INSECURE_HTTP_BIND=true")
    ok addr

  -- A file that `fs::metadata` does not find passes.
  abbrev pub check_mode : String → String → Bool → Option ℕ → Result Unit BootstrapError
  check_mode path label allow none = ok tt
  check_mode path label allow (some mode) = refuse_if (is_shared_writable mode && not allow) (
      io path (
        label
        ⧺ " is group/world-writable (mode "
        ⧺ show_mode mode
        ⧺ "); chmod 600 or set the explicit insecure override"))

  unfoldable pub check_file_mode : String → String → Bool → Result Unit BootstrapError
  check_file_mode path label allow_insecure_writable =
      check_mode path label allow_insecure_writable (machine.mode path)

  unfoldable pub read_checked_file : String → String → Bool → Result String BootstrapError
  read_checked_file path label allow_insecure_writable = do
    check_file_mode path label allow_insecure_writable
    map_err (io path) (machine.read_to_string path)

  -- The size that an RSA key must have.
  unfoldable pub check_rsa_size : String → PublicJwk → Result Unit BootstrapError
  check_rsa_size label jwk =
      if text_eq jwk.kty "RSA"
      then (map_err jose_failed (rsa_public_key_bits_from_jwk machine.base64_decode jwk) >>= λ bits.
          refuse_if (ltb bits 2048)
            (invalid_jwks label "RSA public keys must be at least 2048 bits"))
      else ok tt

  unfoldable pub public_key : String → Json → Result PublicJwk BootstrapError
  public_key label key = do
    members ← ok_or (as_object key) (invalid_jwks label "key entries must be objects")
    refuse_if (not (is_no_text (private_found members))) (
        invalid_jwks label (
          "key contains private JWK member(s) "
          ⧺ join_commas (private_found members)
          ⧺ "; public JWKS files must not contain private material"))
    jwk ←
        map_err (λ e. invalid_jwks label ("invalid public JWK: " ⧺ e)) (machine.jwk_from_value key)
    map_err jose_failed (validate_public_jwk machine.base64_decode jwk)
    check_rsa_size label jwk
    ok jwk

  unfoldable pub collect_keys : String → Items → Result (List PublicJwk) BootstrapError
  collect_keys label no_items = ok []
  collect_keys label (item key rest) =
      let later = collect_keys label rest in
      public_key label key >>= λ jwk. map_ok (λ keys. jwk ∷ keys) later

  -- A JWKS, or one key as an object.
  abbrev pub entries_of : String → Members → Option Json → Result Items BootstrapError
  entries_of label entry none = ok (item (object entry) no_items)
  entries_of label entry (some (array keys)) = ok keys
  entries_of label entry (some _) = err (invalid_jwks label "keys must be an array")

  unfoldable pub raw_keys : String → Json → Result Items BootstrapError
  raw_keys label (object members) = entries_of label members (get "keys" members)
  raw_keys label _ = err (invalid_jwks label "JWKS must be an object")

  abbrev pub is_no_item : Items → Bool
  is_no_item no_items = true
  is_no_item (item key rest) = false

  unfoldable pub normalize_public_jwks_value : Json → String → Result JwksDocument BootstrapError
  normalize_public_jwks_value value label = do
    keys ← raw_keys label value
    refuse_if (is_no_item keys) (invalid_jwks label "no public keys found")
    public_keys ← collect_keys label keys
    ok (record { keys = public_keys })

  unfoldable pub load_public_jwks_file : String → String → Bool → Result JwksDocument BootstrapError
  load_public_jwks_file path label allow_insecure_writable = do
    raw ← read_checked_file path label allow_insecure_writable
    value ←
        map_err (λ e. invalid_jwks label ("file is not valid JSON: " ⧺ e)) (machine.from_str raw)
    normalize_public_jwks_value value label

  abbrev pub with_extra :
      List PublicJwk → Bool → Option String → Result (List PublicJwk) BootstrapError
  with_extra published allow none = ok published
  with_extra published allow (some extra_file) =
      map_ok (λ extra. add_extra published extra.keys)
        (load_public_jwks_file extra_file "extra STS JWKS" allow)

  -- `signer_jwks` is what `JoseSigner::public_jwks` answers.
  unfoldable pub published_jwks : RuntimeConfig → JwksDocument → Result JwksDocument BootstrapError
  published_jwks config signer_jwks =
      map_ok (λ keys. record { keys = keys })
        (with_extra signer_jwks.keys config.allow_insecure_jwks config.obo_sts_extra_jwks_file)
