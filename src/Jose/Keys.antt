-- ===== src/Jose/Keys.antt =====
-- Public keys of crates/sts-jose/src/lib.rs. The crates that the code calls (base64, serde_json,
-- jsonwebtoken, OpenSSL) are parameters: an error of theirs is its `Display` text.
use sts_delegate_rs.Prelude.{
  ℕ, pos, String, Bool, true, false, not, ◌||◌, Option, none, some, List, [], ◌∷◌, Result, ok, err,
  ◌>>=◌, ◌>>◌, refuse_if, ok_or, map_err, map_ok, if◌then◌else◌, ◌==◌, leb, ◌+◌, ◌-◌, ◌*◌, length,
  text_eq, ◌⧺◌,
}
use sts_delegate_rs.Prelude.Text.Decimal.{show_i64}
use sts_delegate_rs.Jose.{
  JoseError, jose_error, invalid_key, PublicJwk, MlDsaAlgorithm, from_jose_alg, jose_alg,
  public_key_len,
}

pub record DecodedRsaPublicKey : Type 0 where
  pub n : List ℕ
  pub e : List ℕ

pub record DecodedAkpPublicKey : Type 0 where
  pub algorithm : MlDsaAlgorithm
  pub public_key : List ℕ

abbrev pub is_empty_bytes : List ℕ → Bool
is_empty_bytes [] = true
is_empty_bytes (b ∷ bs) = false

abbrev pub starts_with_zero : List ℕ → Bool
starts_with_zero [] = false
starts_with_zero (b ∷ bs) = b == 0

abbrev pub is_some : Option String → Bool
is_some none = false
is_some (some _) = true

unfoldable pub validate_public_components : List ℕ → List ℕ → Result Unit JoseError
validate_public_components n e =
    refuse_if (is_empty_bytes n || is_empty_bytes e)
      (jose_error invalid_key "RSA public key components must be non-empty")
    >> refuse_if (starts_with_zero n || starts_with_zero e)
        (jose_error invalid_key "RSA public key components must use minimal unsigned encoding")

-- `u8::leading_zeros`.
abbrev pub leading_zeros : ℕ → ℕ
leading_zeros b =
    if leb 128 b
    then 0
    else if leb 64 b
    then 1
    else if leb 32 b
    then 2
    else if leb 16 b
    then 3
    else if leb 8 b
    then 4
    else if leb 4 b
    then 5
    else if leb 2 b
    then 6
    else if leb 1 b
    then 7
    else 8

unfoldable pub rsa_modulus_bits : List ℕ → ℕ
rsa_modulus_bits [] = 0
rsa_modulus_bits (b ∷ bs) =
    let rest = rsa_modulus_bits bs in if b == 0 then rest else length bs * 8 + (8 - leading_zeros b)

module _ (base64_decode : String → Result (List ℕ) String) where
  unfoldable pub decode_jwk_octets : String → String → Result (List ℕ) JoseError
  decode_jwk_octets label value =
      map_err (λ e. jose_error invalid_key ("invalid " ⧺ label ⧺ " encoding: " ⧺ e))
        (base64_decode value)

  unfoldable pub decode_jwk_component : String → String → Result (List ℕ) JoseError
  decode_jwk_component name value = do
    bytes ← decode_jwk_octets ("RSA JWK " ⧺ name) value
    refuse_if (is_empty_bytes bytes)
        (jose_error invalid_key ("invalid RSA JWK " ⧺ name ⧺ ": empty unsigned integer"))
    ok bytes

  unfoldable pub rsa_public_key_from_jwk : PublicJwk → Result DecodedRsaPublicKey JoseError
  rsa_public_key_from_jwk jwk = do
    refuse_if (not (text_eq jwk.kty "RSA"))
        (jose_error invalid_key ("unsupported JWK key type " ⧺ jwk.kty))
    refuse_if (not (text_eq jwk.alg "RS256"))
        (jose_error invalid_key ("RSA JWK alg must be RS256, got " ⧺ jwk.alg))
    n_text ← ok_or jwk.n (jose_error invalid_key "RSA public JWK missing n")
    n ← decode_jwk_component "n" n_text
    e_text ← ok_or jwk.e (jose_error invalid_key "RSA public JWK missing e")
    e ← decode_jwk_component "e" e_text
    validate_public_components n e
    ok (record { n = n; e = e })

  unfoldable pub rsa_public_key_bits_from_jwk : PublicJwk → Result ℕ JoseError
  rsa_public_key_bits_from_jwk jwk =
      map_ok (λ key. rsa_modulus_bits key.n) (rsa_public_key_from_jwk jwk)

  unfoldable pub akp_public_key_from_jwk : PublicJwk → Result DecodedAkpPublicKey JoseError
  akp_public_key_from_jwk jwk = do
    refuse_if (not (text_eq jwk.kty "AKP"))
        (jose_error invalid_key ("unsupported JWK key type " ⧺ jwk.kty))
    algorithm ←
        ok_or (from_jose_alg jwk.alg) (jose_error invalid_key ("unsupported AKP alg " ⧺ jwk.alg))
    refuse_if (is_some jwk.n || is_some jwk.e)
        (jose_error invalid_key "AKP public JWK must not contain RSA n/e members")
    text ← ok_or jwk.pub_ (jose_error invalid_key "AKP public JWK missing pub")
    public_key ← decode_jwk_octets "AKP public JWK pub" text
    refuse_if (not (length public_key == public_key_len algorithm)) (
        jose_error invalid_key (
          "AKP public JWK pub length must be "
          ⧺ show_i64 (pos (public_key_len algorithm))
          ⧺ " bytes for "
          ⧺ jose_alg algorithm))
    ok (record { algorithm = algorithm; public_key = public_key })

  unfoldable pub validate_public_jwk : PublicJwk → Result Unit JoseError
  validate_public_jwk jwk =
      if not (text_eq jwk.use_ "sig")
      then err (jose_error invalid_key "public JWK use must be sig for token signing verification")
      else if text_eq jwk.kty "RSA"
      then map_ok (λ _. tt) (rsa_public_key_from_jwk jwk)
      else if text_eq jwk.kty "AKP"
      then map_ok (λ _. tt) (akp_public_key_from_jwk jwk)
      else err (jose_error invalid_key ("unsupported JWK key type " ⧺ jwk.kty))
