-- ===== src/Jose.antt =====
-- crates/sts-jose/src/lib.rs: keys, headers and algorithms of compact JWS tokens. The verification is
-- in the modules below.
pub mod Keys
pub mod Verify
pub mod Signer
pub mod Sample
mod Tests
use Prim.Native.String.{[] as no_text, ◌∷◌ as push_char}
use Prim.Native.Char.{Char, code}
use sts_delegate_rs.Prelude.{
  ℕ, String, Bool, true, false, ◌||◌, Option, none, some, List, [], ◌∷◌, Result, ok, err,
  if◌then◌else◌, text_eq, trim, starts_with, split,
}

pub data JoseErrorKind : Type 0 where
  invalid_key unsupported_algorithm invalid_claims verification_failed invalid_compact_jws :
      JoseErrorKind

pub record JoseError : Type 0 where
  pub kind : JoseErrorKind
  pub message : String

abbrev pub jose_error : JoseErrorKind → String → JoseError
jose_error kind message = record { kind = kind; message = message }

-- The `Display` text of an error kind.
unfoldable pub jose_error_code : JoseErrorKind → String
jose_error_code invalid_key = "invalid_key"
jose_error_code unsupported_algorithm = "unsupported_algorithm"
jose_error_code invalid_claims = "invalid_claims"
jose_error_code verification_failed = "verification_failed"
jose_error_code invalid_compact_jws = "invalid_compact_jws"

pub record PublicJwk : Type 0 where
  pub kty : String
  pub kid : String
  pub use_ : String
  pub alg : String
  pub n : Option String
  pub e : Option String
  pub pub_ : Option String

pub record JwksDocument : Type 0 where
  pub keys : List PublicJwk

pub record CompactJwsHeader : Type 0 where
  pub alg : String
  pub kid : Option String
  pub typ : Option String

pub record VerifiedJws (T : Type 0) : Type 0 where
  pub claims : T
  pub alg : String
  pub kid : String
  pub typ : Option String

pub data MlDsaAlgorithm : Type 0 where
  ml_dsa_44 ml_dsa_65 ml_dsa_87 : MlDsaAlgorithm

abbrev pub jose_alg : MlDsaAlgorithm → String
jose_alg ml_dsa_44 = "ML-DSA-44"
jose_alg ml_dsa_65 = "ML-DSA-65"
jose_alg ml_dsa_87 = "ML-DSA-87"

unfoldable pub from_jose_alg : String → Option MlDsaAlgorithm
from_jose_alg value =
    if text_eq value "ML-DSA-44"
    then some ml_dsa_44
    else if text_eq value "ML-DSA-65"
    then some ml_dsa_65
    else if text_eq value "ML-DSA-87"
    then some ml_dsa_87
    else none

abbrev pub public_key_len : MlDsaAlgorithm → ℕ
public_key_len ml_dsa_44 = 1312
public_key_len ml_dsa_65 = 1952
public_key_len ml_dsa_87 = 2592

abbrev pub signature_len : MlDsaAlgorithm → ℕ
signature_len ml_dsa_44 = 2420
signature_len ml_dsa_65 = 3309
signature_len ml_dsa_87 = 4627

-- The derived equality.
abbrev pub algorithm_eq : MlDsaAlgorithm → MlDsaAlgorithm → Bool
algorithm_eq ml_dsa_44 ml_dsa_44 = true
algorithm_eq ml_dsa_65 ml_dsa_65 = true
algorithm_eq ml_dsa_87 ml_dsa_87 = true
algorithm_eq _ _ = false

-- The three segments of a compact JWS: exactly two dots.
abbrev pub three_parts : List String → Result (String × String × String) JoseError
three_parts (header ∷ payload ∷ signature ∷ []) = ok (header, payload, signature)
three_parts (header ∷ payload ∷ signature ∷ _ ∷ _) =
    err (jose_error invalid_compact_jws "compact JWS must have exactly three parts")
three_parts _ = err (jose_error invalid_compact_jws "compact JWS must have three parts")

unfoldable pub parse_compact_jws : String → Result (String × String × String) JoseError
parse_compact_jws token = three_parts (split b'.' token)
