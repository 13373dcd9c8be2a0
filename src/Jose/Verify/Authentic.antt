-- ===== src/Jose/Verify/Authentic.antt =====
-- What an accepted token guarantees.
use sts_delegate_rs.Prelude.{
  ℕ, String, ◌≡◌, refl, sym, ap, subst, ◌∙◌, ◌⊎◌, inl, inr, true, Option, none, some, member, List,
  [], ◌∷◌, split, Result, ok, after_ok, after_refuse_if, ok_or-eq-ok, map_err-eq-ok, find, text_eq,
  ◌⧺◌, arith, eq_iff, Bool-cases, true_of_not,
}
use sts_delegate_rs.Jose.{
  PublicJwk, JwksDocument, CompactJwsHeader, VerifiedJws, MlDsaAlgorithm, from_jose_alg, jose_alg,
  algorithm_eq, ml_dsa_44, ml_dsa_65, ml_dsa_87, parse_compact_jws, three_parts,
}
use sts_delegate_rs.Jose.Keys.{
  decode_jwk_octets, rsa_public_key_from_jwk, akp_public_key_from_jwk, DecodedAkpPublicKey,
}
use sts_delegate_rs.Jose.Verify.{
  Backend, is_allowed, verify_by_alg, verify_claims_against_jwks_inner,
  verify_rs256_claims_against_jwk, verify_mldsa_claims_against_jwk, verify_mldsa_with_openssl,
  openssl_public_key_from_raw_bytes, decode_payload_claims, decode_compact_segment,
  decode_compact_jws_header,
}

from_jose_alg-jose_alg :
    (s : String) (a : MlDsaAlgorithm) → from_jose_alg s ≡ some a → s ≡ jose_alg a
unfolding from_jose_alg
from_jose_alg-jose_alg s ml_dsa_44 h = ground (arith, eq_iff s "ML-DSA-44")
from_jose_alg-jose_alg s ml_dsa_65 h = ground (arith, eq_iff s "ML-DSA-65")
from_jose_alg-jose_alg s ml_dsa_87 h = ground (arith, eq_iff s "ML-DSA-87")

algorithm_eq_sound : (a b : MlDsaAlgorithm) → algorithm_eq a b ≡ true → a ≡ b
algorithm_eq_sound ml_dsa_44 ml_dsa_44 h = refl
algorithm_eq_sound ml_dsa_65 ml_dsa_65 h = refl
algorithm_eq_sound ml_dsa_87 ml_dsa_87 h = refl
algorithm_eq_sound ml_dsa_44 ml_dsa_65 h = cc
algorithm_eq_sound ml_dsa_44 ml_dsa_87 h = cc
algorithm_eq_sound ml_dsa_65 ml_dsa_44 h = cc
algorithm_eq_sound ml_dsa_65 ml_dsa_87 h = cc
algorithm_eq_sound ml_dsa_87 ml_dsa_44 h = cc
algorithm_eq_sound ml_dsa_87 ml_dsa_65 h = cc

module _ (base64_decode : String → Result (List ℕ) String) (jwk : PublicJwk) where
  rsa_public_key-alg :
      (k : _)
      → rsa_public_key_from_jwk base64_decode jwk ≡ ok k
      → (jwk.kty ≡ "RSA") × (jwk.alg ≡ "RS256")
  unfolding rsa_public_key_from_jwk
  rsa_public_key-alg k h = after_refuse_if _ h λ kty h₁.
      after_refuse_if _ h₁
        λ alg h₂. ((eq_iff _ _).0 (true_of_not _ kty), (eq_iff _ _).0 (true_of_not _ alg))

  -- The key's bytes are those of the member `pub`.
  abbrev IsPublished : List ℕ → Type 0
  IsPublished bytes = (text : String) × (jwk.pub_ ≡ some text) × (base64_decode text ≡ ok bytes)

  akp_public_key-alg :
      (k : DecodedAkpPublicKey)
      → akp_public_key_from_jwk base64_decode jwk ≡ ok k
      → (jwk.kty ≡ "AKP") × (jwk.alg ≡ jose_alg k.algorithm) × IsPublished k.public_key
  unfolding akp_public_key_from_jwk decode_jwk_octets
  akp_public_key-alg k h = after_refuse_if _ h λ kty h₁. after_ok h₁ λ a found h₂.
      after_refuse_if _ h₂ λ _ h₃. after_ok h₃ λ text published h₄. after_ok h₄ λ bytes decoded h₅.
        after_refuse_if _ h₅ λ _ h₆.
          let same : a ≡ k.algorithm = cc in
          let same_bytes : bytes ≡ k.public_key = cc in
          (
            (eq_iff _ _).0 (true_of_not _ kty),
            from_jose_alg-jose_alg jwk.alg k.algorithm (ok_or-eq-ok _ _ found ∙ ap some same),
            (text, ok_or-eq-ok _ _ published, map_err-eq-ok _ _ decoded ∙ ap ok same_bytes),
          )

three_parts_lem :
    (ps : List String) (parts : String × String × String)
    → three_parts ps ≡ ok parts
    → ps ≡ parts.0 ∷ parts.1 ∷ parts.2 ∷ []
three_parts_lem [] parts h = cc
three_parts_lem (a ∷ []) parts h = cc
three_parts_lem (a ∷ b ∷ []) parts h = cc
three_parts_lem (a ∷ b ∷ c ∷ []) (x, y, z) h = cc
three_parts_lem (a ∷ b ∷ c ∷ e ∷ rest) parts h = cc

-- The caller's list has the algorithm, where the caller gives one.
abbrev pub IsAllowed : Option (List String) → String → Type 0
IsAllowed none alg = Unit
IsAllowed (some allowed_algs) alg = member alg allowed_algs ≡ true

module _ {T RsaKey MlDsaKey : Type 0} (backend : Backend T RsaKey MlDsaKey) where
  is_allowed-IsAllowed :
      (allowed_algs : Option (List String)) (alg : String)
      → is_allowed backend allowed_algs alg ≡ true
      → IsAllowed allowed_algs alg
  is_allowed-IsAllowed none alg h = tt
  is_allowed-IsAllowed (some algs) alg h = h

  -- jsonwebtoken verified the token under the RSA key of the JWK.
  pub record IsRs256Signed (token : String) (jwk : PublicJwk) (claims : T) : Type 0 where
    pub kty : jwk.kty ≡ "RSA"
    pub alg : jwk.alg ≡ "RS256"
    pub n : String
    pub e : String
    pub public_n : jwk.n ≡ some n
    pub public_e : jwk.e ≡ some e
    pub key : RsaKey
    pub made : backend.rsa_decoding_key n e ≡ ok key
    pub verified : backend.decode_rs256 token key ≡ ok claims

  -- OpenSSL verified the token's first two segments under the ML-DSA key of the JWK, and the claims
  -- are those of the second segment.
  pub record IsMlDsaSigned (token : String) (jwk : PublicJwk) (claims : T) : Type 0 where
    pub kty : jwk.kty ≡ "AKP"
    pub feature : backend.pqc ≡ true
    pub header : String
    pub payload : String
    pub signature : String
    pub segments : parse_compact_jws token ≡ ok (header, payload, signature)
    pub signature_bytes : List ℕ
    pub signed_by : backend.base64_decode signature ≡ ok signature_bytes
    pub algorithm : MlDsaAlgorithm
    pub alg : jwk.alg ≡ jose_alg algorithm
    pub public_key : List ℕ
    pub published : IsPublished backend.base64_decode jwk public_key
    pub key : MlDsaKey
    pub made : backend.mldsa_public_key algorithm public_key ≡ ok key
    pub verified : backend.mldsa_verify key signature_bytes (header ⧺ "." ⧺ payload) ≡ ok true
    pub payload_bytes : List ℕ
    pub decoded : backend.base64_decode payload ≡ ok payload_bytes
    pub read : backend.claims_from_json payload_bytes ≡ ok claims

  rs256-IsRs256Signed :
      (token : String) (jwk : PublicJwk) (claims : T)
      → verify_rs256_claims_against_jwk backend token jwk ≡ ok claims
      → IsRs256Signed token jwk claims
  unfolding verify_rs256_claims_against_jwk
  rs256-IsRs256Signed token jwk claims h = after_ok h λ k parsed h₁. after_ok h₁ λ n has_n h₂.
      after_ok h₂ λ e has_e h₃. after_ok h₃ λ key made h₄.
        let (kty, alg) = rsa_public_key-alg backend.base64_decode jwk k parsed in
        record {
          kty = kty;
          alg = alg;
          n = n;
          e = e;
          public_n = ok_or-eq-ok _ _ has_n;
          public_e = ok_or-eq-ok _ _ has_e;
          key = key;
          made = map_err-eq-ok _ _ made;
          verified = map_err-eq-ok _ _ h₄;
        }

  openssl-IsMlDsaSigned :
      (token : String) (jwk : PublicJwk) (alg : String) (claims : T)
      → backend.pqc ≡ true
      → verify_mldsa_with_openssl backend token jwk alg ≡ ok claims
      → (jwk.alg ≡ alg) × IsMlDsaSigned token jwk claims
  unfolding verify_mldsa_with_openssl decode_payload_claims decode_compact_segment
      openssl_public_key_from_raw_bytes
  openssl-IsMlDsaSigned token jwk alg claims on h = after_ok h λ a header_alg h₁.
      after_ok h₁ λ k parsed h₂. after_refuse_if _ h₂ λ same h₃. after_ok h₃ λ segs segments h₄.
        after_ok h₄ λ bytes signed_by h₅. after_refuse_if _ h₅ λ _ h₆. after_ok h₆ λ key made h₇.
          after_ok h₇ λ _ _ h₈. after_ok h₈ λ valid verified h₉.
            after_refuse_if _ h₉ λ is_valid h₁₀. after_ok h₁₀ λ payload_bytes decoded h₁₁.
              let (kty, key_alg, published) =
                akp_public_key-alg backend.base64_decode jwk k parsed in
              let same_alg = algorithm_eq_sound _ _ (true_of_not _ same) in
              let from_header = from_jose_alg-jose_alg alg a (ok_or-eq-ok _ _ header_alg) in
              (
                key_alg ∙ (ap jose_alg same_alg ∙ sym from_header),
                record {
                  kty = kty;
                  feature = on;
                  header = segs.0;
                  payload = segs.1;
                  signature = segs.2;
                  segments = segments;
                  signature_bytes = bytes;
                  signed_by = map_err-eq-ok _ _ signed_by;
                  algorithm = a;
                  alg = key_alg ∙ ap jose_alg same_alg;
                  public_key = k.public_key;
                  published = published;
                  key = key;
                  made = map_err-eq-ok _ _ made;
                  verified = map_err-eq-ok _ _ verified ∙ ap ok (true_of_not _ is_valid);
                  payload_bytes = payload_bytes;
                  decoded = map_err-eq-ok _ _ decoded;
                  read = map_err-eq-ok _ _ h₁₁;
                },
              )

  -- A token that the ML-DSA branch accepts carries the algorithm of its key.
  mldsa-IsMlDsaSigned :
      (token : String) (jwk : PublicJwk) (alg : String) (claims : T)
      → verify_mldsa_claims_against_jwk backend token jwk alg ≡ ok claims
      → (jwk.alg ≡ alg) × IsMlDsaSigned token jwk claims
  unfolding verify_mldsa_claims_against_jwk
  mldsa-IsMlDsaSigned token jwk alg claims h = elim (Bool-cases backend.pqc) [
    | inl on ↦ openssl-IsMlDsaSigned token jwk alg claims on (ground (arith, on, h))
    | inr off ↦ absurd (ground (arith, off))
  ]

  -- The header of a token of three segments, read from the first.
  pub record IsHeader (token : String) (header : CompactJwsHeader) : Type 0 where
    pub segment : String
    pub payload : String
    pub signature : String
    pub segments : split b'.' token ≡ segment ∷ payload ∷ signature ∷ []
    pub bytes : List ℕ
    pub decoded : backend.base64_decode segment ≡ ok bytes
    pub read : backend.header_from_json bytes ≡ ok header

  decode_compact_jws_header-IsHeader :
      (token : String) (header : CompactJwsHeader)
      → decode_compact_jws_header backend token ≡ ok header
      → IsHeader token header
  unfolding decode_compact_jws_header decode_compact_segment parse_compact_jws
  decode_compact_jws_header-IsHeader token header h = after_ok h λ parts three h₁.
      after_ok h₁ λ bytes decoded h₂. record {
        segment = parts.0;
        payload = parts.1;
        signature = parts.2;
        segments = three_parts_lem (split b'.' token) parts three;
        bytes = bytes;
        decoded = map_err-eq-ok _ _ decoded;
        read = map_err-eq-ok _ _ h₂;
      }

  -- What the acceptance of a token rests on: its `kid` selects a key of the JWKS, its algorithm is
  -- allowed and is the key's own, and its signature was verified under that key.
  pub record IsAuthentic (token : String) (jwks : JwksDocument)
      (allowed_algs : Option (List String)) (v : VerifiedJws T) : Type 0 where
    pub header : CompactJwsHeader
    pub is_header : IsHeader token header
    pub names_key : header.kid ≡ some v.kid
    pub names_alg : header.alg ≡ v.alg
    pub names_typ : header.typ ≡ v.typ
    pub jwk : PublicJwk
    pub selected : find (λ key. text_eq key.kid v.kid) jwks.keys ≡ some jwk
    pub allowed : IsAllowed allowed_algs v.alg
    pub own_alg : jwk.alg ≡ v.alg
    pub signed : IsRs256Signed token jwk v.claims ⊎ IsMlDsaSigned token jwk v.claims

  verify_by_alg-signed :
      (token : String) (jwk : PublicJwk) (alg : String) (claims : T)
      → verify_by_alg backend token jwk alg ≡ ok claims
      → (jwk.alg ≡ alg) × (IsRs256Signed token jwk claims ⊎ IsMlDsaSigned token jwk claims)
  unfolding verify_by_alg
  verify_by_alg-signed token jwk alg claims h = elim (Bool-cases (text_eq alg "RS256")) [
    | inl classical ↦
        let s = rs256-IsRs256Signed token jwk claims (rw classical at h) in
        (s.alg ∙ sym ((eq_iff _ _).0 classical), inl s)
    | inr other ↦
        let (same, s) = mldsa-IsMlDsaSigned token jwk alg claims (ground (arith, other, h)) in
        (same, inr s)
  ]

  -- A token is accepted only if it has three segments, the `kid` of the header in the first selects a key
  -- of the JWKS, the header's algorithm is allowed and is the one that the key is for, and the signature was
  -- verified under that key; the result names that `kid`, algorithm and type.
  pub verify_claims-IsAuthentic :
      (token : String) (jwks : JwksDocument) (allowed_algs : Option (List String))
      (v : VerifiedJws T)
      → verify_claims_against_jwks_inner backend token jwks allowed_algs ≡ ok v
      → IsAuthentic token jwks allowed_algs v
  unfolding verify_claims_against_jwks_inner
  verify_claims-IsAuthentic token jwks allowed_algs v h = after_ok h λ header decoded h₁.
      after_refuse_if _ h₁ λ allowed h₂. after_ok h₂ λ kid named h₃. after_ok h₃ λ jwk selected h₄.
        after_ok h₄ λ claims accepted h₅.
          let (own_alg, signed) = verify_by_alg-signed token jwk header.alg claims accepted in
          let e : record { claims = claims; alg = header.alg; kid = kid; typ = header.typ } ≡ v =
            cc in
          subst (IsAuthentic token jwks allowed_algs) e (record {
            header = header;
            is_header = decode_compact_jws_header-IsHeader token header decoded;
            names_key = ok_or-eq-ok _ _ named;
            names_alg = refl;
            names_typ = refl;
            jwk = jwk;
            selected = ok_or-eq-ok _ _ selected;
            allowed = is_allowed-IsAllowed allowed_algs header.alg (true_of_not _ allowed);
            own_alg = own_alg;
            signed = signed;
          })
