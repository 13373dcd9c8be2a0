-- ===== src/Dpop/Validated.antt =====
-- What the acceptance of a DPoP proof guarantees, and that it is accepted once.
use sts_delegate_rs.Prelude.{
  ℤ, pos, ◌≤◌, String, ◌≡◌, sym, text_eq, ap, ◌∙◌, true, false, Option, none, some, ok, any, member,
  after_ok, after_refuse_if, ok_or-eq-ok, true_of_not, ltb, max_ℤ, pos_part, abs_diff,
  saturating_add, utf8_length, arith, eq_iff,
}
use sts_delegate_rs.Dpop.Uri.{IsCanonical, canonical_htu-IsCanonical}
use sts_delegate_rs.Json.{Json, Members, as_object, and_as_str, get, contains_key}
use sts_delegate_rs.Dpop.{
  KeyFamily, rsa, elliptic_curve, octet_key_pair, octet_key, rs256, rs384, rs512, ps256, ps384,
  ps512, es256, es384, ed_dsa, names_other_alg, DpopProofRequest, DpopBinding, VerifiedDpopClaims,
  Algorithm, Backend, max_dpop_proof_len, max_dpop_jti_len, dpop_typ, dpop_signing_algs_supported,
  private_jwk_members, is_text, check_proof_input, compact_parts, decode_json_part,
  required_string_claim, validate_jti, validate_htm, validate_iat, validate_header,
  ensure_asymmetric_key_matches_alg, verify_proof_signature, canonical_htu, validate_htu,
  validate_dpop_proof, value_to_i64, non_empty_string,
}

validate_iat-window :
    (value : Option Json) (now leeway iat : ℤ)
    → validate_iat value now leeway ≡ ok iat
    → abs_diff now iat ≤ pos_part (max_ℤ leeway (pos 0))
unfolding validate_iat
validate_iat-window value now leeway iat h = after_ok h λ v _ h₁. after_ok h₁ λ i _ h₂.
    after_refuse_if _ h₂ λ near h₃.
      let same : i ≡ iat = cc in
      let near' : ltb (pos_part (max_ℤ leeway (pos 0))) (abs_diff now iat) ≡ false =
        rw (sym same) near in
      ground (arith, near')

validate_iat-time :
    (value : Option Json) (now leeway iat : ℤ)
    → validate_iat value now leeway ≡ ok iat
    → (time : Json) × (value ≡ some time) × (value_to_i64 time ≡ some iat)
unfolding validate_iat
validate_iat-time value now leeway iat h = after_ok h λ v has h₁. after_ok h₁ λ i read h₂.
    after_refuse_if _ h₂ λ _ h₃.
      let same : i ≡ iat = cc in (v, ok_or-eq-ok _ _ has, ok_or-eq-ok _ _ read ∙ ap some same)

validate_jti-bound :
    (text jti : String)
    → validate_jti text ≡ ok jti
    → (text ≡ jti) × (utf8_length jti ≤ max_dpop_jti_len)
unfolding validate_jti
validate_jti-bound text jti h = ground (arith, h)

non_empty-text :
    (o : Option String) (text : String) → non_empty_string o ≡ some text → o ≡ some text
non_empty-text none text h = cc
non_empty-text (some s) text h = ground (arith, h)

required_string_claim-text :
    (value : Option Json) (claim text : String)
    → required_string_claim value claim ≡ ok text
    → and_as_str value ≡ some text
unfolding required_string_claim
required_string_claim-text value claim text h =
    non_empty-text (and_as_str value) text (ok_or-eq-ok _ _ h)

validate_htm-same : (claim_htm htm : String) → validate_htm claim_htm htm ≡ ok tt → claim_htm ≡ htm
unfolding validate_htm
validate_htm-same claim_htm htm h = ground (arith, h, eq_iff claim_htm htm)

check_proof_input-bound :
    (input : DpopProofRequest)
    → check_proof_input input ≡ ok tt
    → utf8_length input.proof ≤ max_dpop_proof_len
unfolding check_proof_input
check_proof_input-bound input h = ground (arith, h)

-- The family of keys that an algorithm signs with: RSA for RS and PS, elliptic curves for ES256 and ES384,
-- octet key pairs for EdDSA, and no public key for HS.
abbrev pub family_of : Algorithm → Option KeyFamily
family_of rs256 = some rsa
family_of rs384 = some rsa
family_of rs512 = some rsa
family_of ps256 = some rsa
family_of ps384 = some rsa
family_of ps512 = some rsa
family_of es256 = some elliptic_curve
family_of es384 = some elliptic_curve
family_of ed_dsa = some octet_key_pair
family_of _ = none

ensure_asymmetric_key_matches_alg-family_of :
    (family : KeyFamily) (alg : Algorithm)
    → ensure_asymmetric_key_matches_alg family alg ≡ ok tt
    → family_of alg ≡ some family
unfolding ensure_asymmetric_key_matches_alg
ensure_asymmetric_key_matches_alg-family_of rsa alg h = ground (arith, h)
ensure_asymmetric_key_matches_alg-family_of elliptic_curve alg h = ground (arith, h)
ensure_asymmetric_key_matches_alg-family_of octet_key_pair alg h = ground (arith, h)
ensure_asymmetric_key_matches_alg-family_of octet_key alg h = ground (arith, h)

-- The key names no other algorithm.
names_other_alg-same :
    (own : Option String) (alg_name text : String)
    → names_other_alg own alg_name ≡ false
    → own ≡ some text
    → text ≡ alg_name
names_other_alg-same none alg_name text h e = cc
names_other_alg-same (some other) alg_name text h e =
    let same : other ≡ text = cc in
    sym same ∙ (eq_iff other alg_name).0 (true_of_not (text_eq other alg_name) h)

module _ {Jwk Key : Type 0} (backend : Backend Jwk Key) where
  -- A header that the verifier takes: it has the DPoP type, an asymmetric algorithm of the list, and
  -- a public key without a private member, for that algorithm.
  pub record IsDpopHeader (header : Json) (alg : Algorithm) (jwk : Jwk) : Type 0 where
    pub members : Members
    pub is_object : as_object header ≡ some members
    pub typ : is_text (and_as_str (get "typ" members)) dpop_typ ≡ true
    pub alg_name : String
    pub named : and_as_str (get "alg" members) ≡ some alg_name
    pub supported : member alg_name dpop_signing_algs_supported ≡ true
    pub parsed : backend.algorithm_from_str alg_name ≡ some alg
    pub jwk_json : Json
    pub jwk_members : Members
    pub carried : get "jwk" members ≡ some jwk_json
    pub jwk_is_object : as_object jwk_json ≡ some jwk_members
    pub public_only : any (λ name. contains_key name jwk_members) private_jwk_members ≡ false
    pub key : backend.jwk_from_json jwk_json ≡ some jwk
    pub own_alg : (text : String) → and_as_str (get "alg" jwk_members) ≡ some text → text ≡ alg_name
    pub compatible : family_of alg ≡ some (backend.family jwk)

  validate_header-IsDpopHeader :
      (header : Json) (alg : Algorithm) (jwk : Jwk)
      → validate_header backend header ≡ ok (alg, jwk)
      → IsDpopHeader header alg jwk
  unfolding validate_header
  validate_header-IsDpopHeader header alg jwk h = after_ok h λ members is_object h₁.
      after_refuse_if _ h₁ λ typ h₂. after_ok h₂ λ alg_name named h₃.
        after_refuse_if _ h₃ λ supported h₄. after_ok h₄ λ a parsed h₅.
          after_ok h₅ λ json carried h₆. after_ok h₆ λ jwk_members jwk_is_object h₇.
            after_refuse_if _ h₇ λ public_only h₈. after_refuse_if _ h₈ λ own h₉.
              after_ok h₉ λ k key h₁₀. after_ok h₁₀ λ _ compatible h₁₁.
                let same_alg : a ≡ alg = cc in
                let same_key : k ≡ jwk = cc in
                record {
                  members = members;
                  is_object = ok_or-eq-ok _ _ is_object;
                  typ = true_of_not _ typ;
                  alg_name = alg_name;
                  named = ok_or-eq-ok _ _ named;
                  supported = true_of_not _ supported;
                  parsed = ok_or-eq-ok _ _ parsed ∙ ap some same_alg;
                  jwk_json = json;
                  jwk_members = jwk_members;
                  carried = ok_or-eq-ok _ _ carried;
                  jwk_is_object = ok_or-eq-ok _ _ jwk_is_object;
                  public_only = public_only;
                  key = ok_or-eq-ok _ _ key ∙ ap some same_key;
                  own_alg = λ text.
                      names_other_alg-same (and_as_str (get "alg" jwk_members)) alg_name text own;
                  compatible =
                      ensure_asymmetric_key_matches_alg-family_of (backend.family jwk) alg
                        (rw (sym same_alg) (rw (sym same_key) compatible));
                }

  pub record IsValidated (input : DpopProofRequest) (binding : DpopBinding) : Type 0 where
    pub size : utf8_length input.proof ≤ max_dpop_proof_len
    pub parts : String × String × String
    pub has_parts : compact_parts input.proof ≡ ok parts
    pub header : Json
    pub has_header : decode_json_part backend parts.0 "header" ≡ ok header
    pub alg : Algorithm
    pub jwk : Jwk
    pub checked : validate_header backend header ≡ ok (alg, jwk)
    pub is_header : IsDpopHeader header alg jwk
    pub jkt : binding.jkt ≡ backend.thumbprint jwk
    pub key : Key
    pub claims : VerifiedDpopClaims
    pub made : backend.decoding_key jwk ≡ some key
    pub signed : backend.decode input.proof key alg ≡ some claims
    pub jti : and_as_str claims.jti ≡ some binding.jti
    pub jti_size : utf8_length binding.jti ≤ max_dpop_jti_len
    pub htm : and_as_str claims.htm ≡ some input.htm
    pub htu : String
    pub claimed_htu : and_as_str claims.htu ≡ some htu
    pub uri : String
    pub claimed_uri : IsCanonical backend htu uri
    pub request_uri : IsCanonical backend input.htu uri
    pub time : Json
    pub claimed_time : claims.iat ≡ some time
    pub iat : value_to_i64 time ≡ some binding.iat
    pub window : abs_diff input.now binding.iat ≤ pos_part (max_ℤ input.clock_skew_leeway (pos 0))
    pub held_until :
        binding.replay_expires_at
        ≡ saturating_add binding.iat (max_ℤ input.clock_skew_leeway (pos 0))

  validate_htu-same :
      (claim_htu htu : String)
      → validate_htu backend claim_htu htu ≡ ok tt
      → (uri : String) × (canonical_htu backend claim_htu ≡ some uri)
        × (canonical_htu backend htu ≡ some uri)
  unfolding validate_htu
  validate_htu-same claim_htu htu h = after_ok h λ claim claimed h₁. after_ok h₁ λ request asked h₂.
      after_refuse_if _ h₂ λ same _.
        let e : claim ≡ request = (eq_iff _ _).0 (true_of_not _ same) in
        (request, ok_or-eq-ok _ _ claimed ∙ ap some e, ok_or-eq-ok _ _ asked)

  verify_proof_signature-signed :
      (proof : String) (alg : Algorithm) (jwk : Jwk) (claims : VerifiedDpopClaims)
      → verify_proof_signature backend proof alg jwk ≡ ok claims
      → (key : Key) × (backend.decoding_key jwk ≡ some key)
        × (backend.decode proof key alg ≡ some claims)
  unfolding verify_proof_signature
  verify_proof_signature-signed proof alg jwk claims h =
      after_ok h λ key made h₁. (key, ok_or-eq-ok _ _ made, ok_or-eq-ok _ _ h₁)

  -- A proof is accepted only if its size is bounded, its header has the DPoP type, a listed algorithm and
  -- a public key of that algorithm's family, without private members and naming no other algorithm, its
  -- signature verifies under that key, its method is the request's, its URI and the request's have the same text of
  -- scheme, host, port and path, its time is within the
  -- leeway, and its `jti` is bounded; the binding has the key's thumbprint and is to be held until the
  -- proof's time plus the leeway.
  pub validate_dpop_proof-IsValidated :
      (input : DpopProofRequest) (binding : DpopBinding)
      → validate_dpop_proof backend input ≡ ok binding
      → IsValidated input binding
  unfolding validate_dpop_proof
  validate_dpop_proof-IsValidated input binding h = after_ok h λ _ sized h₁.
      after_ok h₁ λ parts has_parts h₂. after_ok h₂ λ header has_header h₃.
        after_ok h₃ λ alg_jwk checked h₄. after_ok h₄ λ claims signed h₅.
          after_ok h₅ λ jti_text has_jti h₆. after_ok h₆ λ jti short h₇.
            after_ok h₇ λ htm has_htm h₈. after_ok h₈ λ _ same_htm h₉.
              after_ok h₉ λ htu has_htu h₁₀. after_ok h₁₀ λ _ same_htu h₁₁.
                after_ok h₁₁ λ iat timely h₁₂.
                  let (time, claimed_time, read_time) =
                    validate_iat-time claims.iat input.now input.clock_skew_leeway iat timely in
                  let (key, made, verified) =
                    verify_proof_signature-signed input.proof alg_jwk.0 alg_jwk.1 claims signed in
                  let (jti_same, jti_size) = validate_jti-bound jti_text jti short in
                  let (uri, claimed_uri, request_uri) = validate_htu-same htu input.htu same_htu in
                  let e_jti : jti ≡ binding.jti = cc in
                  let e_iat : iat ≡ binding.iat = cc in
                  record {
                    size = check_proof_input-bound input sized;
                    parts = parts;
                    has_parts = has_parts;
                    header = header;
                    has_header = has_header;
                    checked = checked;
                    alg = alg_jwk.0;
                    jwk = alg_jwk.1;
                    is_header = validate_header-IsDpopHeader header alg_jwk.0 alg_jwk.1 checked;
                    jkt = cc;
                    key = key;
                    claims = claims;
                    made = made;
                    signed = verified;
                    jti =
                        required_string_claim-text claims.jti "jti" jti_text has_jti
                        ∙ ap some (jti_same ∙ e_jti);
                    jti_size = rw (sym e_jti) jti_size;
                    htm =
                        required_string_claim-text claims.htm "htm" htm has_htm
                        ∙ ap some (validate_htm-same htm input.htm same_htm);
                    htu = htu;
                    claimed_htu = required_string_claim-text claims.htu "htu" htu has_htu;
                    uri = uri;
                    claimed_uri = canonical_htu-IsCanonical backend htu uri claimed_uri;
                    request_uri = canonical_htu-IsCanonical backend input.htu uri request_uri;
                    time = time;
                    claimed_time = claimed_time;
                    iat = read_time ∙ ap some e_iat;
                    window = rw (sym e_iat) (
                        validate_iat-window claims.iat input.now input.clock_skew_leeway iat
                          timely);
                    held_until = cc;
                  }
