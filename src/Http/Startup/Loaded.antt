-- ===== src/Http/Startup/Loaded.antt =====
-- The keys that crates/sts-http/src/lib.rs reads from a file: each was an entry of it without a private part.
use sts_delegate_rs.Prelude.{
  ℕ, String, Bool, true, false, not, ◌&&◌, ◌≡◌, refl, subst, ◌⊎◌, inl, inr, ◌≤◌, Option, none, some,
  List, [], ◌∷◌, Result, ok, after_ok, after_map_ok, after_refuse_if, ok_or-eq-ok, map_err-eq-ok,
  refuse_if, filter, member, text_eq, arith, eq_iff, true_of_not, ltb,
}
use sts_delegate_rs.Json.{
  Json, Members, Items, no_items, item, object, array, as_object, get, contains_key,
}
use sts_delegate_rs.Jose.{PublicJwk, JwksDocument}
use sts_delegate_rs.Jose.Keys.{validate_public_jwk, rsa_public_key_bits_from_jwk}
use sts_delegate_rs.Http.Startup.{
  Machine, private_jwk_members, is_no_text, private_found, is_shared_writable, check_rsa_size,
  public_key, collect_keys, raw_keys, entries_of, normalize_public_jwks_value,
  load_public_jwks_file, read_checked_file, check_file_mode, check_mode, is_no_item,
}

-- One entry of a file and the key that is read from it: no member of a private key, a valid key, and an RSA
-- key of at least 2048 bits.
pub record IsPublicKey (machine : Machine) (source : Json) (key : PublicJwk) : Type 0 where
  pub entry : Members
  pub is_object : as_object source ≡ some entry
  pub public_only :
      (name : String) → member name private_jwk_members ≡ true → contains_key name entry ≡ false
  pub is_read : machine.jwk_from_value source ≡ ok key
  pub is_valid : validate_public_jwk machine.base64_decode key ≡ ok tt
  pub is_long :
      text_eq key.kty "RSA" ≡ true
      → (bits : ℕ) × (rsa_public_key_bits_from_jwk machine.base64_decode key ≡ ok bits)
        × (2048 ≤ bits)

-- The entries of a JWKS document: its array of keys, or the document itself where it has none.
abbrev pub Holds : Json → Items → Type 0
Holds (object entry) sources =
    (get "keys" entry ≡ some (array sources))
    ⊎ ((get "keys" entry ≡ none) × (sources ≡ item (object entry) no_items))
Holds _ sources = ⊥

-- The entries of a file and its keys, one by one.
abbrev pub AreRead : Machine → Items → List PublicJwk → Type 0
AreRead machine no_items [] = Unit
AreRead machine (item source rest) (key ∷ keys) =
    IsPublicKey machine source key × AreRead machine rest keys
AreRead machine _ _ = ⊥

filter_none :
    (p : String → Bool) (names : List String) (name : String)
    → is_no_text (filter p names) ≡ true
    → member name names ≡ true
    → p name ≡ false
filter_none p [] name h m = cc
filter_none p (x ∷ xs) name h m = ground (arith, eq_iff x name, filter_none p xs name)

refuse_if-passes : {E : Type 0} (why : E) (test : Bool) → refuse_if test why ≡ ok tt → test ≡ false
unfolding refuse_if
refuse_if-passes why true h = cc
refuse_if-passes why false h = refl

ge_of_not_ltb : (bits : ℕ) → ltb bits 2048 ≡ false → 2048 ≤ bits
ge_of_not_ltb bits h = ground arith

ok_injective : {E : Type 0} {a b : PublicJwk} → ◌≡◌ {A = Result PublicJwk E} (ok a) (ok b) → a ≡ b
ok_injective h = cc

document_injective :
    {E : Type 0} {a b : JwksDocument} → ◌≡◌ {A = Result JwksDocument E} (ok a) (ok b) → a ≡ b
document_injective h = cc

module _ (machine : Machine) where
  check_rsa_size_lem :
      (label : String) (key : PublicJwk)
      → check_rsa_size machine label key ≡ ok tt
      → text_eq key.kty "RSA" ≡ true
      → (bits : ℕ) × (rsa_public_key_bits_from_jwk machine.base64_decode key ≡ ok bits)
        × (2048 ≤ bits)
  unfolding check_rsa_size
  check_rsa_size_lem label key h rsa = after_ok (rw rsa at h) λ bits e h₁.
      (bits, map_err-eq-ok _ _ e, ge_of_not_ltb bits (refuse_if-passes _ (ltb bits 2048) h₁))

  public_key-IsPublicKey :
      (label : String) (source : Json) (key : PublicJwk)
      → public_key machine label source ≡ ok key
      → IsPublicKey machine source key
  unfolding public_key private_found
  public_key-IsPublicKey label source key h = after_ok h λ entry is_object h₁.
      after_refuse_if _ h₁ λ none_found h₂. after_ok h₂ λ jwk read h₃. after_ok h₃ λ u valid h₄.
        after_ok h₄ λ v size h₅. subst (IsPublicKey machine source) (ok_injective h₅) (record {
          entry = entry;
          is_object = ok_or-eq-ok _ _ is_object;
          public_only = λ name.
              filter_none (λ k. contains_key k entry) private_jwk_members name
                (true_of_not _ none_found);
          is_read = map_err-eq-ok _ _ read;
          is_valid = map_err-eq-ok _ _ valid;
          is_long = check_rsa_size_lem label jwk size;
        })

  collect_keys-AreRead :
      (label : String) (sources : Items) (keys : List PublicJwk)
      → collect_keys machine label sources ≡ ok keys
      → AreRead machine sources keys
  unfolding collect_keys
  collect_keys-AreRead label no_items keys h =
      let same : [] ≡ keys = cc in subst (AreRead machine no_items) same tt
  collect_keys-AreRead label (item source rest) keys h = after_ok h λ key e h₁.
      after_map_ok (λ later. key ∷ later) (collect_keys machine label rest) h₁
        λ later l same.
          subst (AreRead machine (item source rest)) same
            (public_key-IsPublicKey label source key e, collect_keys-AreRead label rest later l)

  entries_of-Holds :
      (label : String) (entry : Members) (keys : Option Json) (sources : Items)
      → get "keys" entry ≡ keys
      → entries_of machine label entry keys ≡ ok sources
      → Holds (object entry) sources
  entries_of-Holds label entry none sources e h =
      let same : item (object entry) no_items ≡ sources = cc in
      subst (Holds (object entry)) same (inr (e, refl))
  entries_of-Holds label entry (some (array keys)) sources e h =
      let same : keys ≡ sources = cc in subst (Holds (object entry)) same (inl e)
  entries_of-Holds label entry (some _) sources e h = cc

  raw_keys-Holds :
      (label : String) (value : Json) (sources : Items)
      → raw_keys machine label value ≡ ok sources
      → Holds value sources
  unfolding raw_keys
  raw_keys-Holds label (object entry) sources h =
      entries_of-Holds label entry (get "keys" entry) sources refl h
  raw_keys-Holds label _ sources h = cc

  check_mode_lem :
      (path label : String) (allow : Bool) (found : Option ℕ)
      → check_mode machine path label allow found ≡ ok tt
      → (mode : ℕ) → found ≡ some mode
      → is_shared_writable mode ≡ true
      → allow ≡ true
  check_mode_lem path label allow none h mode e w = cc
  check_mode_lem path label allow (some other) h mode e w =
      let same : other ≡ mode = cc in
      let passed = refuse_if-passes _ (is_shared_writable other && not allow) h in
      true_of_not allow (ground (arith, passed, rw (← same) at w))

  -- What `load_public_jwks_file` has checked of a file.
  pub record IsTrustedFile (path : String) (allow : Bool) (keys : List PublicJwk) : Type 0 where
    pub protected :
        (mode : ℕ) → machine.mode path ≡ some mode → is_shared_writable mode ≡ true → allow ≡ true
    pub raw : String
    pub is_file : machine.read_to_string path ≡ ok raw
    pub value : Json
    pub is_json : machine.from_str raw ≡ ok value
    pub sources : Items
    pub are_entries : Holds value sources
    pub some_entry : is_no_item machine sources ≡ false
    pub are_read : AreRead machine sources keys

  pub load_public_jwks_file-IsTrustedFile :
      (path label : String) (allow : Bool) (document : JwksDocument)
      → load_public_jwks_file machine path label allow ≡ ok document
      → IsTrustedFile path allow document.keys
  unfolding load_public_jwks_file read_checked_file check_file_mode normalize_public_jwks_value
  load_public_jwks_file-IsTrustedFile path label allow document h = after_ok h λ raw checked h₁.
      after_ok checked λ u mode is_file. after_ok h₁ λ value is_json h₂.
        after_ok h₂ λ sources held h₃. after_refuse_if _ h₃ λ some_entry h₄.
          after_ok h₄ λ keys read h₅.
            subst (λ d. IsTrustedFile path allow d.keys) (document_injective h₅)
              (record {
                protected = check_mode_lem path label allow (machine.mode path) mode;
                raw = raw;
                is_file = map_err-eq-ok _ _ is_file;
                value = value;
                is_json = map_err-eq-ok _ _ is_json;
                sources = sources;
                are_entries = raw_keys-Holds label value sources held;
                some_entry = some_entry;
                are_read = collect_keys-AreRead label sources keys read;
              })
