-- ===== src/Http/Startup/Published.antt =====
-- The keys that crates/sts-http/src/lib.rs reads from a file and publishes.
use sts_delegate_rs.Prelude.{
  String, Bool, true, ◌||◌, ◌≡◌, refl, sym, ap, ◌∙◌, subst, inl, inr, Option, none, some, List, [],
  ◌∷◌, ◌++◌, ok, after_map_ok, any, find, text_eq, arith, eq_iff, Bool-cases,
}
use sts_delegate_rs.Jose.{PublicJwk, JwksDocument}
use sts_delegate_rs.Config.Source.{or_else}
use sts_delegate_rs.Config.Load.{RuntimeConfig}
use sts_delegate_rs.Http.Startup.Loaded.{IsTrustedFile, load_public_jwks_file-IsTrustedFile}
use sts_delegate_rs.Http.Startup.{
  Machine, add_extra, load_public_jwks_file, with_extra, published_jwks,
}

-- The first key with a `kid`, as verification selects it.
abbrev pub find_key : String → List PublicJwk → Option PublicJwk
find_key kid keys = find (λ key. text_eq key.kid kid) keys

pub find_key-append :
    (kid : String) (xs ys : List PublicJwk)
    → find_key kid (xs ++ ys) ≡ or_else (find_key kid xs) (find_key kid ys)
find_key-append kid [] ys = refl
find_key-append kid (x ∷ xs) ys = ground (arith, find_key-append kid xs ys)

abbrev has_kid : String → List PublicJwk → Bool
has_kid kid keys = any (λ existing. text_eq existing.kid kid) keys

find_key_known :
    (kid : String) (keys : List PublicJwk) (other : Option PublicJwk)
    → has_kid kid keys ≡ true
    → or_else (find_key kid keys) other ≡ find_key kid keys
find_key_known kid [] other h = cc
find_key_known kid (x ∷ xs) other h = ground (arith, find_key_known kid xs other)

pub or_else-none : (o : Option PublicJwk) → or_else o none ≡ o
or_else-none none = refl
or_else-none (some key) = refl

or_else_assoc : (a b c : Option PublicJwk) → or_else (or_else a b) c ≡ or_else a (or_else b c)
or_else_assoc none b c = refl
or_else_assoc (some key) b c = refl

-- What a skipped key adds, and what an added one does.
skipped_key :
    (kid : String) (published extra : List PublicJwk) (key : PublicJwk)
    → has_kid key.kid published ≡ true
    → or_else (find_key kid published) (find_key kid extra)
      ≡ or_else (find_key kid published) (find_key kid (key ∷ extra))
skipped_key kid published extra key known = elim (Bool-cases (text_eq key.kid kid)) [
  | inl same ↦
      let here : has_kid kid published ≡ true =
        subst (λ k. has_kid k published ≡ true) ((eq_iff key.kid kid).0 same) known in
      find_key_known kid published _ here ∙ sym (find_key_known kid published _ here)
  | inr other ↦ rw other refl
]

added_key :
    (kid : String) (published extra : List PublicJwk) (key : PublicJwk)
    → or_else (find_key kid (published ++ (key ∷ []))) (find_key kid extra)
      ≡ or_else (find_key kid published) (find_key kid (key ∷ extra))
added_key kid published extra key =
    ap (λ o. or_else o (find_key kid extra)) (find_key-append kid published (key ∷ []))
    ∙ or_else_assoc (find_key kid published) _ _
    ∙ ap (or_else (find_key kid published)) (ground arith)

-- A kid resolves to the signer's key, and to an extra key only where the signer has none of that kid.
pub find_key-add_extra :
    (kid : String) (published extra : List PublicJwk)
    → find_key kid (add_extra published extra)
      ≡ or_else (find_key kid published) (find_key kid extra)
unfolding add_extra
find_key-add_extra kid published [] = sym (or_else-none (find_key kid published))
find_key-add_extra kid published (key ∷ extra) = elim (Bool-cases (has_kid key.kid published)) [
  | inl known ↦
      rw known (find_key-add_extra kid published extra ∙ skipped_key kid published extra key known)
  | inr new ↦
      rw new
        (find_key-add_extra kid (published ++ (key ∷ [])) extra ∙ added_key kid published extra key)
]

any-append :
    (p : PublicJwk → Bool) (xs : List PublicJwk) (y : PublicJwk)
    → any p (xs ++ (y ∷ [])) ≡ (any p xs || p y)
any-append p [] y = ground arith
any-append p (x ∷ xs) y = ground (arith, any-append p xs y)

-- Nothing is published but the signer's keys and the extra ones.
any-add_extra :
    (p : PublicJwk → Bool) (published extra : List PublicJwk)
    → any p (add_extra published extra) ≡ true
    → (any p published || any p extra) ≡ true
unfolding add_extra
any-add_extra p published [] h = ground arith
any-add_extra p published (key ∷ extra) h = elim (Bool-cases (has_kid key.kid published)) [
  | inl known ↦ ground (arith, any-add_extra p published extra (rw known at h))
  | inr new ↦ ground (
    arith,
    any-add_extra p (published ++ (key ∷ [])) extra (rw new at h),
    any-append p published key,
  )
]

module _ (machine : Machine) where
  -- The extra keys that a configuration names.
  abbrev pub Extra : Option String → Bool → List PublicJwk → Type 0
  Extra none allow extra = extra ≡ []
  Extra (some path) allow extra = IsTrustedFile machine path allow extra

  -- What is published, of the signer's keys and of extra ones.
  pub record IsPublished (config : RuntimeConfig) (signer document : JwksDocument) : Type 0 where
    pub extra : List PublicJwk
    pub from_file : Extra config.obo_sts_extra_jwks_file config.allow_insecure_jwks extra
    pub resolves :
        (kid : String)
        → find_key kid document.keys ≡ or_else (find_key kid signer.keys) (find_key kid extra)
    pub nothing_else :
        (p : PublicJwk → Bool)
        → any p document.keys ≡ true
        → (any p signer.keys || any p extra) ≡ true

  with_extra_lem :
      (published : List PublicJwk) (allow : Bool) (file : Option String) (keys : List PublicJwk)
      → with_extra machine published allow file ≡ ok keys
      → (extra : List PublicJwk) × (add_extra published extra ≡ keys) × Extra file allow extra
  with_extra_lem published allow none keys h = ([], unfold add_extra in cc, refl)
  with_extra_lem published allow (some path) keys h =
      after_map_ok _ (load_public_jwks_file machine path "extra STS JWKS" allow) h
        λ extra loaded same.
          (extra.keys, same, load_public_jwks_file-IsTrustedFile machine path _ allow extra loaded)

  -- Keys are published only if the configured extra file, if any, is not writable by its group or by others or that is allowed,
  -- and each of its entries is a valid public key without a private part, of at least 2048 bits where it is an
  -- RSA key. A kid then resolves to the signer's key, and to an extra key only where the signer has none of
  -- that kid; no other key is published.
  pub published_jwks-IsPublished :
      (config : RuntimeConfig) (signer document : JwksDocument)
      → published_jwks machine config signer ≡ ok document
      → IsPublished config signer document
  unfolding published_jwks
  published_jwks-IsPublished config signer document h =
      after_map_ok (λ keys. record { keys = keys })
        (with_extra machine signer.keys config.allow_insecure_jwks config.obo_sts_extra_jwks_file) h
        λ keys made same.
          let (extra, added, from_file) = with_extra_lem signer.keys _ _ keys made in
          subst (IsPublished config signer) same (record {
            extra = extra;
            from_file = from_file;
            resolves = λ kid.
                subst
                  (λ ks. find_key kid ks ≡ or_else (find_key kid signer.keys) (find_key kid extra))
                  added (find_key-add_extra kid signer.keys extra);
            nothing_else = λ p k.
                any-add_extra p signer.keys extra (subst (λ ks. any p ks ≡ true) (sym added) k);
          })
