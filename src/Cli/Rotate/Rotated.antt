-- ===== src/Cli/Rotate/Rotated.antt =====
-- What a rotation of crates/sts-cli/src/main.rs means for the keys that the service publishes, as
-- `published_jwks` of crates/sts-http/src/lib.rs makes them of the signer's key and the extra ones.
use sts_delegate_rs.Prelude.{
  String, false, not, ◌&&◌, ◌||◌, ◌≡◌, refl, sym, ap, ◌∙◌, subst, ◌⊎◌, inl, inr, Option, none, some,
  List, [], ◌∷◌, Result, ok, err, after_ok, Result-cases, filter, if◌then◌else◌, text_eq, arith,
  eq_iff, Bool-cases,
}
use sts_delegate_rs.Jose.{PublicJwk, JwksDocument}
use sts_delegate_rs.Jose.Signer.{RsaBackend}
use sts_delegate_rs.Config.Source.{or_else}
use sts_delegate_rs.Http.Startup.{add_extra}
use sts_delegate_rs.Http.Startup.Published.{
  find_key, find_key-append, or_else-none, find_key-add_extra,
}
use sts_delegate_rs.Cli.{CliError}
use sts_delegate_rs.Cli.Inspect.{Codecs}
use sts_delegate_rs.Cli.Rotate.{
  KeyFiles, RotationCalls, Staging, stage, load_current_signing_key, load_existing_overlap, prepare,
  write_first, replace_keys,
}

-- The key that a kid resolves to, where the service signs with a key and has others as extra keys.
abbrev pub resolve : String → PublicJwk → List PublicJwk → Option PublicJwk
resolve kid signing extra = find_key kid (add_extra (signing ∷ []) extra)

resolve_lem :
    (kid : String) (signing : PublicJwk) (extra : List PublicJwk)
    → resolve kid signing extra
      ≡ (if text_eq signing.kid kid then some signing else find_key kid extra)
resolve_lem kid signing extra = find_key-add_extra kid (signing ∷ []) extra ∙ ground arith

find_key-filter :
    (kid a b : String) (keys : List PublicJwk)
    → find_key kid (filter (λ key. not (text_eq key.kid a) && not (text_eq key.kid b)) keys)
      ≡ (if text_eq a kid || text_eq b kid then none else find_key kid keys)
find_key-filter kid a b [] = ground arith
find_key-filter kid a b (key ∷ keys) = ground (
  arith,
  find_key-filter kid a b keys,
  eq_iff key.kid kid,
  eq_iff key.kid a,
  eq_iff key.kid b,
  eq_iff a kid,
  eq_iff b kid,
)

-- The staged keys, of a kid that is not the new one.
find_key-stage :
    (kid : String) (current generated : PublicJwk) (overlap : List PublicJwk)
    → text_eq generated.kid kid ≡ false
    → find_key kid (stage current generated overlap)
      ≡ (if text_eq current.kid kid then some current else find_key kid overlap)
unfolding stage
find_key-stage kid current generated overlap other =
    find_key-append kid
      (filter (λ key. not (text_eq key.kid current.kid) && not (text_eq key.kid generated.kid))
        overlap)
      (current ∷ [])
    ∙ ap (λ o. or_else o (find_key kid (current ∷ [])))
        (find_key-filter kid current.kid generated.kid overlap)
    ∙ ground (arith, other, or_else-none (find_key kid overlap))

staged_resolves :
    (kid : String) (current generated : PublicJwk) (overlap : List PublicJwk)
    → resolve kid generated (stage current generated overlap)
      ≡ (if text_eq generated.kid kid then some generated else resolve kid current overlap)
staged_resolves kid current generated overlap =
    resolve_lem kid generated (stage current generated overlap)
    ∙ elim (Bool-cases (text_eq generated.kid kid)) [
      | inl new ↦ rw new refl
      | inr other ↦ rw other (
          find_key-stage kid current generated overlap other
          ∙ sym (resolve_lem kid current overlap))
    ]

interrupted_resolves :
    (kid : String) (current generated : PublicJwk) (overlap : List PublicJwk)
    → text_eq generated.kid kid ≡ false
    → resolve kid current (stage current generated overlap) ≡ resolve kid current overlap
interrupted_resolves kid current generated overlap other =
    resolve_lem kid current (stage current generated overlap)
    ∙ (elim (Bool-cases (text_eq current.kid kid)) [
      | inl same ↦ rw same refl
      | inr old ↦ rw old (find_key-stage kid current generated overlap other ∙ rw old refl)
    ]
        ∙ sym (resolve_lem kid current overlap))

staging_injective : {a b : Staging} → ◌≡◌ {A = Result Staging CliError} (ok a) (ok b) → a ≡ b
staging_injective h = cc

module _ (codecs : Codecs) (backend : RsaBackend) (encode : JwksDocument → String)
    (path extra_path : String) where
  -- What a rotation starts from and what it stages.
  pub record IsPrepared (files : KeyFiles) (staging : Staging) : Type 0 where
    pub overlap : List PublicJwk
    pub signing :
        load_current_signing_key codecs backend encode path extra_path files ≡ ok staging.current
    pub retiring : load_existing_overlap codecs backend encode path extra_path files ≡ ok overlap
    pub staged : staging.staged.keys ≡ stage staging.current staging.generated.public_jwk overlap

  prepare-IsPrepared :
      (files : KeyFiles) (calls : RotationCalls) (staging : Staging)
      → prepare codecs backend encode path extra_path files calls ≡ ok staging
      → IsPrepared files staging
  unfolding prepare
  prepare-IsPrepared files calls staging h = after_ok h λ u locked h₁. after_ok h₁ λ current c h₂.
      after_ok h₂ λ generated g h₃. after_ok h₃ λ overlap o h₄.
        subst (IsPrepared files) (staging_injective h₄)
          (record { overlap = overlap; signing = c; retiring = o; staged = refl })

  -- Both files are replaced. The new kid resolves to the new key, and every other one as before.
  pub record IsRotated (files after : KeyFiles) (staging : Staging) : Type 0 where
    pub prepared : IsPrepared files staging
    pub key_written : after.key_file ≡ ok staging.generated.private_jwk_json
    pub extra_written : after.extra_file ≡ ok (some (encode staging.staged))
    pub resolves :
        (kid : String)
        → resolve kid staging.generated.public_jwk staging.staged.keys ≡ (
            if text_eq staging.generated.public_jwk.kid kid
            then some staging.generated.public_jwk
            else resolve kid staging.current prepared.overlap)

  -- The service still signs with the old key, and every kid but the one that was to be new resolves as before.
  pub record IsStaged (files after : KeyFiles) : Type 0 where
    pub staging : Staging
    pub prepared : IsPrepared files staging
    pub extra_written : after.extra_file ≡ ok (some (encode staging.staged))
    pub resolves :
        (kid : String)
        → text_eq staging.generated.public_jwk.kid kid ≡ false
        → resolve kid staging.current staging.staged.keys
          ≡ resolve kid staging.current prepared.overlap

  abbrev pub IsOutcome : KeyFiles → KeyFiles × Result Staging CliError → Type 0
  IsOutcome files (after, ok staging) = IsRotated files after staging
  IsOutcome files (after, err e) =
      (after.key_file ≡ files.key_file) × ((after ≡ files) ⊎ IsStaged files after)

  written_first :
      (files : KeyFiles) (staging : Staging) (first second : Result Unit CliError)
      → IsPrepared files staging
      → IsOutcome files
          (write_first codecs backend encode path extra_path files staging first second)
  written_first files staging (err e) second h = (refl, inl refl)
  written_first files staging (ok u) (err e) h = (
    refl,
    inr (record {
      staging = staging;
      prepared = h;
      extra_written = refl;
      resolves = λ kid other.
          ap (resolve kid staging.current) h.staged
          ∙ interrupted_resolves kid staging.current staging.generated.public_jwk h.overlap other;
    }),
  )
  written_first files staging (ok u) (ok v) h = record {
    prepared = h;
    key_written = refl;
    extra_written = refl;
    resolves = λ kid.
        ap (resolve kid staging.generated.public_jwk) h.staged
        ∙ staged_resolves kid staging.current staging.generated.public_jwk h.overlap;
  }

  -- After a rotation the new kid resolves to the new key, and every other one to the key that it resolved to
  -- before, the old signing key among them; the two files hold the new private key and the staged keys. A
  -- rotation that fails leaves the private key as it was, and either nothing is written, or only the staged
  -- keys are, under which every kid but the new key's resolves as before.
  pub replace_keys-IsOutcome :
      (files : KeyFiles) (calls : RotationCalls)
      → IsOutcome files (replace_keys codecs backend encode path extra_path files calls)
  unfolding replace_keys
  replace_keys-IsOutcome files calls =
      elim (Result-cases (prepare codecs backend encode path extra_path files calls)) [
        | inl (staging, same) ↦ rw same (
            written_first files staging calls.write_extra calls.write_key
              (prepare-IsPrepared files calls staging same))
        | inr (e, same) ↦ rw same (refl, inl refl)
      ]
