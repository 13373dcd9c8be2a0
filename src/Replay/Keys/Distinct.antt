-- ===== src/Replay/Keys/Distinct.antt =====
-- Different holders and different proofs have different replay keys.
use Prim.Native.Char.{Char, code, nul}
use text.Mathlib.TextLemmas.{
  append_cancel_left, cons-eq-cons, cons≢nil, nil≢cons, nil-append, cons-append,
}
use sts_delegate_rs.Prelude.{
  ℕ, zero, suc, ◌-◌, ◌/◌, ◌%◌, ◌<◌, String, ◌≡◌, refl, sym, ap, ◌∙◌, false, List, [], ◌∷◌, arith,
  All, any_char, leb, ◌==◌, if◌then◌else◌,
}
use sts_delegate_rs.Replay.Keys.{hex_digit, hex_lower, nul_separated, dpop_replay_key}

hex_value : Char → ℕ
hex_value c = if leb (code c) 57 then code c - 48 else code c - 87

hex_value_lem : (d : ℕ) → d < 16 → hex_value (hex_digit d) ≡ d
unfolding hex_digit hex_value
hex_value_lem zero h = refl
hex_value_lem (suc zero) h = refl
hex_value_lem (suc (suc zero)) h = refl
hex_value_lem (suc (suc (suc zero))) h = refl
hex_value_lem (suc (suc (suc (suc zero)))) h = refl
hex_value_lem (suc (suc (suc (suc (suc zero))))) h = refl
hex_value_lem (suc (suc (suc (suc (suc (suc zero)))))) h = refl
hex_value_lem (suc (suc (suc (suc (suc (suc (suc zero))))))) h = refl
hex_value_lem (suc (suc (suc (suc (suc (suc (suc (suc zero)))))))) h = refl
hex_value_lem (suc (suc (suc (suc (suc (suc (suc (suc (suc zero))))))))) h = refl
hex_value_lem (suc (suc (suc (suc (suc (suc (suc (suc (suc (suc zero)))))))))) h = refl
hex_value_lem (suc (suc (suc (suc (suc (suc (suc (suc (suc (suc (suc zero))))))))))) h = refl
hex_value_lem (suc (suc (suc (suc (suc (suc (suc (suc (suc (suc (suc (suc zero)))))))))))) h = refl
hex_value_lem (suc (suc (suc (suc (suc (suc (suc (suc (suc (suc (suc (suc (suc zero))))))))))))) h =
    refl
hex_value_lem
      (suc (suc (suc (suc (suc (suc (suc (suc (suc (suc (suc (suc (suc (suc zero)))))))))))))) h =
    refl
hex_value_lem
      (suc (suc (suc (suc (suc (suc (suc (suc (suc (suc (suc (suc (suc (suc (suc zero)))))))))))))))
      h =
    refl
hex_value_lem
      (suc
        (suc (suc (suc (suc (suc (suc (suc (suc (suc (suc (suc (suc (suc (suc (suc n))))))))))))))))
      h =
    absurd (omega arith)

hex_digit_injective : (d e : ℕ) → d < 16 → e < 16 → hex_digit d ≡ hex_digit e → d ≡ e
hex_digit_injective d e h k same = sym (hex_value_lem d h) ∙ (ap hex_value same ∙ hex_value_lem e k)

abbrev pub IsByte : ℕ → Type 0
IsByte b = b < 256

-- The hexadecimal text determines the bytes.
pub hex_lower_injective :
    (xs ys : List ℕ) → All IsByte xs → All IsByte ys → hex_lower xs ≡ hex_lower ys → xs ≡ ys
unfolding hex_lower
hex_lower_injective [] [] h k e = refl
hex_lower_injective [] (y ∷ ys) h k e = absurd (nil≢cons e)
hex_lower_injective (x ∷ xs) [] h k e = absurd (cons≢nil e)
hex_lower_injective (x ∷ xs) (y ∷ ys) (p, h) (q, k) e =
    let (high, e₁) = cons-eq-cons.0 e in
    let (low, e₂) = cons-eq-cons.0 e₁ in
    let a = hex_digit_injective (x / 16) (y / 16) (omega arith) (omega arith) high in
    let b = hex_digit_injective (x % 16) (y % 16) (omega arith) (omega arith) low in
    let same : x ≡ y = omega arith in cc (hex_lower_injective xs ys h k e₂)

abbrev pub HasNoNul : String → Type 0
HasNoNul s = any_char (λ c. c == 0) s ≡ false

nul_first : (d : Char) (s : String) → d ≡ nul → HasNoNul (String.◌∷◌ d s) → ⊥
nul_first d s e h = let z : code d ≡ 0 = ap code e in ground arith

later : (c : Char) (s : String) → HasNoNul (String.◌∷◌ c s) → HasNoNul s
later c s h = ground arith

nul_separated_injective :
    (s s' t t' : String)
    → HasNoNul s
    → HasNoNul s'
    → nul_separated s t ≡ nul_separated s' t'
    → (s ≡ s') × (t ≡ t')
nul_separated_injective String.[] String.[] t t' h k e =
    let e' : String.◌∷◌ nul t ≡ String.◌∷◌ nul t' = sym (nil-append _) ∙ (e ∙ nil-append _) in
    (refl, (cons-eq-cons.0 e').1)
nul_separated_injective String.[] (String.◌∷◌ d s') t t' h k e =
    let e' : String.◌∷◌ nul t ≡ String.◌∷◌ d (nul_separated s' t') =
      sym (nil-append _) ∙ (e ∙ cons-append _ _ _) in
    absurd (nul_first d s' (sym (cons-eq-cons.0 e').0) k)
nul_separated_injective (String.◌∷◌ c s) String.[] t t' h k e =
    let e' : String.◌∷◌ c (nul_separated s t) ≡ String.◌∷◌ nul t' =
      sym (cons-append _ _ _) ∙ (e ∙ nil-append _) in
    absurd (nul_first c s (cons-eq-cons.0 e').0 h)
nul_separated_injective (String.◌∷◌ c s) (String.◌∷◌ d s') t t' h k e =
    let e' : String.◌∷◌ c (nul_separated s t) ≡ String.◌∷◌ d (nul_separated s' t') =
      sym (cons-append _ _ _) ∙ (e ∙ cons-append _ _ _) in
    let (head, tail) = cons-eq-cons.0 e' in
    let (same_s, same_t) = nul_separated_injective s s' t t' (later c s h) (later d s' k) tail in
    (cc, same_t)

module _ (sha256 : String → List ℕ) where
  -- SHA-256 yields bytes, and the two texts do not collide.
  pub record IsCollisionFree (s t : String) : Type 0 where
    pub bytes : (u : String) → All IsByte (sha256 u)
    pub apart : sha256 s ≡ sha256 t → s ≡ t

  -- Two DPoP replay keys are equal only for the same holder key and the same `jti`: the NUL between
  -- the two keeps them apart. The thumbprints hold no NUL, and SHA-256 does not collide on the two
  -- texts that are hashed.
  pub dpop_replay_key_injective :
      (jkt jkt' jti jti' : String)
      → HasNoNul jkt
      → HasNoNul jkt'
      → IsCollisionFree (nul_separated jkt jti) (nul_separated jkt' jti')
      → dpop_replay_key sha256 jkt jti ≡ dpop_replay_key sha256 jkt' jti'
      → (jkt ≡ jkt') × (jti ≡ jti')
  unfolding dpop_replay_key
  dpop_replay_key_injective jkt jkt' jti jti' h k free e =
      let same_hex = append_cancel_left "dpop:" _ _ e in
      let same_digest = hex_lower_injective _ _ (free.bytes _) (free.bytes _) same_hex in
      nul_separated_injective jkt jkt' jti jti' h k (free.apart same_digest)
