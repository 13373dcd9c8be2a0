-- ===== src/Config/Algs/Inbound.antt =====
-- What the accepted algorithms for inbound assertions are.
use sts_delegate_rs.Prelude.{
  String, ◌≡◌, refl, ◌∙◌, Bool, true, false, not, ◌&&◌, List, [], ◌∷◌, ok, after_ok,
  after_refuse_if, any, member, All, text_eq, arith, eq_iff, eq_refl, insert_text,
  member-insert_text,
}
use sts_delegate_rs.Config.{ConfigSource, get_var}
use sts_delegate_rs.Config.Source.{is_none_of, trimmed}
use sts_delegate_rs.Config.Algs.{
  retain_new, dedup_preserving_order, is_supported_inbound_assertion_alg,
  is_pqc_inbound_assertion_alg, check_supported, check_inbound_algs, listed_algs,
  parse_inbound_assertion_algs,
}

-- No text occurs twice.
abbrev pub IsDistinct : List String → Type 0
IsDistinct [] = Unit
IsDistinct (x ∷ xs) = (member x xs ≡ false) × IsDistinct xs

member-retain_new :
    (x : String) (seen texts : List String)
    → member x (retain_new seen texts) ≡ (member x texts && not (member x seen))
unfolding retain_new
member-retain_new x seen [] = refl
member-retain_new x seen (t ∷ texts) =
    ground (
      arith,
      eq_iff t x,
      member-retain_new x (insert_text t seen) texts,
      member-insert_text x t seen,
    )

IsDistinct-retain_new : (seen texts : List String) → IsDistinct (retain_new seen texts)
unfolding retain_new
IsDistinct-retain_new seen [] = tt
IsDistinct-retain_new seen (t ∷ texts) =
    let out : member t (retain_new (insert_text t seen) texts) ≡ false =
      member-retain_new t (insert_text t seen) texts
      ∙ rw (member-insert_text t t seen, eq_refl) (ground arith) in
    ground (arith, out, IsDistinct-retain_new (insert_text t seen) texts)

-- Deduplication keeps every text, once.
pub dedup-IsDistinct : (texts : List String) → IsDistinct (dedup_preserving_order texts)
unfolding dedup_preserving_order
dedup-IsDistinct texts = IsDistinct-retain_new [] texts

pub member-dedup :
    (x : String) (texts : List String) → member x (dedup_preserving_order texts) ≡ member x texts
unfolding dedup_preserving_order
member-dedup x texts = member-retain_new x [] texts ∙ ground arith

abbrev pub IsSupported : String → Type 0
IsSupported alg = is_supported_inbound_assertion_alg alg ≡ true

check_supported-All : (algs : List String) → check_supported algs ≡ ok tt → All IsSupported algs
unfolding check_supported
check_supported-All [] h = tt
check_supported-All (alg ∷ algs) h = ground (arith, h, check_supported-All algs)

any-eq-member : (s : String) (ts : List String) → any (λ t. text_eq t s) ts ≡ member s ts
any-eq-member s [] = refl
any-eq-member s (t ∷ ts) = rw (any-eq-member s ts)

-- The algorithms of an accepted list.
pub record IsInbound (allow_non_pqc_inbound : Bool) (algs : List String) : Type 0 where
  pub some_alg : is_none_of algs ≡ false
  pub distinct : IsDistinct algs
  pub supported : All IsSupported algs
  pub legacy_allowed : member "RS256" algs ≡ true → allow_non_pqc_inbound ≡ true
  pub pqc_listed : allow_non_pqc_inbound ≡ false → any is_pqc_inbound_assertion_alg algs ≡ true

check_inbound_algs-IsInbound :
    (allow : Bool) (algs result : List String)
    → check_inbound_algs allow algs ≡ ok result
    → IsDistinct algs
    → (result ≡ algs) × IsInbound allow algs
unfolding check_inbound_algs
check_inbound_algs-IsInbound allow algs result h distinct = after_refuse_if _ h λ full h₁.
    after_ok h₁ λ _ supported h₂. after_refuse_if _ h₂ λ legacy h₃. after_refuse_if _ h₃ λ pqc h₄. (
      cc,
      record {
        some_alg = full;
        distinct = distinct;
        supported = check_supported-All algs supported;
        legacy_allowed = λ m. ground (arith, legacy, any-eq-member "RS256" algs, m);
        pqc_listed = λ strict. ground (arith, pqc, strict);
      },
    )

-- The accepted algorithms are some, distinct and supported. RS256 is among them only if assertions
-- without post-quantum signatures are allowed, and a post-quantum one is if they are not.
pub parse_inbound_assertion_algs-IsInbound :
    (source : ConfigSource) (preferred allow : Bool) (algs : List String)
    → parse_inbound_assertion_algs source preferred allow ≡ ok algs
    → IsInbound allow algs
unfolding parse_inbound_assertion_algs
parse_inbound_assertion_algs-IsInbound source preferred allow algs h =
    let listed =
      listed_algs (trimmed (get_var "STS_INBOUND_ASSERTION_ALGS" source)) preferred allow in
    let (same, inbound) =
      check_inbound_algs-IsInbound allow (dedup_preserving_order listed) algs h
        (dedup-IsDistinct listed) in
    rw same inbound
