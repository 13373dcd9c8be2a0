-- ===== src/Core/Target.antt =====
-- Target resolution of crates/sts-core/src/lib.rs.
use sts_delegate_rs.Prelude.{
  String, ◌≡◌, ◌↔◌, false, Option, none, some, ok, ◌>>=◌, arith, eq_iff, trim, is_empty,
}
use sts_delegate_rs.Core.{resolve_target}
use sts_delegate_rs.Core.Resource.{IsResource, Passes, Passes-IsResource}

-- What a resolved target is, for the two request parameters, in terms of a test on resources.
abbrev ResolvesBy : (String → Type 0) → Option String → Option String → String → Type 0
ResolvesBy Test none none target = ⊥
ResolvesBy Test (some aud) none target = (target ≡ trim aud) × (is_empty target ≡ false)
ResolvesBy Test none (some res) target =
    (target ≡ trim res) × (is_empty target ≡ false) × Test target
ResolvesBy Test (some aud) (some res) target =
    (target ≡ trim aud) × (target ≡ trim res) × (is_empty target ≡ false) × Test target

-- RFC 8693 and R-055 of docs/requirements/rust-v2-contract-ledger.md ask for an absolute URI in the
-- place of such a resource.
abbrev pub Resolves : Option String → Option String → String → Type 0
Resolves = ResolvesBy IsResource

resolve_target-Passes :
    (audience resource : Option String) (target : String)
    → (resolve_target audience resource ≡ ok target) ↔ ResolvesBy Passes audience resource target
unfolding resolve_target ◌>>=◌
resolve_target-Passes none none target = (λ h. cc, λ h. absurd h)
resolve_target-Passes (some aud) none target = (λ h. ground arith, λ h. ground arith)
resolve_target-Passes none (some res) target = (λ h. ground arith, λ h. ground arith)
resolve_target-Passes (some aud) (some res) target = (
  λ h. ground (arith, eq_iff (trim aud) (trim res)),
  λ h. ground (arith, eq_iff (trim aud) (trim res)),
)

Passes-Resolves :
    (audience resource : Option String) (target : String)
    → ResolvesBy Passes audience resource target ↔ Resolves audience resource target
Passes-Resolves none none target = (λ h. h, λ h. h)
Passes-Resolves (some aud) none target = (λ h. h, λ h. h)
Passes-Resolves none (some res) target = (
  λ (same, full, test). (same, full, (Passes-IsResource target).0 test),
  λ (same, full, test). (same, full, (Passes-IsResource target).1 test),
)
Passes-Resolves (some aud) (some res) target = (
  λ (left, right, full, test). (left, right, full, (Passes-IsResource target).0 test),
  λ (left, right, full, test). (left, right, full, (Passes-IsResource target).1 test),
)

-- `resolve_target` succeeds with `target` exactly when `target` is the trimmed, non-empty value of
-- every parameter that is present, at least one is, and a present `resource` has "://" somewhere, does
-- not start with "/" and has no "#".
pub resolve_target_iff :
    (audience resource : Option String) (target : String)
    → (resolve_target audience resource ≡ ok target) ↔ Resolves audience resource target
resolve_target_iff audience resource target =
    let tested = resolve_target-Passes audience resource target in
    let resolved = Passes-Resolves audience resource target in
    (λ h. resolved.0 (tested.0 h), λ h. tested.1 (resolved.1 h))
