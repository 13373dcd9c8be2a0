-- ===== src/Verify/Claims/Window.antt =====
-- The time tests of crates/sts-verify/src/lib.rs.
use sts_delegate_rs.Prelude.{
  ℤ, ◌≤ℤ◌, ◌+ℤ◌, ◌-ℤ◌, IsModerate, add_i64-exact, sub_i64-exact, sub_i64, add_i64, ◌≡◌, refl, sym,
  ◌↔◌, Option, none, some, ok, arith,
}
use sts_delegate_rs.Verify.Claims.{
  AssertionClaims, span, validate_time_window, validate_assertion_lifetime,
}

-- A window is accepted exactly when `now` is at most `exp` plus the leeway, and at least `nbf` less the
-- leeway where there is an `nbf`, for times at which no sum wraps around.
pub validate_time_window_iff :
    (exp leeway now nbf : ℤ)
    → IsModerate exp
    → IsModerate leeway
    → IsModerate nbf
    → (validate_time_window exp (some nbf) leeway now ≡ ok tt)
      ↔ ((now ≤ℤ exp +ℤ leeway) × (nbf -ℤ leeway ≤ℤ now))
unfolding validate_time_window
validate_time_window_iff exp leeway now nbf h k l =
    ground (arith, add_i64-exact exp leeway h k, sub_i64-exact nbf leeway l k)

-- When an assertion was issued, for the lifetime test: its `iat`, or now.
abbrev pub issued : Option ℤ → ℤ → ℤ
issued none now = now
issued (some iat) now = iat

pub span-issued :
    (exp : ℤ) (iat : Option ℤ) (now : ℤ) → span exp iat now ≡ sub_i64 exp (issued iat now)
span-issued exp none now = refl
span-issued exp (some iat) now = refl

span-exact :
    (exp : ℤ) (iat : Option ℤ) (now : ℤ)
    → IsModerate exp
    → IsModerate (issued iat now)
    → span exp iat now ≡ exp -ℤ issued iat now
span-exact exp none now h i = sub_i64-exact exp now h i
span-exact exp (some iat) now h i = sub_i64-exact exp iat h i

-- A lifetime is accepted exactly when the assertion expires at most the maximum and the leeway after
-- it was issued, for times at which no sum wraps around.
pub validate_assertion_lifetime_iff :
    (claims : AssertionClaims) (max_ttl leeway now : ℤ)
    → IsModerate claims.exp
    → IsModerate (issued claims.iat now)
    → IsModerate max_ttl
    → IsModerate leeway
    → (validate_assertion_lifetime claims max_ttl leeway now ≡ ok tt)
      ↔ (claims.exp -ℤ issued claims.iat now ≤ℤ max_ttl +ℤ leeway)
unfolding validate_assertion_lifetime
validate_assertion_lifetime_iff claims max_ttl leeway now h i k l =
    rw (add_i64-exact max_ttl leeway k l)
      (rw (span-exact claims.exp claims.iat now h i) (ground arith))

-- Not yet due: at least `nbf` less the leeway, where there is an `nbf`.
abbrev pub IsDue : Option ℤ → ℤ → ℤ → Type 0
IsDue none leeway now = Unit
IsDue (some nbf) leeway now = sub_i64 nbf leeway ≤ℤ now

-- A time window at `now`, in the arithmetic of an i64.
abbrev pub IsWithin : ℤ → Option ℤ → ℤ → ℤ → Type 0
IsWithin exp nbf leeway now = (now ≤ℤ add_i64 exp leeway) × IsDue nbf leeway now

pub validate_time_window-IsWithin :
    (exp : ℤ) (nbf : Option ℤ) (leeway now : ℤ)
    → validate_time_window exp nbf leeway now ≡ ok tt
    → IsWithin exp nbf leeway now
unfolding validate_time_window
validate_time_window-IsWithin exp none leeway now h = (ground (arith, h), tt)
validate_time_window-IsWithin exp (some nbf) leeway now h = (ground (arith, h), ground (arith, h))

pub validate_assertion_lifetime-le :
    (claims : AssertionClaims) (max_ttl leeway now : ℤ)
    → validate_assertion_lifetime claims max_ttl leeway now ≡ ok tt
    → sub_i64 claims.exp (issued claims.iat now) ≤ℤ add_i64 max_ttl leeway
unfolding validate_assertion_lifetime
validate_assertion_lifetime-le claims max_ttl leeway now h =
    rw (sym (span-issued claims.exp claims.iat now)) (ground (arith, h))
