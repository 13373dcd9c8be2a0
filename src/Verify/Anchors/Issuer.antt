-- ===== src/Verify/Anchors/Issuer.antt =====
-- Which issuers are accepted, and which plans are built.
use sts_delegate_rs.Prelude.{
  String, ◌≡◌, ◌↔◌, refl, sym, ap, ◌∙◌, ◌⊎◌, inl, inr, true, false, ◌&&◌, Option, none, some,
  Result, ok, ◌>>=◌, refuse_if, map_err, after_ok, after_refuse_if, map_err-eq-ok, trim, any_char,
  is_empty, is_whitespace, trim_end_matches, arith, eq_iff, ==_iff, true_of_&&, Bool-cases,
}
use sts_delegate_rs.Prelude.Text.Ascii.{to_ascii_lowercase, eq_ignore_ascii_case}
use sts_delegate_rs.Verify.{VerifyError}
use sts_delegate_rs.Verify.Anchors.{
  ParsedUrl, UrlHost, domain, ipv4, ipv6, TrustAnchorRef, VerificationPlan, is_missing, is_loopback,
  check_issuer_url, validate_issuer, option_eq, require_distinct_actor_client_anchors,
  build_verification_plan,
}

-- The domain localhost in any case, 127.0.0.0/8, or ::1.
abbrev pub IsLoopbackHost : Option UrlHost → Type 0
IsLoopbackHost none = ⊥
IsLoopbackHost (some (domain host)) = to_ascii_lowercase host ≡ "localhost"
IsLoopbackHost (some (ipv4 a b c d)) = a ≡ 127
IsLoopbackHost (some (ipv6 n)) = n ≡ 1

localhost_lower : to_ascii_lowercase "localhost" ≡ "localhost"
unfolding to_ascii_lowercase
localhost_lower = refl

is_loopback_iff : (host : Option UrlHost) → (is_loopback host ≡ true) ↔ IsLoopbackHost host
unfolding is_loopback eq_ignore_ascii_case
is_loopback_iff none = (λ h. cc, λ h. absurd h)
is_loopback_iff (some (domain host)) =
    rw localhost_lower (eq_iff (to_ascii_lowercase host) "localhost")
is_loopback_iff (some (ipv4 a b c d)) = ==_iff a 127
is_loopback_iff (some (ipv6 n)) = ==_iff n 1

module _ (parse_url : String → Result ParsedUrl String) where
  -- A URL with a host and without query and fragment, by https, or by http on a loopback host.
  pub record IsIssuerUrl (text : String) : Type 0 where
    pub parsed : ParsedUrl
    pub parses : parse_url text ≡ ok parsed
    pub host : is_missing parsed.host_str ≡ false
    pub no_query : parsed.has_query ≡ false
    pub no_fragment : parsed.has_fragment ≡ false
    pub scheme : (parsed.scheme ≡ "https") ⊎ ((parsed.scheme ≡ "http") × IsLoopbackHost parsed.host)

  check_issuer_url-scheme :
      (parsed : ParsedUrl)
      → check_issuer_url parse_url parsed ≡ ok tt
      → (is_missing parsed.host_str ≡ false)
        × (parsed.has_query ≡ false)
        × (parsed.has_fragment ≡ false)
        × ((parsed.scheme ≡ "https")
            ⊎ ((parsed.scheme ≡ "http") × (is_loopback parsed.host ≡ true)))
  unfolding check_issuer_url
  check_issuer_url-scheme parsed h =
      ground (arith, h, eq_iff parsed.scheme "https", eq_iff parsed.scheme "http")

  scheme-check_issuer_url :
      (parsed : ParsedUrl)
      → is_missing parsed.host_str ≡ false
      → parsed.has_query ≡ false
      → parsed.has_fragment ≡ false
      → (parsed.scheme ≡ "https") ⊎ ((parsed.scheme ≡ "http") × (is_loopback parsed.host ≡ true))
      → check_issuer_url parse_url parsed ≡ ok tt
  unfolding check_issuer_url
  scheme-check_issuer_url parsed host query fragment (inl https) =
      ground (arith, eq_iff parsed.scheme "https")
  scheme-check_issuer_url parsed host query fragment (inr (http, local)) =
      ground (arith, eq_iff parsed.scheme "https", eq_iff parsed.scheme "http")

  of_loopback :
      (parsed : ParsedUrl)
      → (parsed.scheme ≡ "https") ⊎ ((parsed.scheme ≡ "http") × (is_loopback parsed.host ≡ true))
      → (parsed.scheme ≡ "https") ⊎ ((parsed.scheme ≡ "http") × IsLoopbackHost parsed.host)
  of_loopback parsed (inl https) = inl https
  of_loopback parsed (inr (http, local)) = inr (http, (is_loopback_iff parsed.host).0 local)

  to_loopback :
      (parsed : ParsedUrl)
      → (parsed.scheme ≡ "https") ⊎ ((parsed.scheme ≡ "http") × IsLoopbackHost parsed.host)
      → (parsed.scheme ≡ "https") ⊎ ((parsed.scheme ≡ "http") × (is_loopback parsed.host ≡ true))
  to_loopback parsed (inl https) = inl https
  to_loopback parsed (inr (http, local)) = inr (http, (is_loopback_iff parsed.host).1 local)

  -- What an accepted issuer is.
  abbrev pub IsAcceptedIssuer : String → String → Type 0
  IsAcceptedIssuer value issuer =
      (issuer ≡ trim_end_matches b'/' (trim value))
      × (is_empty (trim value) ≡ false)
      × (any_char is_whitespace (trim value) ≡ false)
      × IsIssuerUrl (trim value)

  accepted_issuer :
      (value issuer : String)
      → validate_issuer parse_url value ≡ ok issuer
      → IsAcceptedIssuer value issuer
  unfolding validate_issuer
  accepted_issuer value issuer h = after_refuse_if _ h λ full h₁. after_refuse_if _ h₁ λ solid h₂.
      after_ok h₂ λ parsed parses h₃. after_ok h₃ λ _ checked h₄.
        let (host, no_query, no_fragment, scheme) = check_issuer_url-scheme parsed checked in
        (
          cc,
          full,
          solid,
          record {
            parsed = parsed;
            parses = map_err-eq-ok _ _ parses;
            host = host;
            no_query = no_query;
            no_fragment = no_fragment;
            scheme = of_loopback parsed scheme;
          },
        )

  issuer_accepted :
      (value issuer : String)
      → IsAcceptedIssuer value issuer
      → validate_issuer parse_url value ≡ ok issuer
  unfolding validate_issuer ◌>>=◌ refuse_if map_err
  issuer_accepted value issuer (same, full, solid, url) =
      let checked =
        scheme-check_issuer_url url.parsed url.host url.no_query url.no_fragment
          (to_loopback url.parsed url.scheme) in
      rw full (rw solid (rw url.parses (rw checked (ap ok (sym same)))))

  -- An issuer is accepted, as the trimmed text without the slashes at its end, exactly when that text is
  -- not empty, has no white space, and is a URL that has a host, neither query nor fragment, and uses https,
  -- or http on localhost, 127.0.0.0/8 or ::1.
  pub validate_issuer_iff :
      (value issuer : String)
      → (validate_issuer parse_url value ≡ ok issuer) ↔ IsAcceptedIssuer value issuer
  validate_issuer_iff value issuer = (accepted_issuer value issuer, issuer_accepted value issuer)

option_eq_iff : (a b : Option String) → (option_eq a b ≡ true) ↔ (a ≡ b)
option_eq_iff none none = (λ h. refl, λ h. refl)
option_eq_iff none (some t) = (λ h. cc, λ h. cc)
option_eq_iff (some s) none = (λ h. cc, λ h. cc)
option_eq_iff (some s) (some t) = (λ h. ap some ((eq_iff s t).0 h), λ h. (eq_iff s t).1 cc)

both_same :
    (actor client : TrustAnchorRef)
    → (option_eq actor.jwks_file client.jwks_file && option_eq actor.jwks_url client.jwks_url)
      ≡ true
    → (actor.jwks_file ≡ client.jwks_file) × (actor.jwks_url ≡ client.jwks_url)
both_same actor client h =
    let (f, u) = true_of_&& _ (option_eq actor.jwks_url client.jwks_url) h in
    ((option_eq_iff _ _).0 f, (option_eq_iff _ _).0 u)

same_both :
    (actor client : TrustAnchorRef)
    → (actor.jwks_file ≡ client.jwks_file) × (actor.jwks_url ≡ client.jwks_url)
    → (option_eq actor.jwks_file client.jwks_file && option_eq actor.jwks_url client.jwks_url)
      ≡ true
same_both actor client (f, u) =
    rw ((option_eq_iff actor.jwks_file client.jwks_file).1 f)
      ((option_eq_iff actor.jwks_url client.jwks_url).1 u)

true≢false : true ≡ false → ⊥
true≢false h = cc

plan_injective :
    {a b : VerificationPlan} → ◌≡◌ {A = Result VerificationPlan VerifyError} (ok a) (ok b) → b ≡ a
plan_injective h = cc

-- A plan is built exactly when the actor's and the client's key sources differ in the file or in the
-- address, and then of the three anchors as they are given.
pub build_verification_plan_iff :
    (idp actor client : TrustAnchorRef) (plan : VerificationPlan)
    → (build_verification_plan idp actor client ≡ ok plan) ↔ (
        (plan ≡ record { idp = idp; actor = actor; client = client })
        × ¬ ((actor.jwks_file ≡ client.jwks_file) × (actor.jwks_url ≡ client.jwks_url)))
unfolding build_verification_plan require_distinct_actor_client_anchors ◌>>=◌
build_verification_plan_iff idp actor client plan =
    elim (Bool-cases
      (option_eq actor.jwks_file client.jwks_file && option_eq actor.jwks_url client.jwks_url)) [
        | inl same ↦
            rw same (λ h. cc, λ (e, distinct). absurd (distinct (both_same actor client same)))
        | inr differ ↦ rw differ (
          λ h. (plan_injective h, λ both. true≢false (sym (same_both actor client both) ∙ differ)),
          λ (e, distinct). ap ok (sym e),
        )
      ]
