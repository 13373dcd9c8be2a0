-- ===== src/Dpop/Uri.antt =====
-- The URIs that crates/sts-dpop/src/lib.rs compares.
use sts_delegate_rs.Prelude.{
  ℕ, pos, String, ◌≡◌, ◌↔◌, ◌⊎◌, inl, inr, refl, sym, ◌∙◌, true, false, Option, none, some, ◌⧺◌,
  Bool-cases, Option-cases, ==_iff, arith, eq_iff,
}
use sts_delegate_rs.Prelude.Text.Decimal.{show_i64}
use sts_delegate_rs.Dpop.{
  Backend, ParsedHtu, same_port, default_port, netloc, canonical_text, canonical_htu,
}

true≢false : true ≡ false → ⊥
true≢false h = cc

-- The port that is usual for a scheme.
abbrev pub IsUsual : String → ℕ → Type 0
IsUsual scheme port = ((scheme ≡ "https") × (port ≡ 443)) ⊎ ((scheme ≡ "http") × (port ≡ 80))

-- The host, with the port behind it where one is given that is not the usual one.
abbrev pub IsNetloc : String → String → Option ℕ → String → Type 0
IsNetloc scheme host none text = text ≡ host
IsNetloc scheme host (some port) text =
    (IsUsual scheme port × (text ≡ host))
    ⊎ ((¬ IsUsual scheme port) × (text ≡ host ⧺ ":" ⧺ show_i64 (pos port)))

usual :
    (scheme : String) (port : ℕ)
    → same_port (some port) (default_port scheme) ≡ true
    → IsUsual scheme port
unfolding default_port
usual scheme port h =
    ground (arith, h, eq_iff scheme "https", eq_iff scheme "http", ==_iff port 443, ==_iff port 80)

to_usual :
    (scheme : String) (port : ℕ)
    → IsUsual scheme port
    → same_port (some port) (default_port scheme) ≡ true
unfolding default_port
to_usual scheme port (inl (https, p)) = rw https (rw p refl)
to_usual scheme port (inr (http, p)) = rw http (rw p refl)

IsUsual-iff :
    (scheme : String) (port : ℕ)
    → (same_port (some port) (default_port scheme) ≡ true) ↔ IsUsual scheme port
IsUsual-iff scheme port = (λ h. usual scheme port h, λ h. to_usual scheme port h)

netloc-IsNetloc :
    (scheme host : String) (port : Option ℕ)
    → IsNetloc scheme host port (netloc host port (default_port scheme))
netloc-IsNetloc scheme host none = refl
netloc-IsNetloc scheme host (some port) =
    elim (Bool-cases (same_port (some port) (default_port scheme))) [
      | inl usual ↦ inl ((IsUsual-iff scheme port).0 usual, rw usual refl)
      | inr other ↦
          inr (λ usual. true≢false (sym ((IsUsual-iff scheme port).1 usual) ∙ other), rw other refl)
    ]

module _ {Jwk Key : Type 0} (backend : Backend Jwk Key) where
  -- A text of a URI: its scheme and its host in lower case, its port unless that is usual, and its path. A
  -- query and a fragment do not count.
  pub record IsCanonical (value uri : String) : Type 0 where
    pub parsed : ParsedHtu
    pub parses : backend.parse_url value ≡ some parsed
    pub host : String
    pub has_host : parsed.host_str ≡ some host
    pub netloc_text : String
    pub is_netloc :
        IsNetloc (backend.lowercase parsed.scheme) (backend.lowercase host) parsed.port netloc_text
    pub is_uri : uri ≡ backend.lowercase parsed.scheme ⧺ "://" ⧺ netloc_text ⧺ parsed.path

  canonical_text-IsCanonical :
      (value uri : String) (parsed : ParsedHtu) (host : Option String)
      → backend.parse_url value ≡ some parsed
      → parsed.host_str ≡ host
      → canonical_text backend (backend.lowercase parsed.scheme) host parsed ≡ some uri
      → IsCanonical value uri
  canonical_text-IsCanonical value uri parsed none parses has h = cc
  canonical_text-IsCanonical value uri parsed (some host) parses has h = record {
    parsed = parsed;
    parses = parses;
    host = host;
    has_host = has;
    netloc_text =
        netloc (backend.lowercase host) parsed.port
          (default_port (backend.lowercase parsed.scheme));
    is_netloc =
        netloc-IsNetloc (backend.lowercase parsed.scheme) (backend.lowercase host) parsed.port;
    is_uri = cc;
  }

  pub canonical_htu-IsCanonical :
      (value uri : String) → canonical_htu backend value ≡ some uri → IsCanonical value uri
  unfolding canonical_htu
  canonical_htu-IsCanonical value uri h = elim (Option-cases (backend.parse_url value)) [
    | inl fails ↦ let no_uri : none ≡ some uri = rw fails at h in cc
    | inr (parsed, parses) ↦
        canonical_text-IsCanonical value uri parsed parsed.host_str parses refl (rw parses at h)
  ]
