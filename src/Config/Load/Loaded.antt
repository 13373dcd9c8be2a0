-- ===== src/Config/Load/Loaded.antt =====
-- What a loaded configuration of crates/sts-config/src/lib.rs guarantees, and that its test of issuers is
-- that of crates/sts-verify/src/lib.rs.
use sts_delegate_rs.Prelude.{
  pos, ◌≤◌, ◌≤ℤ◌, String, ◌≡◌, refl, sym, ◌∙◌, subst, inl, inr, true, false, Option, none, some,
  List, [], ◌∷◌, Result, ok, ◌>>=◌, refuse_if, map_err, map_err-eq-ok, after_ok, after_refuse_if,
  trim, is_empty, any_char, is_whitespace, trim_end_matches, member, arith, eq_refl, Bool-cases,
  Result-cases, Option-cases,
}
use sts_delegate_rs.Json.{Json}
use sts_delegate_rs.Verify.{VerifyError}
use sts_delegate_rs.Verify.Anchors
use sts_delegate_rs.Verify.Anchors.{ParsedUrl, UrlHost, domain, ipv4, ipv6, is_missing}
use sts_delegate_rs.Config.{ConfigError, ConfigSource, get_var}
use sts_delegate_rs.Config.Source.{is_none_of, trimmed, parse_actor_ids}
use sts_delegate_rs.Config.Source.Values.{
  parse_env_int-least, parse_env_int-most, parse_env_usize-least, parse_client_ids-some,
  parse_actor_ids-some, parse_actor_ids-member, require_expected_aud-some,
}
use sts_delegate_rs.Config.Algs.Inbound.{IsInbound, parse_inbound_assertion_algs-IsInbound}
use sts_delegate_rs.Config.Load.{
  RuntimeConfig, is_loopback, check_issuer_url, validate_issuer, issuer_of, require_issuer,
  default_actor_id, from_source, first_or_empty,
}

abbrev pub config_message : ConfigError → String
config_message e = e.message

abbrev pub verify_message : VerifyError → String
verify_message e = e.message

-- The two crates' matches on the host.
is_loopback-agrees : (host : Option UrlHost) → is_loopback host ≡ Anchors.is_loopback host
unfolding is_loopback Anchors.is_loopback
is_loopback-agrees none = refl
is_loopback-agrees (some (domain host)) = refl
is_loopback-agrees (some (ipv4 a b c d)) = refl
is_loopback-agrees (some (ipv6 n)) = refl

module _ (parse_url : String → Result ParsedUrl String) where
  -- After a URL is parsed.
  checked-agrees :
      (key text : String) (parsed : ParsedUrl)
      → map_err config_message (check_issuer_url parse_url key parsed >>= λ _. ok text)
        ≡ map_err verify_message (Anchors.check_issuer_url parse_url parsed >>= λ _. ok text)
  unfolding check_issuer_url Anchors.check_issuer_url map_err ◌>>=◌
  checked-agrees key text parsed = ground (arith, is_loopback-agrees parsed.host)

  -- Both crates accept the same issuers, with the same text, and refuse the others with the same message.
  pub validate_issuer-agrees :
      (value key : String)
      → map_err config_message (validate_issuer parse_url value key)
        ≡ map_err verify_message (Anchors.validate_issuer parse_url value)
  unfolding validate_issuer Anchors.validate_issuer map_err ◌>>=◌ refuse_if
  validate_issuer-agrees value key = elim (Bool-cases (is_empty (trim value))) [
    | inl empty ↦ rw empty
    | inr full ↦ elim (Bool-cases (any_char is_whitespace (trim value))) [
      | inl white ↦ rw full (rw white)
      | inr solid ↦ elim (Result-cases (parse_url (trim value))) [
        | inl (parsed, e) ↦
            rw full
              (rw solid (rw e (checked-agrees key (trim_end_matches b'/' (trim value)) parsed)))
        | inr (why, e) ↦ rw full (rw solid (rw e))
      ]
    ]
  ]

  -- What crates/sts-verify accepts.
  abbrev pub IsIssuer : String → Type 0
  IsIssuer issuer = (value : String) × (Anchors.validate_issuer parse_url value ≡ ok issuer)

  accepted_by_both :
      (value key issuer : String)
      → validate_issuer parse_url value key ≡ ok issuer
      → IsIssuer issuer
  unfolding map_err
  accepted_by_both value key issuer h =
      (value, map_err-eq-ok _ _ (sym (validate_issuer-agrees value key) ∙ rw h))

  issuer_of-IsIssuer :
      (idp okta : Option String) (issuer : String)
      → issuer_of parse_url idp okta ≡ ok issuer
      → IsIssuer issuer
  unfolding issuer_of
  issuer_of-IsIssuer (some value) okta issuer h = accepted_by_both value _ issuer h
  issuer_of-IsIssuer none (some value) issuer h = accepted_by_both value _ issuer h
  issuer_of-IsIssuer none none issuer h = cc

  require_issuer-IsIssuer :
      (source : ConfigSource) (issuer : String)
      → require_issuer parse_url source ≡ ok issuer
      → IsIssuer issuer
  unfolding require_issuer
  require_issuer-IsIssuer source issuer h =
      issuer_of-IsIssuer (get_var "IDP_ISSUER" source) (get_var "OKTA_ISSUER" source) issuer h

first_member : (ids : List String) → is_none_of ids ≡ false → member (first_or_empty ids) ids ≡ true
first_member [] h = cc
first_member (id ∷ ids) h = rw eq_refl

ok-injective :
    {a b : RuntimeConfig} → ◌≡◌ {A = Result RuntimeConfig ConfigError} (ok a) (ok b) → a ≡ b
ok-injective h = cc

-- The default actor is one of the actors.
default_actor_id-member :
    (source : ConfigSource) (ids : List String)
    → parse_actor_ids source ≡ ok ids
    → member (default_actor_id source ids) ids ≡ true
unfolding default_actor_id
default_actor_id-member source ids h =
    elim (Option-cases (trimmed (get_var "GATEWAY_ACTOR_ID" source))) [
      | inl none_given ↦ rw none_given (first_member ids (parse_actor_ids-some source ids h))
      | inr (single, given) ↦ rw given (parse_actor_ids-member source ids single h given)
    ]

-- The invariant of a loaded configuration.
pub record IsLoaded (parse_url : String → Result ParsedUrl String) (config : RuntimeConfig)
    : Type 0 where
  pub idp_accepted : IsIssuer parse_url config.idp_issuer
  pub own_accepted : IsIssuer parse_url config.our_issuer
  pub audiences : is_none_of config.expected_subject_aud ≡ false
  pub actor_known : member config.actor_id config.actor_ids ≡ true
  pub actor_named : is_empty config.actor_id ≡ false
  pub clients : is_none_of config.client_ids ≡ false
  pub inbound : IsInbound config.allow_non_pqc_inbound config.inbound_assertion_algs
  pub leeway : pos 0 ≤ℤ config.clock_skew_leeway
  pub token_ttl : (pos 1 ≤ℤ config.scoped_token_ttl) × (config.scoped_token_ttl ≤ℤ pos 3600)
  pub cache_age : pos 0 ≤ℤ config.jwks_cache_max_age
  pub assertion_ttl : pos 1 ≤ℤ config.assertion_max_ttl
  pub replay_room : 1 ≤ config.max_seen_jti
  pub token_len : 1 ≤ config.max_token_len

module _ (parse_url : String → Result ParsedUrl String) (join : String → String → String)
    (quoted : String → String) (from_str : String → Result Json String)
    (read_to_string : String → Option String) where
  -- A loaded configuration has issuers that crates/sts-verify accepts, an audience, a client and an
  -- actor, of which the default one is a non-empty member; its inbound algorithms are some, distinct and
  -- supported, with RS256 only if that is allowed; and its numbers are in their ranges.
  pub from_source-IsLoaded :
      (source : ConfigSource) (config : RuntimeConfig)
      → from_source parse_url join quoted from_str read_to_string source ≡ ok config
      → IsLoaded parse_url config
  unfolding from_source
  from_source-IsLoaded source config h = after_ok h λ idp_issuer idp h₁.
      after_ok h₁ λ audiences auds h₂. after_ok h₂ λ actor_ids actors h₃.
        after_refuse_if _ h₃ λ named h₄. after_ok h₄ λ algs inbound h₅.
          after_ok h₅ λ our_issuer own h₆. after_ok h₆ λ _ _ h₇. after_ok h₇ λ _ _ h₈.
            after_ok h₈ λ _ _ h₉. after_ok h₉ λ _ _ h₁₀. after_ok h₁₀ λ _ _ h₁₁.
              after_ok h₁₁ λ leeway e₁ h₁₂. after_ok h₁₂ λ ttl e₂ h₁₃. after_ok h₁₃ λ age e₃ h₁₄.
                after_ok h₁₄ λ assertion_ttl e₄ h₁₅. after_ok h₁₅ λ room e₅ h₁₆.
                  after_ok h₁₆ λ _ _ h₁₇. after_ok h₁₇ λ token_len e₆ h₁₈.
                    subst (IsLoaded parse_url) (ok-injective h₁₈) (record {
                      idp_accepted = require_issuer-IsIssuer parse_url source idp_issuer idp;
                      own_accepted = accepted_by_both parse_url _ "OBO_STS_ISSUER" our_issuer own;
                      audiences = require_expected_aud-some source audiences auds;
                      actor_known = default_actor_id-member source actor_ids actors;
                      actor_named = named;
                      clients =
                          parse_client_ids-some source actor_ids
                            (parse_actor_ids-some source actor_ids actors);
                      inbound = parse_inbound_assertion_algs-IsInbound source _ _ algs inbound;
                      leeway = parse_env_int-least source _ _ (pos 0) leeway none e₁;
                      token_ttl = (
                        parse_env_int-least source _ _ (pos 1) ttl _ e₂,
                        parse_env_int-most source _ _ ttl (pos 3600) _ e₂,
                      );
                      cache_age = parse_env_int-least source _ _ (pos 0) age none e₃;
                      assertion_ttl = parse_env_int-least source _ _ (pos 1) assertion_ttl none e₄;
                      replay_room = parse_env_usize-least source _ _ 1 room none e₅;
                      token_len = parse_env_usize-least source _ _ 1 token_len none e₆;
                    })
