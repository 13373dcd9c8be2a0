-- ===== src/Http/Online.antt =====
-- Introspection and revocation in crates/sts-http/src/lib.rs: the form of both, and the two handlers. The
-- pairs are what `url::form_urlencoded::parse` gives of the body.
pub mod Active
mod Tests
use sts_delegate_rs.Prelude.{
  ℤ, String, Bool, true, false, not, ◌&&◌, ◌||◌, Option, none, some, List, [], ◌∷◌, Result, ok, err,
  ◌>>=◌, ◌>>◌, refuse_if, ok_or, member, has_key, leb_ℤ, ltb_ℤ, ltb, ℕ, add_i64, if◌then◌else◌,
  text_eq, is_some_text, is_blank, utf8_length, ◌⧺◌,
}
use sts_delegate_rs.Json.{
  Json, Members, bool, string, number, integer, object, no_members, member_of, insert_member,
}
use sts_delegate_rs.Core.{MintedClaims, ActClaim, direct, behind, ExchangeRequest}
use sts_delegate_rs.Jose.{JoseError, VerifiedJws}
use sts_delegate_rs.Jose.Verify.{verify_claims_against_jwks_inner}
use sts_delegate_rs.Replay.Store.{ReplayStore}
use sts_delegate_rs.Http.{HttpError, invalid_request}
use sts_delegate_rs.Http.Forms.{non_empty_form_value}
use sts_delegate_rs.Http.Headers.{
  Headers, require_form_urlencoded, reject_authorization_header_client_auth,
}
use sts_delegate_rs.Http.Revocation.{RevocationState, is_revoked_or_unavailable}
use sts_delegate_rs.Http.Revocation
use sts_delegate_rs.Http.Service
use sts_delegate_rs.Http.Service.{Handler, Service, lift}
use sts_delegate_rs.Http.Exchange.{Surroundings, record_client_assertion_replay}
use sts_delegate_rs.Http.Deployment.{
  Deployment, exchange_config, introspection_endpoint, revocation_endpoint,
}
use sts_delegate_rs.Http.Clients.{authenticate_online_client}

pub record OnlineTokenForm : Type 0 where
  pub token : Option String
  pub token_type_hint : Option String
  pub client_id : Option String
  pub client_assertion : Option String
  pub client_assertion_type : Option String

abbrev pub empty_online_form : OnlineTokenForm
empty_online_form = record {
  token = none;
  token_type_hint = none;
  client_id = none;
  client_assertion = none;
  client_assertion_type = none;
}

unfoldable pub is_online_token_param : String → Bool
is_online_token_param key =
    text_eq key "token"
    || text_eq key "token_type_hint"
    || text_eq key "client_id"
    || text_eq key "client_assertion"
    || text_eq key "client_assertion_type"

unfoldable pub assign_online_token_form_value : OnlineTokenForm → String → String → OnlineTokenForm
assign_online_token_form_value form key value =
    let filled = non_empty_form_value value in
    if text_eq key "token"
    then record form { token = filled }
    else if text_eq key "token_type_hint"
    then record form { token_type_hint = filled }
    else if text_eq key "client_id"
    then record form { client_id = filled }
    else if text_eq key "client_assertion"
    then record form { client_assertion = filled }
    else if text_eq key "client_assertion_type"
    then record form { client_assertion_type = filled }
    else form

-- The loop over the pairs, with the parameters seen and the form so far.
unfoldable pub take_online_pairs :
    (String → String)
    → List String
    → OnlineTokenForm
    → List (String × String)
    → Result OnlineTokenForm HttpError
take_online_pairs quoted seen form [] = ok form
take_online_pairs quoted seen form ((key, value) ∷ pairs) =
    let seen' = if is_online_token_param key then key ∷ seen else seen in
    let rest =
      take_online_pairs quoted seen' (assign_online_token_form_value form key value) pairs in
    if is_online_token_param key && member key seen
    then err (invalid_request ("parameter " ⧺ quoted key ⧺ " is included more than once"))
    else rest

unfoldable pub parse_online_token_form :
    (String → String) → Headers → List (String × String) → Result OnlineTokenForm HttpError
parse_online_token_form quoted headers pairs = do
  require_form_urlencoded headers
  reject_authorization_header_client_auth headers
  take_online_pairs quoted [] empty_online_form pairs

abbrev not_blank : Option String → Option String
not_blank none = none
not_blank (some value) = if is_blank value then none else some value

unfoldable pub required_online_token : OnlineTokenForm → ℕ → Result String HttpError
required_online_token form max_token_len = do
  token ← ok_or (not_blank form.token) (invalid_request "token is required")
  refuse_if (ltb max_token_len (utf8_length token)) (invalid_request "token too large")
  ok token

-- The part of an exchange request by which a client authenticates.
abbrev pub client_request : OnlineTokenForm → ExchangeRequest
client_request form = record {
  grant_type = "";
  subject_token = "";
  subject_token_type = "";
  actor_token = none;
  actor_token_type = none;
  audience = none;
  resource = none;
  scope = none;
  requested_token_type = none;
  client_id = form.client_id;
  client_assertion = form.client_assertion;
  client_assertion_type = form.client_assertion_type;
}

-- `serde_json::to_value` of an `ActClaim`.
insert_iss : Option String → Members → Members
insert_iss none m = m
insert_iss (some iss) m = insert_member "iss" (string iss) m

unfoldable pub act_value : ActClaim → Json
unfolding insert_iss
act_value (direct sub iss) = object (insert_iss iss (member_of "sub" (string sub) no_members))
act_value (behind sub iss act) =
    object (
      insert_member "act" (act_value act)
        (insert_iss iss (member_of "sub" (string sub) no_members)))

insert_act : Option ActClaim → Members → Members
insert_act none m = m
insert_act (some act) m = insert_member "act" (act_value act) m

insert_cnf : Option String → Members → Members
insert_cnf none m = m
insert_cnf (some jkt) m = insert_member "cnf" (object (member_of "jkt" (string jkt) no_members)) m

-- The body for a token that is active, and for any other.
unfoldable pub active_body : MintedClaims → Json
unfolding insert_act insert_cnf
active_body claims = object (
    insert_cnf claims.cnf_jkt (
      insert_act claims.act (
        insert_member "client_id" (string claims.client_id) (
          insert_member "iat" (number (integer claims.iat)) (
            insert_member "exp" (number (integer claims.exp)) (
              insert_member "scope" (string claims.scope) (
                insert_member "aud" (string claims.aud) (
                  insert_member "sub" (string claims.sub) (
                    insert_member "iss" (string claims.iss)
                      (member_of "active" (bool true) no_members))))))))))

abbrev pub inactive_body : Json
inactive_body = object (member_of "active" (bool false) no_members)

unfoldable pub body_of : Option MintedClaims → Json
body_of none = inactive_body
body_of (some claims) = active_body claims

module _ {RsaKey MlDsaKey Jwk Key : Type 0} (d : Deployment RsaKey MlDsaKey Jwk Key) where
  -- The tests on a token that verifies under the published keys, but for its revocation.
  unfoldable pub fresh_claims : VerifiedJws MintedClaims → ℤ → Option MintedClaims
  fresh_claims verified now =
      let claims = verified.claims in
      if not (is_some_text "at+jwt" verified.typ)
      then none
      else if not (text_eq claims.iss d.config.our_issuer)
      then none
      else if not (has_key claims.aud d.config.target_policy)
      then none
      else if is_blank claims.sub || is_blank claims.client_id || is_blank claims.scope
      then none
      else if leb_ℤ claims.exp now || ltb_ℤ (add_i64 now d.config.clock_skew_leeway) claims.iat
      then none
      else some claims

  abbrev pub of_verified : Result (VerifiedJws MintedClaims) JoseError → ℤ → Option MintedClaims
  of_verified (ok verified) now = fresh_claims verified now
  of_verified (err _) now = none

  unfoldable pub unless_revoked :
      String → ℤ → Option MintedClaims → RevocationState → RevocationState × Option MintedClaims
  unless_revoked token now none s = (s, none)
  unless_revoked token now (some claims) s =
      let (s', revoked) = is_revoked_or_unavailable d.sha256 token now s in
      (s', if revoked then none else some claims)

  unfoldable pub verified_sts_access_token :
      String → ℤ → Bool → RevocationState → RevocationState × Option MintedClaims
  verified_sts_access_token token now check_revocation s =
      let claims =
        of_verified (verify_claims_against_jwks_inner d.minted_backend token d.published_jwks none)
          now in
      if check_revocation then unless_revoked token now claims s else (s, claims)

  unfoldable pub introspection_response_for_token :
      String → ℤ → RevocationState → RevocationState × Json
  introspection_response_for_token token now s =
      let (s', claims) = verified_sts_access_token token now true s in (s', body_of claims)

-- What the environment gives to one call: the clock at its readings, and what recording the client's
-- assertion reads, its time and the store's environment.
pub record OnlineSurroundings (Env : Type 0) : Type 0 where
  pub client_verify_now : ℤ
  pub client_lifetime_now : ℤ
  pub recording : Surroundings Env
  pub token_now : ℤ
  pub revoke_now : ℤ

module _ {RsaKey MlDsaKey Jwk Key : Type 0} (d : Deployment RsaKey MlDsaKey Jwk Key)
    (r : ReplayStore) (around : OnlineSurroundings r.Env) where
  -- What both handlers begin with: the token of the form, for a client that is authenticated for the
  -- endpoint and whose assertion is recorded.
  unfoldable pub online_token : String → Headers → List (String × String) → Handler r String
  online_token endpoint headers pairs =
      Service.◌>>=◌ (lift (parse_online_token_form d.quoted headers pairs)) λ form.
        Service.◌>>=◌ (lift (required_online_token form d.config.max_token_len)) λ token.
          Service.◌>>=◌
            (lift (
              authenticate_online_client d (client_request form) endpoint around.client_verify_now
                around.client_lifetime_now))
            λ claims.
              Service.◌>>=◌
                (record_client_assertion_replay d.quoted d.parse_url d.sha256 d.base64url
                  d.assertion_backend (exchange_config d.config) d.signer d.actor_jwks r
                  around.recording claims)
                λ _. lift (ok token)

  answer_introspection : String → Handler r Json
  answer_introspection token s =
      let (revocations, body) =
        introspection_response_for_token d token around.token_now s.revocations in
      (record s { revocations = revocations }, ok body)

  unfoldable pub introspect : Headers → List (String × String) → Handler r Json
  unfolding answer_introspection
  introspect headers pairs =
      Service.◌>>=◌ (online_token (introspection_endpoint d.config) headers pairs)
        answer_introspection

  -- A token that is not an active one of this service is not revoked, and the call succeeds.
  unfoldable pub revoke_verified : String → Option MintedClaims → Handler r Unit
  revoke_verified token none s = (s, ok tt)
  revoke_verified token (some claims) s =
      let (revocations, result) =
        Revocation.revoke d.sha256 token claims.exp around.revoke_now d.config.max_seen_jti
          s.revocations in
      (record s { revocations = revocations }, result)

  unfoldable pub revoke_active : String → Handler r Unit
  revoke_active token s =
      revoke_verified token
        (verified_sts_access_token d token around.token_now false s.revocations).1 s

  unfoldable pub revoke : Headers → List (String × String) → Handler r Unit
  revoke headers pairs =
      Service.◌>>=◌ (online_token (revocation_endpoint d.config) headers pairs) revoke_active
