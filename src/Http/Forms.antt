-- ===== src/Http/Forms.antt =====
-- The form of the token endpoint in crates/sts-http/src/lib.rs. The pairs are what
-- `url::form_urlencoded::parse` gives; `quoted` is the text `{:?}` of a string.
pub mod Unique
use sts_delegate_rs.Prelude.{
  ℕ, String, Bool, true, false, not, ◌||◌, Option, none, some, List, [], ◌∷◌, Result, ok, err,
  ◌>>=◌, if◌then◌else◌, member, text_eq, is_empty, ◌⧺◌,
}
use sts_delegate_rs.Core.{ExchangeRequest}
use sts_delegate_rs.Http.{HttpError, invalid_request, invalid_target}

pub record TokenForm : Type 0 where
  pub grant_type : Option String
  pub subject_token : Option String
  pub subject_token_type : Option String
  pub actor_token : Option String
  pub actor_token_type : Option String
  pub empty_actor_token_supplied : Bool
  pub audience : Option String
  pub resource : Option String
  pub scope : Option String
  pub requested_token_type : Option String
  pub client_id : Option String
  pub client_assertion : Option String
  pub client_assertion_type : Option String

abbrev pub empty_form : TokenForm
empty_form = record {
  grant_type = none;
  subject_token = none;
  subject_token_type = none;
  actor_token = none;
  actor_token_type = none;
  empty_actor_token_supplied = false;
  audience = none;
  resource = none;
  scope = none;
  requested_token_type = none;
  client_id = none;
  client_assertion = none;
  client_assertion_type = none;
}

abbrev or_default : Option String → String
or_default none = ""
or_default (some s) = s

unfoldable pub into_exchange_request : TokenForm → ExchangeRequest
into_exchange_request form = record {
  grant_type = or_default form.grant_type;
  subject_token = or_default form.subject_token;
  subject_token_type = or_default form.subject_token_type;
  actor_token = form.actor_token;
  actor_token_type = form.actor_token_type;
  audience = form.audience;
  resource = form.resource;
  scope = form.scope;
  requested_token_type = form.requested_token_type;
  client_id = form.client_id;
  client_assertion = form.client_assertion;
  client_assertion_type = form.client_assertion_type;
}

abbrev token_form_keys : List String
token_form_keys =
    "grant_type" ∷ "subject_token" ∷ "subject_token_type" ∷ "actor_token" ∷ "actor_token_type"
    ∷ "audience" ∷ "resource" ∷ "scope" ∷ "requested_token_type" ∷ "client_id" ∷ "client_assertion"
    ∷ "client_assertion_type" ∷ []

unfoldable pub is_recognized_token_form_key : String → Bool
is_recognized_token_form_key key = member key token_form_keys

unfoldable pub non_empty_form_value : String → Option String
non_empty_form_value value = if is_empty value then none else some value

unfoldable pub assign_token_form_value : TokenForm → String → String → TokenForm
assign_token_form_value form key value =
    let filled = non_empty_form_value value in
    if text_eq key "grant_type"
    then record form { grant_type = filled }
    else if text_eq key "subject_token"
    then record form { subject_token = filled }
    else if text_eq key "subject_token_type"
    then record form { subject_token_type = filled }
    else if text_eq key "actor_token"
    then (if is_empty value
        then record form { empty_actor_token_supplied = true; actor_token = none }
        else record form { actor_token = some value })
    else if text_eq key "actor_token_type"
    then record form { actor_token_type = filled }
    else if text_eq key "audience"
    then record form { audience = filled }
    else if text_eq key "resource"
    then record form { resource = filled }
    else if text_eq key "scope"
    then record form { scope = filled }
    else if text_eq key "requested_token_type"
    then record form { requested_token_type = filled }
    else if text_eq key "client_id"
    then record form { client_id = filled }
    else if text_eq key "client_assertion"
    then record form { client_assertion = filled }
    else if text_eq key "client_assertion_type"
    then record form { client_assertion_type = filled }
    else form

module _ (quoted : String → String) where
  -- One round of the loop, on the keys seen and the form so far.
  unfoldable pub take_pair :
      List String × TokenForm → String × String → Result (List String × TokenForm) HttpError
  take_pair (seen, form) (key, value) =
      if not (is_recognized_token_form_key key)
      then ok (seen, form)
      else if member key seen
      then (if text_eq key "audience" || text_eq key "resource"
          then err
              (invalid_target ("multiple " ⧺ key ⧺ " values are not supported; send one target"))
          else err (invalid_request ("parameter " ⧺ quoted key ⧺ " is included more than once")))
      else ok (key ∷ seen, assign_token_form_value form key value)

  unfoldable pub take_pairs :
      List String × TokenForm → List (String × String) → Result (List String × TokenForm) HttpError
  take_pairs state [] = ok state
  take_pairs state (pair ∷ pairs) = take_pair state pair >>= λ next. take_pairs next pairs
