-- ===== src/Cli/Exchange.antt =====
-- The request of the exchange command in crates/sts-cli/src/main.rs: its endpoint and its form. The secrets are
-- the texts of their files; the encoding of the form and the DPoP proof are left out.
use sts_delegate_rs.Prelude.{
  String, not, ◌&&◌, Option, none, some, List, [], ◌∷◌, ◌++◌, Result, ok, err, ◌>>=◌, ◌>>◌,
  refuse_if, is_empty, is_blank, trim, trim_end_matches, starts_with, ◌⧺◌,
}
use sts_delegate_rs.Core.{token_exchange_grant_type}
use sts_delegate_rs.Cli.{CliError, usage}

pub record ExchangeArgs : Type 0 where
  pub sts_url : Option String
  pub token_endpoint : Option String
  pub subject_token_type : String
  pub actor_token_type : String
  pub client_assertion_type : String
  pub client_id : Option String
  pub audience : List String
  pub resource : List String
  pub scope : Option String
  pub requested_token_type : Option String

pub record ExchangeSecrets : Type 0 where
  pub subject_token : String
  pub actor_token : Option String
  pub client_assertion : Option String

abbrev Form : Type 0
Form = List (String × String)

abbrev endpoint_of : Option String → Option String → Result String CliError
endpoint_of (some token_endpoint) sts_url = ok (trim token_endpoint)
endpoint_of none (some sts_url) = ok (trim_end_matches b'/' (trim sts_url) ⧺ "/token")
endpoint_of none none = err (usage "exchange requires --sts-url or --token-endpoint")

unfoldable pub resolve_token_endpoint : ExchangeArgs → Result String CliError
resolve_token_endpoint args = do
  endpoint ← endpoint_of args.token_endpoint args.sts_url
  refuse_if (is_empty endpoint) (usage "exchange token endpoint must not be empty")
  refuse_if (not (starts_with endpoint "https://") && not (starts_with endpoint "http://"))
      (usage "exchange token endpoint must be an http or https URL")
  ok endpoint

unfoldable pub push_form_param : String → String → Form → Result Form CliError
push_form_param name value form = do
  refuse_if (is_blank value) (usage ("exchange parameter " ⧺ name ⧺ " must not be empty"))
  ok (form ++ ((name, value) ∷ []))

abbrev push_optional : String → Option String → Form → Result Form CliError
push_optional name none form = ok form
push_optional name (some value) form = push_form_param name value form

-- A token with its type.
abbrev push_typed : String → Option String → String → Form → Result Form CliError
push_typed name none kind form = ok form
push_typed name (some value) kind form =
    push_form_param name value form >>= push_form_param (name ⧺ "_type") kind

unfoldable pub push_all : String → List String → Form → Result Form CliError
push_all name [] form = ok form
push_all name (value ∷ more) form = push_form_param name value form >>= push_all name more

unfoldable pub exchange_form : ExchangeArgs → ExchangeSecrets → Result Form CliError
exchange_form args secrets =
    push_form_param "grant_type" token_exchange_grant_type []
    >>= push_form_param "subject_token" secrets.subject_token
    >>= push_form_param "subject_token_type" args.subject_token_type
    >>= push_typed "actor_token" secrets.actor_token args.actor_token_type
    >>= push_typed "client_assertion" secrets.client_assertion args.client_assertion_type
    >>= push_optional "client_id" args.client_id
    >>= push_all "audience" args.audience
    >>= push_all "resource" args.resource
    >>= push_optional "scope" args.scope
    >>= push_optional "requested_token_type" args.requested_token_type
