-- ===== src/Oidc/TokenEndpoint.antt =====
-- internal/oidc/token.go: POST /connect/token, which authenticates the client and hands it to the
-- grant.
pub mod Outcome
use authserver_go.Base.{
  String, Bool, true, false, not, Option, none, some, ◌==◌, string_eq, if◌then◌else◌,
}
use authserver_go.Domain.Client.{Client}
use authserver_go.Token.ClientAssertion.{MemAssertionCache}
use authserver_go.Oidc.Http.{
  Response, reply, fail, panics, Check, pass, reject, crash, bad_request, method_not_allowed,
}
use authserver_go.Oidc.Stores.{Stores}
use authserver_go.Oidc.ClientAuth.{
  ClientAuthConfig, ClientAuthForm, AuthMoment, Authenticated, authenticate_client,
}
use authserver_go.Oidc.Grants.{TokenResponse}
use authserver_go.Oidc.Grants.Refresh
use authserver_go.Oidc.Grants.AuthCode
use authserver_go.Oidc.Grants.ClientCredentials
use authserver_go.Domain.Time.{Time}

-- A grant that is nil is not enabled.
pub record TokenHandler : Type 0 where
  pub auth_code : Option AuthCode.AuthCodeGrant
  pub refresh : Option Refresh.RefreshGrant
  pub client_credentials : Option ClientCredentials.ClientCredentialsGrant
  pub client_auth : ClientAuthConfig

-- The parsed form: what each reader of it gets.
pub record TokenForm : Type 0 where
  pub grant_type : String
  pub auth : ClientAuthForm
  pub code : String
  pub redirect_uri : String
  pub code_verifier : String
  pub refresh_token : String
  pub scope : String

-- A request: whether its method is POST, and its form where ParseForm takes it.
pub record TokenRequest : Type 0 where
  pub is_post : Bool
  pub form : Option TokenForm

-- The clock readings and draws of a request.
pub record TokenMoment : Type 0 where
  pub auth : AuthMoment
  pub code : AuthCode.Moment
  pub refreshed : Time
  pub draws : Refresh.Draws

-- What a request changes: the stores and the replay cache.
pub record TokenState : Type 0 where
  pub stores : Stores
  pub cache : MemAssertionCache

abbrev pub code_form : TokenForm → AuthCode.AuthCodeForm
code_form f = record {
  client_id = f.auth.client_id;
  code = f.code;
  redirect_uri = f.redirect_uri;
  code_verifier = f.code_verifier;
}

abbrev pub refresh_form : TokenForm → Refresh.RefreshForm
refresh_form f = record {
  refresh_token = f.refresh_token;
  client_id = f.auth.client_id;
  scope = f.scope;
}

abbrev pub Served : Type 0
Served = Response TokenResponse × Stores

unfoldable pub not_enabled : String → Stores → Served
not_enabled description s = (fail bad_request "unsupported_grant_type" description, s)

unfoldable pub serve_code : TokenHandler → Client → TokenForm → TokenMoment → Stores → Served
unfolding not_enabled
serve_code h client f m s = elim h.auth_code [
  | none ↦ not_enabled "authorization_code grant not enabled" s
  | some g ↦ AuthCode.handle g (some client) (code_form f) m.code s
]

unfoldable pub serve_refresh : TokenHandler → Client → TokenForm → TokenMoment → Stores → Served
unfolding not_enabled
serve_refresh h client f m s = elim h.refresh [
  | none ↦ not_enabled "refresh_token grant not enabled" s
  | some g ↦ Refresh.handle g (some client) (refresh_form f) m.draws m.refreshed s
]

unfoldable pub serve_credentials : TokenHandler → Client → TokenForm → Stores → Served
unfolding not_enabled
serve_credentials h client f s = elim h.client_credentials [
  | none ↦ not_enabled "client_credentials grant not enabled" s
  | some g ↦ (ClientCredentials.handle g (some client) f.scope, s)
]

-- The switch on grant_type.
unfoldable pub dispatch : TokenHandler → Client → TokenForm → TokenMoment → Stores → Served
unfolding not_enabled
dispatch h client f m s =
    if f.grant_type == "authorization_code"
    then serve_code h client f m s
    else if f.grant_type == "refresh_token"
    then serve_refresh h client f m s
    else if f.grant_type == "client_credentials"
    then serve_credentials h client f s
    else not_enabled "unsupported grant_type" s

abbrev pub with_cache : MemAssertionCache → Served → Response TokenResponse × TokenState
with_cache c (r, s) = (r, record { stores = s; cache = c })

unfoldable pub serve_authenticated :
    TokenHandler
    → TokenForm
    → TokenMoment
    → Authenticated
    → Stores
    → Response TokenResponse × TokenState
serve_authenticated h f m (pass client, c) s = with_cache c (dispatch h client f m s)
serve_authenticated h f m (reject status code desc, c) s = with_cache c (fail status code desc, s)
serve_authenticated h f m (crash, c) s = with_cache c (panics, s)

unfoldable pub serve_form :
    TokenHandler → Option TokenForm → TokenMoment → TokenState → Response TokenResponse × TokenState
serve_form h none m st = (fail bad_request "invalid_request" "could not parse form body", st)
serve_form h (some f) m st =
    serve_authenticated h f m
      (authenticate_client h.client_auth st.stores.clients f.auth m.auth st.cache) st.stores

-- ServeHTTP
unfoldable pub serve :
    TokenHandler → TokenRequest → TokenMoment → TokenState → Response TokenResponse × TokenState
serve h r m st =
    if not r.is_post
    then (fail method_not_allowed "invalid_request" "method not allowed", st)
    else serve_form h r.form m st
