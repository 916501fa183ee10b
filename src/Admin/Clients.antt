-- ===== src/Admin/Clients.antt =====
-- internal/admin/api.go: the handlers of clients.
pub mod Registry
use authserver_go.Base.{
  ℕ, String, Bool, true, false, not, Option, none, some, List, map, ◌==◌, string_eq, nat_beq,
  if◌then◌else◌, is_some,
}
use authserver_go.Base.Assoc.{Assoc}
use authserver_go.Base.Int.{ℤ}
use authserver_go.Base.Text.{concat, trim_space}
use authserver_go.Domain.Client.{
  Client, ClientProfile, spa, web, m2m, custom, ClientError, client_id_required,
  unknown_auth_method, negative_lifetime, invalid_expiration, invalid_redirect_uri,
  invalid_post_logout_redirect_uri, profile, apply_profile, normalize, validate,
  auth_method_private_key_jwt,
}
use authserver_go.Domain.Paged.{PagedRequest, PagedResult}
use authserver_go.Store.Error.{Result, ok, err}
use authserver_go.Store.Clients.{ClientStore, find_by_client_id, store, delete, get_paged}
use authserver_go.Oidc.Http.{
  Response, reply, fail, panics, Check, pass, reject, ◌>>=◌, ◌>>◌, refuse_if, some_or, finish,
  finish_at, bad_request,
}
use authserver_go.Admin.{Api, found, settled}

-- A client as JSON, in requests and answers. A negative refresh_token_expiration, which Validate refuses
-- like any number above 1, stands as such a number.
pub record ClientView : Type 0 where
  pub client_id : String
  pub display_name : String
  pub profile : String
  pub redirect_uris : List String
  pub post_logout_redirect_uris : List String
  pub allowed_scopes : List String
  pub require_pkce : Bool
  pub allow_refresh_tokens : Bool
  pub allow_client_credentials : Bool
  pub token_endpoint_auth_method : String
  pub has_jwks : Bool
  pub jwks_json : String
  pub access_token_lifetime_seconds : ℤ
  pub refresh_token_lifetime_seconds : ℤ
  pub refresh_token_absolute_lifetime_seconds : ℤ
  pub refresh_token_expiration : ℕ
  pub properties : Assoc String String

unfoldable pub profile_text : ClientProfile → String
profile_text spa = "spa"
profile_text web = "web"
profile_text m2m = "m2m"
profile_text custom = "custom"

-- domain.ClientProfile of a text; ApplyProfile does nothing for one that it does not know.
unfoldable pub profile_of : String → ClientProfile
profile_of t =
    if t == "spa" then spa else if t == "web" then web else if t == "m2m" then m2m else custom

unfoldable pub to_client_view : Client → ClientView
unfolding profile_text
to_client_view c = record {
  client_id = c.client_id;
  display_name = c.display_name;
  profile = profile_text (profile c);
  redirect_uris = c.redirect_uris;
  post_logout_redirect_uris = c.post_logout_redirect_uris;
  allowed_scopes = c.allowed_scopes;
  require_pkce = c.require_pkce;
  allow_refresh_tokens = c.allow_refresh_tokens;
  allow_client_credentials = c.allow_client_credentials;
  token_endpoint_auth_method = c.token_endpoint_auth_method;
  has_jwks = not (c.jwks_json == "");
  jwks_json = "";
  access_token_lifetime_seconds = c.access_token_lifetime_seconds;
  refresh_token_lifetime_seconds = c.refresh_token_lifetime_seconds;
  refresh_token_absolute_lifetime_seconds = c.refresh_token_absolute_lifetime_seconds;
  refresh_token_expiration = c.refresh_token_expiration;
  properties = c.properties;
}

-- A client with the fields of a request, under an id.
unfoldable pub with_body : ClientView → String → Client
with_body b id = record {
  client_id = id;
  display_name = b.display_name;
  redirect_uris = b.redirect_uris;
  post_logout_redirect_uris = b.post_logout_redirect_uris;
  allowed_scopes = b.allowed_scopes;
  require_pkce = b.require_pkce;
  allow_refresh_tokens = b.allow_refresh_tokens;
  allow_client_credentials = b.allow_client_credentials;
  token_endpoint_auth_method = b.token_endpoint_auth_method;
  jwks_json = b.jwks_json;
  access_token_lifetime_seconds = b.access_token_lifetime_seconds;
  refresh_token_lifetime_seconds = b.refresh_token_lifetime_seconds;
  refresh_token_absolute_lifetime_seconds = b.refresh_token_absolute_lifetime_seconds;
  refresh_token_expiration = b.refresh_token_expiration;
  properties = b.properties;
}

-- The profile of a request, where it names one, and Normalize.
unfoldable pub shaped : ClientView → Client → Client
unfolding profile_of
shaped b c = normalize (if b.profile == "" then c else apply_profile (profile_of b.profile) c)

-- Validate's errors, without quotes and without the reason behind an address.
unfoldable pub error_text : ClientError → String
error_text client_id_required = "client_id is required"
error_text unknown_auth_method = "unknown token_endpoint_auth_method"
error_text negative_lifetime = "token lifetimes cannot be negative"
error_text invalid_expiration = "invalid refresh_token_expiration"
error_text (invalid_redirect_uri u) = concat "invalid redirect_uri " u
error_text (invalid_post_logout_redirect_uri u) = concat "invalid post_logout_redirect_uri " u

-- validateJWKS: whether it takes a text.
unfoldable pub valid_jwks : Api → String → Bool
valid_jwks h raw =
    if trim_space raw == ""
    then false
    else elim (h.jwks_keys raw) [ none ↦ false | some n ↦ not (nat_beq n 0) ]

unfoldable pub validated : Option ClientError → Check (Unit {0})
unfolding error_text
validated none = pass tt
validated (some e) = reject bad_request (error_text e) ""

-- The checks before a client is stored.
unfoldable pub check_client : Api → Client → Check (Unit {0})
unfolding validated valid_jwks
check_client h c = do
  validated (validate h.parse_url c)
  refuse_if
      (if c.token_endpoint_auth_method == auth_method_private_key_jwt
        then not (valid_jwks h c.jwks_json)
        else false)
      bad_request "jwks_json" ""

unfoldable pub stored_answer : Client → Result (Unit {0}) → Response ClientView
unfolding to_client_view
stored_answer c (ok x) = reply (to_client_view c)
stored_answer c (err e) = fail bad_request "store failed" ""

abbrev pub Answer : Type 0
Answer = Response ClientView × ClientStore

-- What both handlers end with.
unfoldable pub save : Api → Client → ClientStore → Answer
unfolding check_client stored_answer
save h c s =
    finish_at s (check_client h c)
      λ _. let (answer, s') = store (some c) s in (stored_answer c answer, s')

-- createClient. A body that does not decode is `none`.
unfoldable pub create_client : Api → Option ClientView → ClientStore → Answer
unfolding with_body shaped save
create_client h none s = (fail bad_request "invalid json" "", s)
create_client h (some b) s = save h (shaped b (with_body b b.client_id)) s

-- updateClient: the row that is found keeps its id.
unfoldable pub update_client : Api → String → Option ClientView → ClientStore → Answer
unfolding with_body shaped save found
update_client h id none s = (fail bad_request "invalid json" "", s)
update_client h id (some b) s =
    finish_at s (found "lookup failed" (find_by_client_id s id))
      λ existing. save h (shaped b (with_body b existing.client_id)) s

-- deleteClient
unfoldable pub delete_client : String → ClientStore → Response (Unit {0}) × ClientStore
unfolding settled
delete_client id s = let (answer, s') = delete id s in (settled "delete failed" answer, s')

-- getClient
unfoldable pub get_client : String → ClientStore → Response ClientView
unfolding found to_client_view
get_client id s =
    finish (found "lookup failed" (find_by_client_id s id))
      λ c. reply (record (to_client_view c) { jwks_json = c.jwks_json })

-- listClients, for the page that parsePage reads: the items and their number.
unfoldable pub list_clients : PagedRequest → ClientStore → Response (List ClientView × ℕ)
unfolding to_client_view
list_clients page s = elim (get_paged s page) [
  | none ↦ panics
  | some res ↦ reply (map to_client_view res.items, res.total_count)
]
