-- ===== src/Tests/Authorize.antt =====
-- The authorize endpoint, for a browser with the session of "ada".
use authserver_go.Base.{
  ◌≡◌, ◌≢◌, refl, ℕ, ◌+◌, ◌*◌, Option, none, some, [], ◌∷◌, true, false, arith, string_eq, nat_eq,
  contains, not_beq→ne,
}
use authserver_go.Base.Assoc.{lookup}
use authserver_go.Base.Int.{pos}
use authserver_go.Domain.Time.{second}
use authserver_go.Domain.Entities.{AuthorizationCode, Session}
use authserver_go.Domain.Client.{Client}
use authserver_go.Store.Error.{ok}
use authserver_go.Store.AuthCodes.Laws.{row}
use authserver_go.Store.Clients.{find_by_client_id}
use authserver_go.Oidc.Stores.{Stores}
use authserver_go.Oidc.SessionResolver.{session_id}
use authserver_go.Oidc.Authorize.{
  AuthorizeHandler, AuthorizeRequest, AuthorizeMoment, code_redirect, serve, new_code,
}
use authserver_go.Oidc.Authorize.Outcome.{target, authorize_redirects_registered}
use authserver_go.Oidc.Authorize.Chosen.{SignedIn}
use authserver_go.Oidc.Authorize.Minted.{Bound, authorize_mints, authorize_binds_pkce}
use authserver_go.Tests.Data.{test_crypto, noon, app, live_session, test_stores}

abbrev server : AuthorizeHandler
server = record {
  crypto = test_crypto;
  auth_code_lifetime = pos (60 * second);
  require_pkce = false;
  parses = λ uri. true;
}

abbrev request : AuthorizeRequest
request = record {
  client_id = "app";
  redirect_uri = "https://app/cb";
  response_type = "code";
  scope = "openid";
  state = "s";
  nonce = "";
  code_challenge = "hv";
  code_challenge_method = "S256";
  prompt = "";
  max_age = "";
  cookie = session_id 5;
}

abbrev moment : AuthorizeMoment
moment = record {
  resolved = noon + second;
  aged = noon + second;
  prompted = noon + second;
  minted = noon + second;
  code_id = 4;
  opaque = some "ac2";
}

abbrev after : Stores
after = (serve server request moment test_stores).1

answered : serve server request moment test_stores ≡ (code_redirect "https://app/cb" "ac2", after)
unfolding serve authserver_go.Oidc.Authorize.serve_client authserver_go.Oidc.Authorize.issue
    authserver_go.Oidc.Authorize.choose authserver_go.Oidc.Authorize.request_error
    authserver_go.Oidc.Authorize.scopes_allowed authserver_go.Oidc.Authorize.max_age
    authserver_go.Oidc.Authorize.age_of authserver_go.Oidc.Authorize.within_age
    authserver_go.Oidc.Authorize.is_exceeded authserver_go.Oidc.Authorize.prompted
    authserver_go.Oidc.Authorize.still_valid authserver_go.Oidc.Authorize.signed_in
    authserver_go.Oidc.Authorize.session_of authserver_go.Oidc.Authorize.mint_code
    authserver_go.Oidc.Authorize.redirect authserver_go.Oidc.Authorize.new_code
    authserver_go.Oidc.Authorize.string_ptr authserver_go.Oidc.SessionResolver.resolve
    authserver_go.Oidc.SessionResolver.resolve_found authserver_go.Oidc.SessionResolver.usable
    authserver_go.Store.Sessions.find find_by_client_id lookup authserver_go.Base.Assoc.insert
    authserver_go.Store.AuthCodes.store authserver_go.Token.Crypto.new_opaque_token
    authserver_go.Token.Crypto.hash_token authserver_go.Domain.Time.add
    authserver_go.Store.Users.find_by_id authserver_go.Store.Users.build_claims_map
    authserver_go.Store.Users.claims_map authserver_go.Store.Users.with_user_claims
    authserver_go.Base.Text.fields authserver_go.Base.Text.words authserver_go.Base.Text.push_word
    authserver_go.Base.Text.is_space authserver_go.Base.Text.atoi authserver_go.Base.Int.wrap64
answered = refl

sent_home : target (serve server request moment test_stores).0 ≡ some "https://app/cb"
unfolding target serve authserver_go.Oidc.Authorize.serve_client authserver_go.Oidc.Authorize.issue
    authserver_go.Oidc.Authorize.choose authserver_go.Oidc.Authorize.request_error
    authserver_go.Oidc.Authorize.scopes_allowed authserver_go.Oidc.Authorize.max_age
    authserver_go.Oidc.Authorize.age_of authserver_go.Oidc.Authorize.within_age
    authserver_go.Oidc.Authorize.is_exceeded authserver_go.Oidc.Authorize.prompted
    authserver_go.Oidc.Authorize.still_valid authserver_go.Oidc.Authorize.signed_in
    authserver_go.Oidc.Authorize.session_of authserver_go.Oidc.Authorize.mint_code
    authserver_go.Oidc.Authorize.redirect authserver_go.Oidc.Authorize.new_code
    authserver_go.Oidc.Authorize.string_ptr authserver_go.Oidc.SessionResolver.resolve
    authserver_go.Oidc.SessionResolver.resolve_found authserver_go.Oidc.SessionResolver.usable
    authserver_go.Store.Sessions.find find_by_client_id lookup authserver_go.Base.Assoc.insert
    authserver_go.Store.AuthCodes.store authserver_go.Token.Crypto.new_opaque_token
    authserver_go.Token.Crypto.hash_token authserver_go.Domain.Time.add
    authserver_go.Store.Users.find_by_id authserver_go.Store.Users.build_claims_map
    authserver_go.Store.Users.claims_map authserver_go.Store.Users.with_user_claims
    authserver_go.Base.Text.fields authserver_go.Base.Text.words authserver_go.Base.Text.push_word
    authserver_go.Base.Text.is_space authserver_go.Base.Text.atoi authserver_go.Base.Int.wrap64
sent_home = refl

authorize_redirects_registered_example :
    (client : Client) × (find_by_client_id test_stores.clients "app" ≡ ok client)
    × (contains client.redirect_uris "https://app/cb" ≡ true)
authorize_redirects_registered_example =
    authorize_redirects_registered server request moment test_stores "https://app/cb" sent_home

authorize_mints_example :
    (client : Client) × (x : Session) × (code : AuthorizationCode) × (find_by_client_id
        test_stores.clients "app"
      ≡ ok client)
    × (contains client.redirect_uris "https://app/cb" ≡ true)
    × SignedIn test_stores.sessions (noon + second) (session_id 5) x
    × (row after.codes 4 ≡ some code)
    × Bound server request moment test_stores after "https://app/cb" "ac2" client x code
authorize_mints_example =
    authorize_mints server request moment test_stores after "https://app/cb" "ac2" answered

abbrev code : AuthorizationCode
code = new_code server app live_session request moment "hac2"

stored : row after.codes 4 ≡ some code
unfolding serve authserver_go.Oidc.Authorize.serve_client authserver_go.Oidc.Authorize.issue
    authserver_go.Oidc.Authorize.choose authserver_go.Oidc.Authorize.request_error
    authserver_go.Oidc.Authorize.scopes_allowed authserver_go.Oidc.Authorize.max_age
    authserver_go.Oidc.Authorize.age_of authserver_go.Oidc.Authorize.within_age
    authserver_go.Oidc.Authorize.is_exceeded authserver_go.Oidc.Authorize.prompted
    authserver_go.Oidc.Authorize.still_valid authserver_go.Oidc.Authorize.signed_in
    authserver_go.Oidc.Authorize.session_of authserver_go.Oidc.Authorize.mint_code
    authserver_go.Oidc.Authorize.redirect authserver_go.Oidc.Authorize.new_code
    authserver_go.Oidc.Authorize.string_ptr authserver_go.Oidc.SessionResolver.resolve
    authserver_go.Oidc.SessionResolver.resolve_found authserver_go.Oidc.SessionResolver.usable
    authserver_go.Store.Sessions.find find_by_client_id lookup authserver_go.Base.Assoc.insert
    authserver_go.Store.AuthCodes.store authserver_go.Token.Crypto.new_opaque_token
    authserver_go.Token.Crypto.hash_token authserver_go.Domain.Time.add
    authserver_go.Store.Users.find_by_id authserver_go.Store.Users.build_claims_map
    authserver_go.Store.Users.claims_map authserver_go.Store.Users.with_user_claims
    authserver_go.Base.Text.fields authserver_go.Base.Text.words authserver_go.Base.Text.push_word
    authserver_go.Base.Text.is_space authserver_go.Base.Text.atoi authserver_go.Base.Int.wrap64
stored = refl

app_found : find_by_client_id test_stores.clients "app" ≡ ok app
unfolding find_by_client_id lookup
app_found = refl

authorize_binds_pkce_example :
    (code.code_challenge ≡ some "hv") × (code.code_challenge_method ≡ some "S256")
authorize_binds_pkce_example =
    authorize_binds_pkce server request moment test_stores after "https://app/cb" "ac2" app code
      app_found refl answered stored

-- A client that need not use PKCE sends a challenge without a method.
abbrev lax_stores : Stores
lax_stores = record test_stores {
  clients = record { clients = ("app", record app { require_pkce = false }) ∷ [] };
}

abbrev bare : AuthorizeRequest
bare = record request { code_challenge_method = "" }

abbrev bare_after : Stores
bare_after = (serve server bare moment lax_stores).1

bare_answered :
    serve server bare moment lax_stores ≡ (code_redirect "https://app/cb" "ac2", bare_after)
unfolding serve authserver_go.Oidc.Authorize.serve_client authserver_go.Oidc.Authorize.issue
    authserver_go.Oidc.Authorize.choose authserver_go.Oidc.Authorize.request_error
    authserver_go.Oidc.Authorize.scopes_allowed authserver_go.Oidc.Authorize.max_age
    authserver_go.Oidc.Authorize.age_of authserver_go.Oidc.Authorize.within_age
    authserver_go.Oidc.Authorize.is_exceeded authserver_go.Oidc.Authorize.prompted
    authserver_go.Oidc.Authorize.still_valid authserver_go.Oidc.Authorize.signed_in
    authserver_go.Oidc.Authorize.session_of authserver_go.Oidc.Authorize.mint_code
    authserver_go.Oidc.Authorize.redirect authserver_go.Oidc.Authorize.new_code
    authserver_go.Oidc.Authorize.string_ptr authserver_go.Oidc.SessionResolver.resolve
    authserver_go.Oidc.SessionResolver.resolve_found authserver_go.Oidc.SessionResolver.usable
    authserver_go.Store.Sessions.find find_by_client_id lookup authserver_go.Base.Assoc.insert
    authserver_go.Store.AuthCodes.store authserver_go.Token.Crypto.new_opaque_token
    authserver_go.Token.Crypto.hash_token authserver_go.Domain.Time.add
    authserver_go.Store.Users.find_by_id authserver_go.Store.Users.build_claims_map
    authserver_go.Store.Users.claims_map authserver_go.Store.Users.with_user_claims
    authserver_go.Base.Text.fields authserver_go.Base.Text.words authserver_go.Base.Text.push_word
    authserver_go.Base.Text.is_space authserver_go.Base.Text.atoi authserver_go.Base.Int.wrap64
bare_answered = refl

abbrev bare_code : AuthorizationCode
bare_code = new_code server app live_session bare moment "hac2"

bare_stored : row bare_after.codes 4 ≡ some bare_code
unfolding serve authserver_go.Oidc.Authorize.serve_client authserver_go.Oidc.Authorize.issue
    authserver_go.Oidc.Authorize.choose authserver_go.Oidc.Authorize.request_error
    authserver_go.Oidc.Authorize.scopes_allowed authserver_go.Oidc.Authorize.max_age
    authserver_go.Oidc.Authorize.age_of authserver_go.Oidc.Authorize.within_age
    authserver_go.Oidc.Authorize.is_exceeded authserver_go.Oidc.Authorize.prompted
    authserver_go.Oidc.Authorize.still_valid authserver_go.Oidc.Authorize.signed_in
    authserver_go.Oidc.Authorize.session_of authserver_go.Oidc.Authorize.mint_code
    authserver_go.Oidc.Authorize.redirect authserver_go.Oidc.Authorize.new_code
    authserver_go.Oidc.Authorize.string_ptr authserver_go.Oidc.SessionResolver.resolve
    authserver_go.Oidc.SessionResolver.resolve_found authserver_go.Oidc.SessionResolver.usable
    authserver_go.Store.Sessions.find find_by_client_id lookup authserver_go.Base.Assoc.insert
    authserver_go.Store.AuthCodes.store authserver_go.Token.Crypto.new_opaque_token
    authserver_go.Token.Crypto.hash_token authserver_go.Domain.Time.add
    authserver_go.Store.Users.find_by_id authserver_go.Store.Users.build_claims_map
    authserver_go.Store.Users.claims_map authserver_go.Store.Users.with_user_claims
    authserver_go.Base.Text.fields authserver_go.Base.Text.words authserver_go.Base.Text.push_word
    authserver_go.Base.Text.is_space authserver_go.Base.Text.atoi authserver_go.Base.Int.wrap64
bare_stored = refl
