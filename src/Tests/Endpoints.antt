-- ===== src/Tests/Endpoints.antt =====
-- The token, revocation and authorize endpoints, and client assertions.
use authserver_go.Base.{
  ◌≡◌, ◌≢◌, refl, ℕ, ◌+◌, ◌*◌, ◌≤◌, ◌<◌, Option, none, some, [], ◌∷◌, true, false, arith, is_some,
  string_eq, nat_eq, contains, all, not_beq→ne, List, All, eq_iff, ◌==◌,
}
use authserver_go.Base.Assoc.{lookup}
use authserver_go.Base.Int.{pos}
use authserver_go.Base.Text.{fields, join}
use authserver_go.Domain.Time.{Time, second}
use authserver_go.Domain.Entities.{RefreshToken}
use authserver_go.Domain.Client.{Client}
use authserver_go.Store.Error.{ok, err, not_found}
use authserver_go.Store.Clients.{find_by_client_id}
use authserver_go.Store.RefreshTokens.{find_by_hash}
use authserver_go.Store.RefreshTokens.Laws
use authserver_go.Token.Crypto.{hash_token}
use authserver_go.Token.ClientAssertion.{
  MemAssertionCache, cache_key, check_and_store, Jwx, ClientAssertionParams, AssertionToken,
  accepted, verify_client_assertion,
}
use authserver_go.Token.ClientAssertion.Replay.{
  Call, run, Vouched, taken_after_expiry, accepted-Vouched,
}
use authserver_go.Oidc.Http.{reply, pass}
use authserver_go.Oidc.Stores.{Stores}
use authserver_go.Oidc.ClientAuth.{
  ClientAuthConfig, ClientAuthForm, AuthMoment, authenticate_client,
}
use authserver_go.Oidc.ClientAuth.Outcome.{Proof, authenticate_client-Proof}
use authserver_go.Oidc.Grants.{TokenResponse}
use authserver_go.Oidc.Grants.ClientCredentials.{
  ClientCredentialsGrant, handle, client_credentials_answers,
}
use authserver_go.Oidc.TokenEndpoint
use authserver_go.Oidc.Revoke.{RevokeHandler, serve_client}
use authserver_go.Oidc.Revoke.Outcome.{revoke_ends_session}
use authserver_go.Tests.Data.{
  test_crypto, test_issuer, noon, app, live_token, test_refresh, test_stores,
}

-- A service that signs its assertions.
abbrev service : Client
service = record app {
  client_id = "svc";
  token_endpoint_auth_method = "private_key_jwt";
  jwks_json = "keys";
  allow_client_credentials = true;
}

abbrev claims : AssertionToken
claims = record {
  issuer = "svc";
  subject = "svc";
  audience = "https://as" ∷ [];
  expiration = noon + 60 * second;
  jwt_id = "j1";
}

-- A library that takes the assertion "jwt" until a minute past its expiry.
abbrev jwx : Jwx
jwx = record {
  set_len = λ keys. some 1;
  signature_algs = λ assertion. some (some "RS256" ∷ []);
  parse_jwt = λ assertion keys skew now. some claims;
  parse_url = λ url. none;
}

abbrev params : ClientAssertionParams
params = record {
  assertion = "jwt";
  jwks_json = "keys";
  expected_issuer = "svc";
  expected_subject = "svc";
  audience = "https://as" ∷ [];
  skew = 60 * second;
}

abbrev unseen : MemAssertionCache
unseen = record { seen = [] }

abbrev seen_once : MemAssertionCache
seen_once = (verify_client_assertion jwx params noon noon unseen).1

verified : verify_client_assertion jwx params noon noon unseen ≡ (accepted claims, seen_once)
unfolding verify_client_assertion authserver_go.Token.ClientAssertion.shape_error
    authserver_go.Token.ClientAssertion.envelope_error authserver_go.Token.ClientAssertion.jws_error
    authserver_go.Token.ClientAssertion.alg_error
    authserver_go.Token.ClientAssertion.is_asymmetric_alg
    authserver_go.Token.ClientAssertion.verify_claims
    authserver_go.Token.ClientAssertion.claims_error authserver_go.Token.ClientAssertion.no_audience
    authserver_go.Token.ClientAssertion.any_audience_match
    authserver_go.Token.ClientAssertion.equal_audience
    authserver_go.Token.ClientAssertion.both_absolute authserver_go.Token.ClientAssertion.same_url
    authserver_go.Token.ClientAssertion.burn check_and_store cache_key lookup
    authserver_go.Base.Assoc.prune authserver_go.Base.Assoc.insert authserver_go.Base.Text.concat
verified = refl

accepted-Vouched_example :
    Vouched jwx params noon claims
    × ((old : Time) → lookup (cache_key "svc" "j1") unseen.seen ≡ some old → old < noon)
    × (lookup (cache_key "svc" "j1") seen_once.seen ≡ some (noon + 60 * second))
    × ((between : List Call) (exp' later : Time)
        → All (λ x. x.now ≤ noon + 60 * second) between
        → later ≤ noon + 60 * second
        → (check_and_store "svc" "j1" exp' later (run between seen_once)).0 ≡ false)
accepted-Vouched_example = accepted-Vouched jwx params noon noon claims unseen seen_once verified

first_taken : (check_and_store "svc" "j1" (noon + 60 * second) noon unseen).0 ≡ true
unfolding check_and_store lookup authserver_go.Base.Assoc.prune
first_taken = refl

abbrev another : Call
another = record { client_id = "svc"; jti = "j2"; exp = noon + 90 * second; now = noon + second }

taken_after_expiry_example :
    (check_and_store "svc" "j1"
      (noon + 60 * second)
      (noon + 61 * second)
      (check_and_store "svc" "j1" (noon + 60 * second) noon unseen).1).0
    ≡ true
taken_after_expiry_example =
    taken_after_expiry "svc" "j1" (noon + 60 * second) noon (noon + 61 * second)
      (noon + 60 * second) unseen first_taken (omega arith)

-- Client authentication.
abbrev auth : ClientAuthConfig
auth = record {
  issuer_url = "https://as";
  token_endpoint_url = "";
  assertion_skew = 60 * second;
  jwx = jwx;
}

abbrev auth_form : ClientAuthForm
auth_form = record { client_id = "app"; client_assertion_type = ""; client_assertion = "" }

abbrev auth_moment : AuthMoment
auth_moment = record { parsed = noon; burned = noon }

app_passes :
    authenticate_client auth test_stores.clients auth_form auth_moment unseen ≡ (pass app, unseen)
unfolding authenticate_client authserver_go.Oidc.ClientAuth.authenticate_found
    authserver_go.Oidc.ClientAuth.by_method
    authserver_go.Oidc.ClientAuth.authenticate_with_private_key_jwt
    authserver_go.Oidc.ClientAuth.verify_for authserver_go.Oidc.ClientAuth.of_verdict
    authserver_go.Oidc.ClientAuth.audiences authserver_go.Oidc.ClientAuth.with_url
    authserver_go.Oidc.ClientAuth.assertion_params find_by_client_id lookup
app_passes = refl

authenticate_client-Proof_example :
    (find_by_client_id test_stores.clients "app" ≡ ok app)
    × Proof auth app auth_form auth_moment unseen unseen
authenticate_client-Proof_example =
    authenticate_client-Proof auth test_stores.clients app auth_form auth_moment unseen unseen
      app_passes

-- The client_credentials grant.
abbrev credentials : ClientCredentialsGrant
credentials = record { issuer = test_issuer; access_token_lifetime = pos (3600 * second) }

abbrev service_answer : TokenResponse
service_answer = record {
  access_token = "access";
  token_type = "Bearer";
  expires_in = pos 3600;
  refresh_token = "";
  id_token = "";
  scope = "openid";
}

service_answered : handle credentials (some service) "openid" ≡ reply service_answer
unfolding handle authserver_go.Oidc.Grants.ClientCredentials.issue
    authserver_go.Oidc.Grants.ClientCredentials.permitted
    authserver_go.Oidc.Grants.ClientCredentials.access_claims fields join
    authserver_go.Base.Text.words authserver_go.Base.Text.push_word authserver_go.Base.Text.is_space
    authserver_go.Oidc.Grants.whole_seconds
service_answered = refl

-- The token endpoint, on a client_credentials request of the service.
abbrev endpoint : TokenEndpoint.TokenHandler
endpoint = record {
  auth_code = none;
  refresh = none;
  client_credentials = some credentials;
  client_auth = auth;
}

abbrev service_auth : ClientAuthForm
service_auth = record {
  client_id = "svc";
  client_assertion_type = "urn:ietf:params:oauth:client-assertion-type:jwt-bearer";
  client_assertion = "jwt";
}

abbrev token_form : TokenEndpoint.TokenForm
token_form = record {
  grant_type = "client_credentials";
  auth = service_auth;
  code = "";
  redirect_uri = "";
  code_verifier = "";
  refresh_token = "";
  scope = "openid";
}

abbrev token_request : TokenEndpoint.TokenRequest
token_request = record { is_post = true; form = some token_form }

abbrev token_moment : TokenEndpoint.TokenMoment
token_moment = record {
  auth = auth_moment;
  code = record { checked = noon; consumed = noon; minted = noon; token_id = 8; opaque = none };
  refreshed = noon;
  draws = record { token_id = 8; audit_id = 9; opaque = none };
}

abbrev service_stores : Stores
service_stores = record test_stores { clients = record { clients = ("svc", service) ∷ [] } }

abbrev token_state : TokenEndpoint.TokenState
token_state = record { stores = service_stores; cache = unseen }

abbrev token_after : TokenEndpoint.TokenState
token_after = (TokenEndpoint.serve endpoint token_request token_moment token_state).1

token_answered :
    TokenEndpoint.serve endpoint token_request token_moment token_state
    ≡ (reply service_answer, token_after)
unfolding authserver_go.Oidc.TokenEndpoint.serve authserver_go.Oidc.TokenEndpoint.serve_form
    authserver_go.Oidc.TokenEndpoint.serve_authenticated authserver_go.Oidc.TokenEndpoint.dispatch
    authserver_go.Oidc.TokenEndpoint.serve_code authserver_go.Oidc.TokenEndpoint.serve_refresh
    authserver_go.Oidc.TokenEndpoint.serve_credentials authserver_go.Oidc.TokenEndpoint.not_enabled
    authenticate_client authserver_go.Oidc.ClientAuth.authenticate_found
    authserver_go.Oidc.ClientAuth.by_method
    authserver_go.Oidc.ClientAuth.authenticate_with_private_key_jwt
    authserver_go.Oidc.ClientAuth.verify_for authserver_go.Oidc.ClientAuth.of_verdict
    authserver_go.Oidc.ClientAuth.audiences authserver_go.Oidc.ClientAuth.with_url
    authserver_go.Oidc.ClientAuth.assertion_params find_by_client_id lookup verify_client_assertion
    check_and_store cache_key authserver_go.Token.ClientAssertion.shape_error
    authserver_go.Token.ClientAssertion.envelope_error authserver_go.Token.ClientAssertion.jws_error
    authserver_go.Token.ClientAssertion.alg_error
    authserver_go.Token.ClientAssertion.is_asymmetric_alg
    authserver_go.Token.ClientAssertion.verify_claims
    authserver_go.Token.ClientAssertion.claims_error authserver_go.Token.ClientAssertion.no_audience
    authserver_go.Token.ClientAssertion.any_audience_match
    authserver_go.Token.ClientAssertion.equal_audience
    authserver_go.Token.ClientAssertion.both_absolute authserver_go.Token.ClientAssertion.same_url
    authserver_go.Token.ClientAssertion.burn authserver_go.Base.Assoc.prune
    authserver_go.Base.Assoc.insert authserver_go.Base.Text.concat handle
    authserver_go.Oidc.Grants.ClientCredentials.issue
    authserver_go.Oidc.Grants.ClientCredentials.permitted
    authserver_go.Oidc.Grants.ClientCredentials.access_claims fields join
    authserver_go.Base.Text.words authserver_go.Base.Text.push_word authserver_go.Base.Text.is_space
    authserver_go.Oidc.Grants.whole_seconds
token_answered = refl

-- Revocation.
abbrev revoker : RevokeHandler
revoker = record { crypto = test_crypto; client_auth = auth }

found_live : find_by_hash test_refresh (hash_token test_crypto "rt") ≡ ok live_token
unfolding find_by_hash hash_token lookup
found_live = refl

not_found_other : find_by_hash test_refresh (hash_token test_crypto "xx") ≡ err not_found
unfolding find_by_hash hash_token lookup
not_found_other = refl

live_stored : Laws.row test_refresh 7 ≡ some live_token
unfolding lookup
live_stored = refl

revoke_ends_session_example :
    (v : RefreshToken) × (Laws.row (serve_client revoker app "rt" noon test_stores).1.refresh 7
      ≡ some v)
    × (is_some v.revoked_at ≡ true)
revoke_ends_session_example =
    revoke_ends_session revoker app "rt" noon test_stores live_token live_token 5 7 found_live refl
      refl live_stored refl
