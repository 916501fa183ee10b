-- ===== src/Oidc/Grants/ClientCredentials.antt =====
-- internal/oidc/grants/clientcreds.go: the client_credentials grant, which changes no store. The
-- description of a refused scope, which quotes the scope, is left out.
use authserver_go.Base.{
  String, ◌≡◌, true, false, not, Option, none, some, List, all, contains, ◌==◌, string_eq, arith,
}
use authserver_go.Base.Int.{ℤ}
use authserver_go.Base.Text.{fields, join}
use authserver_go.Domain.Client.{Client, auth_method_none}
use authserver_go.Token.Claims.{Issuer, AccessTokenClaims}
use authserver_go.Oidc.Http.{
  Response, reply, Check, pass, ◌>>=◌, ◌>>◌, refuse_if, some_or, finish, bad_request, unauthorized,
  internal_error, >>=-pass, some_or-pass,
}
use authserver_go.Oidc.Grants.{TokenResponse, whole_seconds}

pub record ClientCredentialsGrant : Type 0 where
  pub issuer : Issuer
  pub access_token_lifetime : ℤ

unfoldable pub access_claims : ClientCredentialsGrant → Client → List String → AccessTokenClaims
access_claims g client requested = record {
  subject = client.client_id;
  client_id = client.client_id;
  scope = join requested;
  auth_time = none;
  expires_in = g.access_token_lifetime;
}

unfoldable pub permitted : Client → List String → Check (Unit {0})
permitted client requested = do
  refuse_if (client.token_endpoint_auth_method == auth_method_none) unauthorized
      "unauthorized_client" "client_credentials requires a confidential client"
  refuse_if (not client.allow_client_credentials) unauthorized "unauthorized_client"
      "client is not allowed to use client_credentials"
  refuse_if (not (all (λ s. contains client.allowed_scopes s) requested)) bad_request
      "invalid_scope" "scope is not allowed for this client"

unfoldable pub issue : ClientCredentialsGrant → Client → List String → Check TokenResponse
unfolding access_claims
issue g client requested = do
  permitted client requested
  access ←
      some_or (g.issuer.issue_access_token (access_claims g client requested)) internal_error
        "server_error" "access token issuance failed"
  pass (record {
    access_token = access;
    token_type = "Bearer";
    expires_in = whole_seconds g.access_token_lifetime;
    refresh_token = "";
    id_token = "";
    scope = join requested;
  })

unfoldable pub handle : ClientCredentialsGrant → Option Client → String → Response TokenResponse
handle g authenticated scope =
    finish
      (some_or authenticated unauthorized "invalid_client" "client is required" >>= λ client.
        issue g client (fields scope))
      (λ r. reply r)

permitted-pass :
    (client : Client) (requested : List String)
    → permitted client requested ≡ pass tt
    → ((client.token_endpoint_auth_method == auth_method_none) ≡ false)
      × (client.allow_client_credentials ≡ true)
      × (all (λ s. contains client.allowed_scopes s) requested ≡ true)
unfolding permitted
permitted-pass client requested h = ground (arith, h)

finish-reply :
    (c : Check TokenResponse) (r : TokenResponse) → finish c (λ x. reply x) ≡ reply r → c ≡ pass r
finish-reply (pass a) r h = cc h
finish-reply (Check.reject status code desc) r h = cc
finish-reply Check.crash r h = cc

-- A client_credentials request is answered only for an authenticated, confidential client that may
-- use the grant, and only with scopes that the client is allowed; the access token is about the
-- client itself, with no time of authentication, and neither a refresh token nor an ID token comes
-- with it.
pub client_credentials_answers :
    (g : ClientCredentialsGrant) (authenticated : Option Client) (scope : String)
    (r : TokenResponse)
    → handle g authenticated scope ≡ reply r
    → (client : Client) × (authenticated ≡ some client)
      × ((client.token_endpoint_auth_method == auth_method_none) ≡ false)
      × (client.allow_client_credentials ≡ true)
      × (all (λ s. contains client.allowed_scopes s) (fields scope) ≡ true)
      × (g.issuer.issue_access_token (record {
        subject = client.client_id;
        client_id = client.client_id;
        scope = join (fields scope);
        auth_time = none;
        expires_in = g.access_token_lifetime;
      })
          ≡ some r.access_token)
      × (r.refresh_token ≡ "")
      × (r.id_token ≡ "")
unfolding handle issue access_claims
client_credentials_answers g authenticated scope r h =
    let (client, named, h1) =
      >>=-pass (some_or authenticated unauthorized "invalid_client" "client is required") _ r
        (finish-reply _ r h) in
    let (_, fine, h2) = >>=-pass (permitted client (fields scope)) _ r h1 in
    let (access, signed, h3) =
      >>=-pass
        (some_or (g.issuer.issue_access_token (access_claims g client (fields scope)))
          internal_error "server_error" "access token issuance failed")
        _ r h2 in
    let (confidential, allowed, scopes) = permitted-pass client (fields scope) fine in
    (
      client,
      some_or-pass authenticated unauthorized "invalid_client" "client is required" client named,
      confidential,
      allowed,
      scopes,
      cc (
        some_or-pass (g.issuer.issue_access_token (access_claims g client (fields scope)))
            internal_error "server_error" "access token issuance failed" access signed,
        h3,
      ),
      cc h3,
      cc h3,
    )
