-- ===== src/Oidc/ClientAuth.antt =====
-- internal/oidc/clientauth.go: AuthenticateClient, and the answer of writeClientAuthError. The
-- description and the cause of a failure are only logged.
pub mod Outcome
use authserver_go.Base.{
  ℕ, String, ◌≡◌, Bool, true, false, Option, none, some, List, [], ◌∷◌, ◌==◌, ◌!=◌, string_eq,
  if◌then◌else◌, ap, sym, refl, Option-cases, Bool-cases, inl, inr, ◌⊎◌, eq_iff, arith,
}
use authserver_go.Base.Assoc.{lookup}
use authserver_go.Domain.Time.{Time}
use authserver_go.Domain.Client.{Client, auth_method_none, auth_method_private_key_jwt}
use authserver_go.Store.Error.{Result, ok, err}
use authserver_go.Store.Clients.{ClientStore, find_by_client_id}
use authserver_go.Token.ClientAssertion.{
  MemAssertionCache, Jwx, ClientAssertionParams, AssertionToken, Verdict, accepted, refused,
  client_assertion_type, verify_client_assertion,
}
use authserver_go.Oidc.Http.{Check, pass, reject, unauthorized, internal_error}

pub record ClientAuthConfig : Type 0 where
  pub issuer_url : String
  pub token_endpoint_url : String
  pub assertion_skew : ℕ
  pub jwx : Jwx

-- form.Get of the parameters; "" where one is absent.
pub record ClientAuthForm : Type 0 where
  pub client_id : String
  pub client_assertion_type : String
  pub client_assertion : String

-- The clock readings of jwt.Parse and of the replay cache.
pub record AuthMoment : Type 0 where
  pub parsed : Time
  pub burned : Time

abbrev pub Authenticated : Type 0
Authenticated = Check Client × MemAssertionCache

abbrev pub client_auth_failed {ℓ} : {A : Type ℓ} → ℕ → String → Check A
client_auth_failed status code = reject status code "client authentication failed"

unfoldable pub with_url : String → List String → List String
with_url url rest = if url == "" then rest else url ∷ rest

unfoldable pub audiences : ClientAuthConfig → List String
unfolding with_url
audiences cfg = with_url cfg.issuer_url (with_url cfg.token_endpoint_url [])

unfoldable pub assertion_params : ClientAuthConfig → Client → ClientAuthForm → ClientAssertionParams
assertion_params cfg client form = record {
  assertion = form.client_assertion;
  jwks_json = client.jwks_json;
  expected_issuer = client.client_id;
  expected_subject = client.client_id;
  audience = audiences cfg;
  skew = cfg.assertion_skew;
}

unfoldable pub of_verdict : Client → Verdict × MemAssertionCache → Authenticated
of_verdict client (accepted t, c) = (pass client, c)
of_verdict client (refused e, c) = (client_auth_failed unauthorized "invalid_client", c)

-- authenticateWithPrivateKeyJWT, from the list of audiences on.
unfoldable pub verify_for :
    ClientAuthConfig
    → Client
    → ClientAuthForm
    → AuthMoment
    → List String
    → MemAssertionCache
    → Authenticated
verify_for cfg client form m [] c = (client_auth_failed internal_error "server_error", c)
verify_for cfg client form m (x ∷ xs) c =
    of_verdict client
      (verify_client_assertion cfg.jwx (assertion_params cfg client form) m.parsed m.burned c)

unfoldable pub authenticate_with_private_key_jwt :
    ClientAuthConfig → Client → ClientAuthForm → AuthMoment → MemAssertionCache → Authenticated
authenticate_with_private_key_jwt cfg client form m c =
    if form.client_assertion_type == ""
    then (client_auth_failed unauthorized "invalid_client", c)
    else if form.client_assertion_type != client_assertion_type
    then (client_auth_failed unauthorized "invalid_client", c)
    else if form.client_assertion == ""
    then (client_auth_failed unauthorized "invalid_client", c)
    else verify_for cfg client form m (audiences cfg) c

-- The switch on the client's method.
unfoldable pub by_method :
    ClientAuthConfig → Client → ClientAuthForm → AuthMoment → MemAssertionCache → Authenticated
by_method cfg client form m c =
    if client.token_endpoint_auth_method == auth_method_none
    then (pass client, c)
    else if client.token_endpoint_auth_method == auth_method_private_key_jwt
    then authenticate_with_private_key_jwt cfg client form m c
    else (client_auth_failed unauthorized "invalid_client", c)

unfoldable pub authenticate_found :
    ClientAuthConfig
    → Result Client
    → ClientAuthForm
    → AuthMoment
    → MemAssertionCache
    → Authenticated
authenticate_found cfg (err e) form m c = (client_auth_failed unauthorized "invalid_client", c)
authenticate_found cfg (ok client) form m c = by_method cfg client form m c

unfoldable pub authenticate_client :
    ClientAuthConfig → ClientStore → ClientAuthForm → AuthMoment → MemAssertionCache → Authenticated
authenticate_client cfg clients form m c =
    if form.client_id == ""
    then (client_auth_failed unauthorized "invalid_client", c)
    else authenticate_found cfg (find_by_client_id clients form.client_id) form m c
