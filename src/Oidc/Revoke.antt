-- ===== src/Oidc/Revoke.antt =====
-- internal/oidc/revoke.go: POST /connect/revoke.
pub mod Outcome
use authserver_go.Base.{
  String, Bool, true, false, not, Option, none, some, ◌==◌, ◌!=◌, string_eq, if◌then◌else◌,
}
use authserver_go.Domain.Time.{Time}
use authserver_go.Domain.Entities.{RefreshToken}
use authserver_go.Domain.Client.{Client}
use authserver_go.Store.Error.{Result, ok, err}
use authserver_go.Store.RefreshTokens.{
  RefreshTokenStore, find_by_hash, revoke, revoke_by_session_id,
}
use authserver_go.Token.Crypto.{Crypto, hash_token}
use authserver_go.Token.ClientAssertion.{MemAssertionCache}
use authserver_go.Oidc.Http.{
  Response, reply, fail, panics, Check, pass, reject, crash, bad_request, method_not_allowed,
}
use authserver_go.Oidc.Stores.{Stores}
use authserver_go.Oidc.ClientAuth.{
  ClientAuthConfig, ClientAuthForm, AuthMoment, Authenticated, authenticate_client,
}

pub record RevokeHandler : Type 0 where
  pub crypto : Crypto
  pub client_auth : ClientAuthConfig

pub record RevokeForm : Type 0 where
  pub token : String
  pub auth : ClientAuthForm

pub record RevokeRequest : Type 0 where
  pub is_post : Bool
  pub form : Option RevokeForm

pub record RevokeState : Type 0 where
  pub stores : Stores
  pub cache : MemAssertionCache

-- The revocation of a token of one's own.
unfoldable pub revoke_own : RefreshToken → Time → RefreshTokenStore → RefreshTokenStore
revoke_own t now tokens = elim t.session_id [
  | some sid ↦ (revoke_by_session_id sid now tokens).1
  | none ↦ (revoke t.id now tokens).1
]

-- What the request does to the tokens, from FindByHash on; the answer is 200 in every case.
unfoldable pub revoke_found :
    Client → Result RefreshToken → Time → RefreshTokenStore → RefreshTokenStore
revoke_found client (err e) now tokens = tokens
revoke_found client (ok t) now tokens =
    if t.client_id != client.client_id then tokens else revoke_own t now tokens

unfoldable pub serve_client :
    RevokeHandler → Client → String → Time → Stores → Response (Unit {0}) × Stores
serve_client h client raw now s = (
  reply tt,
  record s {
    refresh = revoke_found client (find_by_hash s.refresh (hash_token h.crypto raw)) now s.refresh;
  },
)

unfoldable pub serve_authenticated :
    RevokeHandler → String → Time → Authenticated → Stores → Response (Unit {0}) × RevokeState
serve_authenticated h raw now (pass client, c) s =
    let (r, s') = serve_client h client raw now s in (r, record { stores = s'; cache = c })
serve_authenticated h raw now (reject status code desc, c) s =
    (fail status code desc, record { stores = s; cache = c })
serve_authenticated h raw now (crash, c) s = (panics, record { stores = s; cache = c })

unfoldable pub serve_form :
    RevokeHandler
    → Option RevokeForm
    → AuthMoment
    → Time
    → RevokeState
    → Response (Unit {0}) × RevokeState
serve_form h none m now st = (fail bad_request "invalid_request" "could not parse form body", st)
serve_form h (some f) m now st =
    if f.token == ""
    then (fail bad_request "invalid_request" "token is required", st)
    else serve_authenticated h f.token now
        (authenticate_client h.client_auth st.stores.clients f.auth m st.cache) st.stores

-- ServeHTTP
unfoldable pub serve :
    RevokeHandler
    → RevokeRequest
    → AuthMoment
    → Time
    → RevokeState
    → Response (Unit {0}) × RevokeState
serve h r m now st =
    if not r.is_post
    then (fail method_not_allowed "invalid_request" "method not allowed", st)
    else serve_form h r.form m now st
