-- ===== src/Oidc/Grants/AuthCode.antt =====
-- internal/oidc/grants/authcode.go: the authorization_code grant, cut where it changes a store.
pub mod Outcome
pub mod Panic
pub mod Rejected
use authserver_go.Base.{
  ℕ, String, Bool, true, false, ◌&&◌, ◌||◌, Option, none, some, List, contains, ◌==◌, ◌!=◌,
  string_eq, nat_eq, if◌then◌else◌, is_some,
}
use authserver_go.Base.Int.{ℤ}
use authserver_go.Base.Text.{fields}
use authserver_go.Domain.Time.{Time, Uuid, add, after}
use authserver_go.Domain.Entities.{AuthorizationCode, RefreshToken, UserInfo}
use authserver_go.Domain.Client.{
  Client, access_token_lifetime, refresh_token_lifetime, refresh_token_absolute_lifetime,
  expiration_absolute,
}
use authserver_go.Store.Error.{Result, ok, err}
use authserver_go.Store.AuthCodes.{AuthorizationCodeStore, find_by_hash, mark_consumed}
use authserver_go.Store.RefreshTokens
use authserver_go.Store.Users
use authserver_go.Token.Crypto.{Crypto, hash_token, hash_access_token, new_opaque_token}
use authserver_go.Token.Pkce.{PkceError, verify_s256}
use authserver_go.Token.Claims.{Issuer, AccessTokenClaims}
use authserver_go.Oidc.Http.{
  Response, reply, fail, panics, Check, pass, reject, crash, ◌>>=◌, ◌>>◌, refuse_if, some_or, ok_or,
  finish_at, bad_request, unauthorized, internal_error,
}
use authserver_go.Oidc.Stores.{Stores}
use authserver_go.Oidc.Grants.{TokenResponse, build_id_claims, whole_seconds}

pub record AuthCodeGrant : Type 0 where
  pub crypto : Crypto
  pub issuer : Issuer
  pub id_token_lifetime : ℤ

pub record AuthCodeForm : Type 0 where
  pub client_id : String
  pub code : String
  pub redirect_uri : String
  pub code_verifier : String

-- The three readings of the clock, and what is drawn for a refresh token.
pub record Moment : Type 0 where
  pub checked : Time
  pub consumed : Time
  pub minted : Time
  pub token_id : Uuid
  pub opaque : Option String

-- The PKCE check. A code with a challenge and no method makes Handle dereference a nil pointer.
unfoldable pub check_pkce : Crypto → AuthorizationCode → String → Check (Unit {0})
check_pkce crypto code verifier = elim code.code_challenge [
  | none ↦ pass tt
  | some challenge ↦ elim code.code_challenge_method [
    | none ↦ crash
    | some method ↦
        refuse_if (is_some (verify_s256 crypto method verifier challenge)) bad_request
          "invalid_grant" "PKCE verification failed"
  ]
]

-- Handle, down to MarkConsumed.
unfoldable pub present :
    AuthCodeGrant
    → Option Client
    → AuthCodeForm
    → Time
    → AuthorizationCodeStore
    → Check (Client × AuthorizationCode)
present g authenticated form now codes = do
  refuse_if (form.client_id == "" || form.code == "" || form.redirect_uri == "") bad_request
      "invalid_request" "client_id, code, redirect_uri are required"
  client ← some_or authenticated unauthorized "invalid_client" "client authentication required"
  refuse_if (client.client_id != form.client_id) unauthorized "invalid_client"
      "client_id mismatch with authenticated client"
  code ←
      ok_or (find_by_hash codes (hash_token g.crypto form.code)) bad_request "invalid_grant"
        "authorization code is invalid"
  refuse_if (after now code.expires_at) bad_request "invalid_grant" "authorization code expired"
  refuse_if (code.client_id != client.client_id) bad_request "invalid_grant"
      "code was issued to a different client"
  refuse_if (code.redirect_uri != form.redirect_uri) bad_request "invalid_grant"
      "redirect_uri mismatch"
  check_pkce g.crypto code form.code_verifier
  pass (client, code)

abbrev pub or_empty : Option String → String
or_empty none = ""
or_empty (some x) = x

unfoldable pub access_claims : Client → AuthorizationCode → UserInfo → AccessTokenClaims
access_claims client code info = record {
  subject = info.user_id;
  client_id = client.client_id;
  scope = code.scope;
  auth_time = some code.created_at;
  expires_in = access_token_lifetime client;
}

unfoldable pub sign_access : AuthCodeGrant → Client → AuthorizationCode → UserInfo → Check String
unfolding access_claims
sign_access g client code info =
    some_or (g.issuer.issue_access_token (access_claims client code info)) internal_error
      "server_error" "access token issuance failed"

unfoldable pub sign_id :
    AuthCodeGrant → Client → AuthorizationCode → UserInfo → String → Check String
sign_id g client code info access =
    some_or
      (g.issuer.issue_id_token (record {
        subject = info.user_id;
        client_id = client.client_id;
        scope = code.scope;
        nonce = or_empty code.nonce;
        auth_time = code.created_at;
        at_hash = hash_access_token g.crypto access;
        claims = build_id_claims info (fields code.scope);
        expires_in = g.id_token_lifetime;
      }))
      internal_error "server_error" "id token issuance failed"

-- The refresh token that starts a chain.
unfoldable pub first_token :
    Client → AuthorizationCode → UserInfo → Time → Uuid → String → RefreshToken
first_token client code info now id hash = record {
  id = id;
  token_hash = hash;
  client_id = client.client_id;
  user_id = info.user_id;
  session_id = code.session_id;
  parent_token_id = none;
  scope = code.scope;
  expires_at =
      if client.refresh_token_expiration == expiration_absolute
      then add now (refresh_token_absolute_lifetime client)
      else add now (refresh_token_lifetime client);
  absolute_expires_at = add now (refresh_token_absolute_lifetime client);
  consumed_at = none;
  revoked_at = none;
  created_at = now;
}

unfoldable pub mint_refresh :
    AuthCodeGrant
    → Client
    → AuthorizationCode
    → UserInfo
    → Moment
    → Check (String × Option RefreshToken)
mint_refresh g client code info moment =
    if client.allow_refresh_tokens && contains (fields code.scope) "offline_access"
    then (do
      (raw, hash) ←
          some_or (new_opaque_token g.crypto moment.opaque) internal_error "server_error"
            "refresh token mint failed"
      pass (raw, some (first_token client code info moment.minted moment.token_id hash)))
    else pass ("", none)

pub record Minted : Type 0 where
  pub response : TokenResponse
  pub next_token : Option RefreshToken

unfoldable pub minted :
    Client → AuthorizationCode → String → String → String → Option RefreshToken → Minted
minted client code access id_token raw next_token = record {
  response = record {
    access_token = access;
    token_type = "Bearer";
    expires_in = whole_seconds (access_token_lifetime client);
    refresh_token = raw;
    id_token = id_token;
    scope = code.scope;
  };
  next_token = next_token;
}

-- Handle, from the user lookup to the final Store.
unfoldable pub mint : AuthCodeGrant → Client → AuthorizationCode → Moment → Stores → Check Minted
mint g client code moment s = do
  info ←
      ok_or (Users.find_by_id s.users code.user_id) internal_error "server_error"
        "user lookup failed"
  access ← sign_access g client code info
  id_token ← sign_id g client code info access
  (raw, next_token) ← mint_refresh g client code info moment
  pass (minted client code access id_token raw next_token)

unfoldable pub deliver : Minted → Stores → Response TokenResponse × Stores
deliver m s = elim m.next_token [
  | none ↦ (reply m.response, s)
  | some t ↦
      let (r, tokens) = RefreshTokens.store (some t) s.refresh in
      elim r [
        | err e ↦ (
          fail internal_error "server_error" "refresh token store failed",
          record s { refresh = tokens },
        )
        | ok _ ↦ (reply m.response, record s { refresh = tokens })
      ]
]

-- What follows MarkConsumed.
unfoldable pub redeem :
    AuthCodeGrant
    → Client
    → AuthorizationCode
    → Moment
    → Result Bool
    → Stores
    → Response TokenResponse × Stores
redeem g client code moment (err e) s =
    (fail internal_error "server_error" "could not record code consumption", s)
redeem g client code moment (ok false) s =
    (fail bad_request "invalid_grant" "authorization code already used", s)
redeem g client code moment (ok true) s =
    finish_at s (mint g client code moment s) (λ m. deliver m s)

unfoldable pub handle :
    AuthCodeGrant → Option Client → AuthCodeForm → Moment → Stores → Response TokenResponse × Stores
unfolding redeem
handle g authenticated form moment s =
    finish_at s (present g authenticated form moment.checked s.codes) λ found.
      let (client, code) = found in
      let (won, codes) = mark_consumed code.id moment.consumed s.codes in
      redeem g client code moment won (record s { codes = codes })
