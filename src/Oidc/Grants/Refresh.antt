-- ===== src/Oidc/Grants/Refresh.antt =====
-- internal/oidc/grants/refresh.go: the refresh_token grant. Handle is cut where it changes a store:
-- the checks before MarkConsumed, the checks and the minting after it, and the final Store.
pub mod Chain
pub mod Outcome
pub mod Success
pub mod Rotation
pub mod Rejected
pub mod AuthTime
use authserver_go.Base.{
  ℕ, zero, suc, String, Bool, true, false, not, ◌&&◌, ◌||◌, Option, none, some, List, [], ◌∷◌, all,
  contains, ◌==◌, ◌!=◌, string_eq, nat_eq, if◌then◌else◌, is_some,
}
use authserver_go.Base.Int.{ℤ}
use authserver_go.Base.Text.{fields, join, concat}
use authserver_go.Domain.Time.{Time, Uuid, add, before, after}
use authserver_go.Domain.Entities.{RefreshToken, UserInfo, AuditLog}
use authserver_go.Domain.Client.{
  Client, access_token_lifetime, refresh_token_lifetime, refresh_token_absolute_lifetime,
  expiration_absolute,
}
use authserver_go.Store.Error.{Result, ok, err, StoreError}
use authserver_go.Store.RefreshTokens.{
  RefreshTokenStore, store, find_by_hash, find_by_id, mark_consumed, revoke, revoke_by_session_id,
}
use authserver_go.Store.AuditLogs
use authserver_go.Store.Users
use authserver_go.Token.Crypto.{Crypto, hash_token, hash_access_token, new_opaque_token}
use authserver_go.Token.Claims.{Issuer, AccessTokenClaims}
use authserver_go.Oidc.Http.{
  Response, reply, fail, panics, Check, pass, reject, crash, ◌>>=◌, ◌>>◌, refuse_if, some_or, ok_or,
  finish_at, bad_request, unauthorized, internal_error,
}
use authserver_go.Oidc.Stores.{Stores}
use authserver_go.Oidc.Grants.{TokenResponse, build_id_claims, whole_seconds}

abbrev pub refresh_token_reuse_audit : String
refresh_token_reuse_audit = "RefreshTokenReuseDetected"

-- `audited` tells whether AuditLogs is set; `uuid_string` is google/uuid's String.
pub record RefreshGrant : Type 0 where
  pub crypto : Crypto
  pub issuer : Issuer
  pub uuid_string : Uuid → String
  pub audited : Bool
  pub id_token_lifetime : ℤ
  pub detect_reuse : Bool

-- form.Get of the parameters; "" where one is absent.
pub record RefreshForm : Type 0 where
  pub refresh_token : String
  pub client_id : String
  pub scope : String

-- What one request draws: the ids of the new token and of an audit entry, and the random text of the
-- new token.
pub record Draws : Type 0 where
  pub token_id : Uuid
  pub audit_id : Uuid
  pub opaque : Option String

-- A token that has been revoked or has outlived one of its two expiries.
unfoldable pub check_usable : RefreshToken → Time → Check (Unit {0})
check_usable t now = do
  refuse_if (is_some t.revoked_at) bad_request "invalid_grant" "refresh token has been revoked"
  refuse_if (after now t.absolute_expires_at) bad_request "invalid_grant"
      "refresh token has expired"
  refuse_if (before t.expires_at now) bad_request "invalid_grant"
      "refresh token sliding expiry has elapsed"

-- Handle, down to MarkConsumed.
unfoldable pub present :
    RefreshGrant
    → Option Client
    → RefreshForm
    → Time
    → RefreshTokenStore
    → Check (Client × RefreshToken)
unfolding check_usable
present g authenticated form now tokens = do
  refuse_if (form.refresh_token == "" || form.client_id == "") bad_request "invalid_request"
      "refresh_token and client_id are required"
  client ← some_or authenticated unauthorized "invalid_client" "client authentication required"
  refuse_if (client.client_id != form.client_id) bad_request "invalid_grant"
      "client_id mismatch with authenticated client"
  existing ←
      ok_or (find_by_hash tokens (hash_token g.crypto form.refresh_token)) bad_request
        "invalid_grant" "refresh token is invalid"
  refuse_if (existing.client_id != client.client_id) bad_request "invalid_grant"
      "refresh token was issued to a different client"
  check_usable existing now
  pass (client, existing)

-- subset(a, b)
unfoldable pub subset : List String → List String → Bool
subset a b = all (λ x. contains b x) a

-- The scope of the new tokens and its words: what was granted, or the requested subset of it.
unfoldable pub down_scope : String → String → Check (String × List String)
unfolding subset
down_scope granted_scope requested_scope =
    let granted = fields granted_scope in
    let requested = fields requested_scope in
    if requested_scope == ""
    then pass (granted_scope, granted)
    else if subset requested granted
    then pass (join requested, requested)
    else reject bad_request "invalid_scope" "requested scope is broader than the granted scope"

abbrev pub max_depth : ℕ
max_depth = 1000

-- The loop of chainRootCreatedAt, with the rounds that are left.
unfoldable pub chain_walk : RefreshTokenStore → ℕ → RefreshToken → Time
chain_walk s zero cur = cur.created_at
chain_walk s (suc n) cur = elim cur.parent_token_id [
  | none ↦ cur.created_at
  | some p ↦ elim (find_by_id s p) [ err e ↦ cur.created_at | ok parent ↦ chain_walk s n parent ]
]

unfoldable pub chain_root_created_at : RefreshTokenStore → RefreshToken → Time
chain_root_created_at s start = chain_walk s max_depth start

unfoldable pub rotated_expiry : Client → RefreshToken → Time → Time
rotated_expiry client existing now =
    if client.refresh_token_expiration == expiration_absolute
    then add now (refresh_token_absolute_lifetime client)
    else let expires_at = add now (refresh_token_lifetime client) in
      if after expires_at existing.absolute_expires_at
      then existing.absolute_expires_at
      else expires_at

-- The token that a rotation stores.
unfoldable pub rotated : Client → RefreshToken → Time → String → Uuid → String → RefreshToken
rotated client existing now scope id hash = record {
  id = id;
  token_hash = hash;
  client_id = client.client_id;
  user_id = existing.user_id;
  session_id = existing.session_id;
  parent_token_id = some existing.id;
  scope = scope;
  expires_at = rotated_expiry client existing now;
  absolute_expires_at = existing.absolute_expires_at;
  consumed_at = none;
  revoked_at = none;
  created_at = now;
}

-- What the minting part of Handle hands out: the answer, and the token to store.
pub record Minted : Type 0 where
  pub response : TokenResponse
  pub next_token : Option RefreshToken

-- The ID token, where openid is granted.
unfoldable pub mint_id_token :
    RefreshGrant
    → Client
    → RefreshToken
    → UserInfo
    → String
    → List String
    → Time
    → String
    → Check String
mint_id_token g client existing info scope granted auth_time access =
    if contains granted "openid"
    then some_or
        (g.issuer.issue_id_token (record {
          subject = existing.user_id;
          client_id = client.client_id;
          scope = scope;
          nonce = "";
          auth_time = auth_time;
          at_hash = hash_access_token g.crypto access;
          claims = build_id_claims info granted;
          expires_in = g.id_token_lifetime;
        }))
        internal_error "server_error" "id token issuance failed"
    else pass ""

-- The rotation: the raw text for the client and the row to store, where offline_access is granted.
unfoldable pub mint_refresh :
    RefreshGrant
    → Client
    → RefreshToken
    → Draws
    → Time
    → String
    → List String
    → Check (String × Option RefreshToken)
mint_refresh g client existing draws now scope granted =
    if client.allow_refresh_tokens && contains granted "offline_access"
    then (do
      (raw, hash) ←
          some_or (new_opaque_token g.crypto draws.opaque) internal_error "server_error"
            "refresh token mint failed"
      pass (raw, some (rotated client existing now scope draws.token_id hash)))
    else pass ("", none)

-- The user lookup, and the access token.
unfoldable pub user_of : Stores → RefreshToken → Check UserInfo
user_of s existing = elim (Users.find_by_id s.users existing.user_id) [
  | err StoreError.not_found ↦ reject bad_request "invalid_grant" "user no longer exists"
  | err _ ↦ reject internal_error "server_error" "user lookup failed"
  | ok info ↦ pass info
]

unfoldable pub access_claims : Client → RefreshToken → String → Time → AccessTokenClaims
access_claims client existing scope auth_time = record {
  subject = existing.user_id;
  client_id = client.client_id;
  scope = scope;
  auth_time = some auth_time;
  expires_in = access_token_lifetime client;
}

unfoldable pub sign_access : RefreshGrant → Client → RefreshToken → String → Time → Check String
unfolding access_claims
sign_access g client existing scope auth_time =
    some_or (g.issuer.issue_access_token (access_claims client existing scope auth_time))
      internal_error "server_error" "access token issuance failed"

unfoldable pub minted : Client → String → String → String → String → Option RefreshToken → Minted
minted client scope access id_token raw next_token = record {
  response = record {
    access_token = access;
    token_type = "Bearer";
    expires_in = whole_seconds (access_token_lifetime client);
    refresh_token = raw;
    id_token = id_token;
    scope = scope;
  };
  next_token = next_token;
}

-- Handle, from the user lookup to the final Store.
unfoldable pub mint :
    RefreshGrant → Client → RefreshToken → RefreshForm → Draws → Time → Stores → Check Minted
mint g client existing form draws now s = do
  info ← user_of s existing
  (scope, granted) ← down_scope existing.scope form.scope
  let auth_time = chain_root_created_at s.refresh existing
  access ← sign_access g client existing scope auth_time
  id_token ← mint_id_token g client existing info scope granted auth_time access
  (raw, next_token) ← mint_refresh g client existing draws now scope granted
  pass (minted client scope access id_token raw next_token)

-- The final RefreshTokens.Store and the answer.
unfoldable pub deliver : Minted → Stores → Response TokenResponse × Stores
deliver m s = elim m.next_token [
  | none ↦ (reply m.response, s)
  | some t ↦
      let (r, tokens) = store (some t) s.refresh in
      elim r [
        | err e ↦ (
          fail internal_error "server_error" "refresh token store failed",
          record s { refresh = tokens },
        )
        | ok _ ↦ (reply m.response, record s { refresh = tokens })
      ]
]

unfoldable pub reuse_metadata : RefreshGrant → RefreshToken → String
reuse_metadata g old = elim old.session_id [
  | none ↦ ""
  | some sid ↦ concat "{\"session_id\":\"" (concat (g.uuid_string sid) "\"}")
]

unfoldable pub reuse_entry : RefreshGrant → RefreshToken → Time → Uuid → AuditLog
unfolding reuse_metadata
reuse_entry g old now audit_id = record {
  id = audit_id;
  action = refresh_token_reuse_audit;
  actor_user_id = old.user_id;
  target_type = "RefreshToken";
  target_id = g.uuid_string old.id;
  timestamp = now;
  ip_address = "";
  user_agent = "";
  metadata = reuse_metadata g old;
}

-- The revocation of handleReuse.
unfoldable pub revoke_chain : RefreshToken → Time → RefreshTokenStore → RefreshTokenStore
revoke_chain old now tokens = elim old.session_id [
  | some sid ↦ (revoke_by_session_id sid now tokens).1
  | none ↦ (revoke old.id now tokens).1
]

unfoldable pub handle_reuse :
    RefreshGrant → RefreshToken → Time → Uuid → Stores → Response TokenResponse × Stores
unfolding revoke_chain reuse_entry
handle_reuse g old now audit_id s = (
  fail bad_request "invalid_grant" "refresh token reuse detected",
  record s {
    refresh = revoke_chain old now s.refresh;
    audit =
        if g.audited
        then (AuditLogs.store (some (reuse_entry g old now audit_id)) s.audit).1
        else s.audit;
  },
)

-- What follows MarkConsumed.
unfoldable pub redeem :
    RefreshGrant
    → Client
    → RefreshToken
    → RefreshForm
    → Draws
    → Time
    → Result Bool
    → Stores
    → Response TokenResponse × Stores
redeem g client existing form draws now (err e) s =
    (fail internal_error "server_error" "could not record refresh token consumption", s)
redeem g client existing form draws now (ok false) s =
    if g.detect_reuse
    then handle_reuse g existing now draws.audit_id s
    else (fail bad_request "invalid_grant" "refresh token already used", s)
redeem g client existing form draws now (ok true) s =
    finish_at s (mint g client existing form draws now s) (λ m. deliver m s)

unfoldable pub handle :
    RefreshGrant
    → Option Client
    → RefreshForm
    → Draws
    → Time
    → Stores
    → Response TokenResponse × Stores
unfolding redeem
handle g authenticated form draws now s =
    finish_at s (present g authenticated form now s.refresh) λ found.
      let (client, existing) = found in
      let (won, tokens) = mark_consumed existing.id now s.refresh in
      redeem g client existing form draws now won (record s { refresh = tokens })
