-- ===== src/Admin/Sessions.antt =====
-- internal/admin/api.go: the handlers of sessions, refresh tokens, signing keys and the audit log. The
-- text of an id is google/uuid's.
use authserver_go.Base.{ℕ, String, Bool, Option, none, some, List, map, map_some, length}
use authserver_go.Domain.Time.{Time, Uuid}
use authserver_go.Domain.Entities.{Session, RefreshToken, SigningKey, AuditLog}
use authserver_go.Domain.Paged.{PagedRequest, PagedResult}
use authserver_go.Store.Error.{Result, ok, err, not_found}
use authserver_go.Store.Sessions
use authserver_go.Store.RefreshTokens
use authserver_go.Store.RefreshTokens.{RefreshTokenStore}
use authserver_go.Store.Sessions.{SessionStore}
use authserver_go.Store.Keys.{SigningKeyStore, get_all}
use authserver_go.Store.AuditLogs
use authserver_go.Store.AuditLogs.{AuditLogStore}
use authserver_go.Token.Keys.{KeyPair, KeyResult, key, key_error, rotate}
use authserver_go.Oidc.Http.{
  Response, reply, fail, panics, finish_at, some_or, bad_request, internal_error,
}
use authserver_go.Oidc.Stores.{Stores}
use authserver_go.Admin.{Api, not_found_status, settled}

pub record SessionView : Type 0 where
  pub id : String
  pub user_id : String
  pub created_at : Time
  pub expires_at : Time
  pub revoked_at : Option Time

pub record RefreshTokenView : Type 0 where
  pub id : String
  pub client_id : String
  pub user_id : String
  pub session_id : Option String
  pub parent_token_id : Option String
  pub scope : String
  pub expires_at : Time
  pub absolute_expires_at : Time
  pub consumed_at : Option Time
  pub revoked_at : Option Time
  pub created_at : Time

pub record KeyView : Type 0 where
  pub key_id : String
  pub algorithm : String
  pub public_pem : String
  pub created_at : Time
  pub retired_at : Option Time
  pub is_active : Bool

pub record AuditView : Type 0 where
  pub id : String
  pub action : String
  pub actor_user_id : String
  pub target_type : String
  pub target_id : String
  pub timestamp : Time
  pub ip_address : String
  pub user_agent : String
  pub metadata : String

-- The items of a page and the total; `panics` is the panic of the slice.
abbrev pub page_answer : {T V : Type 0} → (T → V) → Option (PagedResult T) → Response (List V × ℕ)
page_answer view none = panics
page_answer view (some res) = reply (map view res.items, res.total_count)

module _ (uuid_string : Uuid → String) where
  unfoldable pub to_session_view : Session → SessionView
  to_session_view x = record {
    id = uuid_string x.id;
    user_id = x.user_id;
    created_at = x.created_at;
    expires_at = x.expires_at;
    revoked_at = x.revoked_at;
  }

  -- The hash of a token is not among the fields.
  unfoldable pub to_refresh_token_view : RefreshToken → RefreshTokenView
  to_refresh_token_view t = record {
    id = uuid_string t.id;
    client_id = t.client_id;
    user_id = t.user_id;
    session_id = map_some uuid_string t.session_id;
    parent_token_id = map_some uuid_string t.parent_token_id;
    scope = t.scope;
    expires_at = t.expires_at;
    absolute_expires_at = t.absolute_expires_at;
    consumed_at = t.consumed_at;
    revoked_at = t.revoked_at;
    created_at = t.created_at;
  }

  unfoldable pub to_audit_view : AuditLog → AuditView
  to_audit_view l = record {
    id = uuid_string l.id;
    action = l.action;
    actor_user_id = l.actor_user_id;
    target_type = l.target_type;
    target_id = l.target_id;
    timestamp = l.timestamp;
    ip_address = l.ip_address;
    user_agent = l.user_agent;
    metadata = l.metadata;
  }

  -- listSessions, listRefreshTokens and listAuditLogs, for the page that parsePage reads.
  unfoldable pub list_sessions : PagedRequest → SessionStore → Response (List SessionView × ℕ)
  unfolding to_session_view
  list_sessions page s = page_answer to_session_view (Sessions.get_paged s page)

  unfoldable pub list_refresh_tokens :
      PagedRequest → RefreshTokenStore → Response (List RefreshTokenView × ℕ)
  unfolding to_refresh_token_view
  list_refresh_tokens page s = page_answer to_refresh_token_view (RefreshTokens.get_paged s page)

  unfoldable pub list_audit_logs : PagedRequest → AuditLogStore → Response (List AuditView × ℕ)
  unfolding to_audit_view
  list_audit_logs page s = page_answer to_audit_view (AuditLogs.get_paged s page)

abbrev pub Done : Type 0
Done = Response (Unit {0}) × Stores

-- What follows Sessions.Revoke; a failure of the chain is only logged.
unfoldable pub after_revoke : Uuid → Time → Result (Unit {0}) → Stores → Done
after_revoke id now (ok x) s =
    (reply tt, record s { refresh = (RefreshTokens.revoke_by_session_id id now s.refresh).1 })
after_revoke id now (err not_found) s = (fail not_found_status "not found" "", s)
after_revoke id now (err e) s = (fail internal_error "revoke failed" "", s)

-- revokeSession
unfoldable pub revoke_session : Api → String → Time → Stores → Done
unfolding after_revoke
revoke_session h raw now s =
    finish_at s (some_or (h.parse_uuid raw) bad_request "invalid id" "") λ id.
      let (answer, sessions) = Sessions.revoke id now s.sessions in
      after_revoke id now answer (record s { sessions = sessions })

-- revokeRefreshToken
unfoldable pub revoke_refresh_token :
    Api → String → Time → RefreshTokenStore → Response (Unit {0}) × RefreshTokenStore
unfolding settled
revoke_refresh_token h raw now s =
    finish_at s (some_or (h.parse_uuid raw) bad_request "invalid id" "")
      λ id. let (answer, s') = RefreshTokens.revoke id now s in (settled "revoke failed" answer, s')

-- The private half of a key is not among the fields.
unfoldable pub to_key_view : SigningKey → KeyView
to_key_view k = record {
  key_id = k.key_id;
  algorithm = k.algorithm;
  public_pem = k.public_key_pem;
  created_at = k.created_at;
  retired_at = k.retired_at;
  is_active = k.is_active;
}

-- listSigningKeys: the items and their number.
unfoldable pub list_signing_keys : SigningKeyStore → Response (List KeyView × ℕ)
unfolding to_key_view
list_signing_keys s = elim (get_all s) [
  | err e ↦ fail internal_error "list failed" ""
  | ok all ↦ reply (map to_key_view all, length all)
]

unfoldable pub rotated_answer : KeyResult → Response KeyView
unfolding to_key_view
rotated_answer (key k) = reply (to_key_view k)
rotated_answer key_error = fail internal_error "rotate failed" ""

-- rotateSigningKey: one at a time, by its mutex.
unfoldable pub rotate_signing_key :
    Option KeyPair → Time → Time → SigningKeyStore → Response KeyView × SigningKeyStore
unfolding rotated_answer
rotate_signing_key pair now later s =
    let (answer, s') = rotate pair now later s in (rotated_answer answer, s')
