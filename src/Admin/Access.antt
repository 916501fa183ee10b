-- ===== src/Admin/Access.antt =====
-- internal/admin/api.go: deleteUser and setUserPassword, which end what an account has open.
pub mod Ended
use authserver_go.Base.{
  ℕ, String, Bool, true, false, ◌||◌, Option, none, some, List, [], ◌∷◌, ◌==◌, string_eq,
  if◌then◌else◌, length,
}
use authserver_go.Base.Text.{concat, itoa}
use authserver_go.Domain.Time.{Time, Uuid, uuid_nil}
use authserver_go.Domain.Entities.{AuditLog}
use authserver_go.Domain.PasswordPolicy.{validate_password}
use authserver_go.Store.Error.{
  Result, ok, err, StoreError, not_found, duplicate, nil_entity, empty_id, empty_hash,
}
use authserver_go.Store.Sessions.{revoke_by_user_id_except}
use authserver_go.Store.RefreshTokens.{RefreshTokenStore, revoke_by_session_id}
use authserver_go.Store.PasswordResets.{PasswordResetStore, invalidate_for_user}
use authserver_go.Store.Users
use authserver_go.Store.Users.{
  UserStore, UserError, store_error, UserResult, done, failed, set_password, find_user_by_id,
  update_user,
}
use authserver_go.Store.AuditLogs
use authserver_go.Oidc.Http.{
  Response, reply, fail, Check, pass, ◌>>=◌, ◌>>◌, refuse_if, some_or, finish_at, bad_request,
  internal_error,
}
use authserver_go.Oidc.Stores.{Stores}
use authserver_go.Oidc.Profile.{is_err, revoke_each}
use authserver_go.Admin.{Api, not_found_status, settled}
use authserver_go.Admin.Users.{policy}

abbrev pub Done : Type 0
Done = Response (Unit {0}) × Stores

-- DeleteUser, at the end.
unfoldable pub delete_account : String → Stores → Done
unfolding settled
delete_account id s =
    let (answer, users) = Users.delete_user id s.users in
    (settled "delete failed" answer, record s { users = users })

-- InvalidateForUser, where there is a store of reset tokens.
unfoldable pub drop_links : Api → String → Time → PasswordResetStore → Bool × PasswordResetStore
drop_links h id now s =
    if h.resets_set
    then (let (answer, s') = invalidate_for_user id now s in (is_err answer, s'))
    else (false, s)

-- What follows the loop over the revoked sessions.
unfoldable pub after_tokens : Api → String → Time → Stores → Done
unfolding drop_links delete_account
after_tokens h id now s =
    let (stopped, resets) = drop_links h id now s.resets in
    let s' = record s { resets = resets } in
    if stopped
    then (fail internal_error "invalidating reset tokens failed" "", s')
    else delete_account id s'

-- What follows RevokeByUserIDExcept.
unfoldable pub after_sessions : Api → String → Time → Result (List Uuid) → Stores → Done
unfolding after_tokens
after_sessions h id now (err e) s = (fail internal_error "revoking sessions failed" "", s)
after_sessions h id now (ok ids) s =
    let (answer, refresh) = revoke_each ids now s.refresh in
    let s' = record s { refresh = refresh } in
    if is_err answer
    then (fail internal_error "revoking refresh tokens failed" "", s')
    else after_tokens h id now s'

-- deleteUser
unfoldable pub delete_user : Api → String → Time → Stores → Done
unfolding after_sessions
delete_user h id now s =
    let (answer, sessions) = revoke_by_user_id_except id uuid_nil now s.sessions in
    after_sessions h id now answer (record s { sessions = sessions })

-- `actor` is the signed-in admin; the source address and user agent are as the audit entry keeps them.
pub record SetPassword : Type 0 where
  pub body : Option String
  pub actor : String
  pub ip : String
  pub user_agent : String

pub record SetMoment : Type 0 where
  pub now : Time
  pub audited : Time
  pub stamp : String
  pub audit_id : Uuid

-- The checks of setUserPassword.
unfoldable pub set_present : SetPassword → Check String
unfolding policy
set_present r = do
  password ← some_or r.body bad_request "invalid json" ""
  refuse_if (password == "") bad_request "password is required" ""
  policy (validate_password password)
  pass password

-- The rotation of the security stamp: whether it failed.
unfoldable pub rotate_stamp : String → SetMoment → UserStore → Bool × UserStore
rotate_stamp id m users = elim (find_user_by_id users id) [
  | err e ↦ (true, users)
  | ok user ↦
      let (answer, users') =
        update_user (record user { security_stamp = m.stamp; updated_at = m.now }) users in
      (is_err answer, users')
]

-- The loop over the revoked sessions goes on behind a failure.
unfoldable pub revoke_all : List Uuid → Time → RefreshTokenStore → Bool × RefreshTokenStore
revoke_all [] now tokens = (false, tokens)
revoke_all (id ∷ ids) now tokens =
    let (answer, tokens') = revoke_by_session_id id now tokens in
    let (stopped, tokens'') = revoke_all ids now tokens' in (is_err answer || stopped, tokens'')

abbrev pub ids_of : Result (List Uuid) → List Uuid
ids_of (ok ids) = ids
ids_of (err e) = []

abbrev pub sessions_failed : Result (List Uuid) → Bool
sessions_failed (ok ids) = false
sessions_failed (err e) = true

-- auditPasswordSet
unfoldable pub password_set_entry : SetPassword → SetMoment → String → ℕ → AuditLog
password_set_entry r m id revoked = record {
  id = m.audit_id;
  action = "admin_password_set";
  actor_user_id = r.actor;
  target_type = "User";
  target_id = id;
  timestamp = m.audited;
  ip_address = r.ip;
  user_agent = r.user_agent;
  metadata = concat "{\"sessions_revoked\":" (concat (itoa revoked) "}");
}

-- What follows a SetPassword that went well: the number of sessions.
unfoldable pub clean_up : Api → SetPassword → SetMoment → String → Stores → Response ℕ × Stores
unfolding rotate_stamp drop_links revoke_all password_set_entry
clean_up h r m id s =
    let (stamp_failed, users) = rotate_stamp id m s.users in
    let (links_failed, resets) = drop_links h id m.now s.resets in
    let (answer, sessions) = revoke_by_user_id_except id uuid_nil m.now s.sessions in
    let (tokens_failed, refresh) = revoke_all (ids_of answer) m.now s.refresh in
    let revoked = length (ids_of answer) in
    (
      if stamp_failed || links_failed || sessions_failed answer || tokens_failed
          then fail internal_error
              "password changed, but revoking existing sessions failed; revoke them manually" ""
          else reply revoked,
      record s {
        users = users;
        resets = resets;
        sessions = sessions;
        refresh = refresh;
        audit =
            if h.audited
            then (AuditLogs.store (some (password_set_entry r m id revoked)) s.audit).1
            else s.audit;
      },
    )

-- What follows SetPassword.
unfoldable pub settle :
    Api → SetPassword → SetMoment → String → UserResult → Stores → Response ℕ × Stores
unfolding clean_up
settle h r m id (failed (store_error not_found)) s = (fail not_found_status "not found" "", s)
settle h r m id (failed e) s = (fail internal_error "update failed" "", s)
settle h r m id done s = clean_up h r m id s

-- setUserPassword
unfoldable pub set_user_password :
    Api → String → SetPassword → SetMoment → Stores → Response ℕ × Stores
unfolding set_present settle
set_user_password h id r m s = finish_at s (set_present r) λ password.
    let (answer, users) = set_password h.bcrypt id password s.users in
    settle h r m id answer (record s { users = users })
