-- ===== src/Oidc/ResetPassword.antt =====
-- internal/oidc/reset_password.go: POST /api/auth/reset-password, cut where it changes a store. Header
-- writing and logging are left out.
pub mod Outcome
use authserver_go.Base.{
  ℕ, String, Bool, true, false, not, ◌||◌, Option, none, some, List, [], ◌∷◌, ◌==◌, ◌!=◌, string_eq,
  if◌then◌else◌, is_some, length,
}
use authserver_go.Base.Text.{concat, itoa}
use authserver_go.Domain.Time.{Time, Uuid, uuid_nil, before}
use authserver_go.Domain.Entities.{PasswordResetToken, User, AuditLog}
use authserver_go.Domain.PasswordPolicy.{validate_password}
use authserver_go.Store.Error.{Result, ok, err}
use authserver_go.Store.PasswordResets.{
  PasswordResetStore, find_by_hash, consume, invalidate_for_user,
}
use authserver_go.Store.RefreshTokens.{RefreshTokenStore, revoke_by_session_id}
use authserver_go.Store.Sessions.{revoke_by_user_id_except}
use authserver_go.Store.Users.{
  Bcrypt, UserStore, UserResult, done, failed, set_password, find_user_by_id, update_user,
}
use authserver_go.Store.AuditLogs
use authserver_go.Token.Crypto.{Crypto, hash_token}
use authserver_go.Oidc.Http.{
  Response, reply, fail, Check, pass, ◌>>=◌, ◌>>◌, refuse_if, some_or, finish_at, bad_request,
  internal_error, forbidden,
}
use authserver_go.Oidc.Stores.{Stores}

abbrev pub audit_reset_completed : String
audit_reset_completed = "password_reset_completed"

-- `audited` tells whether AuditLogs is set.
pub record ResetPassword : Type 0 where
  pub crypto : Crypto
  pub bcrypt : Bcrypt
  pub login_path : String
  pub audited : Bool

pub record ResetBody : Type 0 where
  pub token : String
  pub new_password : String
  pub new_password_confirm : String

-- A request: whether its CSRF header verifies, its JSON body where that decodes, and the source
-- address and user agent as the audit entry keeps them.
pub record ResetRequest : Type 0 where
  pub csrf : Bool
  pub body : Option ResetBody
  pub ip : String
  pub user_agent : String

-- The readings of the clock, and what is drawn.
pub record ResetMoment : Type 0 where
  pub looked : Time
  pub now : Time
  pub looked_again : Time
  pub audited : Time
  pub stamp : String
  pub audit_id : Uuid

-- resetErrorLabel
unfoldable pub reset_error_label : String → String
reset_error_label code =
    if code == "antiforgery_failed"
    then "Your page expired. Please reload and try again."
    else if code == "invalid_token"
    then "This reset link is invalid or has expired. Please request a new one."
    else if code == "password_missing"
    then "Please fill out both password fields."
    else if code == "password_mismatch"
    then "The passwords do not match."
    else if code == "password_weak"
    then "Password must be 8-72 characters and must not start or end with whitespace."
    else "An unexpected error occurred. Please request a new reset link."

-- A token that is neither used nor expired.
unfoldable pub usable : Time → PasswordResetToken → Bool
usable now t = not (is_some t.consumed_at || not (before now t.expires_at))

-- ResetPasswordHandler.lookup
unfoldable pub lookup_token :
    ResetPassword → PasswordResetStore → String → Time → Option PasswordResetToken
unfolding usable
lookup_token h resets raw now =
    if raw == "" then none else elim (find_by_hash resets (hash_token h.crypto raw)) [
      | err e ↦ none
      | ok t ↦ if usable now t then some t else none
    ]

-- handleGet: the body's `valid`.
unfoldable pub handle_get : ResetPassword → PasswordResetStore → String → Time → Bool
handle_get h resets raw now = is_some (lookup_token h resets raw now)

-- The switch on the two passwords.
unfoldable pub check_passwords : ResetBody → Check (Unit {0})
unfolding reset_error_label
check_passwords b = do
  refuse_if (b.new_password == "" || b.new_password_confirm == "") bad_request "password_missing"
      (reset_error_label "password_missing")
  refuse_if (b.new_password != b.new_password_confirm) bad_request "password_mismatch"
      (reset_error_label "password_mismatch")
  refuse_if (is_some (validate_password b.new_password)) bad_request "password_weak"
      (reset_error_label "password_weak")

-- handlePost, down to Consume.
unfoldable pub present :
    ResetPassword
    → ResetRequest
    → ResetMoment
    → PasswordResetStore
    → Check (ResetBody × PasswordResetToken)
unfolding reset_error_label
present h r m resets = do
  refuse_if (not r.csrf) forbidden "antiforgery_failed" (reset_error_label "antiforgery_failed")
  body ← some_or r.body bad_request "invalid_token" (reset_error_label "invalid_token")
  refuse_if (not (handle_get h resets body.token m.looked)) bad_request "invalid_token"
      (reset_error_label "invalid_token")
  check_passwords body
  t ←
      some_or (lookup_token h resets body.token m.looked_again) bad_request "invalid_token"
        (reset_error_label "invalid_token")
  pass (body, t)

-- The rotation of the security stamp; its failures are only logged.
unfoldable pub rotate_stamp : String → String → Time → UserStore → UserStore
rotate_stamp user_id stamp now users = elim (find_user_by_id users user_id) [
  | err e ↦ users
  | ok user ↦ (update_user (record user { security_stamp = stamp; updated_at = now }) users).1
]

-- The loop over the ids that RevokeByUserIDExcept returns.
unfoldable pub revoke_tokens : List Uuid → Time → RefreshTokenStore → RefreshTokenStore
revoke_tokens [] now tokens = tokens
revoke_tokens (id ∷ ids) now tokens = revoke_tokens ids now (revoke_by_session_id id now tokens).1

abbrev pub revoked_of : Result (List Uuid) → List Uuid
revoked_of (ok ids) = ids
revoked_of (err e) = []

unfoldable pub completed_entry : ResetRequest → ResetMoment → String → ℕ → AuditLog
completed_entry r m user_id revoked = record {
  id = m.audit_id;
  action = audit_reset_completed;
  actor_user_id = user_id;
  target_type = "User";
  target_id = user_id;
  timestamp = m.audited;
  ip_address = r.ip;
  user_agent = r.user_agent;
  metadata = concat "{\"sessions_revoked\":" (concat (itoa revoked) "}");
}

-- What follows a SetPassword that went well.
unfoldable pub clean_up : ResetPassword → ResetRequest → ResetMoment → String → Stores → Stores
unfolding rotate_stamp revoke_tokens completed_entry
clean_up h r m user_id s =
    let (answer, sessions) = revoke_by_user_id_except user_id uuid_nil m.now s.sessions in
    let revoked = revoked_of answer in
    record s {
      users = rotate_stamp user_id m.stamp m.now s.users;
      resets = (invalidate_for_user user_id m.now s.resets).1;
      sessions = sessions;
      refresh = revoke_tokens revoked m.now s.refresh;
      audit =
          if h.audited
          then (AuditLogs.store (some (completed_entry r m user_id (length revoked))) s.audit).1
          else s.audit;
    }

-- What follows SetPassword.
unfoldable pub settle :
    ResetPassword
    → ResetRequest
    → ResetMoment
    → String
    → UserResult
    → Stores
    → Response String × Stores
unfolding reset_error_label
settle h r m user_id (failed e) s =
    (fail internal_error "server_error" (reset_error_label "server_error"), s)
settle h r m user_id done s =
    (reply (concat h.login_path "?notice=password_reset"), clean_up h r m user_id s)

-- What follows Consume.
unfoldable pub redeem :
    ResetPassword
    → ResetRequest
    → ResetMoment
    → ResetBody
    → PasswordResetToken
    → Result Bool
    → Stores
    → Response String × Stores
unfolding reset_error_label
redeem h r m body t (err e) s =
    (fail internal_error "server_error" (reset_error_label "server_error"), s)
redeem h r m body t (ok false) s =
    (fail bad_request "invalid_token" (reset_error_label "invalid_token"), s)
redeem h r m body t (ok true) s =
    let (changed, users) = set_password h.bcrypt t.user_id body.new_password s.users in
    settle h r m t.user_id changed (record s { users = users })

-- handlePost
unfoldable pub handle :
    ResetPassword → ResetRequest → ResetMoment → Stores → Response String × Stores
handle h r m s = finish_at s (present h r m s.resets) λ found.
    let (body, t) = found in
    let (won, resets) = consume t.id m.now s.resets in
    redeem h r m body t won (record s { resets = resets })
