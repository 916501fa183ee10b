-- ===== src/Oidc/Profile/Password.antt =====
-- internal/oidc/profile.go: changePassword, cut where it changes a store.
use authserver_go.Base.{
  String, Bool, false, ◌||◌, none, some, ◌==◌, ◌!=◌, string_eq, if◌then◌else◌, is_some,
}
use authserver_go.Base.Text.{concat, itoa}
use authserver_go.Domain.Entities.{User, Session}
use authserver_go.Domain.PasswordPolicy.{validate_password}
use authserver_go.Store.LoginAttempts.{LoginAttemptTracker, is_locked_out, record_failure, reset}
use authserver_go.Store.Users.{
  UserStore, UserResult, done, failed, validate_credentials, set_password, find_user_by_id,
  update_user,
}
use authserver_go.Oidc.Http.{
  reply, Check, pass, ◌>>=◌, ◌>>◌, refuse_if, some_or, ok_or, finish_at, bad_request,
  internal_error,
}
use authserver_go.Oidc.Stores.{Stores}
use authserver_go.Oidc.Login.{too_many_requests}
use authserver_go.Oidc.Profile.{
  Profile, ProfileRequest, ProfileMoment, ChangePasswordBody, Answer, status, profile_error_label,
  refuse, csrf_ok, audit, revoke_other_sessions,
}

-- passwordLockoutKey
unfoldable pub password_lockout_key : String → String → String
password_lockout_key user_id ip = concat "pwchange:" (concat user_id (concat "|" ip))

-- The checks down to the throttle: the body and the account.
unfoldable pub present : ProfileRequest → Session → UserStore → Check (ChangePasswordBody × User)
unfolding csrf_ok profile_error_label
present r own users = do
  csrf_ok r
  body ←
      some_or r.password_body bad_request "password_missing"
        (profile_error_label "password_missing")
  refuse_if (body.current_password == "" || body.new_password == "" || body.password_confirm == "")
      bad_request "password_missing" (profile_error_label "password_missing")
  user ←
      ok_or (find_user_by_id users own.user_id) internal_error "server_error"
        (profile_error_label "server_error")
  pass (body, user)

-- The switch on the new password.
unfoldable pub judge : ChangePasswordBody → Check (Unit {0})
unfolding profile_error_label
judge b = do
  refuse_if (b.new_password != b.password_confirm) bad_request "password_mismatch"
      (profile_error_label "password_mismatch")
  refuse_if (is_some (validate_password b.new_password)) bad_request "password_weak"
      (profile_error_label "password_weak")
  refuse_if (b.new_password == b.current_password) bad_request "password_unchanged"
      (profile_error_label "password_unchanged")

-- What follows a SetPassword that went well. A failure of the stamp or of the other sessions is only
-- logged.
unfoldable pub clean_up :
    Profile → ProfileRequest → ProfileMoment → Session → User → Stores → Stores
unfolding revoke_other_sessions audit
clean_up h r m own user s =
    let stamped = record user { security_stamp = m.stamp; updated_at = m.updated } in
    let ((n, stopped), s') =
      revoke_other_sessions m own (record s { users = (update_user stamped s.users).1 }) in
    audit h r m user.id "password_changed" "User" user.id
      (concat "{\"sessions_revoked\":" (concat (itoa n) "}")) s'

-- What follows SetPassword.
unfoldable pub settle :
    Profile → ProfileRequest → ProfileMoment → Session → User → UserResult → Stores → Answer
unfolding refuse clean_up
settle h r m own user (failed e) s = (refuse internal_error "server_error", s)
settle h r m own user done s = (reply (status "password_changed"), clean_up h r m own user s)

-- What follows a current password that is right.
unfoldable pub proved :
    Profile → ProfileRequest → ProfileMoment → Session → ChangePasswordBody → User → Stores → Answer
unfolding judge settle
proved h r m own b user s = finish_at s (judge b) λ _.
    let (changed, users) = set_password h.bcrypt user.id b.new_password s.users in
    settle h r m own user changed (record s { users = users })

-- The check of the current password.
unfoldable pub attempt :
    Profile
    → ProfileRequest
    → ProfileMoment
    → Session
    → ChangePasswordBody
    → User
    → String
    → Stores
    → Answer
unfolding refuse proved
attempt h r m own b user key s =
    elim (validate_credentials h.bcrypt s.users user.username b.current_password) [
      | none ↦ (
        refuse bad_request "current_password_wrong",
        if h.throttled then record s { tracker = record_failure key m.recorded s.tracker } else s,
      )
      | some info ↦
          proved h r m own b user
            (if h.throttled then record s { tracker = reset key s.tracker } else s)
    ]

-- IsLockedOut, where there is a tracker.
unfoldable pub locked_out :
    Profile → ProfileMoment → String → LoginAttemptTracker → Bool × LoginAttemptTracker
locked_out h m key t = if h.throttled then is_locked_out key m.checked t else (false, t)

unfoldable pub unless_locked :
    Profile → ProfileRequest → ProfileMoment → Session → ChangePasswordBody → User → Stores → Answer
unfolding password_lockout_key locked_out attempt refuse
unless_locked h r m own b user s =
    let key = password_lockout_key user.id r.ip in
    let (locked, tracker) = locked_out h m key s.tracker in
    let s' = record s { tracker = tracker } in
    if locked
    then (refuse too_many_requests "account_locked", s')
    else attempt h r m own b user key s'

-- changePassword
unfoldable pub change_password :
    Profile → ProfileRequest → ProfileMoment → Session → Stores → Answer
unfolding present unless_locked
change_password h r m own s =
    finish_at s (present r own s.users)
      λ found. let (body, user) = found in unless_locked h r m own body user s
