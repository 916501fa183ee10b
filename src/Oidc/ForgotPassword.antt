-- ===== src/Oidc/ForgotPassword.antt =====
-- internal/oidc/forgot_password.go: POST /api/auth/forgot-password. Header writing and logging are left
-- out; the message that is mailed is part of what a request gives.
pub mod Link
use authserver_go.Base.{
  ℕ, ◌/◌, ◌+◌, ◌-◌, ◌*◌, String, Bool, true, false, not, ◌&&◌, ◌||◌, Option, none, some, ◌==◌,
  string_eq, nat_beq, if◌then◌else◌,
}
use authserver_go.Base.Int.{ℤ, pos, negsuc}
use authserver_go.Base.Text.{concat, itoa, trim_space}
use authserver_go.Domain.Time.{Time, Uuid, add, second}
use authserver_go.Domain.Entities.{PasswordResetToken, User, AuditLog}
use authserver_go.Store.Error.{Result, ok, err}
use authserver_go.Store.PasswordResets.{create, invalidate_for_user, delete_expired}
use authserver_go.Store.Users.{UserStore, find_user_by_username, find_user_by_email}
use authserver_go.Store.LoginAttempts.{LoginAttemptTracker, is_locked_out, record_failure}
use authserver_go.Store.AuditLogs
use authserver_go.Token.Crypto.{Crypto, new_opaque_token}
use authserver_go.Oidc.Http.{
  Response, reply, Check, pass, ◌>>=◌, ◌>>◌, refuse_if, some_or, finish, bad_request, forbidden,
  method_not_allowed,
}
use authserver_go.Oidc.Stores.{Stores}

-- `escape` is url.QueryEscape; `throttled` and `audited` tell whether Tracker and AuditLogs are set.
pub record ForgotPassword : Type 0 where
  pub crypto : Crypto
  pub reset_path : String
  pub public_url : String
  pub token_lifetime : ℤ
  pub escape : String → String
  pub throttled : Bool
  pub audited : Bool

-- `body` is the identifier, where the JSON decodes.
pub record ForgotRequest : Type 0 where
  pub is_post : Bool
  pub csrf : Bool
  pub body : Option String
  pub ip : String
  pub user_agent : String

-- The readings of the clock, by the handler and by the tracker, and what is drawn.
pub record ForgotMoment : Type 0 where
  pub now : Time
  pub checked : Time
  pub recorded : Time
  pub audited : Time
  pub random : Option String
  pub token_id : Uuid
  pub audit_id : Uuid

-- mail.Message
pub record Message : Type 0 where
  pub to : String
  pub subject : String
  pub body : String

-- forgotErrorLabel
unfoldable pub forgot_error_label : String → String
forgot_error_label code =
    if code == "antiforgery_failed"
    then "Your page expired. Please reload and try again."
    else if code == "missing_identifier"
    then "Please enter your username or email."
    else "An unexpected error occurred."

-- The checks of ServeHTTP.
unfoldable pub present : ForgotRequest → Check String
unfolding forgot_error_label
present r = do
  refuse_if (not r.is_post) method_not_allowed "invalid_request" "method not allowed"
  refuse_if (not r.csrf) forbidden "antiforgery_failed" (forgot_error_label "antiforgery_failed")
  raw ← some_or r.body bad_request "missing_identifier" (forgot_error_label "missing_identifier")
  refuse_if (trim_space raw == "") bad_request "missing_identifier"
      (forgot_error_label "missing_identifier")
  pass (trim_space raw)

unfoldable pub first_ok : Result User → Result User → Option User
first_ok (ok u) other = some u
first_ok (err e) (ok u) = some u
first_ok (err e) (err e') = none

-- findUser
unfoldable pub find_user : UserStore → String → Option User
unfolding first_ok
find_user users identifier =
    first_ok (find_user_by_username users identifier) (find_user_by_email users identifier)

abbrev pub retention : ℕ
retention = 86400 * second

-- int(lifetime.Minutes()), in decimal digits
unfoldable pub minutes_text : ℤ → String
minutes_text (pos n) = itoa (n / (60 * second))
minutes_text (negsuc n) =
    let m = (n + 1) / (60 * second) in if nat_beq m 0 then "0" else concat "-" (itoa m)

unfoldable pub email_body : ForgotPassword → String → String
unfolding minutes_text
email_body h raw =
    concat
      "Hello,\n\nSomeone (hopefully you) asked to reset the password for your account.\nOpen the link below to choose a new password. It can be used once and\nexpires in "
      (concat (minutes_text h.token_lifetime) (
        concat " minutes:\n\n" (
          concat (concat h.public_url (concat h.reset_path (concat "?token=" (h.escape raw))))
            "\n\nIf you did not ask for this, ignore this email. Your password stays unchanged.\n")))

abbrev pub reset_token : ForgotPassword → ForgotMoment → User → String → PasswordResetToken
reset_token h m user hash = record {
  id = m.token_id;
  user_id = user.id;
  token_hash = hash;
  created_at = m.now;
  expires_at = add m.now h.token_lifetime;
  consumed_at = none;
}

-- audit
unfoldable pub requested_entry : ForgotRequest → ForgotMoment → String → AuditLog
requested_entry r m user_id = record {
  id = m.audit_id;
  action = "password_reset_requested";
  actor_user_id = user_id;
  target_type = "User";
  target_id = user_id;
  timestamp = m.audited;
  ip_address = r.ip;
  user_agent = r.user_agent;
  metadata = "";
}

-- What a request mails, and the stores that it leaves.
abbrev pub Processed : Type 0
Processed = Option Message × Stores

-- What follows a Create that went well.
unfoldable pub mail_link :
    ForgotPassword → ForgotRequest → ForgotMoment → User → String → Stores → Processed
unfolding requested_entry email_body
mail_link h r m user raw s = (
  some (record { to = user.email; subject = "Reset your password"; body = email_body h raw }),
  if h.audited
      then record s { audit = (AuditLogs.store (some (requested_entry r m user.id)) s.audit).1 }
      else s,
)

unfoldable pub created :
    ForgotPassword
    → ForgotRequest
    → ForgotMoment
    → User
    → String
    → Result (Unit {0})
    → Stores
    → Processed
unfolding mail_link
created h r m user raw (err e) s = (none, s)
created h r m user raw (ok x) s = mail_link h r m user raw s

-- The older links go, and the new one is stored.
unfoldable pub issue_link :
    ForgotPassword
    → ForgotRequest
    → ForgotMoment
    → User
    → Option (String × String)
    → Stores
    → Processed
unfolding created
issue_link h r m user none s = (none, s)
issue_link h r m user (some (raw, hash)) s =
    let older = (invalidate_for_user user.id m.now s.resets).1 in
    let (answer, resets) = create (some (reset_token h m user hash)) older in
    created h r m user raw answer (record s { resets = resets })

abbrev pub throttle_key : User → String
throttle_key user = concat "pwreset:" user.id

-- The throttle: whether the request is dropped, and the tracker afterwards.
unfoldable pub throttle :
    ForgotPassword → ForgotMoment → User → LoginAttemptTracker → Bool × LoginAttemptTracker
throttle h m user t =
    if not h.throttled
    then (false, t)
    else let (locked, t') = is_locked_out (throttle_key user) m.checked t in
      if locked then (true, t') else (false, record_failure (throttle_key user) m.recorded t')

unfoldable pub process_user :
    ForgotPassword → ForgotRequest → ForgotMoment → Option User → Stores → Processed
unfolding throttle issue_link
process_user h r m none s = (none, s)
process_user h r m (some user) s =
    if user.email == ""
    then (none, s)
    else let (dropped, tracker) = throttle h m user s.tracker in
      let s' = record s { tracker = tracker } in
      if dropped then (none, s') else issue_link h r m user (new_opaque_token h.crypto m.random) s'

-- process
unfoldable pub process : ForgotPassword → ForgotRequest → ForgotMoment → String → Stores → Processed
unfolding find_user process_user
process h r m identifier s =
    process_user h r m (find_user s.users identifier)
      (record s { resets = (delete_expired (add m.now (negsuc (retention - 1))) s.resets).1 })

-- ServeHTTP: the answer, and what `process` does.
unfoldable pub serve :
    ForgotPassword → ForgotRequest → ForgotMoment → Stores → Response Bool × Processed
unfolding process
serve h r m s = elim (present r) [
  | pass identifier ↦ (reply true, process h r m identifier s)
  | Check.reject status code desc ↦ (Response.fail status code desc, (none, s))
  | Check.crash ↦ (Response.panics, (none, s))
]
