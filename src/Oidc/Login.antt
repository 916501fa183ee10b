-- ===== src/Oidc/Login.antt =====
-- internal/oidc/login.go: POST /api/auth/login. Header writing and logging are left out. `csrf` tells
-- whether the header verifies; the address and the user agent are those that the handler picks, cut
-- for the audit entry as it cuts them.
pub mod Outcome
use authserver_go.Base.{
  ℕ, String, Bool, true, false, not, ◌||◌, Option, none, some, List, [], ◌∷◌, ◌==◌, string_eq,
  if◌then◌else◌,
}
use authserver_go.Base.Int.{ℤ}
use authserver_go.Base.Text.{concat, trim_space}
use authserver_go.Domain.Time.{Time, Uuid, add}
use authserver_go.Domain.Entities.{Session, User, UserInfo}
use authserver_go.Store.Error.{Result, ok, err}
use authserver_go.Store.Users.{
  Bcrypt, UserStore, find_user_by_username, find_user_by_email, validate_credentials,
}
use authserver_go.Store.Sessions
use authserver_go.Store.LoginAttempts.{is_locked_out, record_failure, reset}
use authserver_go.Store.AuditLogs
use authserver_go.Oidc.Http.{
  Response, reply, fail, bad_request, unauthorized, forbidden, method_not_allowed, internal_error,
}
use authserver_go.Oidc.Stores.{Stores}
use authserver_go.Oidc.ReturnUrl.{Paths, home_path, validate_return_url}

-- `encode` is the cookie value for a session, or the failure to encode it.
pub record Login : Type 0 where
  pub bcrypt : Bcrypt
  pub paths : Paths
  pub session_lifetime : ℤ
  pub encode : Uuid → Option String
  pub audited : Bool

pub record LoginBody : Type 0 where
  pub username : String
  pub password : String
  pub return_url : String

pub record LoginRequest : Type 0 where
  pub is_post : Bool
  pub csrf : Bool
  pub body : Option LoginBody
  pub ip : String
  pub logged_ip : String
  pub user_agent : String

-- The readings of the clock, by the tracker and by the handler, and what is drawn.
pub record LoginMoment : Type 0 where
  pub checked : Time
  pub recorded : Time
  pub failed : Time
  pub now : Time
  pub session_id : Uuid
  pub audit_id : Uuid

-- The answer, the session cookie that it sets, and the stores afterwards.
abbrev pub Served : Type 0
Served = Response String × Option String × Stores

abbrev pub too_many_requests : ℕ
too_many_requests = 429

-- loginErrorLabel
unfoldable pub login_error_label : String → String
login_error_label code =
    if code == "invalid_credentials"
    then "Invalid username or password."
    else if code == "missing_credentials"
    then "Please enter both a username and a password."
    else if code == "account_locked"
    then "Account temporarily locked due to repeated failures. Try again later."
    else if code == "antiforgery_failed"
    then "Your session expired. Please reload and try again."
    else if code == "invalid_return"
    then "The destination link is invalid. Please start over."
    else "An unexpected error occurred."

-- respondWithError
unfoldable pub refuse : ℕ → String → Response String
unfolding login_error_label
refuse status code = fail status code (login_error_label code)

-- lockoutKey
unfoldable pub lockout_key : String → String → String
lockout_key username ip = concat username (concat "|" ip)

unfoldable pub found_id : Result User → Result User → String
found_id (ok u) other = u.id
found_id (err e) (ok u) = u.id
found_id (err e) (err e') = ""

unfoldable pub lookup_user_id : UserStore → String → String
unfolding found_id
lookup_user_id users identifier =
    found_id (find_user_by_username users identifier) (find_user_by_email users identifier)

-- recordAuth
unfoldable pub record_auth :
    Login → LoginRequest → Uuid → String → String → String → Time → Stores → Stores
record_auth h r id user_id action metadata at s = if not h.audited then s else record s {
  audit =
      (AuditLogs.store
        (some (record {
          id = id;
          action = action;
          actor_user_id = user_id;
          target_type = "User";
          target_id = user_id;
          timestamp = at;
          ip_address = r.logged_ip;
          user_agent = r.user_agent;
          metadata = metadata;
        }))
        s.audit).1;
}

-- recordFailedLogin
unfoldable pub record_failed_login : Login → LoginRequest → LoginMoment → String → Stores → Stores
unfolding lookup_user_id record_auth
record_failed_login h r m identifier s =
    let user_id = lookup_user_id s.users identifier in
    if user_id == ""
    then s
    else record_auth h r m.audit_id user_id "login_failed" "{\"reason\":\"invalid_credentials\"}"
        m.failed s

-- A wrong password: one more failure for the key.
unfoldable pub turn_away : Login → LoginRequest → LoginMoment → String → String → Stores → Served
unfolding refuse record_failed_login
turn_away h r m username key s = (
  refuse unauthorized "invalid_credentials",
  none,
  record_failed_login h r m username
      (record s { tracker = record_failure key m.recorded s.tracker }),
)

abbrev pub new_session : Login → LoginMoment → UserInfo → Session
new_session h m info = record {
  id = m.session_id;
  user_id = info.user_id;
  created_at = m.now;
  expires_at = add m.now h.session_lifetime;
  revoked_at = none;
  properties = [];
}

-- The answer to a sign-in, with the validated address.
unfoldable pub destination : Option String → Response String
unfolding refuse
destination none = refuse bad_request "invalid_return"
destination (some target) = reply (if target == "" then home_path else target)

-- What follows Sessions.Store.
unfoldable pub hand_out :
    Login → LoginRequest → LoginMoment → LoginBody → UserInfo → Stores → Served
unfolding refuse record_auth destination
hand_out h r m b info s = elim (h.encode m.session_id) [
  | none ↦ (refuse internal_error "server_error", none, s)
  | some cookie ↦ (
    destination (validate_return_url h.paths b.return_url),
    some cookie,
    record_auth h r m.audit_id info.user_id "login_succeeded" "" m.now s,
  )
]

unfoldable pub sign_in :
    Login → LoginRequest → LoginMoment → LoginBody → String → UserInfo → Stores → Served
unfolding hand_out
sign_in h r m b key info s = hand_out h r m b info (record s {
  tracker = reset key s.tracker;
  sessions = (Sessions.store (some (new_session h m info)) s.sessions).1;
})

-- The check of the password.
unfoldable pub attempt :
    Login → LoginRequest → LoginMoment → LoginBody → String → String → Stores → Served
unfolding turn_away sign_in
attempt h r m b username key s = elim (validate_credentials h.bcrypt s.users username b.password) [
  | none ↦ turn_away h r m username key s
  | some info ↦ sign_in h r m b key info s
]

-- IsLockedOut may drop the key's attempts, on a refusal too.
unfoldable pub unless_locked :
    Login → LoginRequest → LoginMoment → LoginBody → String → Stores → Served
unfolding refuse attempt
unless_locked h r m b username s =
    let key = lockout_key username r.ip in
    let (locked, tracker) = is_locked_out key m.checked s.tracker in
    let s' = record s { tracker = tracker } in
    if locked
    then (refuse too_many_requests "account_locked", none, s')
    else attempt h r m b username key s'

unfoldable pub serve_body : Login → LoginRequest → LoginMoment → Option LoginBody → Stores → Served
unfolding refuse unless_locked
serve_body h r m none s = (refuse bad_request "invalid_credentials", none, s)
serve_body h r m (some b) s =
    let username = trim_space b.username in
    if username == "" || b.password == ""
    then (refuse bad_request "missing_credentials", none, s)
    else unless_locked h r m b username s

-- ServeHTTP
unfoldable pub serve : Login → LoginRequest → LoginMoment → Stores → Served
unfolding refuse serve_body
serve h r m s =
    if not r.is_post
    then (fail method_not_allowed "invalid_request" "method not allowed", none, s)
    else if not r.csrf
    then (refuse forbidden "antiforgery_failed", none, s)
    else serve_body h r m r.body s
