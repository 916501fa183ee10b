-- ===== src/Admin/Auth.antt =====
-- internal/admin/auth.go and internal/admin/csrf.go: who gets to the admin API.
pub mod Admitted
use authserver_go.Base.{
  ℕ, String, Bool, true, false, not, ◌&&◌, ◌||◌, Option, none, some, List, any, ◌==◌, string_eq,
  if◌then◌else◌,
}
use authserver_go.Base.Text.{has_prefix, trim_space, drop_chars}
use authserver_go.Domain.Entities.{Session}
use authserver_go.Store.Error.{Result, ok, err}
use authserver_go.Store.Users.{UserStore}
use authserver_go.Store.Users.Roles.{get_user_roles}
use authserver_go.Oidc.Http.{unauthorized, forbidden, internal_error}
use authserver_go.Oidc.SessionResolver.{Resolved, active, inactive, no_session, lookup_failed}
use authserver_go.Admin.Users.{contains_string}

pub data AuthMethod : Type 0 where
  anonymous token session : AuthMethod

-- `resolves` tells whether Sessions and Users are set.
pub record AuthConfig : Type 0 where
  pub admin_token : String
  pub allow_anonymous : Bool
  pub admin_role : String
  pub resolves : Bool

-- The headers that are read; one that is missing is the empty text. `safe` tells whether the method is GET,
-- HEAD or OPTIONS.
pub record Headers : Type 0 where
  pub safe : Bool
  pub authorization : String
  pub x_admin_token : String
  pub csrf_cookie : Option String
  pub csrf_token : String

-- What the session resolver says: a session, none, or a failure of the store.
pub data SessionAnswer : Type 0 where
  who : Session → SessionAnswer
  nobody outage : SessionAnswer

-- isNoSessionError, on the answers of Resolve with the memory store: a cookie that is missing or does not
-- decode and ErrNotFound are its only errors.
unfoldable pub session_answer : Resolved → SessionAnswer
session_answer (active x) = who x
session_answer inactive = nobody
session_answer no_session = nobody
session_answer lookup_failed = nobody

-- A request that goes on, with how it was let in and the admin who is signed in; or an error.
pub data Gate : Type 0 where
  enter : AuthMethod → String → Gate
  deny : ℕ → String → Gate

-- extractAdminToken
unfoldable pub extract_admin_token : Headers → String
extract_admin_token r =
    if has_prefix "Bearer " r.authorization
    then trim_space (drop_chars 7 r.authorization)
    else r.x_admin_token

unfoldable pub role_or_default : AuthConfig → String
role_or_default c = if c.admin_role == "" then "admin" else c.admin_role

-- The roles of the session's user.
unfoldable pub by_roles : AuthConfig → Session → Result (List String) → Gate
unfolding contains_string role_or_default
by_roles c x (err e) = deny internal_error "server_error"
by_roles c x (ok roles) =
    if contains_string roles (role_or_default c)
    then enter session x.user_id
    else deny forbidden "admin role required"

unfoldable pub by_session : AuthConfig → SessionAnswer → UserStore → Gate
unfolding by_roles
by_session c outage users = deny internal_error "server_error"
by_session c nobody users = deny unauthorized "unauthorized"
by_session c (who x) users = by_roles c x (get_user_roles users x.user_id)

unfoldable pub token_fits : AuthConfig → Headers → Bool
unfolding extract_admin_token
token_fits c r =
    not (extract_admin_token r == "")
    && not (c.admin_token == "")
    && extract_admin_token r == c.admin_token

-- AuthMiddleware
unfoldable pub auth_gate : AuthConfig → Headers → SessionAnswer → UserStore → Gate
unfolding token_fits by_session
auth_gate c r answer users =
    if c.allow_anonymous
    then enter anonymous ""
    else if token_fits c r
    then enter token ""
    else if c.resolves
    then by_session c answer users
    else deny unauthorized "unauthorized"

-- The double-submit check.
unfoldable pub csrf_fits : Headers → Bool
csrf_fits r = elim r.csrf_cookie [
  | none ↦ false
  | some cookie ↦ not (cookie == "" || r.csrf_token == "") && cookie == r.csrf_token
]

-- The method of authentication decides whether the check is needed.
unfoldable pub is_ambient : AuthMethod → Bool
is_ambient token = false
is_ambient anonymous = true
is_ambient session = true

-- CSRFMiddleware, behind AuthMiddleware.
unfoldable pub csrf_gate : Headers → Gate → Gate
unfolding csrf_fits is_ambient
csrf_gate r (deny status text) = deny status text
csrf_gate r (enter method actor) =
    if r.safe || not (is_ambient method) || csrf_fits r
    then enter method actor
    else deny forbidden "antiforgery_failed"

-- The two middlewares as they are mounted.
unfoldable pub admit : AuthConfig → Headers → SessionAnswer → UserStore → Gate
unfolding auth_gate csrf_gate
admit c r answer users = csrf_gate r (auth_gate c r answer users)
