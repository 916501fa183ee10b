-- ===== src/Admin/Users.antt =====
-- internal/admin/api.go: the handlers that only change the user store. A count of failed logins that is
-- negative in a request stands as some number.
pub mod RoleSet
use authserver_go.Base.{
  ℕ, String, Bool, false, not, ◌||◌, Option, none, some, List, [], ◌∷◌, any, map, select, ◌==◌,
  string_eq, if◌then◌else◌, is_some,
}
use authserver_go.Base.Text.{trim_space, equal_fold}
use authserver_go.Domain.Time.{Time}
use authserver_go.Domain.Entities.{User, UserClaim, UserLogin}
use authserver_go.Domain.Paged.{PagedRequest, PagedResult}
use authserver_go.Domain.PasswordPolicy.{
  PasswordError, password_whitespace, password_too_short, password_too_long, validate_password,
}
use authserver_go.Store.Error.{Result, ok, err}
use authserver_go.Store.Users.{
  UserStore, UserResult, done, failed, find_user_by_id, get_user_claims, replace_user_claims,
  get_paged_users,
}
use authserver_go.Store.Users
use authserver_go.Store.Users.Roles.{get_user_roles, add_to_roles, remove_from_roles}
use authserver_go.Store.Users.Logins.{get_user_logins, remove_login}
use authserver_go.Oidc.Http.{
  Response, reply, fail, panics, Check, pass, reject, ◌>>=◌, ◌>>◌, refuse_if, some_or, finish,
  finish_at, bad_request, internal_error,
}
use authserver_go.Admin.{Api, found, settled}

pub record UserView : Type 0 where
  pub id : String
  pub username : String
  pub email : String
  pub email_confirmed : Bool
  pub two_factor_enabled : Bool
  pub lockout_end : Option Time
  pub lockout_enabled : Bool
  pub access_failed_count : ℕ
  pub created_at : Time
  pub updated_at : Time

unfoldable pub to_user_view : User → UserView
to_user_view u = record {
  id = u.id;
  username = u.username;
  email = u.email;
  email_confirmed = u.email_confirmed;
  two_factor_enabled = u.two_factor_enabled;
  lockout_end = u.lockout_end;
  lockout_enabled = u.lockout_enabled;
  access_failed_count = u.access_failed_count;
  created_at = u.created_at;
  updated_at = u.updated_at;
}

abbrev pub Answer : Type 0
Answer = Response UserView × UserStore

-- listUsers, for the page that parsePage reads.
unfoldable pub list_users : PagedRequest → UserStore → Response (List UserView × ℕ)
unfolding to_user_view
list_users page s = elim (get_paged_users s page) [
  | none ↦ panics
  | some res ↦ reply (map to_user_view res.items, res.total_count)
]

pub record CreateUser : Type 0 where
  pub id : String
  pub username : String
  pub email : String
  pub password : String

-- The text of an error of ValidatePassword.
unfoldable pub policy_text : PasswordError → String
policy_text password_too_short = "password must be at least 8 characters"
policy_text password_too_long = "password must be at most 72 bytes"
policy_text password_whitespace = "password must not be blank or start/end with whitespace"

unfoldable pub policy : Option PasswordError → Check (Unit {0})
unfolding policy_text
policy none = pass tt
policy (some e) = reject bad_request (policy_text e) ""

-- The checks of createUser.
unfoldable pub create_present : Option CreateUser → Check CreateUser
unfolding policy
create_present raw = do
  body ← some_or raw bad_request "invalid json" ""
  refuse_if (trim_space body.username == "" || body.password == "") bad_request
      "username and password are required" ""
  policy (validate_password body.password)
  pass body

-- `drawn` is uuid.NewString's.
unfoldable pub new_user : CreateUser → String → Time → User
new_user b drawn now = record {
  id = if trim_space b.id == "" then drawn else trim_space b.id;
  username = trim_space b.username;
  email = trim_space b.email;
  email_confirmed = false;
  password_hash = "";
  security_stamp = "";
  two_factor_enabled = false;
  lockout_end = none;
  lockout_enabled = false;
  access_failed_count = 0;
  created_at = now;
  updated_at = now;
}

unfoldable pub created_answer : User → UserResult → Response UserView
unfolding to_user_view
created_answer u done = reply (to_user_view u)
created_answer u (failed e) = fail bad_request "create failed" ""

-- createUser
unfoldable pub create_user : Api → Option CreateUser → String → Time → UserStore → Answer
unfolding create_present new_user created_answer
create_user h raw drawn now s = finish_at s (create_present raw) λ body.
    let user = new_user body drawn now in
    let (answer, s') = Users.create_user h.bcrypt user body.password s in
    (created_answer user answer, s')

-- getUser
unfoldable pub get_user : String → UserStore → Response UserView
unfolding found to_user_view
get_user id s = finish (found "lookup failed" (find_user_by_id s id)) λ u. reply (to_user_view u)

pub record UpdateUser : Type 0 where
  pub username : String
  pub email : String
  pub email_confirmed : Bool
  pub two_factor_enabled : Bool
  pub lockout_end : Option Time
  pub lockout_enabled : Bool
  pub access_failed_count : ℕ

unfoldable pub updated_answer : String → User → Result (Unit {0}) → Response UserView
unfolding to_user_view
updated_answer text u (ok x) = reply (to_user_view u)
updated_answer text u (err e) = fail bad_request text ""

-- UpdateUser, and the answer to it.
unfoldable pub put_user : String → User → UserStore → Answer
unfolding updated_answer
put_user text u s = let (answer, s') = Users.update_user u s in (updated_answer text u answer, s')

-- updateUser
unfoldable pub update_user : String → Option UpdateUser → Time → UserStore → Answer
unfolding found put_user
update_user id none now s = (fail bad_request "invalid json" "", s)
update_user id (some b) now s = finish_at s (found "lookup failed" (find_user_by_id s id)) λ u.
    put_user "update failed"
      (record u {
        username = b.username;
        email = b.email;
        email_confirmed = b.email_confirmed;
        two_factor_enabled = b.two_factor_enabled;
        lockout_end = b.lockout_end;
        lockout_enabled = b.lockout_enabled;
        access_failed_count = b.access_failed_count;
        updated_at = now;
      })
      s

-- unlockUser
unfoldable pub unlock_user : String → Time → UserStore → Answer
unfolding found put_user
unlock_user id now s = finish_at s (found "lookup failed" (find_user_by_id s id)) λ u.
    put_user "unlock failed"
      (record u { lockout_end = none; access_failed_count = 0; updated_at = now }) s

-- getUserClaims
unfoldable pub user_claims : String → UserStore → Response (List UserClaim)
unfolding found
user_claims id s = finish (found "lookup failed" (get_user_claims s id)) λ claims. reply claims

abbrev pub Done : Type 0
Done = Response (Unit {0}) × UserStore

-- setUserClaims
unfoldable pub set_user_claims : String → Option (List UserClaim) → UserStore → Done
unfolding settled
set_user_claims id none s = (fail bad_request "invalid json" "", s)
set_user_claims id (some claims) s =
    let (answer, s') = replace_user_claims id claims s in (settled "update failed" answer, s')

-- getUserRoles
unfoldable pub user_roles : String → UserStore → Response (List String)
unfolding found
user_roles id s = finish (found "lookup failed" (get_user_roles s id)) λ roles. reply roles

-- containsString
unfoldable pub contains_string : List String → String → Bool
contains_string xs x = any (λ y. equal_fold y x) xs

-- A change that is skipped where there is nothing to change; a failure is a server error.
unfoldable pub unless_empty :
    List String
    → String
    → (UserStore → Result (Unit {0}) × UserStore)
    → UserStore
    → Response (Unit {0}) × UserStore
unless_empty [] text change s = (reply tt, s)
unless_empty (x ∷ xs) text change s =
    let (answer, s') = change s in
    elim answer [ ok y ↦ (reply tt, s') | err e ↦ (fail internal_error text "", s') ]

-- The second half runs if the first was answered.
unfoldable pub and_then : Done → (UserStore → Done) → Done
and_then (reply x, s) next = next s
and_then (fail code text desc, s) next = (fail code text desc, s)
and_then (panics, s) next = (panics, s)

-- The two changes of setUserRoles: what is not asked for goes, and what is missing comes.
unfoldable pub change_roles : String → List String → List String → UserStore → Done
unfolding contains_string unless_empty and_then
change_roles id wanted existing s =
    let to_remove = select (λ r. not (contains_string wanted r)) existing in
    let to_add = select (λ r. not (contains_string existing r)) wanted in
    and_then (unless_empty to_remove "remove roles failed" (remove_from_roles id to_remove) s)
      (unless_empty to_add "add roles failed" (add_to_roles id to_add))

-- setUserRoles
unfoldable pub set_user_roles : String → Option (List String) → UserStore → Done
unfolding found change_roles
set_user_roles id none s = (fail bad_request "invalid json" "", s)
set_user_roles id (some wanted) s =
    finish_at s (found "lookup failed" (get_user_roles s id))
      λ existing. change_roles id wanted existing s

-- getUserLogins
unfoldable pub user_logins : String → UserStore → Response (List UserLogin)
unfolding found
user_logins id s = finish (found "lookup failed" (get_user_logins s id)) λ logins. reply logins

-- removeUserLogin
unfoldable pub remove_user_login : String → String → String → UserStore → Done
unfolding settled
remove_user_login id provider key s =
    let (answer, s') = remove_login id provider key s in (settled "delete failed" answer, s')
