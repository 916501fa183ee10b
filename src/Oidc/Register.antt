-- ===== src/Oidc/Register.antt =====
-- internal/oidc/register.go: POST /api/auth/register. Header writing and logging are left out.
pub mod RoundTrip
use authserver_go.Base.{
  ℕ, String, Bool, true, false, not, ◌||◌, Option, none, some, ◌==◌, ◌!=◌, string_eq, if◌then◌else◌,
  is_some,
}
use authserver_go.Base.Text.{concat, trim_space}
use authserver_go.Domain.Time.{Time}
use authserver_go.Domain.Entities.{User}
use authserver_go.Domain.PasswordPolicy.{validate_password}
use authserver_go.Store.Error.{duplicate, StoreError, not_found, nil_entity, empty_id, empty_hash}
use authserver_go.Store.Users.{
  Bcrypt, UserStore, UserResult, UserError, done, failed, store_error, hash_error, create_user,
}
use authserver_go.Oidc.Http.{
  Response, reply, fail, Check, pass, reject, ◌>>=◌, ◌>>◌, refuse_if, some_or, finish_at,
  bad_request, forbidden, method_not_allowed, internal_error,
}

-- `escape` is url.QueryEscape.
pub record Register : Type 0 where
  pub bcrypt : Bcrypt
  pub login_path : String
  pub escape : String → String

pub record RegisterBody : Type 0 where
  pub username : String
  pub email : String
  pub password : String
  pub password_confirm : String
  pub return_url : String

pub record RegisterRequest : Type 0 where
  pub is_post : Bool
  pub csrf : Bool
  pub body : Option RegisterBody

abbrev pub conflict : ℕ
conflict = 409

-- registerErrorLabel
unfoldable pub register_error_label : String → String
register_error_label code =
    if code == "missing_fields"
    then "Please fill out all fields."
    else if code == "password_mismatch"
    then "Passwords do not match."
    else if code == "weak_password"
    then "Password must be 8-72 characters and must not start or end with whitespace."
    else if code == "duplicate_user"
    then "Username or email is already taken."
    else if code == "antiforgery_failed"
    then "Your session expired. Please reload and try again."
    else if code == "server_error"
    then "An unexpected error occurred. Please try again later."
    else "An unexpected error occurred."

-- if bad { h.respondWithError(…); return }
abbrev pub refuse_as : Bool → ℕ → String → Check (Unit {0})
refuse_as bad status code = refuse_if bad status code (register_error_label code)

-- The checks of the body.
unfoldable pub check_body : RegisterBody → Check (Unit {0})
unfolding register_error_label
check_body b = do
  refuse_as
      (trim_space b.username == ""
        || trim_space b.email == ""
        || b.password == ""
        || b.password_confirm == "")
      bad_request "missing_fields"
  refuse_as (b.password != b.password_confirm) bad_request "password_mismatch"
  refuse_as (is_some (validate_password b.password)) bad_request "weak_password"

unfoldable pub present : RegisterRequest → Check RegisterBody
unfolding check_body register_error_label
present r = do
  refuse_if (not r.is_post) method_not_allowed "invalid_request" "method not allowed"
  refuse_as (not r.csrf) forbidden "antiforgery_failed"
  b ← some_or r.body bad_request "missing_fields" (register_error_label "missing_fields")
  check_body b
  pass b

-- The account that a body stands for; `id` is drawn.
abbrev pub new_user : String → Time → RegisterBody → User
new_user id now b = record {
  id = id;
  username = trim_space b.username;
  email = trim_space b.email;
  email_confirmed = false;
  password_hash = "";
  security_stamp = "";
  two_factor_enabled = false;
  lockout_end = none;
  lockout_enabled = false;
  access_failed_count = 0;
  created_at = now;
  updated_at = now;
}

unfoldable pub target_of : Register → RegisterBody → String
target_of h b =
    if b.return_url == ""
    then h.login_path
    else concat h.login_path (concat "?returnUrl=" (h.escape b.return_url))

abbrev pub server_error : Response String
server_error = fail internal_error "server_error" (register_error_label "server_error")

-- The answer to what CreateUser returns.
unfoldable pub answer : Register → RegisterBody → UserResult → Response String
unfolding target_of register_error_label
answer h b done = reply (target_of h b)
answer h b (failed (store_error duplicate)) =
    fail conflict "duplicate_user" (register_error_label "duplicate_user")
answer h b (failed (store_error not_found)) = server_error
answer h b (failed (store_error nil_entity)) = server_error
answer h b (failed (store_error empty_id)) = server_error
answer h b (failed (store_error empty_hash)) = server_error
answer h b (failed hash_error) = server_error

-- ServeHTTP
unfoldable pub serve :
    Register → RegisterRequest → String → Time → UserStore → Response String × UserStore
unfolding present answer
serve h r id now s = finish_at s (present r) λ b.
    let (outcome, s') = create_user h.bcrypt (new_user id now b) b.password s in
    (answer h b outcome, s')
