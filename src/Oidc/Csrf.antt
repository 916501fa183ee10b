-- ===== src/Oidc/Csrf.antt =====
-- internal/oidc/csrf_guard.go: the double-submit check. A cookie that is missing is `none`.
use authserver_go.Base.{String, Bool, false, Option, none, some, ◌==◌, string_eq, if◌then◌else◌}

-- What Issue sets and returns.
pub record CsrfCookie : Type 0 where
  pub name : String
  pub value : String
  pub path : String
  pub secure : Bool

pub record CsrfGuard : Type 0 where
  pub cookie_name : String
  pub path : String
  pub require_https : Bool

-- `token` is the encoded random text, or the failure of the random source.
unfoldable pub issue : CsrfGuard → Option String → Option (String × CsrfCookie)
issue g none = none
issue g (some token) =
    some (
      token,
      record { name = g.cookie_name; value = token; path = g.path; secure = g.require_https },
    )

-- The constant-time comparison of a cookie that is there with what the request carries.
unfoldable pub matches : Option String → String → Bool
matches none got = false
matches (some cookie) got = if cookie == "" then false else cookie == got

-- Verify: the form field, or the header where that is empty.
unfoldable pub verify : Option String → String → String → Bool
unfolding matches
verify cookie field header = matches cookie (if field == "" then header else field)

-- VerifyHeader
unfoldable pub verify_header : Option String → String → Bool
unfolding matches
verify_header cookie header = if header == "" then false else matches cookie header

-- APICSRFGuard
unfoldable pub api_csrf_guard : Bool → CsrfGuard
api_csrf_guard require_https = record {
  cookie_name = "_csrf";
  path = "/";
  require_https = require_https;
}
