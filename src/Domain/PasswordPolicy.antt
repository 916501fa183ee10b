-- ===== src/Domain/PasswordPolicy.antt =====
-- internal/domain/password_policy.go: ValidatePassword.
use authserver_go.Base.{
  ℕ, ◌≤◌, String, ◌≡◌, ◌||◌, ◌==◌, ◌!=◌, string_eq, ltb, Option, none, some, if◌then◌else◌, arith,
  eq_iff,
}
use authserver_go.Base.Text.{trim_space, byte_len, rune_count}

abbrev pub password_min_length : ℕ
password_min_length = 8

abbrev pub password_max_bytes : ℕ
password_max_bytes = 72

pub data PasswordError : Type 0 where
  password_whitespace password_too_short password_too_long : PasswordError

-- `none` is Go's nil error.
unfoldable pub validate_password : String → Option PasswordError
validate_password pw =
    if trim_space pw == "" || pw != trim_space pw
    then some password_whitespace
    else if ltb (rune_count pw) password_min_length
    then some password_too_short
    else if ltb password_max_bytes (byte_len pw)
    then some password_too_long
    else none

-- A password that the policy takes.
pub record Acceptable (pw : String) : Type 0 where
  pub trimmed : trim_space pw ≡ pw
  pub long_enough : password_min_length ≤ rune_count pw
  pub short_enough : byte_len pw ≤ password_max_bytes

pub validate_password-Acceptable : (pw : String) → validate_password pw ≡ none → Acceptable pw
unfolding validate_password
validate_password-Acceptable pw h = ground (arith, h, eq_iff pw (trim_space pw))
