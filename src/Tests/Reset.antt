-- ===== src/Tests/Reset.antt =====
-- A password reset, on the link "pw" of a user with one session and its refresh token.
use authserver_go.Base.{
  ◌≡◌, ◌≢◌, refl, ℕ, ◌+◌, ◌*◌, ◌<◌, Option, none, some, [], ◌∷◌, true, false, arith, is_some,
  string_eq, nat_eq,
}
use authserver_go.Base.Assoc.{lookup}
use Prim.Native.String.{String}
use authserver_go.Domain.Time.{Time, second, Uuid}
use authserver_go.Domain.Entities.{RefreshToken, PasswordResetToken}
use authserver_go.Store.PasswordResets.{PasswordResetStore, consume, first_with}
use authserver_go.Store.PasswordResets.Keyed.{Keyed}
use authserver_go.Store.RefreshTokens.Laws
use authserver_go.Store.Sessions.Laws.{row, OneEach}
use authserver_go.Store.Users.{Bcrypt}
use authserver_go.Token.Crypto.{hash_token}
use authserver_go.Oidc.Http.{reply}
use authserver_go.Oidc.Stores.{Stores}
use authserver_go.Oidc.ResetPassword.{ResetPassword, ResetRequest, ResetMoment, ResetBody, handle}
use authserver_go.Oidc.ResetPassword.Outcome.{Presented}
use authserver_go.Oidc.ResetPassword.Outcome.Password.{reset_redeems, reset_single_use}
use authserver_go.Oidc.ResetPassword.Outcome.Sessions.{
  IsLive, reset_ends_sessions, reset_spares_expired,
}
use authserver_go.Tests.Data.{test_crypto, noon, live_token, live_session, test_stores}

abbrev test_bcrypt : Bcrypt
test_bcrypt = record {
  generate = λ password. some (String.◌∷◌ "$" password);
  matches = λ hash password. true;
}

abbrev server : ResetPassword
server = record {
  crypto = test_crypto;
  bcrypt = test_bcrypt;
  login_path = "/login";
  audited = true;
}

abbrev body : ResetBody
body = record {
  token = "pw";
  new_password = "correct horse";
  new_password_confirm = "correct horse";
}

abbrev request : ResetRequest
request = record { csrf = true; body = some body; ip = "10.0.0.1"; user_agent = "curl" }

abbrev now : Time
now = noon + 10 * second

abbrev moment : ResetMoment
moment = record {
  looked = now;
  now = now;
  looked_again = now;
  audited = now;
  stamp = "s1";
  audit_id = 20;
}

abbrev link : PasswordResetToken
link = record {
  id = 2;
  user_id = "ada";
  token_hash = "hpw";
  created_at = noon;
  expires_at = noon + 3600 * second;
  consumed_at = none;
}

-- A link that was sent before.
abbrev older_link : PasswordResetToken
older_link = record link { id = 1; token_hash = "hold" }

abbrev links : PasswordResetStore
links = record { tokens = (1, older_link) ∷ (2, link) ∷ [] }

abbrev before : Stores
before = record test_stores { resets = links }

abbrev after : Stores
after = (handle server request moment before).1

answered : handle server request moment before ≡ (reply "/login?notice=password_reset", after)
unfolding handle authserver_go.Oidc.ResetPassword.present
    authserver_go.Oidc.ResetPassword.check_passwords authserver_go.Oidc.ResetPassword.handle_get
    authserver_go.Oidc.ResetPassword.lookup_token authserver_go.Oidc.ResetPassword.usable
    authserver_go.Oidc.ResetPassword.redeem authserver_go.Oidc.ResetPassword.settle
    authserver_go.Oidc.ResetPassword.clean_up authserver_go.Oidc.ResetPassword.rotate_stamp
    authserver_go.Oidc.ResetPassword.revoke_tokens authserver_go.Oidc.ResetPassword.completed_entry
    authserver_go.Oidc.ResetPassword.reset_error_label
    authserver_go.Store.PasswordResets.find_by_hash authserver_go.Store.PasswordResets.first_with
    authserver_go.Store.PasswordResets.consume authserver_go.Store.PasswordResets.invalidate
    authserver_go.Store.PasswordResets.invalidate_for_user authserver_go.Store.Users.set_password
    authserver_go.Store.Users.find_user_by_id authserver_go.Store.Users.update_user
    authserver_go.Store.Sessions.revoke_by_user_id_except authserver_go.Store.Sessions.revoke_loop
    authserver_go.Store.Sessions.skipped authserver_go.Store.RefreshTokens.revoke_by_session_id
    authserver_go.Store.RefreshTokens.revoke_in authserver_go.Store.RefreshTokens.in_session
    authserver_go.Domain.PasswordPolicy.validate_password authserver_go.Token.Crypto.hash_token
    authserver_go.Store.AuditLogs.store lookup authserver_go.Base.Assoc.insert
    authserver_go.Base.Assoc.update_all authserver_go.Base.Text.byte_len
    authserver_go.Base.Text.rune_len authserver_go.Base.Text.rune_count
    authserver_go.Base.Text.concat authserver_go.Base.Text.itoa authserver_go.Base.Text.digits
    authserver_go.Base.Text.digit authserver_go.Base.Text.trim_space
    authserver_go.Base.Text.trim_left authserver_go.Base.Text.trim_right
    authserver_go.Base.Text.is_space
answered = refl

keyed : Keyed links.tokens
unfolding Keyed lookup
keyed = (refl, refl, (refl, refl, tt))

found : first_with (hash_token test_crypto "pw") links.tokens ≡ some link
unfolding first_with hash_token
found = refl

reset_redeems_example :
    (b : ResetBody) × (t : PasswordResetToken) × Presented server request moment links b t
    × (first_with (hash_token test_crypto b.token) links.tokens ≡ some t)
    × (t.consumed_at ≡ none)
    × (now < t.expires_at)
    × (lookup t.user_id after.users.hashes ≡ some (String.◌∷◌ "$" b.new_password))
reset_redeems_example =
    reset_redeems server request moment before "/login?notice=password_reset" after answered

older_stored : lookup 1 links.tokens ≡ some older_link
unfolding lookup
older_stored = refl

reset_single_use_example :
    handle server request moment after ≢ (reply "/login?notice=password_reset", after)
reset_single_use_example =
    reset_single_use server request request moment moment before after after
      "/login?notice=password_reset" "/login?notice=password_reset" body body keyed answered refl
      refl refl

session_stored : row before.sessions 5 ≡ some live_session
unfolding lookup
session_stored = refl

token_stored : Laws.row before.refresh 7 ≡ some live_token
unfolding lookup
token_stored = refl

live : IsLive "ada" now 5 live_session
live = record {
  owned = refl;
  not_nil = λ e. omega (arith, e);
  not_revoked = refl;
  not_expired = omega arith;
}

reset_ends_sessions_example :
    (row after.sessions 5 ≡ some (record live_session { revoked_at = some now }))
    × ((j : Uuid) (u : RefreshToken)
        → Laws.row before.refresh j ≡ some u
        → u.session_id ≡ some 5
        → (v : RefreshToken) × (Laws.row after.refresh j ≡ some v) × (is_some v.revoked_at ≡ true))
reset_ends_sessions_example =
    reset_ends_sessions server request moment before "/login?notice=password_reset" after body link
      5 live_session answered refl found session_stored live

-- The same, ten minutes after the session has expired.
abbrev late : ResetMoment
late = record moment {
  looked = noon + 600 * second;
  now = noon + 600 * second;
  looked_again = noon + 600 * second;
}

abbrev late_after : Stores
late_after = (handle server request late before).1

late_answered :
    handle server request late before ≡ (reply "/login?notice=password_reset", late_after)
unfolding handle authserver_go.Oidc.ResetPassword.present
    authserver_go.Oidc.ResetPassword.check_passwords authserver_go.Oidc.ResetPassword.handle_get
    authserver_go.Oidc.ResetPassword.lookup_token authserver_go.Oidc.ResetPassword.usable
    authserver_go.Oidc.ResetPassword.redeem authserver_go.Oidc.ResetPassword.settle
    authserver_go.Oidc.ResetPassword.clean_up authserver_go.Oidc.ResetPassword.rotate_stamp
    authserver_go.Oidc.ResetPassword.revoke_tokens authserver_go.Oidc.ResetPassword.completed_entry
    authserver_go.Oidc.ResetPassword.reset_error_label
    authserver_go.Store.PasswordResets.find_by_hash authserver_go.Store.PasswordResets.first_with
    authserver_go.Store.PasswordResets.consume authserver_go.Store.PasswordResets.invalidate
    authserver_go.Store.PasswordResets.invalidate_for_user authserver_go.Store.Users.set_password
    authserver_go.Store.Users.find_user_by_id authserver_go.Store.Users.update_user
    authserver_go.Store.Sessions.revoke_by_user_id_except authserver_go.Store.Sessions.revoke_loop
    authserver_go.Store.Sessions.skipped authserver_go.Store.RefreshTokens.revoke_by_session_id
    authserver_go.Store.RefreshTokens.revoke_in authserver_go.Store.RefreshTokens.in_session
    authserver_go.Domain.PasswordPolicy.validate_password authserver_go.Token.Crypto.hash_token
    authserver_go.Store.AuditLogs.store lookup authserver_go.Base.Assoc.insert
    authserver_go.Base.Assoc.update_all authserver_go.Base.Text.byte_len
    authserver_go.Base.Text.rune_len authserver_go.Base.Text.rune_count
    authserver_go.Base.Text.concat authserver_go.Base.Text.itoa authserver_go.Base.Text.digits
    authserver_go.Base.Text.digit authserver_go.Base.Text.trim_space
    authserver_go.Base.Text.trim_left authserver_go.Base.Text.trim_right
    authserver_go.Base.Text.is_space
late_answered = refl

one_each : OneEach before.sessions.sessions
unfolding OneEach lookup
one_each = (refl, tt)

reset_spares_expired_example : Laws.row late_after.refresh 7 ≡ some live_token
reset_spares_expired_example =
    reset_spares_expired server request late before "/login?notice=password_reset" late_after body
      link 5 7 live_session live_token one_each late_answered refl found session_stored
      (omega arith) token_stored refl
