-- ===== src/Tests/Handlers.antt =====
-- Mailed links, user info and logout at concrete data.
use Prim.Native.String.{String}
use authserver_go.Base.{
  ℕ, ◌+◌, ◌<◌, ◌≡◌, ◌≢◌, ◌==◌, refl, true, false, none, some, [], ◌∷◌, string_eq, nat_eq, is_some,
  arith, eq_iff, if◌then◌else◌,
}
use authserver_go.Base.Int.{pos}
use authserver_go.Base.Assoc.{lookup, insert}
use authserver_go.Base.Text.{trim_space, fields, has_prefix, drop_chars, equal_fold}
use authserver_go.Domain.Time.{Time, add}
use authserver_go.Domain.Entities.{Session, RefreshToken, UserInfo, text, flag}
use authserver_go.Store.Error.{ok}
use authserver_go.Store.Users.{
  find_user_by_username, find_by_id, build_claims_map, first_user, identifies,
}
use authserver_go.Store.LoginAttempts.{is_locked_out}
use authserver_go.Store.PasswordResets.{first_with}
use authserver_go.Store.RefreshTokens.Laws.{row}
use authserver_go.Token.Crypto.{hash_token}
use authserver_go.Oidc.Http.{reply, pass}
use authserver_go.Oidc.Stores.{Stores}
use authserver_go.Oidc.SessionResolver.{session_id}
use authserver_go.Oidc.ResetPassword
use authserver_go.Oidc.ResetPassword.{ResetPassword}
use authserver_go.Oidc.ForgotPassword
use authserver_go.Oidc.ForgotPassword.{
  ForgotPassword, ForgotRequest, ForgotMoment, Message, present, find_user, email_body, throttle,
}
use authserver_go.Oidc.ForgotPassword.Link.{forgot_link_works, forgot_tells_nothing}
use authserver_go.Oidc.UserInfo
use authserver_go.Oidc.UserInfo.{
  UserInfoHandler, UserInfoRequest, VerifiedToken, Claims, scope_loop, copy_claims, released_by,
}
use authserver_go.Oidc.UserInfo.Released.{Shown, choose, releases, userinfo_releases}
use authserver_go.Oidc.Logout.{Logout, LogoutForm, LogoutMoment, handle_confirm}
use authserver_go.Oidc.Logout.Ended.{Onward, logout_ends_session}
use authserver_go.Store.Users.{validate_credentials, set_password, find_user_by_id}
use authserver_go.Tests.Data.{noon, ada, test_stores, test_crypto, test_users, live_session}

abbrev forgot : ForgotPassword
forgot = record {
  crypto = test_crypto;
  reset_path = "/reset";
  public_url = "https://auth";
  token_lifetime = pos 3600000000000;
  escape = λ t. t;
  throttled = true;
  audited = true;
}

abbrev ask : ForgotRequest
ask = record {
  is_post = true;
  csrf = true;
  body = some " ada ";
  ip = "10.0.0.1";
  user_agent = "ua";
}

abbrev draw : ForgotMoment
draw = record {
  now = noon;
  checked = noon;
  recorded = noon;
  audited = noon;
  random = some "raw";
  token_id = 21;
  audit_id = 22;
}

asked : present ask ≡ pass "ada"
unfolding present trim_space
asked = refl

known : find_user test_stores.users "ada" ≡ some ada
unfolding find_user find_user_by_username first_user identifies equal_fold
known = refl

let_in : (throttle forgot draw ada test_stores.tracker).0 ≡ false
unfolding throttle is_locked_out lookup
let_in = refl

unused : first_with (hash_token test_crypto "raw") test_stores.resets.tokens ≡ none
unfolding first_with
unused = refl

hashed : hash_token test_crypto "raw" ≢ ""
unfolding hash_token
hashed = ground (arith, eq_iff "hraw" "")

abbrev page : ResetPassword
page = record {
  crypto = test_crypto;
  bcrypt = record { generate = λ pw. some pw; matches = λ stored pw. stored == pw };
  login_path = "/login";
  audited = true;
}

forgot_link_works_example :
    (msg : Message) × (s' : Stores) × (ForgotPassword.serve forgot ask draw test_stores
      ≡ (reply true, (some msg, s')))
    × (msg.to ≡ "ada@example.com")
    × (msg.body ≡ email_body forgot "raw")
    × ((later : Time)
        → later < add noon (pos 3600000000000)
        → ResetPassword.handle_get page s'.resets "raw" later ≡ true)
forgot_link_works_example =
    forgot_link_works forgot page ask draw ada "raw" "ada" test_stores refl asked known
      (ground (arith, eq_iff "ada@example.com" "")) let_in refl (ground (arith, eq_iff "raw" ""))
      hashed unused

forgot_tells_nothing_example :
    (ForgotPassword.serve forgot ask draw test_stores).0
    ≡ (ForgotPassword.serve forgot ask
        (record draw { random = none })
        (record test_stores { users = authserver_go.Store.Users.new })).0
forgot_tells_nothing_example =
    forgot_tells_nothing forgot ask draw (record draw { random = none }) test_stores
      (record test_stores { users = authserver_go.Store.Users.new })

abbrev directory : UserInfoHandler
directory = record {
  verify_token = λ raw.
      if raw == "at" then some (record { subject = "ada"; scope = "openid email" }) else none;
}

abbrev bearer : UserInfoRequest
bearer = record { is_post = false; authorization = "Bearer at"; form_token = "" }

abbrev released : Claims
released =
    ("sub", text "ada") ∷ ("email", text "ada@example.com") ∷ ("email_verified", flag true) ∷ []

shown : UserInfo.serve directory bearer test_users ≡ reply released
unfolding UserInfo.serve fields scope_loop copy_claims released_by find_by_id lookup
    build_claims_map has_prefix drop_chars trim_space insert
shown = refl

userinfo_releases_example :
    (token : VerifiedToken) × (info : UserInfo) × Shown directory bearer token
    × (find_by_id test_users token.subject ≡ ok info)
    × ((j : String)
        → lookup j released
          ≡ choose
              (releases (fields token.scope) j)
              (lookup j info.claims)
              (if "sub" == j then some (text info.user_id) else none))
userinfo_releases_example = userinfo_releases directory bearer test_users released shown

abbrev logout : Logout
logout = record {
  logout_path = "/logout";
  post_logout_redirect_uri = "/";
  absolute = λ target. false;
  set_state = λ target state. none;
  encode = λ params. "";
  audience = λ hint. none;
}

abbrev form : LogoutForm
form = record {
  parses = true;
  csrf = true;
  confirm = "yes";
  post_logout_redirect_uri = "https://evil/";
  state = "";
  client_id = "app";
}

abbrev instant : LogoutMoment
instant = record { revoked = noon; chain = noon + 1 }

abbrev after_logout : Stores
after_logout = (handle_confirm logout (λ t. t) form instant (session_id 5) test_stores).1

left : handle_confirm logout (λ t. t) form instant (session_id 5) test_stores ≡ ("/", after_logout)
unfolding handle_confirm
left = refl

stored : lookup 5 test_stores.sessions.sessions ≡ some live_session
unfolding lookup
stored = refl

logout_ends_session_example :
    ((y : Session) × (lookup 5 after_logout.sessions.sessions ≡ some y)
      × (is_some y.revoked_at ≡ true))
    × ((j : ℕ) (u : RefreshToken)
        → row test_stores.refresh j ≡ some u
        → u.session_id ≡ some 5
        → (v : RefreshToken) × (row after_logout.refresh j ≡ some v)
          × (is_some v.revoked_at ≡ true))
    × Onward logout form test_stores.clients "/"
logout_ends_session_example =
    logout_ends_session logout (λ t. t) form instant 5 live_session test_stores after_logout "/"
      refl refl (ground (arith, eq_iff "yes" "no")) stored refl (omega arith) left
