-- ===== src/Tests/Data.antt =====
-- A server with one client, one user, and what one sign-in has left in the stores.
use Prim.Native.String.{String}
use authserver_go.Base.{◌+◌, ◌*◌, true, false, none, some, [], ◌∷◌}
use authserver_go.Base.Int.{pos}
use authserver_go.Domain.Time.{Time, second}
use authserver_go.Domain.Entities.{AuthorizationCode, RefreshToken, Session, User}
use authserver_go.Domain.Client.{Client, auth_method_none, expiration_sliding}
use authserver_go.Store.RefreshTokens.{RefreshTokenStore}
use authserver_go.Store.AuthCodes.{AuthorizationCodeStore}
use authserver_go.Store.Users
use authserver_go.Store.Users.{UserStore}
use authserver_go.Token.Crypto.{Crypto}
use authserver_go.Token.Claims.{Issuer}
use authserver_go.Oidc.Stores.{Stores, no_data}

-- A hash that can be read off: an "h" in front.
abbrev pub test_crypto : Crypto
test_crypto = record { s256 = λ raw. String.◌∷◌ "h" raw; half = λ raw. String.◌∷◌ "h" raw }

abbrev pub test_issuer : Issuer
test_issuer = record { issue_access_token = λ c. some "access"; issue_id_token = λ c. some "id" }

abbrev pub noon : Time
noon = 43200 * second

abbrev pub app : Client
app = record {
  client_id = "app";
  display_name = "App";
  redirect_uris = "https://app/cb" ∷ [];
  post_logout_redirect_uris = [];
  allowed_scopes = "openid" ∷ "offline_access" ∷ [];
  require_pkce = true;
  allow_refresh_tokens = true;
  allow_client_credentials = false;
  token_endpoint_auth_method = auth_method_none;
  jwks_json = "";
  access_token_lifetime_seconds = pos 0;
  refresh_token_lifetime_seconds = pos 0;
  refresh_token_absolute_lifetime_seconds = pos 0;
  refresh_token_expiration = expiration_sliding;
  properties = [];
}

abbrev pub ada : User
ada = record {
  id = "ada";
  username = "ada";
  email = "ada@example.com";
  email_confirmed = true;
  password_hash = "";
  security_stamp = "s0";
  two_factor_enabled = false;
  lockout_end = none;
  lockout_enabled = false;
  access_failed_count = 0;
  created_at = 1;
  updated_at = 1;
}

abbrev pub test_users : UserStore
test_users = record Users.new { users = ("ada", ada) ∷ []; hashes = ("ada", "old") ∷ [] }

-- The refresh token "rt" of session 5, live and unused.
abbrev pub live_token : RefreshToken
live_token = record {
  id = 7;
  token_hash = "hrt";
  client_id = "app";
  user_id = "ada";
  session_id = some 5;
  parent_token_id = none;
  scope = "openid offline_access";
  expires_at = noon + 1000 * second;
  absolute_expires_at = noon + 9000 * second;
  consumed_at = none;
  revoked_at = none;
  created_at = noon;
}

abbrev pub test_refresh : RefreshTokenStore
test_refresh = record { tokens = (7, live_token) ∷ []; by_hash = ("hrt", 7) ∷ [] }

-- The code "ac", with a challenge for a verifier of 43 letters.
abbrev pub verifier : String
verifier = "aaaaaaaaaaaaaaaaaaaaaaaaaaaaaaaaaaaaaaaaaaa"

abbrev pub live_code : AuthorizationCode
live_code = record {
  id = 3;
  code_hash = "hac";
  client_id = "app";
  user_id = "ada";
  session_id = some 5;
  redirect_uri = "https://app/cb";
  code_challenge = some "haaaaaaaaaaaaaaaaaaaaaaaaaaaaaaaaaaaaaaaaaaa";
  code_challenge_method = some "S256";
  scope = "openid offline_access";
  nonce = none;
  expires_at = noon + 60 * second;
  consumed_at = none;
  created_at = noon;
}

abbrev pub test_codes : AuthorizationCodeStore
test_codes = record { codes = (3, live_code) ∷ []; by_hash = ("hac", 3) ∷ [] }

abbrev pub live_session : Session
live_session = record {
  id = 5;
  user_id = "ada";
  created_at = noon;
  expires_at = noon + 500 * second;
  revoked_at = none;
  properties = [];
}

abbrev pub test_stores : Stores
test_stores = record no_data {
  clients = record { clients = ("app", app) ∷ [] };
  users = test_users;
  sessions = record { sessions = (5, live_session) ∷ [] };
  codes = test_codes;
  refresh = test_refresh;
}
