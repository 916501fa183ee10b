-- ===== src/Oidc/Authorize.antt =====
-- internal/oidc/authorize.go: GET /connect/authorize. A redirect is the address and the parameters that
-- net/url adds to it; clearing the cookie and logging are left out.
pub mod Outcome
pub mod Chosen
pub mod Minted
use authserver_go.Base.{
  ℕ, zero, suc, ◌+◌, ◌*◌, String, Bool, true, false, not, ◌||◌, ◌&&◌, Option, none, some, List, all,
  contains, ◌==◌, ◌!=◌, string_eq, if◌then◌else◌, is_some, ltb,
}
use authserver_go.Base.Int.{ℤ, pos, negsuc, wrap64}
use authserver_go.Base.Text.{fields, atoi}
use authserver_go.Domain.Time.{Time, Uuid, add, after, second}
use authserver_go.Domain.Entities.{AuthorizationCode, Session}
use authserver_go.Domain.Client.{Client}
use authserver_go.Store.Error.{Result, ok, err}
use authserver_go.Store.AuthCodes.{AuthorizationCodeStore, store}
use authserver_go.Store.Clients.{find_by_client_id}
use authserver_go.Store.Users
use authserver_go.Token.Crypto.{Crypto, new_opaque_token}
use authserver_go.Token.Pkce.{pkce_method}
use authserver_go.Oidc.Http.{bad_request}
use authserver_go.Oidc.SessionResolver.{Cookie, Resolved, active, resolve}
use authserver_go.Oidc.Stores.{Stores}

-- `parses` tells whether net/url's Parse takes an address.
pub record AuthorizeHandler : Type 0 where
  pub crypto : Crypto
  pub auth_code_lifetime : ℤ
  pub require_pkce : Bool
  pub parses : String → Bool

-- The query's values, "" where one is absent, and the session cookie.
pub record AuthorizeRequest : Type 0 where
  pub client_id : String
  pub redirect_uri : String
  pub response_type : String
  pub scope : String
  pub state : String
  pub nonce : String
  pub code_challenge : String
  pub code_challenge_method : String
  pub prompt : String
  pub max_age : String
  pub cookie : Cookie

pub record AuthorizeMoment : Type 0 where
  pub resolved : Time
  pub aged : Time
  pub prompted : Time
  pub minted : Time
  pub code_id : Uuid
  pub opaque : Option String

-- A JSON error; a redirect to the client with an error or a code; a redirect to the login page.
pub data Answer : Type 0 where
  refused : ℕ → String → String → Answer
  error_redirect : String → String → String → Answer
  code_redirect : String → String → Answer
  login_redirect : Answer

pub data Step {ℓ} (A : Type ℓ) : Type ℓ where
  go_on : A → Step A
  stop : Answer → Step A

unfoldable pub scopes_allowed : String → List String → Bool
scopes_allowed scope allowed =
    if scope == "" then false else all (λ s. contains allowed s) (fields scope)

-- Steps 3 and 4: the response type, the scopes and PKCE, with an error that goes to the client.
unfoldable pub request_error : AuthorizeHandler → Client → AuthorizeRequest → Option Answer
unfolding scopes_allowed
request_error h client r =
    if r.response_type != "code"
    then some (
        error_redirect r.redirect_uri "unsupported_grant_type"
          "only response_type=code is supported")
    else if not (scopes_allowed r.scope client.allowed_scopes)
    then some (error_redirect r.redirect_uri "invalid_scope" "scope is not allowed for this client")
    else if (client.require_pkce || h.require_pkce) && r.code_challenge == ""
    then some (error_redirect r.redirect_uri "invalid_request" "code_challenge is required")
    else if (client.require_pkce || h.require_pkce) && r.code_challenge_method != pkce_method
    then some (error_redirect r.redirect_uri "invalid_request" "code_challenge_method must be S256")
    else none

-- Step 5: the maximum age as a Duration; `none` where the parameter is absent.
unfoldable pub age_of : AuthorizeRequest → Option ℤ → Step (Option ℤ)
age_of r (some (pos n)) = go_on (some (wrap64 (n * second)))
age_of r _ =
    stop (error_redirect r.redirect_uri "invalid_request" "max_age must be a non-negative integer")

unfoldable pub max_age : AuthorizeRequest → Step (Option ℤ)
unfolding age_of
max_age r = if r.max_age == "" then go_on none else age_of r (atoi r.max_age)

-- maxAge == 0 || now.Sub(created) > maxAge
unfoldable pub is_exceeded : Time → Time → ℤ → Bool
is_exceeded created now (pos zero) = true
is_exceeded created now (pos (suc n)) = ltb (created + suc n) now
is_exceeded created now (negsuc n) = ltb created (now + suc n)

infixl 5 ◌>>=◌
abbrev pub ◌>>=◌ {ℓ κ} : {A : Type ℓ} {B : Type κ} → Step A → (A → Step B) → Step B
go_on a >>= f = f a
stop answer >>= f = stop answer

abbrev pub check : Option Answer → Step (Unit {0})
check none = go_on tt
check (some answer) = stop answer

abbrev pub login_required : AuthorizeRequest → String → Answer
login_required r desc = error_redirect r.redirect_uri "login_required" desc

-- Step 6: the session of the cookie, if it is active.
unfoldable pub session_of : Resolved → Option Session
session_of (active x) = some x
session_of _ = none

unfoldable pub within_age :
    AuthorizeRequest → Time → Option ℤ → Option Session → Step (Option Session)
unfolding is_exceeded
within_age r now (some age) (some x) =
    if is_exceeded x.created_at now age
    then if r.prompt == "none" then stop (login_required r "max_age exceeded") else go_on none
    else go_on (some x)
within_age r now age sess = go_on sess

unfoldable pub still_valid : AuthorizeRequest → Time → Option Session → Step (Option Session)
still_valid r now none = stop (login_required r "login required")
still_valid r now (some x) =
    if is_some x.revoked_at || after now x.expires_at
    then stop (login_required r "login required")
    else go_on (some x)

unfoldable pub prompted : AuthorizeRequest → Time → Option Session → Step (Option Session)
unfolding still_valid
prompted r now sess =
    if r.prompt == "none"
    then still_valid r now sess
    else if r.prompt == "login"
    then go_on none
    else go_on sess

unfoldable pub signed_in : Option Session → Step Session
signed_in none = stop login_redirect
signed_in (some x) = go_on x

-- Steps 3 to 7: the session that a code is minted for.
unfoldable pub choose :
    AuthorizeHandler → Client → AuthorizeRequest → AuthorizeMoment → Stores → Step Session
choose h client r m s = do
  _ ← check (request_error h client r)
  age ← max_age r
  aged ← within_age r m.aged age (session_of (resolve s.sessions m.resolved r.cookie))
  sess ← prompted r m.prompted aged
  signed_in sess

unfoldable pub string_ptr : String → Option String
string_ptr s = if s == "" then none else some s

-- The code that mintCode stores; without a challenge it has no method either.
unfoldable pub new_code :
    AuthorizeHandler
    → Client
    → Session
    → AuthorizeRequest
    → AuthorizeMoment
    → String
    → AuthorizationCode
unfolding string_ptr
new_code h client x r m hash = record {
  id = m.code_id;
  code_hash = hash;
  client_id = client.client_id;
  user_id = x.user_id;
  session_id = some x.id;
  redirect_uri = r.redirect_uri;
  code_challenge = string_ptr r.code_challenge;
  code_challenge_method =
      if r.code_challenge == "" then none else string_ptr r.code_challenge_method;
  scope = r.scope;
  nonce = string_ptr r.nonce;
  expires_at = add m.minted h.auth_code_lifetime;
  consumed_at = none;
  created_at = m.minted;
}

-- Step 10.
unfoldable pub redirect : AuthorizeHandler → AuthorizeRequest → String → Result (Unit {0}) → Answer
redirect h r raw (err e) = error_redirect r.redirect_uri "server_error" "could not mint code"
redirect h r raw (ok _) =
    if h.parses r.redirect_uri
    then code_redirect r.redirect_uri raw
    else error_redirect r.redirect_uri "server_error" "could not build redirect"

unfoldable pub mint_code :
    AuthorizeHandler
    → Client
    → Session
    → AuthorizeRequest
    → AuthorizeMoment
    → Option (String × String)
    → Stores
    → Answer × Stores
mint_code h client x r m none s =
    (error_redirect r.redirect_uri "server_error" "could not mint code", s)
mint_code h client x r m (some (raw, hash)) s =
    let (stored, codes) = store (some (new_code h client x r m hash)) s.codes in
    (redirect h r raw stored, record s { codes = codes })

-- Steps 8 and 9.
unfoldable pub issue :
    AuthorizeHandler
    → Client
    → AuthorizeRequest
    → AuthorizeMoment
    → Stores
    → Step Session
    → Answer × Stores
issue h client r m s (stop answer) = (answer, s)
issue h client r m s (go_on x) = elim (Users.find_by_id s.users x.user_id) [
  | err e ↦ (error_redirect r.redirect_uri "server_error" "user lookup failed", s)
  | ok info ↦ mint_code h client x r m (new_opaque_token h.crypto m.opaque) s
]

-- Steps 1 and 2 come before any redirect.
unfoldable pub serve_client :
    AuthorizeHandler → Result Client → AuthorizeRequest → AuthorizeMoment → Stores → Answer × Stores
serve_client h (err e) r m s = (refused bad_request "invalid_request" "unknown client", s)
serve_client h (ok client) r m s =
    if not (contains client.redirect_uris r.redirect_uri)
    then (refused bad_request "invalid_request" "redirect_uri not registered", s)
    else issue h client r m s (choose h client r m s)

-- ServeHTTP
unfoldable pub serve :
    AuthorizeHandler → AuthorizeRequest → AuthorizeMoment → Stores → Answer × Stores
serve h r m s =
    if r.client_id == ""
    then (refused bad_request "invalid_request" "client_id is required", s)
    else serve_client h (find_by_client_id s.clients r.client_id) r m s
