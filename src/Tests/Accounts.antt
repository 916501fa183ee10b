-- ===== src/Tests/Accounts.antt =====
-- Sign-in, registration, pages and signing keys at concrete data.
use Prim.Native.String.{String}
use authserver_go.Base.{
  ℕ, ◌%◌, ◌^◌, ◌≤◌, ◌≡◌, ◌↔◌, ◌⊎◌, ◌==◌, refl, true, Option, none, some, List, [], ◌∷◌, string_eq,
  arith, eq_iff,
}
use authserver_go.Base.Int.{pos}
use authserver_go.Base.Assoc.{lookup}
use authserver_go.Base.Text.{trim_space, equal_fold, has_prefix, rune_count, byte_len}
use authserver_go.Domain.Entities.{UserInfo, SigningKey}
use authserver_go.Domain.PasswordPolicy.{validate_password}
use authserver_go.Domain.Paged.{PagedRequest, get_paged}
use authserver_go.Domain.Paged.Bounds.{offset, get_paged-panics}
use authserver_go.Store.Users.{
  Bcrypt, validate_credentials, build_claims_map, first_user, identifies, create_user,
}
use authserver_go.Store.Keys.{SigningKeyStore}
use authserver_go.Store.LoginAttempts.{is_locked_out}
use authserver_go.Oidc.Http.{reply}
use authserver_go.Oidc.Stores.{Stores, no_data}
use authserver_go.Oidc.ReturnUrl.{Url, Paths, validate_return_url}
use authserver_go.Oidc.Login.{Login, LoginBody, LoginRequest, LoginMoment, new_session}
use authserver_go.Oidc.Login
use authserver_go.Oidc.Login.Outcome.{Admitted, SignedIn, login_opens_session, login_needs_password}
use authserver_go.Oidc.Register.{Register, RegisterBody, RegisterRequest}
use authserver_go.Oidc.Register
use authserver_go.Oidc.Register.RoundTrip.{register_then_sign_in}
use authserver_go.Token.Keys.{KeyPair, key, rotate, new_key}
use authserver_go.Token.Keys.Ring.{IsRing}
use authserver_go.Token.Keys.Rotation.{Rotated, rotate_keeps_ring}
use authserver_go.Tests.Data.{noon, test_users}

-- A password is its own hash.
abbrev plain : Bcrypt
plain = record { generate = λ pw. some pw; matches = λ hash pw. hash == pw }

abbrev parse : String → Option Url
parse raw = some (record { scheme = ""; host = ""; path = raw; text = raw })

abbrev paths : Paths
paths = record {
  parse = parse;
  issuer_url = "https://auth";
  authorize_path = "/connect/authorize";
  account_paths = "/profile" ∷ [];
}

abbrev login : Login
login = record {
  bcrypt = plain;
  paths = paths;
  session_lifetime = pos 3600000000000;
  encode = λ id. some "cookie";
  audited = true;
}

abbrev body : LoginBody
body = record { username = " ada "; password = "old"; return_url = "/profile" }

abbrev request : LoginRequest
request = record {
  is_post = true;
  csrf = true;
  body = some body;
  ip = "10.0.0.1";
  logged_ip = "10.0.0.1";
  user_agent = "ua";
}

abbrev moment : LoginMoment
moment = record {
  checked = noon;
  recorded = noon;
  failed = noon;
  now = noon;
  session_id = 9;
  audit_id = 10;
}

abbrev stores : Stores
stores = record no_data { users = test_users }

abbrev after_login : Stores
after_login = (Login.serve login request moment stores).2

signed_in : Login.serve login request moment stores ≡ (reply "/profile", some "cookie", after_login)
unfolding Login.serve trim_space lookup validate_credentials is_locked_out equal_fold
    validate_return_url has_prefix
signed_in = refl

login_opens_session_example :
    (b : LoginBody) × (info : UserInfo) × Admitted login request moment stores b info
    × SignedIn login request moment after_login b info "/profile" (some "cookie")
login_opens_session_example =
    login_opens_session login request moment stores after_login "/profile" (some "cookie") signed_in

login_needs_password_example :
    ((Login.serve login request moment stores).1 ≡ none)
      × ((Login.serve login request moment stores).2.sessions ≡ stores.sessions)
    ⊎ ((b : LoginBody) × (info : UserInfo) × Admitted login request moment stores b info)
login_needs_password_example = login_needs_password login request moment stores

abbrev register : Register
register = record { bcrypt = plain; login_path = "/login"; escape = λ t. t }

abbrev bob : RegisterBody
bob = record {
  username = "bob";
  email = "bob@example.com";
  password = "long enough";
  password_confirm = "long enough";
  return_url = "";
}

abbrev registration : RegisterRequest
registration = record { is_post = true; csrf = true; body = some bob }

registered :
    Register.serve register registration "id-bob" noon test_users
    ≡ (reply "/login", (Register.serve register registration "id-bob" noon test_users).1)
unfolding Register.serve trim_space validate_password create_user lookup rune_count byte_len
registered = refl

unknown_name : first_user (identifies (trim_space "bob")) test_users.users ≡ none
unfolding first_user identifies equal_fold trim_space
unknown_name = refl

plain_checks : (pw hash : String) → plain.generate pw ≡ some hash → plain.matches hash pw ≡ true
plain_checks pw hash e = ground (arith, e, eq_iff hash pw)

register_then_sign_in_example :
    validate_credentials plain
      (Register.serve register registration "id-bob" noon test_users).1
      (trim_space "bob")
      "long enough"
    ≡ some (record {
      user_id = "id-bob";
      claims =
          build_claims_map
            (Register.serve register registration "id-bob" noon test_users).1
            "id-bob";
    })
register_then_sign_in_example =
    register_then_sign_in register registration bob "id-bob" noon test_users
      (Register.serve register registration "id-bob" noon test_users).1 "/login" plain_checks refl
      unknown_name registered

-- A name that is taken can be registered again.
abbrev second_ada : RegisterRequest
second_ada = record registration { body = some (record bob { username = "ada" }) }

taken_name : (Register.serve register second_ada "id-ada" noon test_users).0 ≡ reply "/login"
unfolding Register.serve trim_space validate_password create_user lookup rune_count byte_len
taken_name = refl

abbrev three : List ℕ
three = 1 ∷ 2 ∷ 3 ∷ []

abbrev far_page : PagedRequest
far_page = record { page = pos 200000000000000000; page_size = pos 50 }

get_paged-panics_example : (get_paged three far_page ≡ none) ↔ (2 ^ 63 ≤ offset far_page % 2 ^ 64)
get_paged-panics_example = get_paged-panics three far_page

far_page_panics : get_paged three far_page ≡ none
unfolding get_paged
far_page_panics = refl

abbrev first_key : SigningKey
first_key = new_key (record { key_id = "k1"; private_key_pem = "s1"; public_key_pem = "p1" }) 5

abbrev ring : SigningKeyStore
ring = record { keys = ("k1", first_key) ∷ []; order = "k1" ∷ [] }

abbrev drawn : KeyPair
drawn = record { key_id = "k2"; private_key_pem = "s2"; public_key_pem = "p2" }

ring-IsRing : IsRing ring
unfolding lookup
ring-IsRing = record {
  files = record {
    filed = λ kid k e. ground (arith, e, eq_iff "k1" kid);
    named = λ kid k e. ground (arith, e, eq_iff "k1" kid, eq_iff "k1" "");
    listed = λ kid k e. ground (arith, e, eq_iff "k1" kid);
  };
  one = λ i j k l a b on on'. ground (arith, a, b, eq_iff "k1" i, eq_iff "k1" j);
}

new_id : lookup "k2" ring.keys ≡ none
unfolding lookup
new_id = refl

rotate_keeps_ring_example :
    (s' : SigningKeyStore) × (rotate (some drawn) noon noon ring ≡ (key (new_key drawn noon), s'))
    × Rotated drawn noon noon ring s'
rotate_keeps_ring_example =
    rotate_keeps_ring drawn noon noon ring ring-IsRing (ground (arith, eq_iff "k2" "")) new_id
