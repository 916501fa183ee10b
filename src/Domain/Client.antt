-- ===== src/Domain/Client.antt =====
-- internal/domain/client.go and client_auth_method.go: a registered client, its profile, and what
-- Normalize, Validate and the lifetime getters do.
pub mod Profile
use authserver_go.Base.{
  ℕ, ◌≡◌, String, Bool, true, false, ◌&&◌, ◌||◌, not, Option, none, some, List, [], ◌∷◌, ◌++◌, any,
  contains, select, ◌==◌, string_eq, nat_eq, if◌then◌else◌, is_some,
}
use authserver_go.Base.Assoc.{Assoc}
use authserver_go.Base.Int.{ℤ, pos, negsuc, pos_part, nonpos, is_neg}
use authserver_go.Base.Text.{trim_space, equal_fold}
use authserver_go.Domain.Time.{seconds}

-- A TokenEndpointAuthMethod is a string: two values are known, and any other can be stored.
abbrev pub auth_method_none : String
auth_method_none = "none"

abbrev pub auth_method_private_key_jwt : String
auth_method_private_key_jwt = "private_key_jwt"

unfoldable pub valid : String → Bool
valid m = m == auth_method_none || m == auth_method_private_key_jwt

-- type TokenExpiration int: 0 is sliding, 1 is absolute.
abbrev pub expiration_sliding : ℕ
expiration_sliding = 0

abbrev pub expiration_absolute : ℕ
expiration_absolute = 1

pub data ClientProfile : Type 0 where
  spa web m2m custom : ClientProfile

pub record Client : Type 0 where
  pub client_id : String
  pub display_name : String
  pub redirect_uris : List String
  pub post_logout_redirect_uris : List String
  pub allowed_scopes : List String
  pub require_pkce : Bool
  pub allow_refresh_tokens : Bool
  pub allow_client_credentials : Bool
  pub token_endpoint_auth_method : String
  pub jwks_json : String
  pub access_token_lifetime_seconds : ℤ
  pub refresh_token_lifetime_seconds : ℤ
  pub refresh_token_absolute_lifetime_seconds : ℤ
  pub refresh_token_expiration : ℕ
  pub properties : Assoc String String

unfoldable pub is_empty {ℓ} : {A : Type ℓ} → List A → Bool
is_empty [] = true
is_empty (x ∷ xs) = false

unfoldable pub profile : Client → ClientProfile
unfolding is_empty
profile c =
    if c.token_endpoint_auth_method == auth_method_private_key_jwt
    then if c.allow_client_credentials && is_empty c.redirect_uris && not c.allow_refresh_tokens
      then m2m
      else if not c.allow_client_credentials
      then web
      else custom
    else spa

unfoldable pub contains_fold : List String → String → Bool
contains_fold xs target = any (λ x. equal_fold x target) xs

unfoldable pub remove_scope : List String → String → List String
remove_scope xs target = select (λ x. not (equal_fold x target)) xs

-- The loop of cleanStringList: `seen` holds what has been put out.
unfoldable pub clean : List String → List String → List String
clean seen [] = []
clean seen (x ∷ xs) =
    let v = trim_space x in
    let skip = clean seen xs in
    let keep = v ∷ clean (v ∷ seen) xs in
    if v == "" then skip else if contains seen v then skip else keep

unfoldable pub clean_string_list : List String → List String
unfolding clean
clean_string_list xs = clean [] xs

unfoldable pub apply_profile : ClientProfile → Client → Client
unfolding remove_scope
apply_profile spa c = record c {
  token_endpoint_auth_method = auth_method_none;
  require_pkce = true;
  allow_client_credentials = false;
  jwks_json = "";
}
apply_profile web c = record c {
  token_endpoint_auth_method = auth_method_private_key_jwt;
  require_pkce = true;
  allow_client_credentials = false;
}
apply_profile m2m c = record c {
  token_endpoint_auth_method = auth_method_private_key_jwt;
  allow_client_credentials = true;
  allow_refresh_tokens = false;
  require_pkce = false;
  redirect_uris = [];
  post_logout_redirect_uris = [];
  allowed_scopes = remove_scope c.allowed_scopes "offline_access";
}
apply_profile custom c = c

-- The scope rules that end Normalize.
unfoldable pub with_openid : List String → List String
unfolding contains_fold
with_openid scopes = if contains_fold scopes "openid" then scopes else "openid" ∷ scopes

unfoldable pub with_offline : Bool → List String → List String
unfolding contains_fold remove_scope
with_offline allowed scopes =
    if allowed
    then (if contains_fold scopes "offline_access" then scopes else scopes ++ "offline_access" ∷ [])
    else remove_scope scopes "offline_access"

unfoldable pub default_method : String → String
default_method m = if m == "" then auth_method_none else m

unfoldable pub normalize : Client → Client
unfolding clean_string_list with_openid with_offline default_method
normalize c =
    let method = default_method c.token_endpoint_auth_method in
    let public_client = method == auth_method_none in
    record c {
      client_id = trim_space c.client_id;
      display_name = trim_space c.display_name;
      jwks_json = if public_client then "" else trim_space c.jwks_json;
      token_endpoint_auth_method = method;
      allow_client_credentials = if public_client then false else c.allow_client_credentials;
      redirect_uris = clean_string_list c.redirect_uris;
      post_logout_redirect_uris = clean_string_list c.post_logout_redirect_uris;
      allowed_scopes =
          with_offline c.allow_refresh_tokens (with_openid (clean_string_list c.allowed_scopes));
    }

-- What net/url's Parse reports of a URI: the parts that the code reads.
pub record Url : Type 0 where
  pub scheme : String
  pub host : String
  pub fragment : String

pub data ClientError : Type 0 where
  client_id_required unknown_auth_method negative_lifetime invalid_expiration : ClientError
  invalid_redirect_uri invalid_post_logout_redirect_uri : String → ClientError

-- `parse_url` stands for net/url's Parse; `none` is its error.
module _ (parse_url : String → Option Url) where
  unfoldable pub valid_absolute_uri : String → Bool
  valid_absolute_uri raw = elim (parse_url raw) [
    | none ↦ false
    | some u ↦ not (u.scheme == "" || u.host == "") && u.fragment == ""
  ]

  unfoldable pub first_invalid : List String → Option String
  first_invalid [] = none
  first_invalid (u ∷ us) =
      let rest = first_invalid us in if valid_absolute_uri u then rest else some u

  unfoldable pub validate : Client → Option ClientError
  validate c =
      if c.client_id == ""
      then some client_id_required
      else if not (valid c.token_endpoint_auth_method)
      then some unknown_auth_method
      else elim (first_invalid c.redirect_uris) [
        | some u ↦ some (invalid_redirect_uri u)
        | none ↦ elim (first_invalid c.post_logout_redirect_uris) [
          | some u ↦ some (invalid_post_logout_redirect_uri u)
          | none ↦
              if is_neg c.access_token_lifetime_seconds
                || is_neg c.refresh_token_lifetime_seconds
                || is_neg c.refresh_token_absolute_lifetime_seconds
              then some negative_lifetime
              else if not (c.refresh_token_expiration == expiration_sliding)
                  && not (c.refresh_token_expiration == expiration_absolute)
              then some invalid_expiration
              else none
        ]
      ]

abbrev pub default_access_token_lifetime_seconds : ℕ
default_access_token_lifetime_seconds = 3600

abbrev pub default_refresh_token_lifetime_seconds : ℕ
default_refresh_token_lifetime_seconds = 2592000

abbrev pub default_refresh_token_absolute_lifetime_seconds : ℕ
default_refresh_token_absolute_lifetime_seconds = 2592000

-- The effective… getters: a lifetime that is not positive stands for its default.
unfoldable pub effective : ℕ → ℤ → ℕ
effective default n = if nonpos n then default else pos_part n

unfoldable pub access_token_lifetime : Client → ℤ
unfolding effective
access_token_lifetime c =
    seconds (effective default_access_token_lifetime_seconds c.access_token_lifetime_seconds)

unfoldable pub refresh_token_lifetime : Client → ℤ
unfolding effective
refresh_token_lifetime c =
    seconds (effective default_refresh_token_lifetime_seconds c.refresh_token_lifetime_seconds)

unfoldable pub refresh_token_absolute_lifetime : Client → ℤ
unfolding effective
refresh_token_absolute_lifetime c = seconds (
    effective default_refresh_token_absolute_lifetime_seconds
      c.refresh_token_absolute_lifetime_seconds)
