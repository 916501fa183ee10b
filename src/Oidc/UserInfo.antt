-- ===== src/Oidc/UserInfo.antt =====
-- internal/oidc/userinfo.go: GET and POST /connect/userinfo. Header writing and logging are left out.
pub mod Released
use authserver_go.Base.{
  ℕ, String, Bool, true, false, not, Option, none, some, List, [], ◌∷◌, contains, ◌==◌, string_eq,
  if◌then◌else◌,
}
use authserver_go.Base.Assoc.{Assoc, lookup, insert}
use authserver_go.Base.Text.{has_prefix, trim_space, fields, drop_chars}
use authserver_go.Domain.Entities.{UserInfo, ClaimValue, text}
use authserver_go.Store.Error.{Result, ok, err}
use authserver_go.Store.Users.{UserStore, find_by_id}
use authserver_go.Oidc.Http.{
  Response, reply, fail, Check, pass, ◌>>=◌, ◌>>◌, refuse_if, some_or, ok_or, finish, unauthorized,
  forbidden,
}

-- What VerifyToken gives of a token that it takes: the subject, and the scope, empty where it is no
-- text.
pub record VerifiedToken : Type 0 where
  pub subject : String
  pub scope : String

pub record UserInfoHandler : Type 0 where
  pub verify_token : String → Option VerifiedToken

-- A missing header or form field is the empty text.
pub record UserInfoRequest : Type 0 where
  pub is_post : Bool
  pub authorization : String
  pub form_token : String

unfoldable pub bearer_of : String → Option String
bearer_of header =
    if has_prefix "Bearer " header
    then (let token = trim_space (drop_chars 7 header) in if token == "" then none else some token)
    else none

-- extractBearer
unfoldable pub extract_bearer : UserInfoRequest → Option String
unfolding bearer_of
extract_bearer r =
    if not (r.authorization == "")
    then bearer_of r.authorization
    else if r.is_post
    then (if r.form_token == "" then none else some r.form_token)
    else none

-- The claims that a scope releases.
unfoldable pub released_by : String → List String
released_by scope =
    if scope == "profile"
    then "name" ∷ "family_name" ∷ "given_name" ∷ "middle_name" ∷ "nickname" ∷ "preferred_username"
      ∷ "picture" ∷ "updated_at" ∷ []
    else if scope == "email"
    then "email" ∷ "email_verified" ∷ []
    else if scope == "phone"
    then "phone_number" ∷ "phone_number_verified" ∷ []
    else if scope == "address"
    then "address" ∷ []
    else []

abbrev pub Claims : Type 0
Claims = Assoc String ClaimValue

abbrev pub put : String → Option ClaimValue → Claims → Claims
put k none out = out
put k (some v) out = insert k v out

-- The inner loop: each claim that the directory has is copied.
unfoldable pub copy_claims : List String → Claims → Claims → Claims
copy_claims [] claims out = out
copy_claims (k ∷ ks) claims out = copy_claims ks claims (put k (lookup k claims) out)

unfoldable pub scope_loop : List String → Claims → Claims → Claims
unfolding copy_claims released_by
scope_loop [] claims out = out
scope_loop (s ∷ ss) claims out = scope_loop ss claims (copy_claims (released_by s) claims out)

-- buildUserInfoClaims
unfoldable pub build_user_info_claims : UserInfo → List String → Claims
unfolding scope_loop
build_user_info_claims info scopes = scope_loop scopes info.claims (("sub", text info.user_id) ∷ [])

-- invalidToken answers 401 with the code of an invalid grant.
abbrev pub invalid_token : String
invalid_token = "invalid_grant"

unfoldable pub present : UserInfoHandler → UserInfoRequest → Check VerifiedToken
unfolding extract_bearer
present h r = do
  raw ←
      some_or (extract_bearer r) unauthorized invalid_token
        "missing or malformed Authorization header"
  token ← some_or (h.verify_token raw) unauthorized invalid_token "token verification failed"
  refuse_if (not (contains (fields token.scope) "openid")) forbidden "access_denied"
      "access token does not grant openid scope"
  pass token

-- ServeHTTP
unfoldable pub serve : UserInfoHandler → UserInfoRequest → UserStore → Response Claims
unfolding present build_user_info_claims
serve h r users = finish (present h r) λ token.
    finish (ok_or (find_by_id users token.subject) unauthorized invalid_token "user not found")
      λ info. reply (build_user_info_claims info (fields token.scope))
