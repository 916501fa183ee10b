-- ===== src/Oidc/UserInfo/Released.antt =====
-- Which claims an access token gets out of the user info endpoint.
use authserver_go.Base.{
  String, ◌≡◌, refl, sym, ap, ◌∙◌, Bool, true, ◌&&◌, not, Option, none, some, List, [], ◌∷◌, any,
  contains, ◌==◌, string_eq, eq_iff, arith, is_some, Option-cases, inl, inr, if◌then◌else◌,
}
use authserver_go.Base.Assoc.{lookup, insert, lookup-insert}
use authserver_go.Base.Text.{fields}
use authserver_go.Domain.Entities.{UserInfo, ClaimValue, text}
use authserver_go.Store.Error.{ok}
use authserver_go.Store.Users.{UserStore, find_by_id}
use authserver_go.Oidc.Http.{
  reply, pass, some_or, some_or-pass, refuse_if, >>=-pass, finish-reply, ok_or-pass, unauthorized,
  forbidden, ok_or,
}
use authserver_go.Oidc.UserInfo.{
  Claims, UserInfoHandler, UserInfoRequest, VerifiedToken, copy_claims, scope_loop, released_by,
  build_user_info_claims, extract_bearer, present, serve, invalid_token,
}

-- The value of a claim that is released, and what stood before otherwise.
abbrev pub choose : Bool → Option ClaimValue → Option ClaimValue → Option ClaimValue
choose released held before = if released && is_some held then held else before

lookup-copy_claims :
    (j : String) (ks : List String) (claims out : Claims)
    → lookup j (copy_claims ks claims out) ≡ choose (contains ks j) (lookup j claims) (lookup j out)
unfolding copy_claims
lookup-copy_claims j [] claims out = refl
lookup-copy_claims j (k ∷ ks) claims out = elim (Option-cases (lookup k claims)) [
  | inl absent ↦ ground (arith, absent, eq_iff k j, lookup-copy_claims j ks claims out)
  | inr (v, held) ↦ ground (
    arith,
    held,
    eq_iff k j,
    lookup-insert k j v out,
    lookup-copy_claims j ks claims (insert k v out),
  )
]

-- A scope of the token releases the claim.
abbrev pub releases : List String → String → Bool
releases scopes j = any (λ s. contains (released_by s) j) scopes

lookup-scope_loop :
    (j : String) (scopes : List String) (claims out : Claims)
    → lookup j (scope_loop scopes claims out)
      ≡ choose (releases scopes j) (lookup j claims) (lookup j out)
unfolding scope_loop
lookup-scope_loop j [] claims out = refl
lookup-scope_loop j (s ∷ ss) claims out = ground (
  arith,
  lookup-copy_claims j (released_by s) claims out,
  lookup-scope_loop j ss claims (copy_claims (released_by s) claims out),
)

-- What a request shows: a token that verifies and that was granted the openid scope.
pub record Shown (h : UserInfoHandler) (r : UserInfoRequest) (token : VerifiedToken) : Type 0 where
  pub raw : String
  pub carried : extract_bearer r ≡ some raw
  pub verified : h.verify_token raw ≡ some token
  pub openid : contains (fields token.scope) "openid" ≡ true

present-Shown :
    (h : UserInfoHandler) (r : UserInfoRequest) (token : VerifiedToken)
    → present h r ≡ pass token
    → Shown h r token
unfolding present
present-Shown h r token e =
    let (raw, carried, e1) =
      >>=-pass
        (some_or (extract_bearer r) unauthorized invalid_token
          "missing or malformed Authorization header")
        _ token e in
    let (x, verified, e2) =
      >>=-pass (some_or (h.verify_token raw) unauthorized invalid_token "token verification failed")
        _ token e1 in
    let (_, openid, e3) =
      >>=-pass
        (refuse_if (not (contains (fields x.scope) "openid")) forbidden "access_denied"
          "access token does not grant openid scope")
        _ token e2 in
    let same : x ≡ token = cc e3 in
    record {
      raw = raw;
      carried =
          some_or-pass (extract_bearer r) unauthorized invalid_token
            "missing or malformed Authorization header" raw carried;
      verified =
          some_or-pass (h.verify_token raw) unauthorized invalid_token "token verification failed" x
            verified
          ∙ ap some same;
      openid =
          ap (λ (y : VerifiedToken). contains (fields y.scope) "openid") (sym same)
          ∙ ground (arith, openid);
    }

-- An answered request carries a token that verifies and that has the openid scope; and what it gets of
-- each claim is the directory's value where a scope of the token releases the claim and the directory
-- has it, the user's id for `sub`, and nothing otherwise.
pub userinfo_releases :
    (h : UserInfoHandler) (r : UserInfoRequest) (users : UserStore) (claims : Claims)
    → serve h r users ≡ reply claims
    → (token : VerifiedToken) × (info : UserInfo) × Shown h r token
      × (find_by_id users token.subject ≡ ok info)
      × ((j : String)
          → lookup j claims
            ≡ choose
                (releases (fields token.scope) j)
                (lookup j info.claims)
                (if "sub" == j then some (text info.user_id) else none))
unfolding serve build_user_info_claims
userinfo_releases h r users claims e =
    let (token, passed, e1) = finish-reply (present h r) _ claims e in
    let (info, known, e2) =
      finish-reply
        (ok_or (find_by_id users token.subject) unauthorized invalid_token "user not found") _
        claims e1 in
    let built : claims ≡ build_user_info_claims info (fields token.scope) = cc e2 in
    (
      token,
      info,
      present-Shown h r token passed,
      ok_or-pass (find_by_id users token.subject) unauthorized invalid_token "user not found" info
          known,
      λ j.
          ap (lookup j) built
          ∙ lookup-scope_loop j (fields token.scope) info.claims (("sub", text info.user_id) ∷ [])
          ∙ unfold lookup in refl,
    )
