-- ===== src/Store/Users.antt =====
-- internal/store/memory/users.go: UserStore: accounts, passwords and claims. The children hold the
-- calls on roles, external logins and user tokens.
pub mod Roles
pub mod Logins
pub mod Tokens
pub mod Laws
use authserver_go.Base.{
  String, Bool, ◌||◌, ◌&&◌, Option, none, some, List, [], ◌∷◌, ◌++◌, ◌==◌, string_eq, if◌then◌else◌,
  is_some, remove_each,
}
use authserver_go.Base.Assoc.{Assoc, lookup, insert, erase, values}
use authserver_go.Base.Text.{equal_fold, concat, has_prefix}
use authserver_go.Domain.Paged
use authserver_go.Domain.Paged.{PagedRequest, PagedResult}
use authserver_go.Domain.Entities.{
  User, UserClaim, UserInfo, UserLogin, UserToken, ClaimValue, text, flag,
}
use authserver_go.Store.Error.{StoreError, Result, ok, err, Update, not_found, duplicate, empty_id}

pub record UserStore : Type 0 where
  pub users : Assoc String User
  pub hashes : Assoc String String
  pub claims : Assoc String (List UserClaim)
  pub roles : Assoc String (List String)
  pub logins : Assoc String (List UserLogin)
  pub tokens : Assoc String UserToken

abbrev pub new : UserStore
new = record { users = []; hashes = []; claims = []; roles = []; logins = []; tokens = [] }

-- What the store takes from golang.org/x/crypto/bcrypt: GenerateFromPassword, which fails on a
-- password of more than 72 bytes, and CompareHashAndPassword.
pub record Bcrypt : Type 0 where
  pub generate : String → Option String
  pub matches : String → String → Bool

-- UserStore's errors, and that of a failed hash.
pub data UserError : Type 0 where
  store_error : StoreError → UserError
  hash_error : UserError

pub data UserResult : Type 0 where
  done : UserResult
  failed : UserError → UserResult

unfoldable pub create_user : Bcrypt → User → String → UserStore → UserResult × UserStore
create_user b user password s =
    if user.id == "" then (failed (store_error empty_id), s) else elim (b.generate password) [
      | none ↦ (failed hash_error, s)
      | some hash ↦
          if is_some (lookup user.id s.users) then (failed (store_error duplicate), s) else (
            done,
            record s {
              users = insert user.id (record user { password_hash = "" }) s.users;
              hashes = insert user.id hash s.hashes;
            },
          )
    ]

unfoldable pub update_user : User → Update UserStore Unit
update_user user s = elim (lookup user.id s.users) [
  | none ↦ (err not_found, s)
  | some _ ↦
      (ok tt, record s { users = insert user.id (record user { password_hash = "" }) s.users })
]

unfoldable pub set_password : Bcrypt → String → String → UserStore → UserResult × UserStore
set_password b user_id password s = elim (b.generate password) [
  | none ↦ (failed hash_error, s)
  | some hash ↦ elim (lookup user_id s.users) [
    | none ↦ (failed (store_error not_found), s)
    | some _ ↦ (done, record s { hashes = insert user_id hash s.hashes })
  ]
]

-- for k := range m { if drop(k) { delete(m, k) } }
unfoldable pub drop_keys {ℓ} : {V : Type ℓ} → (String → Bool) → Assoc String V → Assoc String V
drop_keys gone [] = []
drop_keys gone ((k, v) ∷ m) = let rest = drop_keys gone m in if gone k then rest else (k, v) ∷ rest

unfoldable pub delete_user : String → Update UserStore Unit
unfolding drop_keys
delete_user user_id s = elim (lookup user_id s.users) [
  | none ↦ (err not_found, s)
  | some _ ↦ (
    ok tt,
    record {
      users = erase user_id s.users;
      hashes = erase user_id s.hashes;
      claims = erase user_id s.claims;
      roles = erase user_id s.roles;
      logins = erase user_id s.logins;
      tokens = drop_keys (λ k. has_prefix (concat user_id ":") k) s.tokens;
    },
  )
]

unfoldable pub find_user_by_id : UserStore → String → Result User
find_user_by_id s user_id = elim (lookup user_id s.users) [ none ↦ err not_found | some u ↦ ok u ]

unfoldable pub first_user : (User → Bool) → Assoc String User → Option User
first_user p [] = none
first_user p ((id, u) ∷ m) = if p u then some u else first_user p m

abbrev pub or_not_found {ℓ} : {A : Type ℓ} → Option A → Result A
or_not_found none = err not_found
or_not_found (some a) = ok a

unfoldable pub find_user_by_username : UserStore → String → Result User
unfolding first_user
find_user_by_username s name = or_not_found (first_user (λ u. equal_fold u.username name) s.users)

unfoldable pub find_user_by_email : UserStore → String → Result User
unfolding first_user
find_user_by_email s email = or_not_found (first_user (λ u. equal_fold u.email email) s.users)

abbrev pub or_nil {ℓ} : {A : Type ℓ} → Option (List A) → List A
or_nil none = []
or_nil (some xs) = xs

-- A later claim of a type replaces an earlier one.
unfoldable pub claims_map : List UserClaim → Assoc String ClaimValue → Assoc String ClaimValue
claims_map [] out = out
claims_map (c ∷ cs) out = claims_map cs (insert c.claim_type (text c.value) out)

unfoldable pub build_claims_map : UserStore → String → Assoc String ClaimValue
unfolding claims_map
build_claims_map s user_id = claims_map (or_nil (lookup user_id s.claims)) []

-- The test that picks the account in ValidateCredentials.
unfoldable pub identifies : String → User → Bool
identifies name u = u.id == name || equal_fold u.username name || equal_fold u.email name

abbrev pub or_empty : Option String → String
or_empty none = ""
or_empty (some x) = x

-- `none` is Go's (nil, nil): no account, or a wrong password.
unfoldable pub validate_credentials : Bcrypt → UserStore → String → String → Option UserInfo
unfolding first_user build_claims_map identifies
validate_credentials b s name password = elim (first_user (identifies name) s.users) [
  | none ↦ none
  | some u ↦
      if b.matches (or_empty (lookup u.id s.hashes)) password
      then some (record { user_id = u.id; claims = build_claims_map s u.id })
      else none
]

unfoldable pub with_user_claims : User → Assoc String ClaimValue → Assoc String ClaimValue
with_user_claims u claims =
    let named = insert "preferred_username" (text u.username) claims in
    if u.email == ""
    then named
    else insert "email_verified" (flag u.email_confirmed) (insert "email" (text u.email) named)

unfoldable pub find_by_id : UserStore → String → Result UserInfo
unfolding build_claims_map with_user_claims
find_by_id s user_id = elim (lookup user_id s.users) [
  | none ↦ err not_found
  | some u ↦
      ok (record { user_id = u.id; claims = with_user_claims u (build_claims_map s user_id) })
]

unfoldable pub get_user_claims : UserStore → String → Result (List UserClaim)
get_user_claims s user_id = elim (lookup user_id s.users) [
  | none ↦ err not_found
  | some _ ↦ ok (or_nil (lookup user_id s.claims))
]

unfoldable pub add_user_claims : String → List UserClaim → Update UserStore Unit
add_user_claims user_id added s = elim (lookup user_id s.users) [
  | none ↦ (err not_found, s)
  | some _ ↦ (
    ok tt,
    record s { claims = insert user_id (or_nil (lookup user_id s.claims) ++ added) s.claims },
  )
]

unfoldable pub replace_user_claims : String → List UserClaim → Update UserStore Unit
replace_user_claims user_id new_claims s = elim (lookup user_id s.users) [
  | none ↦ (err not_found, s)
  | some _ ↦ (ok tt, record s { claims = insert user_id new_claims s.claims })
]

-- The loops of RemoveUserClaims: each claim to remove takes away the last one that is equal to it.
unfoldable pub same_claim : UserClaim → UserClaim → Bool
same_claim c d = c.claim_type == d.claim_type && c.value == d.value

unfoldable pub remove_user_claims : String → List UserClaim → Update UserStore Unit
unfolding same_claim
remove_user_claims user_id removed s = elim (lookup user_id s.users) [
  | none ↦ (err not_found, s)
  | some _ ↦ (
    ok tt,
    record s {
      claims =
          insert user_id (remove_each same_claim removed (or_nil (lookup user_id s.claims)))
            s.claims;
    },
  )
]

-- `none` is the panic of the slice.
unfoldable pub get_paged_users : UserStore → PagedRequest → Option (PagedResult User)
get_paged_users s req = Paged.get_paged (values s.users) req
