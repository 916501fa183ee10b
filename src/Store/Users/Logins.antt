-- ===== src/Store/Users/Logins.antt =====
-- internal/store/memory/users.go: the external logins of accounts.
use authserver_go.Base.{
  String, Bool, ◌&&◌, Option, none, some, List, [], ◌∷◌, ◌++◌, ◌==◌, string_eq, if◌then◌else◌,
  remove_last,
}
use authserver_go.Base.Assoc.{Assoc, lookup, insert}
use authserver_go.Domain.Entities.{User, UserLogin}
use authserver_go.Store.Error.{Result, ok, err, Update, not_found}
use authserver_go.Store.Users.{UserStore, or_nil}

unfoldable pub get_user_logins : UserStore → String → Result (List UserLogin)
get_user_logins s user_id = elim (lookup user_id s.users) [
  | none ↦ err not_found
  | some _ ↦ ok (or_nil (lookup user_id s.logins))
]

unfoldable pub add_login : UserLogin → Update UserStore Unit
add_login login s = elim (lookup login.user_id s.users) [
  | none ↦ (err not_found, s)
  | some _ ↦ (
    ok tt,
    record s {
      logins = insert login.user_id (or_nil (lookup login.user_id s.logins) ++ login ∷ []) s.logins;
    },
  )
]

unfoldable pub is_login : String → String → UserLogin → Bool
is_login provider key l = l.login_provider == provider && l.provider_key == key

unfoldable pub remove_login : String → String → String → Update UserStore Unit
unfolding is_login
remove_login user_id provider key s = elim (lookup user_id s.users) [
  | none ↦ (err not_found, s)
  | some _ ↦ (
    ok tt,
    record s {
      logins =
          insert user_id (remove_last (is_login provider key) (or_nil (lookup user_id s.logins)))
            s.logins;
    },
  )
]

unfoldable pub first_login : (UserLogin → Bool) → List UserLogin → Option UserLogin
first_login p [] = none
first_login p (l ∷ ls) = let rest = first_login p ls in if p l then some l else rest

unfoldable pub find_login : (UserLogin → Bool) → Assoc String (List UserLogin) → Option UserLogin
unfolding first_login
find_login p [] = none
find_login p ((user_id, ls) ∷ m) =
    let rest = find_login p m in elim (first_login p ls) [ some l ↦ some l | none ↦ rest ]

-- A user, an error, or the panic of a login whose user is missing.
pub data FoundByLogin : Type 0 where
  found : User → FoundByLogin
  unknown nil_user : FoundByLogin

unfoldable pub find_by_login : UserStore → String → String → FoundByLogin
unfolding find_login is_login
find_by_login s provider key = elim (find_login (is_login provider key) s.logins) [
  | none ↦ unknown
  | some l ↦ elim (lookup l.user_id s.users) [ none ↦ nil_user | some u ↦ found u ]
]
