-- ===== src/Store/Users/Roles.antt =====
-- internal/store/memory/users.go: the roles of accounts. Role names are compared without case.
use authserver_go.Base.{
  String, none, some, List, [], ◌∷◌, ◌++◌, string_eq, any, if◌then◌else◌, remove_each,
}
use authserver_go.Base.Assoc.{Assoc, lookup, insert}
use authserver_go.Base.Text.{equal_fold}
use authserver_go.Store.Error.{Result, ok, err, Update, not_found}
use authserver_go.Store.Users.{UserStore, or_nil}

abbrev pub roles_of : UserStore → String → List String
roles_of s user_id = or_nil (lookup user_id s.roles)

unfoldable pub get_user_roles : UserStore → String → Result (List String)
get_user_roles s user_id = elim (lookup user_id s.users) [
  | none ↦ err not_found
  | some _ ↦ ok (roles_of s user_id)
]

-- The loops of AddToRoles.
unfoldable pub add_missing : List String → List String → List String
add_missing [] existing = existing
add_missing (role ∷ roles) existing =
    add_missing roles
      (if any (λ r. equal_fold r role) existing then existing else existing ++ role ∷ [])

unfoldable pub add_to_roles : String → List String → Update UserStore Unit
unfolding add_missing
add_to_roles user_id roles s = elim (lookup user_id s.users) [
  | none ↦ (err not_found, s)
  | some _ ↦
      (ok tt, record s { roles = insert user_id (add_missing roles (roles_of s user_id)) s.roles })
]

unfoldable pub remove_from_roles : String → List String → Update UserStore Unit
remove_from_roles user_id roles s = elim (lookup user_id s.users) [
  | none ↦ (err not_found, s)
  | some _ ↦ (
    ok tt,
    record s { roles = insert user_id (remove_each equal_fold roles (roles_of s user_id)) s.roles },
  )
]

unfoldable pub users_with : String → Assoc String (List String) → List String
users_with role [] = []
users_with role ((user_id, roles) ∷ m) =
    let rest = users_with role m in
    if any (λ r. equal_fold r role) roles then user_id ∷ rest else rest

unfoldable pub get_users_in_role : UserStore → String → Result (List String)
unfolding users_with
get_users_in_role s role = ok (users_with role s.roles)
