-- ===== src/Store/Roles.antt =====
-- internal/store/memory/roles.go: RoleStore.
use authserver_go.Base.{
  String, Bool, ◌&&◌, none, some, List, [], ◌∷◌, ◌++◌, ◌==◌, string_eq, if◌then◌else◌, is_some,
  remove_each,
}
use authserver_go.Base.Assoc.{Assoc, lookup, insert, erase, values}
use authserver_go.Base.Text.{equal_fold}
use authserver_go.Domain.Entities.{Role, RoleClaim}
use authserver_go.Store.Error.{Result, ok, err, Update, not_found, duplicate, empty_id}
use authserver_go.Store.Users.{or_nil}

pub record RoleStore : Type 0 where
  pub roles : Assoc String Role
  pub claims : Assoc String (List RoleClaim)

abbrev pub new : RoleStore
new = record { roles = []; claims = [] }

unfoldable pub create_role : Role → Update RoleStore Unit
create_role role s =
    if role.id == ""
    then (err empty_id, s)
    else if is_some (lookup role.id s.roles)
    then (err duplicate, s)
    else (ok tt, record s { roles = insert role.id role s.roles })

unfoldable pub delete_role : String → Update RoleStore Unit
delete_role role_id s = elim (lookup role_id s.roles) [
  | none ↦ (err not_found, s)
  | some _ ↦ (ok tt, record { roles = erase role_id s.roles; claims = erase role_id s.claims })
]

unfoldable pub find_role_by_id : RoleStore → String → Result Role
find_role_by_id s role_id = elim (lookup role_id s.roles) [ none ↦ err not_found | some r ↦ ok r ]

unfoldable pub first_named : String → Assoc String Role → Result Role
first_named name [] = err not_found
first_named name ((id, r) ∷ m) =
    let rest = first_named name m in if equal_fold r.name name then ok r else rest

unfoldable pub find_role_by_name : RoleStore → String → Result Role
unfolding first_named
find_role_by_name s name = first_named name s.roles

unfoldable pub get_all_roles : RoleStore → Result (List Role)
get_all_roles s = ok (values s.roles)

unfoldable pub get_role_claims : RoleStore → String → Result (List RoleClaim)
get_role_claims s role_id = elim (lookup role_id s.roles) [
  | none ↦ err not_found
  | some _ ↦ ok (or_nil (lookup role_id s.claims))
]

-- The claims of a role that is there are replaced by what a function makes of them.
unfoldable pub change_claims : String → (List RoleClaim → List RoleClaim) → Update RoleStore Unit
change_claims role_id change s = elim (lookup role_id s.roles) [
  | none ↦ (err not_found, s)
  | some _ ↦ (
    ok tt,
    record s { claims = insert role_id (change (or_nil (lookup role_id s.claims))) s.claims },
  )
]

unfoldable pub add_role_claims : String → List RoleClaim → Update RoleStore Unit
unfolding change_claims
add_role_claims role_id added s = change_claims role_id (λ existing. existing ++ added) s

unfoldable pub same_claim : RoleClaim → RoleClaim → Bool
same_claim c d = c.claim_type == d.claim_type && c.value == d.value

unfoldable pub remove_role_claims : String → List RoleClaim → Update RoleStore Unit
unfolding change_claims same_claim
remove_role_claims role_id removed s = change_claims role_id (remove_each same_claim removed) s

unfoldable pub replace_role_claims : String → List RoleClaim → Update RoleStore Unit
unfolding change_claims
replace_role_claims role_id new_claims s = change_claims role_id (λ _. new_claims) s

unfoldable pub update_role : Role → Update RoleStore Unit
update_role role s = if role.id == "" then (err empty_id, s) else elim (lookup role.id s.roles) [
  | none ↦ (err not_found, s)
  | some _ ↦ (ok tt, record s { roles = insert role.id role s.roles })
]
