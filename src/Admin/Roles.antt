-- ===== src/Admin/Roles.antt =====
-- internal/admin/api.go: the handlers of roles.
use authserver_go.Base.{
  ℕ, String, Option, none, some, List, map, length, ◌==◌, string_eq, if◌then◌else◌,
}
use authserver_go.Base.Text.{trim_space}
use authserver_go.Domain.Entities.{Role, RoleClaim}
use authserver_go.Store.Error.{Result, ok, err}
use authserver_go.Store.Roles
use authserver_go.Store.Roles.{
  RoleStore, find_role_by_id, get_all_roles, get_role_claims, replace_role_claims,
}
use authserver_go.Oidc.Http.{
  Response, reply, fail, Check, pass, ◌>>=◌, ◌>>◌, refuse_if, some_or, finish, finish_at,
  bad_request, internal_error,
}
use authserver_go.Admin.{found, settled}

-- A role as JSON, in requests and answers.
pub record RoleView : Type 0 where
  pub id : String
  pub name : String

abbrev pub to_role_view : Role → RoleView
to_role_view r = record { id = r.id; name = r.name }

-- listRoles: the items and their number.
unfoldable pub list_roles : RoleStore → Response (List RoleView × ℕ)
list_roles s = elim (get_all_roles s) [
  | err e ↦ fail internal_error "list failed" ""
  | ok roles ↦ reply (map to_role_view roles, length roles)
]

abbrev pub Answer : Type 0
Answer = Response RoleView × RoleStore

-- What CreateRole and UpdateRole are answered with.
unfoldable pub put_answer : String → Role → Result (Unit {0}) → Response RoleView
put_answer text r (ok x) = reply (to_role_view r)
put_answer text r (err e) = fail bad_request text ""

-- The checks of createRole.
unfoldable pub create_present : Option RoleView → Check RoleView
create_present raw = do
  body ← some_or raw bad_request "invalid json" ""
  refuse_if (trim_space body.name == "") bad_request "name is required" ""
  pass body

-- createRole; `drawn` is uuid.NewString's.
unfoldable pub create_role : Option RoleView → String → RoleStore → Answer
unfolding create_present put_answer
create_role raw drawn s = finish_at s (create_present raw) λ body.
    let role : Role = record {
      id = if trim_space body.id == "" then drawn else trim_space body.id;
      name = trim_space body.name;
    } in
    let (answer, s') = Roles.create_role role s in (put_answer "create failed" role answer, s')

-- updateRole: the name is not checked here.
unfoldable pub update_role : String → Option RoleView → RoleStore → Answer
unfolding found put_answer
update_role id none s = (fail bad_request "invalid json" "", s)
update_role id (some b) s = finish_at s (found "lookup failed" (find_role_by_id s id)) λ existing.
    let role : Role = record existing { name = b.name } in
    let (answer, s') = Roles.update_role role s in (put_answer "update failed" role answer, s')

abbrev pub Done : Type 0
Done = Response (Unit {0}) × RoleStore

-- deleteRole
unfoldable pub delete_role : String → RoleStore → Done
unfolding settled
delete_role id s = let (answer, s') = Roles.delete_role id s in (settled "delete failed" answer, s')

-- getRoleClaims
unfoldable pub role_claims : String → RoleStore → Response (List RoleClaim)
unfolding found
role_claims id s = finish (found "lookup failed" (get_role_claims s id)) λ claims. reply claims

-- setRoleClaims
unfoldable pub set_role_claims : String → Option (List RoleClaim) → RoleStore → Done
unfolding settled
set_role_claims id none s = (fail bad_request "invalid json" "", s)
set_role_claims id (some claims) s =
    let (answer, s') = replace_role_claims id claims s in (settled "update failed" answer, s')
