-- ===== src/Tests/Admin.antt =====
-- The admin API at concrete data.
use Prim.Native.String.{String}
use authserver_go.Base.{◌≡◌, refl, true, false, none, some, List, [], ◌∷◌, ◌==◌, string_eq}
use authserver_go.Base.Assoc.{lookup, insert}
use authserver_go.Base.Text.{trim_space, equal_fold, rune_count, byte_len}
use authserver_go.Domain.Time.{uuid_nil}
use authserver_go.Domain.PasswordPolicy.{validate_password}
use authserver_go.Store.Clients
use authserver_go.Store.Users
use authserver_go.Store.Users.{UserStore, set_password}
use authserver_go.Store.Users.Roles.{
  roles_of, add_missing, get_user_roles, remove_from_roles, add_to_roles,
}
use authserver_go.Store.PasswordResets.{invalidate_for_user}
use authserver_go.Store.Sessions.{revoke_by_user_id_except}
use authserver_go.Store.RefreshTokens.{revoke_by_session_id}
use authserver_go.Store.Roles
use authserver_go.Oidc.Http.{reply}
use authserver_go.Oidc.Stores.{Stores}
use authserver_go.Oidc.SignedOut.{SignedOutElsewhere}
use authserver_go.Admin.{Api}
use authserver_go.Admin.Clients.{to_client_view}
use authserver_go.Admin.Clients.Registry.{
  Request, create, update, remove, IsRegistry, run, run-IsRegistry,
}
use authserver_go.Admin.Users.{contains_string, set_user_roles}
use authserver_go.Admin.Users.RoleSet.{set_user_roles-sets}
use authserver_go.Admin.Access.{SetPassword, SetMoment, delete_user, set_user_password}
use authserver_go.Admin.Access.Ended.{delete_user_ends}
use authserver_go.Admin.Roles.{update_role}
use authserver_go.Base.{◌≢◌}
use authserver_go.Base.Text.{has_prefix}
use authserver_go.Admin.Auth.{AuthConfig, Headers, who, enter, session, token, admit}
use authserver_go.Admin.Auth.Admitted.{Entitled, admit-Entitled}
use authserver_go.Tests.Data.{live_session, noon, app, test_stores, test_users}

abbrev api : Api
api = record {
  parse_url = λ t. some (record { scheme = "https"; host = "app"; fragment = "" });
  jwks_keys = λ t. none;
  parse_uuid = λ t. none;
  bcrypt = record { generate = λ pw. some pw; matches = λ stored pw. stored == pw };
  resets_set = true;
  audited = true;
}

abbrev requests : List Request
requests =
    create (some (to_client_view app))
    ∷ update "app" (some (record (to_client_view app) { profile = "m2m" }))
    ∷ remove "other"
    ∷ []

run-IsRegistry_example : IsRegistry api (run api requests Clients.new)
run-IsRegistry_example =
    run-IsRegistry api requests Clients.new (unfold lookup in λ id c e. absurd (cc e))

-- "Admin" stays, "Editor" goes and "viewer" comes.
abbrev with_roles : UserStore
with_roles = record test_users { roles = ("ada", "Admin" ∷ "Editor" ∷ []) ∷ [] }

abbrev wanted : List String
wanted = "admin" ∷ "viewer" ∷ []

abbrev after_roles : UserStore
after_roles = (set_user_roles "ada" (some wanted) with_roles).1

roles_set : set_user_roles "ada" (some wanted) with_roles ≡ (reply tt, after_roles)
unfolding set_user_roles lookup equal_fold get_user_roles remove_from_roles add_to_roles
roles_set = refl

roles_after : roles_of after_roles "ada" ≡ "Admin" ∷ "viewer" ∷ []
unfolding set_user_roles lookup equal_fold insert add_missing get_user_roles remove_from_roles
    add_to_roles
roles_after = refl

set_user_roles-sets_example :
    contains_string (roles_of after_roles "ada") "editor" ≡ contains_string wanted "editor"
set_user_roles-sets_example =
    set_user_roles-sets "ada" wanted with_roles after_roles tt roles_set "editor"

delete_user_ends_example :
    SignedOutElsewhere "ada" uuid_nil noon test_stores (delete_user api "ada" noon test_stores).1
    × ((s' : Stores) (x : Unit {0})
        → delete_user api "ada" noon test_stores ≡ (reply x, s')
        → (lookup "ada" s'.users.users ≡ none) × (lookup "ada" s'.users.hashes ≡ none))
delete_user_ends_example = delete_user_ends api "ada" noon test_stores

abbrev new_password : SetPassword
new_password = record {
  body = some "long enough";
  actor = "root";
  ip = "10.0.0.1";
  user_agent = "ua";
}

abbrev instant : SetMoment
instant = record { now = noon; audited = noon; stamp = "s1"; audit_id = 40 }

abbrev after_password : Stores
after_password = (set_user_password api "ada" new_password instant test_stores).1

password_set :
    set_user_password api "ada" new_password instant test_stores ≡ (reply 1, after_password)
unfolding set_user_password validate_password trim_space rune_count byte_len set_password lookup
    Users.find_user_by_id Users.update_user invalidate_for_user revoke_by_user_id_except
    revoke_by_session_id
password_set = refl

-- A role can be renamed to nothing.
abbrev one_role : Roles.RoleStore
one_role = record { roles = ("r1", record { id = "r1"; name = "Admin" }) ∷ []; claims = [] }

nameless :
    (update_role "r1" (some (record { id = ""; name = "" })) one_role).0
    ≡ reply (record { id = "r1"; name = "" })
unfolding update_role lookup Roles.find_role_by_id Roles.update_role
nameless = refl

-- A browser session of an administrator, with the CSRF token in cookie and header.
abbrev guard : AuthConfig
guard = record { admin_token = "secret"; allow_anonymous = false; admin_role = ""; resolves = true }

abbrev browser : Headers
browser = record {
  safe = false;
  authorization = "";
  x_admin_token = "";
  csrf_cookie = some "c1";
  csrf_token = "c1";
}

let_in : admit guard browser (who live_session) with_roles ≡ enter session "ada"
unfolding admit get_user_roles lookup equal_fold has_prefix
let_in = refl

admit-Entitled_example :
    Entitled guard browser (who live_session) with_roles session "ada"
    × (browser.safe ≡ false
        → session ≢ token
        → (browser.csrf_cookie ≡ some browser.csrf_token) × (browser.csrf_token ≢ ""))
admit-Entitled_example =
    admit-Entitled guard browser (who live_session) with_roles session "ada" let_in
