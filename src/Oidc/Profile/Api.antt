-- ===== src/Oidc/Profile/Api.antt =====
-- internal/oidc/profile.go: ServeHTTP, behind RequireSession.
use authserver_go.Base.{String, ◌&&◌, Option, none, some, ◌==◌, string_eq, if◌then◌else◌}
use authserver_go.Base.Text.{concat}
use authserver_go.Domain.Entities.{Session}
use authserver_go.Oidc.Http.{fail, unauthorized, method_not_allowed}
use authserver_go.Oidc.Stores.{Stores}
use authserver_go.Oidc.Profile.{
  Profile, ProfileRequest, ProfileMoment, Answer, get_profile, revoke_session, revoke_others,
}
use authserver_go.Oidc.Profile.Password.{change_password}

abbrev pub revoke_path : Profile → String
revoke_path h = concat h.base_path "/sessions/revoke"

abbrev pub revoke_others_path : Profile → String
revoke_others_path h = concat h.base_path "/sessions/revoke-others"

abbrev pub password_path : Profile → String
password_path h = concat h.base_path "/password"

-- The session is that of the request's context.
unfoldable pub serve : Profile → ProfileRequest → ProfileMoment → Option Session → Stores → Answer
unfolding get_profile revoke_session revoke_others change_password
serve h r m none s = (fail unauthorized "login_required" "login required", s)
serve h r m (some own) s =
    if r.path == h.base_path && r.method == "GET"
    then (get_profile h own m.now s, s)
    else if r.path == revoke_path h && r.method == "POST"
    then revoke_session h r m own s
    else if r.path == revoke_others_path h && r.method == "POST"
    then revoke_others h r m own s
    else if r.path == password_path h && r.method == "POST"
    then change_password h r m own s
    else (fail method_not_allowed "invalid_request" "method not allowed", s)
