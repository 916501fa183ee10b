-- ===== src/Oidc/Profile.antt =====
-- internal/oidc/profile.go: the profile API, cut where it changes a store. Header writing and logging are
-- left out.
pub mod Password
pub mod Guard
pub mod Others
pub mod Api
use authserver_go.Base.{
  ℕ, String, Bool, true, false, not, ◌&&◌, ◌||◌, any, map, List, [], ◌∷◌, ◌==◌, ◌!=◌, string_eq,
  nat_eq, if◌then◌else◌, length, Option, none, some,
}
use authserver_go.Base.Text.{concat, itoa}
use authserver_go.Domain.Time.{Time, Uuid}
use authserver_go.Domain.Entities.{User, Session, AuditLog}
use authserver_go.Store.Error.{
  Result, ok, err, StoreError, not_found, duplicate, nil_entity, empty_id, empty_hash,
}
use authserver_go.Store.RefreshTokens.{RefreshTokenStore, revoke_by_session_id}
use authserver_go.Store.Sessions.{find, revoke, list_by_user_id, revoke_by_user_id_except}
use authserver_go.Store.Users.{Bcrypt, find_user_by_id}
use authserver_go.Store.AuditLogs
use authserver_go.Oidc.Http.{
  Response, reply, fail, Check, pass, ◌>>=◌, ◌>>◌, refuse_if, some_or, ok_or, finish, finish_at,
  bad_request, unauthorized, forbidden, internal_error,
}
use authserver_go.Oidc.Stores.{Stores}

abbrev pub not_found_status : ℕ
not_found_status = 404

-- `parse_uuid` and `uuid_string` are google/uuid's; `throttled` and `audited` tell whether Tracker and
-- AuditLogs are set.
pub record Profile : Type 0 where
  pub bcrypt : Bcrypt
  pub base_path : String
  pub parse_uuid : String → Option Uuid
  pub uuid_string : Uuid → String
  pub throttled : Bool
  pub audited : Bool

pub record ChangePasswordBody : Type 0 where
  pub current_password : String
  pub new_password : String
  pub password_confirm : String

-- The JSON body as either handler decodes it; the source address as it stands and as the audit entry
-- keeps it.
pub record ProfileRequest : Type 0 where
  pub method : String
  pub path : String
  pub csrf : Bool
  pub session_body : Option String
  pub password_body : Option ChangePasswordBody
  pub ip : String
  pub logged_ip : String
  pub user_agent : String

-- The readings of the clock, and what is drawn.
pub record ProfileMoment : Type 0 where
  pub checked : Time
  pub recorded : Time
  pub updated : Time
  pub now : Time
  pub audited : Time
  pub stamp : String
  pub audit_id : Uuid

pub record ProfileSessionView : Type 0 where
  pub id : String
  pub created_at : Time
  pub expires_at : Time
  pub current : Bool

pub record ProfileView : Type 0 where
  pub username : String
  pub email : String
  pub has_other_sessions : Bool
  pub sessions : List ProfileSessionView

-- The JSON bodies.
pub data ProfileAnswer : Type 0 where
  view : ProfileView → ProfileAnswer
  status : String → ProfileAnswer
  counted : String → ℕ → ProfileAnswer

abbrev pub Answer : Type 0
Answer = Response ProfileAnswer × Stores

-- profileErrorLabel
unfoldable pub profile_error_label : String → String
profile_error_label code =
    if code == "antiforgery_failed"
    then "Your page expired. Please reload and try again."
    else if code == "current_session"
    then "Use sign out to end the current session."
    else if code == "password_missing"
    then "Please fill out all password fields."
    else if code == "password_mismatch"
    then "The new passwords do not match."
    else if code == "password_weak"
    then "The new password must be 8-72 characters and must not start or end with whitespace."
    else if code == "password_unchanged"
    then "The new password must differ from the current one."
    else if code == "current_password_wrong"
    then "The current password is incorrect."
    else if code == "account_locked"
    then "Too many failed attempts. Please try again later."
    else "An unexpected error occurred. Please try again later."

-- respondWithError
unfoldable pub refuse : ℕ → String → Response ProfileAnswer
unfolding profile_error_label
refuse code text = fail code text (profile_error_label text)

-- csrfOK
unfoldable pub csrf_ok : ProfileRequest → Check (Unit {0})
unfolding profile_error_label
csrf_ok r =
    refuse_if (not r.csrf) forbidden "antiforgery_failed" (profile_error_label "antiforgery_failed")

unfoldable pub session_view : Profile → Session → Session → ProfileSessionView
session_view h own x = record {
  id = h.uuid_string x.id;
  created_at = x.created_at;
  expires_at = x.expires_at;
  current = x.id == own.id;
}

-- A list that fails is only logged.
abbrev pub listed : Result (List Session) → List Session
listed (ok xs) = xs
listed (err e) = []

-- getProfile
unfoldable pub get_profile : Profile → Session → Time → Stores → Response ProfileAnswer
unfolding session_view profile_error_label
get_profile h own now s =
    finish
      (ok_or (find_user_by_id s.users own.user_id) internal_error "server_error"
        (profile_error_label "server_error"))
      λ user.
        let active = listed (list_by_user_id s.sessions own.user_id now) in
        reply (
          view (record {
            username = user.username;
            email = user.email;
            has_other_sessions = any (λ x. not (x.id == own.id)) active;
            sessions = map (session_view h own) active;
          }))

-- audit
unfoldable pub audit :
    Profile
    → ProfileRequest
    → ProfileMoment
    → String
    → String
    → String
    → String
    → String
    → Stores
    → Stores
audit h r m user_id action target_type target_id metadata s =
    if not h.audited then s else record s {
      audit =
          (AuditLogs.store
            (some (record {
              id = m.audit_id;
              action = action;
              actor_user_id = user_id;
              target_type = target_type;
              target_id = target_id;
              timestamp = m.audited;
              ip_address = r.logged_ip;
              user_agent = r.user_agent;
              metadata = metadata;
            }))
            s.audit).1;
    }

-- The checks of revokeSession: the session to revoke.
unfoldable pub target_of : Profile → ProfileRequest → Session → Stores → Check Session
unfolding csrf_ok profile_error_label
target_of h r own s = do
  csrf_ok r
  raw ← some_or r.session_body bad_request "invalid_request" "invalid request body"
  id ← some_or (h.parse_uuid raw) not_found_status "not_found" "session not found"
  target ← ok_or (find s.sessions id) not_found_status "not_found" "session not found"
  refuse_if (target.user_id != own.user_id) not_found_status "not_found" "session not found"
  refuse_if (target.id == own.id) bad_request "current_session"
      (profile_error_label "current_session")
  pass target

-- The errors of Revoke that end the request: all but ErrNotFound.
abbrev pub is_fatal : Result (Unit {0}) → Bool
is_fatal (ok x) = false
is_fatal (err not_found) = false
is_fatal (err e) = true

abbrev pub is_err : Result (Unit {0}) → Bool
is_err (ok x) = false
is_err (err e) = true

-- What follows the checks of revokeSession.
unfoldable pub revoke_target :
    Profile → ProfileRequest → ProfileMoment → Session → Session → Stores → Answer
unfolding refuse audit
revoke_target h r m own target s =
    let (answer, sessions) = revoke target.id m.now s.sessions in
    let s1 = record s { sessions = sessions } in
    let (answer', refresh) = revoke_by_session_id target.id m.now s.refresh in
    let s2 = record s1 { refresh = refresh } in
    if is_fatal answer
    then (refuse internal_error "server_error", s1)
    else if is_err answer'
    then (refuse internal_error "server_error", s2)
    else (
      reply (status "session_revoked"),
      audit h r m own.user_id "session_revoked" "Session" (h.uuid_string target.id) "" s2,
    )

-- revokeSession
unfoldable pub revoke_session : Profile → ProfileRequest → ProfileMoment → Session → Stores → Answer
unfolding target_of revoke_target
revoke_session h r m own s =
    finish_at s (target_of h r own s) λ target. revoke_target h r m own target s

-- The loop of revokeOtherSessions: a failure ends it.
unfoldable pub revoke_each :
    List Uuid → Time → RefreshTokenStore → Result (Unit {0}) × RefreshTokenStore
revoke_each [] now tokens = (ok tt, tokens)
revoke_each (id ∷ ids) now tokens =
    let (answer, tokens') = revoke_by_session_id id now tokens in
    let rest = revoke_each ids now tokens' in if is_err answer then (answer, tokens') else rest

-- revokeOtherSessions: the number, whether an error stopped it, and the stores.
unfoldable pub revoke_other_sessions : ProfileMoment → Session → Stores → (ℕ × Bool) × Stores
unfolding revoke_each
revoke_other_sessions m own s =
    let (answer, sessions) = revoke_by_user_id_except own.user_id own.id m.now s.sessions in
    elim answer [
      | err e ↦ ((0, true), record s { sessions = sessions })
      | ok ids ↦
          let (answer', refresh) = revoke_each ids m.now s.refresh in
          ((length ids, is_err answer'), record s { sessions = sessions; refresh = refresh })
    ]

-- revokeOthers
unfoldable pub revoke_others : Profile → ProfileRequest → ProfileMoment → Session → Stores → Answer
unfolding csrf_ok revoke_other_sessions refuse audit
revoke_others h r m own s = finish_at s (csrf_ok r) λ _.
    let ((n, failed), s') = revoke_other_sessions m own s in
    if failed then (refuse internal_error "server_error", s') else (
      reply (counted "other_sessions_revoked" n),
      audit h r m own.user_id "session_revoked" "User" own.user_id
          (concat "{\"scope\":\"others\",\"count\":" (concat (itoa n) "}")) s',
    )
