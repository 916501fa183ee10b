-- ===== src/Oidc/Profile/Guard.antt =====
-- What a change of the password has gone through.
use authserver_go.Base.{
  String, ◌≡◌, refl, sym, ap, ◌∙◌, true, false, not, ◌||◌, some, ◌==◌, string_eq, arith, Bool-cases,
  Option-cases, inl, inr, ◌⊎◌, subst,
}
use authserver_go.Domain.Entities.{User, UserInfo, Session}
use authserver_go.Store.Error.{ok}
use authserver_go.Store.Users.{UserStore, validate_credentials, find_user_by_id}
use authserver_go.Oidc.Http.{
  pass, finish_at-cases, is_reply, refuse_if, some_or, some_or-pass, ok_or, ok_or-pass,
  refuse_if-pass, >>=-pass, forbidden, bad_request, internal_error,
}
use authserver_go.Oidc.Stores.{Stores}
use authserver_go.Oidc.Profile.{
  Profile, ProfileRequest, ProfileMoment, ChangePasswordBody, Answer, profile_error_label, refuse,
  csrf_ok,
}
use authserver_go.Oidc.Profile.Password.{
  present, locked_out, password_lockout_key, attempt, unless_locked, proved, change_password,
}

-- The checks before the throttle.
pub record Given (r : ProfileRequest) (own : Session) (users : UserStore) (b : ChangePasswordBody)
    (user : User) : Type 0 where
  pub csrf : r.csrf ≡ true
  pub decoded : r.password_body ≡ some b
  pub account : find_user_by_id users own.user_id ≡ ok user

present-Given :
    (r : ProfileRequest) (own : Session) (users : UserStore) (b : ChangePasswordBody) (user : User)
    → present r own users ≡ pass (b, user)
    → Given r own users b user
unfolding present csrf_ok
present-Given r own users b user e =
    let text : String → String = profile_error_label in
    let (x, csrf, e1) = >>=-pass (csrf_ok r) _ (b, user) e in
    let (b', decoded, e2) =
      >>=-pass (some_or r.password_body bad_request "password_missing" (text "password_missing")) _
        (b, user) e1 in
    let (_, filled, e3) =
      >>=-pass
        (refuse_if (b'.current_password == "" || b'.new_password == "" || b'.password_confirm == "")
          bad_request "password_missing" (text "password_missing"))
        _ (b, user) e2 in
    let (u, known, e4) =
      >>=-pass
        (ok_or (find_user_by_id users own.user_id) internal_error "server_error"
          (text "server_error"))
        _ (b, user) e3 in
    record {
      csrf = ground (
        arith,
        refuse_if-pass (not r.csrf) forbidden "antiforgery_failed" (text "antiforgery_failed") x
            csrf,
      );
      decoded =
          some_or-pass r.password_body bad_request "password_missing" (text "password_missing") b'
            decoded
          ∙ cc e4;
      account =
          ok_or-pass (find_user_by_id users own.user_id) internal_error "server_error"
            (text "server_error") u known
          ∙ cc e4;
    }

module _ (h : Profile) (r : ProfileRequest) (m : ProfileMoment) (own : Session) (s : Stores) where
  -- A caller who is not locked out and gave the password of the account that has the name of the
  -- session's user.
  pub record Admitted (b : ChangePasswordBody) (user : User) (info : UserInfo) : Type 0 where
    pub given : Given r own s.users b user
    pub unlocked : (locked_out h m (password_lockout_key user.id r.ip) s.tracker).0 ≡ false
    pub knows : validate_credentials h.bcrypt s.users user.username b.current_password ≡ some info

  -- Accounts, sessions and refresh tokens are as they were.
  pub record Untouched (s' : Stores) : Type 0 where
    pub users : s'.users ≡ s.users
    pub sessions : s'.sessions ≡ s.sessions
    pub refresh : s'.refresh ≡ s.refresh

  abbrev Turned : Answer → Type 0
  Turned out =
      ((is_reply out.0 ≡ false) × Untouched out.1)
      ⊎ ((b : ChangePasswordBody) × (user : User) × (info : UserInfo) × Admitted b user info
          × (s1 : Stores) × Untouched s1
          × (out ≡ proved h r m own b user s1))

  unless_locked-Turned :
      (b : ChangePasswordBody) (user : User)
      → Given r own s.users b user
      → Turned (unless_locked h r m own b user s)
  unfolding unless_locked attempt refuse
  unless_locked-Turned b user given =
      let key : String = password_lockout_key user.id r.ip in
      elim (Bool-cases (locked_out h m key s.tracker).0) [
        | inl locked ↦
            rw locked (inl (refl, record { users = refl; sessions = refl; refresh = refl }))
        | inr free ↦
            elim (Option-cases
              (validate_credentials h.bcrypt s.users user.username b.current_password)) [
                | inl wrong ↦
                    rw (free, wrong, attempt)
                      (inl (
                        refl,
                        record {
                          users = ground arith;
                          sessions = ground arith;
                          refresh = ground arith;
                        },
                      ))
                | inr (info, right) ↦
                    rw (free, right, attempt)
                      (inr (
                        b,
                        user,
                        info,
                        record { given = given; unlocked = free; knows = right },
                        _,
                        record {
                          users = ground arith;
                          sessions = ground arith;
                          refresh = ground arith;
                        },
                        refl,
                      ))
              ]
      ]

  pub change_password-Turned : Turned (change_password h r m own s)
  unfolding change_password
  change_password-Turned =
      elim (finish_at-cases s (present r own s.users)
        (λ found. unless_locked h r m own found.0 found.1 s)) [
          | inl (refused, same) ↦ inl (
            refused,
            record {
              users = ap (λ (x : Stores). x.users) same;
              sessions = ap (λ (x : Stores). x.sessions) same;
              refresh = ap (λ (x : Stores). x.refresh) same;
            },
          )
          | inr ((b, user), passed, e) ↦
              subst Turned (sym e)
                (unless_locked-Turned b user (present-Given r own s.users b user passed))
        ]

-- A password change that touches accounts, sessions or refresh tokens has passed its checks: the CSRF
-- header, a body, the account of the session, a throttle that is not locked, and the current password.
pub change_needs_password :
    (h : Profile) (r : ProfileRequest) (m : ProfileMoment) (own : Session) (s : Stores)
    → Untouched h r m own s (change_password h r m own s).1
      ⊎ ((b : ChangePasswordBody) × (user : User) × (info : UserInfo) × Admitted h r m own s b user
            info)
change_needs_password h r m own s = elim (change_password-Turned h r m own s) [
  | inl (_, same) ↦ inl same
  | inr (b, user, info, a, _, _, _) ↦ inr (b, user, info, a)
]
