-- ===== src/Oidc/Profile/Others.antt =====
-- What a change of the password ends: every other session of the user.
use authserver_go.Base.{
  String, ◌≡◌, ◌≢◌, refl, sym, ap, ◌∙◌, none, some, List, [], ◌∷◌, ◌==◌, ◌!=◌, string_eq, nat_eq,
  eq_iff, arith, is_some, inl, inr, subst,
}
use authserver_go.Base.Assoc.{lookup}
use authserver_go.Domain.Time.{Time, Uuid}
use authserver_go.Domain.Entities.{User, UserInfo, Session}
use authserver_go.Domain.PasswordPolicy.{validate_password}
use authserver_go.Store.Error.{ok}
use authserver_go.Store.RefreshTokens.{RefreshTokenStore, revoke_by_session_id}
use authserver_go.Store.Sessions.{revoke_loop, revoke_by_user_id_except}
use authserver_go.Store.Users.{UserResult, done, failed, set_password, update_user}
use authserver_go.Oidc.Http.{
  reply, is_reply, pass, finish_at-reply, refuse_if, refuse_if-pass, >>=-pass, bad_request,
}
use authserver_go.Oidc.Stores.{Stores}
use authserver_go.Store.Users.Laws.{update_user-hashes, set_password-hash}
use authserver_go.Oidc.SignedOut.{SignedOutElsewhere, revoked-SignedOut, SignedOut-from}
use authserver_go.Oidc.ResetPassword.{revoke_tokens}
use authserver_go.Oidc.Profile
use authserver_go.Oidc.Profile.{
  Profile, ProfileRequest, ProfileMoment, ProfileAnswer, ChangePasswordBody, Answer, status,
  profile_error_label, audit, revoke_each, revoke_other_sessions,
}
use authserver_go.Oidc.Profile.Password.{judge, clean_up, settle, proved, change_password}
use authserver_go.Oidc.Profile.Guard.{Admitted, change_password-Turned}

pub revoke_each_lem :
    (ids : List Uuid) (now : Time) (tokens : RefreshTokenStore)
    → revoke_each ids now tokens ≡ (ok tt, revoke_tokens ids now tokens)
unfolding revoke_each revoke_tokens revoke_by_session_id
revoke_each_lem [] now tokens = refl
revoke_each_lem (id ∷ ids) now tokens =
    revoke_each_lem ids now (revoke_by_session_id id now tokens).1

module _ (m : ProfileMoment) (own : Session) (s : Stores) where
  other_sessions-stores :
      ((revoke_other_sessions m own s).1.sessions
        ≡ (revoke_by_user_id_except own.user_id own.id m.now s.sessions).1)
      × ((revoke_other_sessions m own s).1.refresh
          ≡ revoke_tokens
              (revoke_loop own.user_id own.id m.now s.sessions.sessions).1
              m.now
              s.refresh)
  unfolding revoke_other_sessions revoke_by_user_id_except
  other_sessions-stores = (
    refl,
    ap (λ x. x.1)
        (revoke_each_lem (revoke_loop own.user_id own.id m.now s.sessions.sessions).1 m.now
          s.refresh),
  )

judge-pass :
    (b : ChangePasswordBody) (x : Unit {0})
    → judge b ≡ pass x
    → (b.new_password ≡ b.password_confirm)
      × (validate_password b.new_password ≡ none)
      × (b.new_password ≢ b.current_password)
unfolding judge
judge-pass b x e =
    let text : String → String = profile_error_label in
    let (_, same, e1) =
      >>=-pass
        (refuse_if (b.new_password != b.password_confirm) bad_request "password_mismatch"
          (text "password_mismatch"))
        _ x e in
    let (_, strong, e2) =
      >>=-pass
        (refuse_if (is_some (validate_password b.new_password)) bad_request "password_weak"
          (text "password_weak"))
        _ x e1 in
    let differs =
      refuse_if-pass (b.new_password == b.current_password) bad_request "password_unchanged"
        (text "password_unchanged") x e2 in
    (
      ground (arith, same, eq_iff b.new_password b.password_confirm),
      ground (arith, strong),
      ground (arith, differs, eq_iff b.new_password b.current_password),
    )

settle-done :
    (h : Profile) (r : ProfileRequest) (m : ProfileMoment) (own : Session) (user : User)
    (x : UserResult) (s s' : Stores) (a : ProfileAnswer)
    → settle h r m own user x s ≡ (reply a, s')
    → (x ≡ done) × (a ≡ status "password_changed") × (s' ≡ clean_up h r m own user s)
unfolding settle
settle-done h r m own user (failed y) s s' a e = absurd (unfold Profile.refuse in cc e)
settle-done h r m own user done s s' a e = (refl, cc e, cc e)

module _ (h : Profile) (r : ProfileRequest) (m : ProfileMoment) (own : Session) (user : User)
    (s : Stores) where
  abbrev left : Stores
  left = clean_up h r m own user s

  clean_up-hashes : left.users.hashes ≡ s.users.hashes
  unfolding clean_up audit revoke_other_sessions revoke_by_user_id_except
  clean_up-hashes = ground (
    arith,
    update_user-hashes (record user { security_stamp = m.stamp; updated_at = m.updated }) s.users,
  )

  clean_up-Out : SignedOutElsewhere own.user_id own.id m.now s left
  unfolding clean_up audit
  clean_up-Out =
      let s1 : Stores = record s {
        users =
            (update_user (record user { security_stamp = m.stamp; updated_at = m.updated })
              s.users).1;
      } in
      let (sessions, refresh) = other_sessions-stores m own s1 in
      revoked-SignedOut own.user_id own.id m.now s left (ground (arith, sessions))
        (ground (arith, refresh))

abbrev with_password : Profile → ChangePasswordBody → User → Stores → Stores
with_password h b user s = record s {
  users = (set_password h.bcrypt user.id b.new_password s.users).1;
}

proved-reply :
    (h : Profile) (r : ProfileRequest) (m : ProfileMoment) (own : Session) (b : ChangePasswordBody)
    (user : User) (s s' : Stores) (a : ProfileAnswer)
    → proved h r m own b user s ≡ (reply a, s')
    → (x : Unit {0}) × (judge b ≡ pass x)
      × ((set_password h.bcrypt user.id b.new_password s.users).0 ≡ done)
      × (a ≡ status "password_changed")
      × (s' ≡ clean_up h r m own user (with_password h b user s))
unfolding proved
proved-reply h r m own b user s s' a e =
    let (x, fine, e1) =
      finish_at-reply s (judge b)
        (λ _.
          settle h r m own user (set_password h.bcrypt user.id b.new_password s.users).0
            (with_password h b user s))
        a s' e in
    let (changed, answer, after) =
      settle-done h r m own user (set_password h.bcrypt user.id b.new_password s.users).0
        (with_password h b user s) s' a e1 in
    (x, fine, changed, answer, after)

-- A change of the password that is answered was admitted, with a new password that was typed twice, fits
-- the policy and is not the current one. Afterwards its hash is the stored one of the account; every
-- other live session of the user is revoked, with the refresh tokens issued in it; and the caller's
-- session is as it was.
pub change_ends_others :
    (h : Profile) (r : ProfileRequest) (m : ProfileMoment) (own : Session) (s s' : Stores)
    (a : ProfileAnswer)
    → change_password h r m own s ≡ (reply a, s')
    → (b : ChangePasswordBody) × (user : User) × (info : UserInfo) × Admitted h r m own s b user
        info
      × (a ≡ status "password_changed")
      × ((b.new_password ≡ b.password_confirm)
          × (validate_password b.new_password ≡ none)
          × (b.new_password ≢ b.current_password))
      × ((hash : String) × (h.bcrypt.generate b.new_password ≡ some hash)
          × (lookup user.id s'.users.hashes ≡ some hash))
      × SignedOutElsewhere own.user_id own.id m.now s s'
change_ends_others h r m own s s' a e = elim (change_password-Turned h r m own s) [
  | inl (refused, _) ↦ absurd (cc (ap (λ x. is_reply x.0) (sym e) ∙ refused))
  | inr (b, user, info, admitted, s1, same, out) ↦
      let (x, fine, changed, answer, after) = proved-reply h r m own b user s1 s' a (sym out ∙ e) in
      let (hash, made, kept) = set_password-hash h.bcrypt user.id b.new_password s1.users changed in
      let s2 : Stores = with_password h b user s1 in
      (
        b,
        user,
        info,
        admitted,
        answer,
        judge-pass b x fine,
        (
          hash,
          made,
          ap (λ (y : Stores). lookup user.id y.users.hashes) after
              ∙ ap (lookup user.id) (clean_up-hashes h r m own user s2)
              ∙ kept,
        ),
        SignedOut-from own.user_id own.id m.now s2 s s' same.sessions same.refresh (
            subst (SignedOutElsewhere own.user_id own.id m.now s2) (sym after)
              (clean_up-Out h r m own user s2)),
      )
]
