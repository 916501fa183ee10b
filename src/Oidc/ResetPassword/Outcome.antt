-- ===== src/Oidc/ResetPassword/Outcome.antt =====
-- What a password reset that is answered has gone through, and what it leaves in the stores.
pub mod Password
pub mod Sessions
use authserver_go.Base.{
  ℕ, ◌<◌, String, ◌≡◌, ◌≢◌, refl, ◌∙◌, ap, sym, subst, Bool, true, false, not, ◌||◌, Option, none,
  some, List, [], ◌∷◌, ◌==◌, ◌!=◌, string_eq, nat_eq, eq_iff, arith, is_some, Option-cases,
  Bool-cases, inl, inr, if◌then◌else◌, some_inj, map_some, contains, nat_beq_iff, beq_refl,
}
use authserver_go.Base.Assoc.{lookup, lookup-insert_self}
use authserver_go.Domain.Time.{Time, Uuid, uuid_nil}
use authserver_go.Domain.Entities.{PasswordResetToken, RefreshToken, Session}
use authserver_go.Domain.PasswordPolicy.{
  validate_password, Acceptable, validate_password-Acceptable,
}
use authserver_go.Store.Error.{Result, ok, err, ok_inj}
use authserver_go.Store.PasswordResets.{
  PasswordResetStore, find_by_hash, first_with, consume, invalidate, invalidate_for_user,
}
use authserver_go.Store.PasswordResets.Laws
use authserver_go.Store.PasswordResets.Keyed.{
  Keyed, first_with-lookup, first_with-insert, first_with-update_all,
}
use authserver_go.Store.Users.{UserResult, done, failed, set_password}
use authserver_go.Token.Crypto.{hash_token}
use authserver_go.Oidc.Http.{
  Response, reply, fail, Check, pass, reject, finish_at-reply, >>=-pass, some_or-pass, some_or,
  refuse_if, bad_request, forbidden,
}
use authserver_go.Oidc.Stores.{Stores}
use authserver_go.Oidc.ResetPassword.{
  ResetPassword, ResetRequest, ResetMoment, ResetBody, lookup_token, handle_get, check_passwords,
  present, clean_up, settle, redeem, handle, usable, reset_error_label, revoke_tokens, rotate_stamp,
}

-- The checks that stand before Consume, as a predicate.
pub record Presented (h : ResetPassword) (r : ResetRequest) (m : ResetMoment)
    (resets : PasswordResetStore) (body : ResetBody) (t : PasswordResetToken) : Type 0 where
  pub csrf : r.csrf ≡ true
  pub decoded : r.body ≡ some body
  pub confirmed : body.new_password ≡ body.new_password_confirm
  pub acceptable : Acceptable body.new_password
  pub found : lookup_token h resets body.token m.looked_again ≡ some t

check_passwords-pass :
    (body : ResetBody)
    → check_passwords body ≡ pass tt
    → (body.new_password ≡ body.new_password_confirm) × (validate_password body.new_password ≡ none)
unfolding check_passwords
check_passwords-pass body e = ground (arith, e, eq_iff body.new_password body.new_password_confirm)

present-Presented :
    (h : ResetPassword) (r : ResetRequest) (m : ResetMoment) (resets : PasswordResetStore)
    (body : ResetBody) (t : PasswordResetToken)
    → present h r m resets ≡ pass (body, t)
    → Presented h r m resets body t
unfolding present
present-Presented h r m resets body t e =
    let invalid : String = reset_error_label "invalid_token" in
    let (_, csrf, e1) =
      >>=-pass
        (refuse_if (not r.csrf) forbidden "antiforgery_failed"
          (reset_error_label "antiforgery_failed"))
        _ (body, t) e in
    let (x, decoded, e2) =
      >>=-pass (some_or r.body bad_request "invalid_token" invalid) _ (body, t) e1 in
    let (_, seen, e3) =
      >>=-pass
        (refuse_if (not (handle_get h resets x.token m.looked)) bad_request "invalid_token" invalid)
        _ (body, t) e2 in
    let (_, checked, e4) = >>=-pass (check_passwords x) _ (body, t) e3 in
    let (u, found, e5) =
      >>=-pass
        (some_or (lookup_token h resets x.token m.looked_again) bad_request "invalid_token" invalid)
        _ (body, t) e4 in
    let same : x ≡ body = cc e5 in
    let (confirmed, fine) =
      check_passwords-pass body (subst (λ y. check_passwords y ≡ pass tt) same checked) in
    record {
      csrf = ground (arith, csrf);
      decoded = some_or-pass r.body bad_request "invalid_token" invalid x decoded ∙ ap some same;
      confirmed = confirmed;
      acceptable = validate_password-Acceptable body.new_password fine;
      found =
          ap (λ (y : ResetBody). lookup_token h resets y.token m.looked_again) (sym same)
          ∙ some_or-pass (lookup_token h resets x.token m.looked_again) bad_request "invalid_token"
              invalid u found
          ∙ cc e5;
    }

pub lookup_token-found :
    (h : ResetPassword) (resets : PasswordResetStore) (raw : String) (now : Time)
    (t : PasswordResetToken)
    → lookup_token h resets raw now ≡ some t
    → (first_with (hash_token h.crypto raw) resets.tokens ≡ some t)
      × (t.consumed_at ≡ none)
      × (now < t.expires_at)
unfolding lookup_token find_by_hash usable
lookup_token-found h resets raw now t e = ground (arith, e)

-- Down to where a request that is answered has come.
pub record Answered (h : ResetPassword) (r : ResetRequest) (m : ResetMoment) (s : Stores)
    (answer : String) (s' : Stores) (body : ResetBody) (t : PasswordResetToken) : Type 0 where
  pub presented : Presented h r m s.resets body t
  pub won : (consume t.id m.now s.resets).0 ≡ ok true
  pub changed : (set_password h.bcrypt t.user_id body.new_password s.users).0 ≡ done
  pub left :
      s'
      ≡ clean_up h r m t.user_id (record s {
        resets = (consume t.id m.now s.resets).1;
        users = (set_password h.bcrypt t.user_id body.new_password s.users).1;
      })

settle-reply :
    (h : ResetPassword) (r : ResetRequest) (m : ResetMoment) (user_id : String)
    (changed : UserResult) (s : Stores) (answer : String) (s' : Stores)
    → settle h r m user_id changed s ≡ (reply answer, s')
    → (changed ≡ done) × (s' ≡ clean_up h r m user_id s)
unfolding settle
settle-reply h r m user_id (failed e) s answer s' p = absurd (cc)
settle-reply h r m user_id done s answer s' p = (refl, sym (ap (λ q. q.1) p))

redeem-reply :
    (h : ResetPassword) (r : ResetRequest) (m : ResetMoment) (body : ResetBody)
    (t : PasswordResetToken) (won : Result Bool) (s : Stores) (answer : String) (s' : Stores)
    → redeem h r m body t won s ≡ (reply answer, s')
    → (won ≡ ok true)
      × ((set_password h.bcrypt t.user_id body.new_password s.users).0 ≡ done)
      × (s'
          ≡ clean_up h r m t.user_id
              (record s { users = (set_password h.bcrypt t.user_id body.new_password s.users).1 }))
unfolding redeem
redeem-reply h r m body t (err e) s answer s' p = absurd (cc)
redeem-reply h r m body t (ok false) s answer s' p = absurd (cc)
redeem-reply h r m body t (ok true) s answer s' p =
    let (changed, left) = settle-reply h r m t.user_id _ _ answer s' p in (refl, changed, left)

pub handle-Answered :
    (h : ResetPassword) (r : ResetRequest) (m : ResetMoment) (s : Stores) (answer : String)
    (s' : Stores)
    → handle h r m s ≡ (reply answer, s')
    → (body : ResetBody) × (t : PasswordResetToken) × Answered h r m s answer s' body t
unfolding handle
handle-Answered h r m s answer s' e =
    let (found, p, k) = finish_at-reply s (present h r m s.resets) _ answer s' e in
    let (body, t) = found in
    let (won, changed, left) = redeem-reply h r m body t _ _ answer s' k in
    (
      body,
      t,
      record {
        presented = present-Presented h r m s.resets body t p;
        won = won;
        changed = changed;
        left = left;
      },
    )
