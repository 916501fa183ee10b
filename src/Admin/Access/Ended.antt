-- ===== src/Admin/Access/Ended.antt =====
-- What deleting an account, and setting its password, end.
use authserver_go.Base.{
  String, ◌≡◌, refl, sym, ap, ◌∙◌, false, none, some, string_eq, arith, Bool-cases, Option-cases,
  inl, inr, eq_iff,
}
use authserver_go.Base.Assoc.{lookup, lookup-erase}
use authserver_go.Domain.Time.{Time, Uuid, uuid_nil}
use authserver_go.Store.Sessions.{revoke_loop, revoke_by_user_id_except}
use authserver_go.Store.Users
use authserver_go.Store.PasswordResets.{invalidate_for_user}
use authserver_go.Oidc.Http.{reply}
use authserver_go.Oidc.Stores.{Stores}
use authserver_go.Oidc.SignedOut.{SignedOutElsewhere, revoked-SignedOut, SignedOut-from}
use authserver_go.Oidc.ResetPassword.{revoke_tokens}
use authserver_go.Oidc.Profile.Others.{revoke_each_lem}
use authserver_go.Admin.{Api, settled}
use authserver_go.Base.{ℕ, subst, List, [], ◌∷◌}
use authserver_go.Store.RefreshTokens.{RefreshTokenStore, revoke_by_session_id}
use authserver_go.Store.Users.{
  UserStore, UserResult, done, failed, UserError, store_error, set_password,
}
use authserver_go.Store.Users.Laws.{update_user-hashes, set_password-hash}
use authserver_go.Oidc.Http.{pass, finish_at-reply}
use authserver_go.Admin.Access.{
  SetPassword, SetMoment, set_present, rotate_stamp, revoke_all, clean_up, settle,
  set_user_password, Done, delete_account, drop_links, after_tokens, after_sessions, delete_user,
}

module _ (h : Api) (id : String) (now : Time) where
  delete_account-kept :
      (s : Stores)
      → ((delete_account id s).1.sessions ≡ s.sessions)
        × ((delete_account id s).1.refresh ≡ s.refresh)
  unfolding delete_account
  delete_account-kept s = (refl, refl)

  delete_account-gone :
      (s s' : Stores) (x : Unit {0})
      → delete_account id s ≡ (reply x, s')
      → (lookup id s'.users.users ≡ none) × (lookup id s'.users.hashes ≡ none)
  unfolding delete_account Users.delete_user settled
  delete_account-gone s s' x e = elim (Option-cases (lookup id s.users.users)) [
    | inl missing ↦ absurd (ground (arith, e, missing))
    | inr (u, known) ↦ (
      ground (arith, e, known, lookup-erase id id s.users.users, eq_iff id id),
      ground (arith, e, known, lookup-erase id id s.users.hashes, eq_iff id id),
    )
  ]

  -- The stores of a deletion: none of its error branches is taken.
  abbrev signed_out : Stores → Stores
  signed_out s = record s {
    sessions = (revoke_by_user_id_except id uuid_nil now s.sessions).1;
    refresh = revoke_tokens (revoke_loop id uuid_nil now s.sessions.sessions).1 now s.refresh;
    resets = (drop_links h id now s.resets).1;
  }

  delete_user-stages : (s : Stores) → delete_user h id now s ≡ delete_account id (signed_out s)
  unfolding delete_user after_sessions after_tokens revoke_by_user_id_except drop_links
      invalidate_for_user
  delete_user-stages s =
      let loop =
        revoke_each_lem (revoke_loop id uuid_nil now s.sessions.sessions).1 now s.refresh in
      elim (Bool-cases h.resets_set) [
        | inl wired ↦ rw (loop, wired) refl
        | inr bare ↦ rw (loop, bare) refl
      ]

-- A deletion of an account revokes each of its live sessions, with the refresh tokens issued in them,
-- whatever its answer; and one that is answered leaves no account and no password hash under the id.
pub delete_user_ends :
    (h : Api) (id : String) (now : Time) (s : Stores)
    → SignedOutElsewhere id uuid_nil now s (delete_user h id now s).1
      × ((s' : Stores) (x : Unit {0})
          → delete_user h id now s ≡ (reply x, s')
          → (lookup id s'.users.users ≡ none) × (lookup id s'.users.hashes ≡ none))
delete_user_ends h id now s =
    let stages = delete_user-stages h id now s in
    let (sessions, refresh) = delete_account-kept h id now (signed_out h id now s) in
    (
      revoked-SignedOut id uuid_nil now s (delete_user h id now s).1
          (ap (λ (y : Done). y.1.sessions) stages ∙ sessions)
          (ap (λ (y : Done). y.1.refresh) stages ∙ refresh),
      λ s' x e. delete_account-gone h id now (signed_out h id now s) s' x (sym stages ∙ e),
    )

revoke_all_lem :
    (ids : List Uuid) (now : Time) (tokens : RefreshTokenStore)
    → revoke_all ids now tokens ≡ (false, revoke_tokens ids now tokens)
unfolding revoke_all revoke_tokens revoke_by_session_id
revoke_all_lem [] now tokens = refl
revoke_all_lem (id ∷ ids) now tokens =
    rw (revoke_all_lem ids now (revoke_by_session_id id now tokens).1) refl

module _ (h : Api) (r : SetPassword) (m : SetMoment) (id : String) where
  clean_up-Out : (s : Stores) → SignedOutElsewhere id uuid_nil m.now s (clean_up h r m id s).1
  unfolding clean_up revoke_by_user_id_except
  clean_up-Out s = revoked-SignedOut id uuid_nil m.now s (clean_up h r m id s).1 refl (
      ap (λ x. x.1)
        (revoke_all_lem (revoke_loop id uuid_nil m.now s.sessions.sessions).1 m.now s.refresh))

  clean_up-hashes : (s : Stores) → (clean_up h r m id s).1.users.hashes ≡ s.users.hashes
  unfolding clean_up rotate_stamp Users.find_user_by_id
  clean_up-hashes s = elim (Option-cases (lookup id s.users.users)) [
    | inl missing ↦ ground (arith, missing)
    | inr (u, known) ↦ ground (
      arith,
      known,
      update_user-hashes (record u { security_stamp = m.stamp; updated_at = m.now }) s.users,
    )
  ]

  settle-done :
      (x : UserResult) (s s' : Stores) (n : ℕ)
      → settle h r m id x s ≡ (reply n, s')
      → (x ≡ done) × (s' ≡ (clean_up h r m id s).1)
  unfolding settle
  settle-done (failed y) s s' n e = absurd (ground (arith, e))
  settle-done done s s' n e = (refl, ap (λ z. z.1) (sym e))

-- An administrator's new password that is answered fits the policy, and its hash is the stored one of the
-- account afterwards; and each live session of the account is revoked, with the refresh tokens issued in
-- it.
pub set_user_password_ends :
    (h : Api) (id : String) (r : SetPassword) (m : SetMoment) (s s' : Stores) (n : ℕ)
    → set_user_password h id r m s ≡ (reply n, s')
    → (password : String) × (set_present r ≡ pass password)
      × ((hash : String) × (h.bcrypt.generate password ≡ some hash)
          × (lookup id s'.users.hashes ≡ some hash))
      × SignedOutElsewhere id uuid_nil m.now s s'
unfolding set_user_password
set_user_password_ends h id r m s s' n e =
    let set : String → UserResult × UserStore =
      λ password. set_password h.bcrypt id password s.users in
    let (password, fine, e1) =
      finish_at-reply s (set_present r)
        (λ password. settle h r m id (set password).0 (record s { users = (set password).1 })) n s'
        e in
    let s1 : Stores = record s { users = (set password).1 } in
    let (changed, after) = settle-done h r m id (set password).0 s1 s' n e1 in
    let (hash, made, kept) = set_password-hash h.bcrypt id password s.users changed in
    (
      password,
      fine,
      (
        hash,
        made,
        ap (λ (y : Stores). lookup id y.users.hashes) after
            ∙ ap (lookup id) (clean_up-hashes h r m id s1)
            ∙ kept,
      ),
      SignedOut-from id uuid_nil m.now s1 s s' refl refl
          (subst (SignedOutElsewhere id uuid_nil m.now s1) (sym after) (clean_up-Out h r m id s1)),
    )
