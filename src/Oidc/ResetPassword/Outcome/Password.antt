-- ===== src/Oidc/ResetPassword/Outcome/Password.antt =====
-- The password that a reset sets, and the single use of its link.
use authserver_go.Base.{
  ◌<◌, String, ◌≡◌, ◌≢◌, refl, ◌∙◌, ap, sym, false, none, some, ◌==◌, string_eq, nat_eq, arith,
  Option-cases, Bool-cases, inl, inr, some_inj, map_some,
}
use authserver_go.Base.Assoc.{lookup, insert, lookup-insert, lookup-insert_self}
use authserver_go.Domain.Time.{Time, Uuid}
use authserver_go.Domain.Entities.{PasswordResetToken}
use authserver_go.Store.Error.{ok}
use authserver_go.Store.PasswordResets.{
  PasswordResetStore, first_with, consume, invalidate, invalidate_for_user,
}
use authserver_go.Store.PasswordResets.Laws.{row, tokens-consume_won, invalidated_not_consumed}
use authserver_go.Store.PasswordResets.Keyed.{
  Keyed, first_with-lookup, first_with-insert, first_with-update_all,
}
use authserver_go.Store.Users.{Bcrypt, UserStore, done, set_password, update_user, find_user_by_id}
use authserver_go.Token.Crypto.{hash_token}
use authserver_go.Oidc.Http.{reply}
use authserver_go.Oidc.Stores.{Stores}
use authserver_go.Oidc.ResetPassword.{
  ResetPassword, ResetRequest, ResetMoment, ResetBody, clean_up, rotate_stamp, handle,
}
use authserver_go.Oidc.ResetPassword.Outcome.{
  Presented, Answered, handle-Answered, lookup_token-found,
}

set_password-hash :
    (b : Bcrypt) (user_id password : String) (users : UserStore)
    → (set_password b user_id password users).0 ≡ done
    → lookup user_id (set_password b user_id password users).1.hashes ≡ b.generate password
unfolding set_password
set_password-hash b user_id password users e = elim (Option-cases (b.generate password)) [
  | inl n ↦ absurd (ground (arith, e, n))
  | inr (hash, g) ↦ ground (arith, e, g, lookup-insert_self user_id hash users.hashes)
]

rotate_stamp-hashes :
    (user_id stamp : String) (now : Time) (users : UserStore)
    → (rotate_stamp user_id stamp now users).hashes ≡ users.hashes
unfolding rotate_stamp update_user find_user_by_id
rotate_stamp-hashes user_id stamp now users = ground arith

invalidate-hash :
    (user : String) (now : Time) (t : PasswordResetToken)
    → (invalidate user now t).token_hash ≡ t.token_hash
unfolding invalidate
invalidate-hash user now t = ground arith

module _ (h : ResetPassword) (r : ResetRequest) (m : ResetMoment) (s : Stores) (answer : String)
    (s' : Stores) where
  resets_left :
      (body : ResetBody) (t : PasswordResetToken)
      → Answered h r m s answer s' body t
      → s'.resets ≡ (invalidate_for_user t.user_id m.now (consume t.id m.now s.resets).1).1
  unfolding clean_up
  resets_left body t w = ap (λ (x : Stores). x.resets) w.left

  -- A reset that is answered came with a valid CSRF header and a decoded body, whose two passwords
  -- agree and meet the password policy, and whose token leads to a stored reset token that was
  -- neither used nor expired; and afterwards the hash kept for that token's user is the one that
  -- bcrypt generates from the new password.
  pub reset_redeems :
      handle h r m s ≡ (reply answer, s')
      → (body : ResetBody) × (t : PasswordResetToken) × Presented h r m s.resets body t
        × (first_with (hash_token h.crypto body.token) s.resets.tokens ≡ some t)
        × (t.consumed_at ≡ none)
        × (m.looked_again < t.expires_at)
        × (lookup t.user_id s'.users.hashes ≡ h.bcrypt.generate body.new_password)
  unfolding clean_up
  reset_redeems e =
      let (body, t, w) = handle-Answered h r m s answer s' e in
      let (found, unused, live) =
        lookup_token-found h s.resets body.token m.looked_again t w.presented.found in
      let users = (set_password h.bcrypt t.user_id body.new_password s.users).1 in
      (
        body,
        t,
        w.presented,
        found,
        unused,
        live,
        ap (λ (x : Stores). lookup t.user_id x.users.hashes) w.left
            ∙ ap (lookup t.user_id) (rotate_stamp-hashes t.user_id m.stamp m.now users)
            ∙ set_password-hash h.bcrypt t.user_id body.new_password s.users w.changed,
      )

  -- The row that the link leads to, and the rows that Consume leaves.
  looked_up :
      (body : ResetBody) (t : PasswordResetToken)
      → Keyed s.resets.tokens
      → Answered h r m s answer s' body t
      → (first_with (hash_token h.crypto body.token) s.resets.tokens ≡ some t)
        × (row s.resets t.id ≡ some t)
        × (t.token_hash ≡ hash_token h.crypto body.token)
        × ((consume t.id m.now s.resets).1.tokens
            ≡ insert t.id (record t { consumed_at = some m.now }) s.resets.tokens)
  looked_up body t k w =
      let (found, _, _) =
        lookup_token-found h s.resets body.token m.looked_again t w.presented.found in
      let (at, hash) =
        first_with-lookup (hash_token h.crypto body.token) t s.resets.tokens k found in
      (found, at, hash, tokens-consume_won s.resets t.id m.now t w.won at)

  spent :
      (body : ResetBody) (t : PasswordResetToken)
      → Keyed s.resets.tokens
      → Answered h r m s answer s' body t
      → first_with (hash_token h.crypto body.token) s'.resets.tokens
        ≡ some (invalidate t.user_id m.now (record t { consumed_at = some m.now }))
  unfolding invalidate_for_user
  spent body t k w =
      let hash : String = hash_token h.crypto body.token in
      let used : PasswordResetToken = record t { consumed_at = some m.now } in
      let (found, at, own, left) = looked_up body t k w in
      ap (λ (x : PasswordResetStore). first_with hash x.tokens) (resets_left body t w)
      ∙ first_with-update_all hash (invalidate t.user_id m.now)
          (consume t.id m.now s.resets).1.tokens (invalidate-hash t.user_id m.now)
      ∙ ap (λ x. map_some (invalidate t.user_id m.now) (first_with hash x)) left
      ∙ ap (map_some (invalidate t.user_id m.now))
          (first_with-insert hash t used s.resets.tokens k found own)

  -- Consume leaves each row with its user.
  still_owned :
      (body : ResetBody) (t u : PasswordResetToken) (id : Uuid)
      → Keyed s.resets.tokens
      → Answered h r m s answer s' body t
      → row s.resets id ≡ some u
      → u.user_id ≡ t.user_id
      → (v : PasswordResetToken) × (row (consume t.id m.now s.resets).1 id ≡ some v)
        × (v.user_id ≡ t.user_id)
  still_owned body t u id k w e own =
      let used : PasswordResetToken = record t { consumed_at = some m.now } in
      let (_, _, _, left) = looked_up body t k w in
      let at = ap (lookup id) left ∙ lookup-insert t.id id used s.resets.tokens in
      elim (Bool-cases (t.id == id)) [
        | inl same ↦ (used, at ∙ rw same, refl)
        | inr differs ↦ (u, at ∙ rw differs e, own)
      ]

  -- After a reset that is answered, no reset token of the same user can be consumed any more: not the
  -- one of this link, and not one that was sent before. The rows stand under their own ids.
  pub reset_invalidates_others :
      (body : ResetBody) (t u : PasswordResetToken) (id : Uuid) (later : Time)
      → Keyed s.resets.tokens
      → handle h r m s ≡ (reply answer, s')
      → r.body ≡ some body
      → first_with (hash_token h.crypto body.token) s.resets.tokens ≡ some t
      → row s.resets id ≡ some u
      → u.user_id ≡ t.user_id
      → (consume id later s'.resets).0 ≡ ok false
  reset_invalidates_others body t u id later k e b f at own =
      let (x, t', w) = handle-Answered h r m s answer s' e in
      let (found, _, _, _) = looked_up x t' k w in
      let same : t' ≡ t = some_inj t' t (
        sym found
        ∙ ap (λ (y : ResetBody). first_with (hash_token h.crypto y.token) s.resets.tokens)
            (some_inj x body (sym w.presented.decoded ∙ b))
        ∙ f) in
      let owner : t.user_id ≡ t'.user_id = ap (λ (y : PasswordResetToken). y.user_id) (sym same) in
      let (v, at', own') = still_owned x t' u id k w at (own ∙ owner) in
      ap (λ y. (consume id later y).0) (resets_left x t' w)
      ∙ invalidated_not_consumed (consume t'.id m.now s.resets).1 id m.now t'.user_id v later at'
          own'

invalidate-used :
    (user : String) (now : Time) (t : PasswordResetToken) (used : Time)
    → t.consumed_at ≡ some used
    → invalidate user now t ≡ t
unfolding invalidate
invalidate-used user now t used e = ground (arith, e)

module _ (h : ResetPassword) (r r' : ResetRequest) (m m' : ResetMoment) (s s' s'' : Stores)
    (answer answer' : String) where
  -- A reset link works once: after a reset that is answered, a request with the same token is not
  -- answered in the state that is left, whatever password it brings and whenever it comes. The rows
  -- stand under their own ids.
  pub reset_single_use :
      (body body' : ResetBody)
      → Keyed s.resets.tokens
      → handle h r m s ≡ (reply answer, s')
      → r.body ≡ some body
      → r'.body ≡ some body'
      → body'.token ≡ body.token
      → handle h r' m' s' ≢ (reply answer', s'')
  reset_single_use body body' k e b b' same e' =
      let (x, t, w) = handle-Answered h r m s answer s' e in
      let (x', t', w') = handle-Answered h r' m' s' answer' s'' e' in
      let (found, unused, _) =
        lookup_token-found h s'.resets x'.token m'.looked_again t' w'.presented.found in
      let used : PasswordResetToken = record t { consumed_at = some m.now } in
      let left = spent h r m s answer s' x t k w in
      let hash : hash_token h.crypto x'.token ≡ hash_token h.crypto x.token =
        cc (w.presented.decoded, w'.presented.decoded, b, b', same) in
      let gone : t' ≡ used = some_inj t' used (
        sym found
        ∙ ap (λ y. first_with y s'.resets.tokens) hash
        ∙ left
        ∙ ap some (invalidate-used t.user_id m.now used m.now refl)) in
      cc (sym unused ∙ ap (λ (y : PasswordResetToken). y.consumed_at) gone)
