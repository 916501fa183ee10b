-- ===== src/Oidc/ResetPassword/Outcome/Sessions.antt =====
-- The sessions and refresh tokens that a reset ends.
use authserver_go.Base.{
  ◌≤◌, ◌<◌, String, ◌≡◌, ◌≢◌, refl, ◌∙◌, ap, sym, true, false, none, some, List, [], ◌∷◌, ◌==◌,
  string_eq, nat_eq, eq_iff, arith, is_some, Bool-cases, inl, inr, some_inj, map_some, beq_refl,
  contains, nat_beq_iff,
}
use authserver_go.Domain.Time.{Time, Uuid, uuid_nil}
use authserver_go.Domain.Entities.{PasswordResetToken, RefreshToken, Session}
use authserver_go.Store.PasswordResets.{first_with}
use authserver_go.Store.RefreshTokens.{
  RefreshTokenStore, revoke_by_session_id, revoke_in, in_session,
}
use authserver_go.Store.RefreshTokens.Laws
use authserver_go.Store.Sessions.{skipped, revoke_loop, revoke_by_user_id_except}
use authserver_go.Store.Sessions.Laws.{
  row, ended, OneEach, names_revoked, skipped_unnamed, row-revoke_by_user_id_except,
}
use authserver_go.Token.Crypto.{hash_token}
use authserver_go.Oidc.Http.{reply}
use authserver_go.Oidc.Stores.{Stores}
use authserver_go.Oidc.ResetPassword.{
  ResetPassword, ResetRequest, ResetMoment, ResetBody, clean_up, revoke_tokens, handle,
}
use authserver_go.Oidc.ResetPassword.Outcome.{handle-Answered, lookup_token-found}

revoke_in_stays :
    (id : Uuid) (now : Time) (u : RefreshToken)
    → is_some u.revoked_at ≡ true
    → revoke_in id now u ≡ u
unfolding revoke_in
revoke_in_stays id now u gone = ground (arith, gone)

revoke_in_revokes :
    (id : Uuid) (now : Time) (u : RefreshToken)
    → u.session_id ≡ some id
    → is_some (revoke_in id now u).revoked_at ≡ true
unfolding revoke_in in_session
revoke_in_revokes id now u own = ground (arith, own, beq_refl id)

revoke_in-session :
    (id : Uuid) (now : Time) (u : RefreshToken) → (revoke_in id now u).session_id ≡ u.session_id
unfolding revoke_in
revoke_in-session id now u = ground arith

revoke_in_other :
    (i id : Uuid) (now : Time) (u : RefreshToken)
    → u.session_id ≡ some id
    → (i == id) ≡ false
    → revoke_in i now u ≡ u
unfolding revoke_in in_session
revoke_in_other i id now u own apart =
    ground (arith, own, apart, nat_beq_iff i id, nat_beq_iff id i)

-- The row of a token after one RevokeBySessionID.
revoked_once :
    (i : Uuid) (now : Time) (tokens : RefreshTokenStore) (j : Uuid) (u : RefreshToken)
    → Laws.row tokens j ≡ some u
    → Laws.row (revoke_by_session_id i now tokens).1 j ≡ some (revoke_in i now u)
revoked_once i now tokens j u e =
    Laws.row-revoke_by_session_id tokens i now j ∙ ap (map_some (revoke_in i now)) e

-- A token that is revoked stays revoked through the loop.
stays_revoked :
    (ids : List Uuid) (now : Time) (tokens : RefreshTokenStore) (j : Uuid) (u : RefreshToken)
    → Laws.row tokens j ≡ some u
    → is_some u.revoked_at ≡ true
    → Laws.row (revoke_tokens ids now tokens) j ≡ some u
unfolding revoke_tokens
stays_revoked [] now tokens j u e gone = e
stays_revoked (id ∷ ids) now tokens j u e gone =
    stays_revoked ids now (revoke_by_session_id id now tokens).1 j u
      (revoked_once id now tokens j u e ∙ ap some (revoke_in_stays id now u gone)) gone

pub revoke_tokens-member :
    (ids : List Uuid) (now : Time) (tokens : RefreshTokenStore) (j id : Uuid) (u : RefreshToken)
    → contains ids id ≡ true
    → Laws.row tokens j ≡ some u
    → u.session_id ≡ some id
    → (v : RefreshToken) × (Laws.row (revoke_tokens ids now tokens) j ≡ some v)
      × (is_some v.revoked_at ≡ true)
unfolding revoke_tokens
revoke_tokens-member [] now tokens j id u c e own = absurd (cc c)
revoke_tokens-member (i ∷ ids) now tokens j id u c e own =
    let v : RefreshToken = revoke_in i now u in
    let at = revoked_once i now tokens j u e in
    elim (Bool-cases (i == id)) [
      | inl same ↦
          let gone = revoke_in_revokes i now u (own ∙ ap some (sym ((nat_beq_iff i id).0 same))) in
          (v, stays_revoked ids now (revoke_by_session_id i now tokens).1 j v at gone, gone)
      | inr differs ↦
          revoke_tokens-member ids now (revoke_by_session_id i now tokens).1 j id v
            (ground (arith, c, differs)) at (revoke_in-session i now u ∙ own)
    ]

revoke_tokens-other :
    (ids : List Uuid) (now : Time) (tokens : RefreshTokenStore) (j id : Uuid) (u : RefreshToken)
    → contains ids id ≡ false
    → Laws.row tokens j ≡ some u
    → u.session_id ≡ some id
    → Laws.row (revoke_tokens ids now tokens) j ≡ some u
unfolding revoke_tokens
revoke_tokens-other [] now tokens j id u c e own = e
revoke_tokens-other (i ∷ ids) now tokens j id u c e own =
    let apart : (i == id) ≡ false = ground (arith, c) in
    revoke_tokens-other ids now (revoke_by_session_id i now tokens).1 j id u (ground (arith, c))
      (revoked_once i now tokens j u e ∙ ap some (revoke_in_other i id now u own apart)) own

-- A session that the reset of a user's password ends at `now`.
pub record IsLive (user : String) (now : Time) (id : Uuid) (x : Session) : Type 0 where
  pub owned : x.user_id ≡ user
  pub not_nil : id ≢ uuid_nil
  pub not_revoked : x.revoked_at ≡ none
  pub not_expired : now < x.expires_at

IsLive-skipped :
    (user : String) (now : Time) (id : Uuid) (x : Session)
    → IsLive user now id x
    → skipped user uuid_nil now id x ≡ false
unfolding skipped
IsLive-skipped user now id x l = ground (
  arith,
  eq_iff x.user_id user,
  nat_beq_iff id 0,
  l.owned,
  l.not_nil,
  l.not_revoked,
  l.not_expired,
)

expired-skipped :
    (user : String) (now : Time) (id : Uuid) (x : Session)
    → x.expires_at ≤ now
    → skipped user uuid_nil now id x ≡ true
unfolding skipped
expired-skipped user now id x e = ground (arith, e)

module _ (h : ResetPassword) (r : ResetRequest) (m : ResetMoment) (s : Stores) (answer : String)
    (s' : Stores) (body : ResetBody) (t : PasswordResetToken) where
  -- The stores of sessions and refresh tokens that are left.
  ended_stores :
      handle h r m s ≡ (reply answer, s')
      → r.body ≡ some body
      → first_with (hash_token h.crypto body.token) s.resets.tokens ≡ some t
      → (s'.sessions ≡ (revoke_by_user_id_except t.user_id uuid_nil m.now s.sessions).1)
        × (s'.refresh
            ≡ revoke_tokens
                (revoke_loop t.user_id uuid_nil m.now s.sessions.sessions).1
                m.now
                s.refresh)
  unfolding clean_up revoke_by_user_id_except
  ended_stores e b f =
      let (x, t', w) = handle-Answered h r m s answer s' e in
      let (found, _, _) =
        lookup_token-found h s.resets x.token m.looked_again t' w.presented.found in
      let same : t' ≡ t = some_inj t' t (
        sym found
        ∙ ap (λ (y : ResetBody). first_with (hash_token h.crypto y.token) s.resets.tokens)
            (some_inj x body (sym w.presented.decoded ∙ b))
        ∙ f) in
      (
        ap (λ (y : Stores). y.sessions) w.left
            ∙ ap
                (λ (y : PasswordResetToken).
                  (revoke_by_user_id_except y.user_id uuid_nil m.now s.sessions).1)
                same,
        ap (λ (y : Stores). y.refresh) w.left
            ∙ ap
                (λ (y : PasswordResetToken).
                  revoke_tokens (revoke_loop y.user_id uuid_nil m.now s.sessions.sessions).1 m.now
                    s.refresh)
                same,
      )

  -- A reset that is answered ends every live session of the user whom the link names: the session is
  -- revoked at the time of the reset, and so is each stored refresh token that was issued in it.
  pub reset_ends_sessions :
      (id : Uuid) (x : Session)
      → handle h r m s ≡ (reply answer, s')
      → r.body ≡ some body
      → first_with (hash_token h.crypto body.token) s.resets.tokens ≡ some t
      → row s.sessions id ≡ some x
      → IsLive t.user_id m.now id x
      → (row s'.sessions id ≡ some (record x { revoked_at = some m.now }))
        × ((j : Uuid) (u : RefreshToken)
            → Laws.row s.refresh j ≡ some u
            → u.session_id ≡ some id
            → (v : RefreshToken) × (Laws.row s'.refresh j ≡ some v) × (is_some v.revoked_at ≡ true))
  reset_ends_sessions id x e b f at live =
      let (sessions, refresh) = ended_stores e b f in
      let taken = IsLive-skipped t.user_id m.now id x live in
      (
        ap (λ y. row y id) sessions
            ∙ row-revoke_by_user_id_except t.user_id uuid_nil m.now s.sessions id
            ∙ ap (map_some (ended t.user_id uuid_nil m.now id)) at
            ∙ ap some (rw taken refl),
        λ j u tok own.
            let (v, at', gone) =
              revoke_tokens-member (revoke_loop t.user_id uuid_nil m.now s.sessions.sessions).1
                m.now s.refresh j id u
                (names_revoked t.user_id uuid_nil m.now id s.sessions.sessions x at taken) tok
                own in
            (v, ap (λ y. Laws.row y j) refresh ∙ at', gone),
      )

  -- But the refresh tokens of a session that has expired by the time of the reset are left as they
  -- were, whatever is left of their own lifetime. There is one session under each key.
  pub reset_spares_expired :
      (id j : Uuid) (x : Session) (u : RefreshToken)
      → OneEach s.sessions.sessions
      → handle h r m s ≡ (reply answer, s')
      → r.body ≡ some body
      → first_with (hash_token h.crypto body.token) s.resets.tokens ≡ some t
      → row s.sessions id ≡ some x
      → x.expires_at ≤ m.now
      → Laws.row s.refresh j ≡ some u
      → u.session_id ≡ some id
      → Laws.row s'.refresh j ≡ some u
  reset_spares_expired id j x u k e b f at expired tok own =
      let (_, refresh) = ended_stores e b f in
      ap (λ y. Laws.row y j) refresh
      ∙ revoke_tokens-other (revoke_loop t.user_id uuid_nil m.now s.sessions.sessions).1 m.now
          s.refresh j id u
          (skipped_unnamed t.user_id uuid_nil m.now id s.sessions.sessions x k at
            (expired-skipped t.user_id m.now id x expired))
          tok own
