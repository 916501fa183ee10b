-- ===== src/Oidc/SignedOut.antt =====
-- What RevokeByUserIDExcept and the loop over its answer leave of sessions and refresh tokens, for the
-- handlers that sign an account out.
use authserver_go.Base.{
  ◌<◌, String, ◌≡◌, ◌≢◌, refl, ap, ◌∙◌, true, false, Option, none, some, string_eq, nat_eq, eq_iff,
  nat_beq_iff, arith, is_some, map_some,
}
use authserver_go.Domain.Time.{Time, Uuid}
use authserver_go.Domain.Entities.{Session, RefreshToken}
use authserver_go.Store.RefreshTokens.Laws
use authserver_go.Store.Sessions.{skipped, revoke_loop, revoke_by_user_id_except}
use authserver_go.Store.Sessions.Laws.{row, ended, names_revoked, row-revoke_by_user_id_except}
use authserver_go.Oidc.Stores.{Stores}
use authserver_go.Oidc.ResetPassword.{revoke_tokens}
use authserver_go.Oidc.ResetPassword.Outcome.Sessions.{revoke_tokens-member}

module _ (user : String) (keep : Uuid) (now : Time) where
  -- A live session of a user other than the one to keep.
  pub record Elsewhere (id : Uuid) (x : Session) : Type 0 where
    pub owned : x.user_id ≡ user
    pub other : id ≢ keep
    pub not_revoked : x.revoked_at ≡ none
    pub not_expired : now < x.expires_at

  Elsewhere-taken : (id : Uuid) (x : Session) → Elsewhere id x → skipped user keep now id x ≡ false
  unfolding skipped
  Elsewhere-taken id x l = ground (
    arith,
    eq_iff x.user_id user,
    nat_beq_iff id keep,
    l.owned,
    l.other,
    l.not_revoked,
    l.not_expired,
  )

  keep-skipped : (x : Session) → skipped user keep now keep x ≡ true
  unfolding skipped
  keep-skipped x = ground (arith, nat_beq_iff keep keep)

  -- Each live session of the user but the one to keep is revoked, with the refresh tokens that were issued
  -- in it; the one to keep is as it was.
  pub record SignedOutElsewhere (s s' : Stores) : Type 0 where
    pub others :
        (id : Uuid) (x : Session)
        → row s.sessions id ≡ some x
        → Elsewhere id x
        → row s'.sessions id ≡ some (record x { revoked_at = some now })
    pub tokens :
        (id j : Uuid) (x : Session) (u : RefreshToken)
        → row s.sessions id ≡ some x
        → Elsewhere id x
        → Laws.row s.refresh j ≡ some u
        → u.session_id ≡ some id
        → (v : RefreshToken) × (Laws.row s'.refresh j ≡ some v) × (is_some v.revoked_at ≡ true)
    pub kept : row s'.sessions keep ≡ row s.sessions keep

  map_some-id :
      (f : Session → Session) (o : Option Session) → ((x : Session) → f x ≡ x) → map_some f o ≡ o
  map_some-id f none same = refl
  map_some-id f (some x) same = ap some (same x)

  -- With sessions and refresh tokens as the loops leave them.
  pub revoked-SignedOut :
      (s s' : Stores)
      → s'.sessions ≡ (revoke_by_user_id_except user keep now s.sessions).1
      → s'.refresh ≡ revoke_tokens (revoke_loop user keep now s.sessions.sessions).1 now s.refresh
      → SignedOutElsewhere s s'
  revoked-SignedOut s s' sessions refresh =
      let at : (id : Uuid)
          → row s'.sessions id ≡ map_some (ended user keep now id) (row s.sessions id) =
        λ id.
          ap (λ y. row y id) sessions ∙ row-revoke_by_user_id_except user keep now s.sessions id in
      record {
        others = λ id x e l.
            at id
            ∙ ap (map_some (ended user keep now id)) e
            ∙ ap some (rw (Elsewhere-taken id x l) refl);
        tokens = λ id j x u e l f of_session.
            let (v, at', gone) =
              revoke_tokens-member (revoke_loop user keep now s.sessions.sessions).1 now s.refresh j
                id u
                (names_revoked user keep now id s.sessions.sessions x e (Elsewhere-taken id x l)) f
                of_session in
            (v, ap (λ y. Laws.row y j) refresh ∙ at', gone);
        kept =
            at keep
            ∙ map_some-id (ended user keep now keep) (row s.sessions keep)
                (λ x. rw (keep-skipped x) refl);
      }

  pub SignedOut-from :
      (s1 s s' : Stores)
      → s1.sessions ≡ s.sessions
      → s1.refresh ≡ s.refresh
      → SignedOutElsewhere s1 s'
      → SignedOutElsewhere s s'
  SignedOut-from s1 s s' sessions refresh o = record {
    others = λ id x e l. o.others id x (ap (λ y. row y id) sessions ∙ e) l;
    tokens = λ id j x u e l f of_session.
        o.tokens id j x u (ap (λ y. row y id) sessions ∙ e) l (ap (λ y. Laws.row y j) refresh ∙ f)
          of_session;
    kept = o.kept ∙ ap (λ y. row y keep) sessions;
  }
