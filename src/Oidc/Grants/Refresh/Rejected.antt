-- ===== src/Oidc/Grants/Refresh/Rejected.antt =====
-- A refresh token that is presented again: the answer, and the revocation of its session's tokens.
use authserver_go.Base.{
  ◌≡◌, ◌≢◌, refl, ◌∙◌, ap, true, false, Option, none, some, string_eq, nat_eq, arith, is_some, sym,
  beq_refl, map_some,
}
use authserver_go.Base.Assoc.{lookup}
use authserver_go.Domain.Time.{Time, Uuid}
use authserver_go.Domain.Entities.{RefreshToken}
use authserver_go.Domain.Client.{Client}
use authserver_go.Store.Error.{ok, ok_inj}
use authserver_go.Store.RefreshTokens.{RefreshTokenStore, find_by_hash, mark_consumed, revoke_in}
use authserver_go.Store.RefreshTokens.Laws.{
  row, IsIndexed, mark_consumed_again, find_by_hash-row, find_by_hash-index, find_by_hash_at,
  row-revoke_by_session_id,
}
use authserver_go.Token.Crypto.{hash_token}
use authserver_go.Oidc.Http.{reply, fail, bad_request}
use authserver_go.Oidc.Stores.{Stores}
use authserver_go.Oidc.Grants.{TokenResponse}
use authserver_go.Oidc.Grants.Refresh.{
  RefreshGrant, RefreshForm, Draws, Minted, revoke_chain, handle_reuse, handle,
}
use authserver_go.Oidc.Grants.Refresh.Outcome.{
  Presented, Presented-present, Answered, handle-Answered,
}
use authserver_go.Oidc.Grants.Refresh.Success.{redeemed-row, apart, kept-index}

revoke_chain-row :
    (t : RefreshToken) (session id : Uuid) (now : Time) (tokens : RefreshTokenStore)
    → t.session_id ≡ some session
    → row (revoke_chain t now tokens) id ≡ map_some (revoke_in session now) (row tokens id)
unfolding revoke_chain
revoke_chain-row t session id now tokens e =
    rw (e, revoke_chain) (row-revoke_by_session_id tokens session now id)

revoke_in_revokes :
    (session : Uuid) (now : Time) (u : RefreshToken)
    → u.session_id ≡ some session
    → is_some (revoke_in session now u).revoked_at ≡ true
unfolding revoke_in
revoke_in_revokes session now u e = ground (arith, e, beq_refl session)

module _ (g : RefreshGrant) (a : Option Client) (form : RefreshForm) (draws : Draws) (now : Time)
    (s : Stores) (c : Client) (t : RefreshToken) (used : Time) where
  -- A consumed token that meets the other checks goes to handleReuse.
  handle-reuse :
      IsIndexed s.refresh
      → Presented g a form now s.refresh c t
      → t.consumed_at ≡ some used
      → g.detect_reuse ≡ true
      → handle g a form draws now s ≡ handle_reuse g t now draws.audit_id s
  unfolding handle
  handle-reuse v p consumed detect =
      let e : row s.refresh t.id ≡ some t =
        find_by_hash-row s.refresh (hash_token g.crypto form.refresh_token) t v p.found in
      rw (
        Presented-present g a form now s.refresh c t p,
        mark_consumed_again s.refresh t.id now used t e consumed,
        detect,
      )

  -- When a token that was already consumed is presented by its client, within its expiries and not
  -- revoked, and reuse detection is on, the request is refused with invalid_grant, and every stored
  -- token of the same session is revoked afterwards. The store is indexed before.
  pub reuse_revokes_session :
      (session id : Uuid) (u : RefreshToken)
      → IsIndexed s.refresh
      → Presented g a form now s.refresh c t
      → t.consumed_at ≡ some used
      → g.detect_reuse ≡ true
      → t.session_id ≡ some session
      → row s.refresh id ≡ some u
      → u.session_id ≡ some session
      → ((handle g a form draws now s).0
          ≡ fail bad_request "invalid_grant" "refresh token reuse detected")
        × (r : RefreshToken) × (row (handle g a form draws now s).1.refresh id ≡ some r)
        × (is_some r.revoked_at ≡ true)
  unfolding handle_reuse
  reuse_revokes_session session id u v p consumed detect in_s e u_s =
      let reused = handle-reuse v p consumed detect in
      (
        ap (λ r. r.0) reused,
        revoke_in session now u,
        ap (λ r. row r.1.refresh id) reused
            ∙ revoke_chain-row t session id now s.refresh in_s
            ∙ ap (map_some (revoke_in session now)) e,
        revoke_in_revokes session now u u_s,
      )

module _ (g : RefreshGrant) (form form' : RefreshForm) (a b : Option Client) (draws draws' : Draws)
    (now later : Time) (s : Stores) (resp resp' : TokenResponse) (s' s'' : Stores) where
  -- Once a refresh request has been answered, no request with the same refresh token is answered in
  -- the state that the first request left: whatever else its form says, whichever client it comes
  -- from, and whenever. The store was indexed, the id of the first rotation was new, and the hash of
  -- the token it handed out is not that of the presented one.
  pub refresh_token_single_use :
      IsIndexed s.refresh
      → row s.refresh draws.token_id ≡ none
      → hash_token g.crypto resp.refresh_token ≢ hash_token g.crypto form.refresh_token
      → handle g a form draws now s ≡ (reply resp, s')
      → form'.refresh_token ≡ form.refresh_token
      → handle g b form' draws' later s' ≢ (reply resp', s'')
  refresh_token_single_use v new ne h presents h' =
      let (c, t, m, w) = handle-Answered g a form draws now s resp s' h in
      let e : row s.refresh t.id ≡ some t =
        find_by_hash-row s.refresh (hash_token g.crypto form.refresh_token) t v w.presented.found in
      let gone : row s'.refresh t.id ≡ some (record t { consumed_at = some now }) =
        redeemed-row g a form draws now s resp s' c t m w e
          (λ q. apart g a form draws now s resp s' t new e q) in
      let index : lookup (hash_token g.crypto form.refresh_token) s'.refresh.by_hash ≡ some t.id =
        kept-index g a form draws now s resp s' c t m w ne
        ∙ find_by_hash-index s.refresh (hash_token g.crypto form.refresh_token) t v
            w.presented.found in
      let (c', t', m', w') = handle-Answered g b form' draws' later s' resp' s'' h' in
      let same : ok t' ≡ ok (record t { consumed_at = some now }) =
        sym w'.presented.found
        ∙ ap (λ raw. find_by_hash s'.refresh (hash_token g.crypto raw)) presents
        ∙ find_by_hash_at s'.refresh (hash_token g.crypto form.refresh_token) t.id
            (record t { consumed_at = some now }) index gone in
      lost c' t t' m' w' (ok_inj t' (record t { consumed_at = some now }) same) gone
    where
      lost :
          (c' : Client) (t t' : RefreshToken) (m' : Minted)
          → Answered g b form' draws' later s' resp' s'' c' t' m'
          → t' ≡ record t { consumed_at = some now }
          → row s'.refresh t.id ≡ some (record t { consumed_at = some now })
          → ⊥
      lost c' t t' m' w' same gone =
          let id : t'.id ≡ t.id = ap (λ (x : RefreshToken). x.id) same in
          let at : mark_consumed t'.id later s'.refresh ≡ (ok false, s'.refresh) =
            mark_consumed_again s'.refresh t'.id later now (record t { consumed_at = some now })
              (ap (row s'.refresh) id ∙ gone) refl in
          cc (sym w'.won ∙ ap (λ r. r.0) at)
