-- ===== src/Oidc/Revoke/Outcome.antt =====
-- What a revocation leaves.
use authserver_go.Base.{
  String, ◌≡◌, ◌≢◌, ◌∙◌, refl, ap, true, some, string_eq, nat_eq, arith, eq_iff, is_some, map_some,
  beq_refl,
}
use authserver_go.Domain.Time.{Time, Uuid}
use authserver_go.Domain.Entities.{RefreshToken}
use authserver_go.Domain.Client.{Client}
use authserver_go.Store.Error.{Result, ok, err}
use authserver_go.Store.RefreshTokens.{find_by_hash, revoke_by_session_id, revoke_in, in_session}
use authserver_go.Store.RefreshTokens.Laws.{row, row-revoke_by_session_id}
use authserver_go.Token.Crypto.{hash_token}
use authserver_go.Oidc.Http.{reply}
use authserver_go.Oidc.Stores.{Stores}
use authserver_go.Oidc.Revoke.{RevokeHandler, revoke_own, revoke_found, serve_client}

-- When the token that an authenticated client names is unknown, or belongs to another client, the
-- answer is 200 all the same, and every store is left as it was.
pub revoke_foreign_unchanged :
    (h : RevokeHandler) (client : Client) (raw : String) (now : Time) (s : Stores)
    (r : Result RefreshToken)
    → find_by_hash s.refresh (hash_token h.crypto raw) ≡ r
    → ((t : RefreshToken) → r ≡ ok t → t.client_id ≢ client.client_id)
    → serve_client h client raw now s ≡ (reply tt, s)
unfolding serve_client revoke_found
revoke_foreign_unchanged h client raw now s (err e) q foreign =
    rw (q, serve_client, revoke_found) refl
revoke_foreign_unchanged h client raw now s (ok t) q foreign =
    ground (arith, q, foreign t refl, eq_iff t.client_id client.client_id)

-- When a client revokes a refresh token of its own that belongs to a session, every stored token of
-- that session is revoked afterwards, those of other clients in the session included.
pub revoke_ends_session :
    (h : RevokeHandler) (client : Client) (raw : String) (now : Time) (s : Stores)
    (t u : RefreshToken) (session id : Uuid)
    → find_by_hash s.refresh (hash_token h.crypto raw) ≡ ok t
    → t.client_id ≡ client.client_id
    → t.session_id ≡ some session
    → row s.refresh id ≡ some u
    → u.session_id ≡ some session
    → (v : RefreshToken) × (row (serve_client h client raw now s).1.refresh id ≡ some v)
      × (is_some v.revoked_at ≡ true)
unfolding serve_client
revoke_ends_session h client raw now s t u session id found own in_s e u_s = (
  revoke_in session now u,
  rw (found, serve_client)
      (ap (λ x. row x id) owned
        ∙ row-revoke_by_session_id s.refresh session now id
        ∙ ap (map_some (revoke_in session now)) e),
  revoked u u_s,
)
  where
    owned :
        revoke_found client (ok t) now s.refresh ≡ (revoke_by_session_id session now s.refresh).1
    owned =
        unfold revoke_found in
        unfold revoke_own in ground (arith, own, in_s, eq_iff t.client_id client.client_id)

    revoked :
        (u : RefreshToken)
        → u.session_id ≡ some session
        → is_some (revoke_in session now u).revoked_at ≡ true
    revoked u p = unfold revoke_in in unfold in_session in ground (arith, p, beq_refl session)
