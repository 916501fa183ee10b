-- ===== src/Oidc/Grants/Refresh/Outcome.antt =====
-- What an answered refresh request has gone through, and what it leaves in the store.
use authserver_go.Base.{
  ◌≤◌, ◌≡◌, refl, Bool, true, false, ◌||◌, Option, none, some, ◌==◌, string_eq, nat_eq, eq_iff,
  arith,
}
use authserver_go.Domain.Time.{Time}
use authserver_go.Domain.Entities.{RefreshToken}
use authserver_go.Domain.Client.{Client}
use authserver_go.Store.Error.{Result, ok, err}
use authserver_go.Store.RefreshTokens.{RefreshTokenStore, find_by_hash, mark_consumed}
use authserver_go.Token.Crypto.{hash_token}
use authserver_go.Oidc.Http.{reply, pass, finish_at-reply}
use authserver_go.Oidc.Stores.{Stores}
use authserver_go.Oidc.Grants.{TokenResponse}
use authserver_go.Oidc.Grants.Refresh.{
  RefreshGrant, RefreshForm, Draws, Minted, present, mint, deliver, redeem, handle_reuse, handle,
}

-- The checks that stand before MarkConsumed, as a predicate.
pub record Presented (g : RefreshGrant) (authenticated : Option Client) (form : RefreshForm)
    (now : Time) (tokens : RefreshTokenStore) (c : Client) (t : RefreshToken) : Type 0 where
  pub complete : (form.refresh_token == "" || form.client_id == "") ≡ false
  pub client : authenticated ≡ some c
  pub named : c.client_id ≡ form.client_id
  pub found : find_by_hash tokens (hash_token g.crypto form.refresh_token) ≡ ok t
  pub owned : t.client_id ≡ c.client_id
  pub not_revoked : t.revoked_at ≡ none
  pub within_absolute : now ≤ t.absolute_expires_at
  pub within_sliding : now ≤ t.expires_at

present-Presented :
    (g : RefreshGrant) (a : Option Client) (form : RefreshForm) (now : Time)
    (tokens : RefreshTokenStore) (c : Client) (t : RefreshToken)
    → present g a form now tokens ≡ pass (c, t)
    → Presented g a form now tokens c t
unfolding present
present-Presented g none form now tokens c t h = absurd (ground arith)
present-Presented g (some x) form now tokens c t h =
    go (find_by_hash tokens (hash_token g.crypto form.refresh_token)) refl
  where
    go :
        (r : Result RefreshToken)
        → find_by_hash tokens (hash_token g.crypto form.refresh_token) ≡ r
        → Presented g (some x) form now tokens c t
    go (err e) p = absurd (ground (arith, p))
    go (ok y) p =
        ground (arith, p, eq_iff x.client_id form.client_id, eq_iff y.client_id x.client_id)

-- A token that meets them passes.
pub Presented-present :
    (g : RefreshGrant) (a : Option Client) (form : RefreshForm) (now : Time)
    (tokens : RefreshTokenStore) (c : Client) (t : RefreshToken)
    → Presented g a form now tokens c t
    → present g a form now tokens ≡ pass (c, t)
unfolding present
Presented-present g none form now tokens c t p = absurd (ground (arith, p.client))
Presented-present g (some x) form now tokens c t p = ground (
  arith,
  p.complete,
  p.client,
  p.named,
  p.found,
  p.owned,
  p.not_revoked,
  p.within_absolute,
  p.within_sliding,
  eq_iff x.client_id form.client_id,
  eq_iff t.client_id x.client_id,
)

-- Down to where a request that is answered has come.
pub record Answered (g : RefreshGrant) (authenticated : Option Client) (form : RefreshForm)
    (draws : Draws) (now : Time) (s : Stores) (resp : TokenResponse) (s' : Stores) (c : Client)
    (t : RefreshToken) (m : Minted) : Type 0 where
  pub presented : Presented g authenticated form now s.refresh c t
  pub won : (mark_consumed t.id now s.refresh).0 ≡ ok true
  pub minted :
      mint g c t form draws now (record s { refresh = (mark_consumed t.id now s.refresh).1 })
      ≡ pass m
  pub delivered :
      deliver m (record s { refresh = (mark_consumed t.id now s.refresh).1 }) ≡ (reply resp, s')

redeem-reply :
    (g : RefreshGrant) (c : Client) (t : RefreshToken) (form : RefreshForm) (draws : Draws)
    (now : Time) (r : Result Bool) (s : Stores) (resp : TokenResponse) (s' : Stores)
    → redeem g c t form draws now r s ≡ (reply resp, s')
    → (r ≡ ok true)
      × (m : Minted) × (mint g c t form draws now s ≡ pass m)
      × (deliver m s ≡ (reply resp, s'))
unfolding redeem
redeem-reply g c t form draws now (err e) s resp s' h = absurd (cc)
redeem-reply g c t form draws now (ok false) s resp s' h =
    absurd (unfold handle_reuse in ground arith)
redeem-reply g c t form draws now (ok true) s resp s' h =
    let (m, p, q) = finish_at-reply s (mint g c t form draws now s) (λ m. deliver m s) resp s' h in
    (refl, m, p, q)

-- A request that is answered has come all the way.
pub handle-Answered :
    (g : RefreshGrant) (a : Option Client) (form : RefreshForm) (draws : Draws) (now : Time)
    (s : Stores) (resp : TokenResponse) (s' : Stores)
    → handle g a form draws now s ≡ (reply resp, s')
    → (c : Client) × (t : RefreshToken) × (m : Minted) × Answered g a form draws now s resp s' c t m
unfolding handle
handle-Answered g a form draws now s resp s' h =
    let (found, p, k) = finish_at-reply s (present g a form now s.refresh) _ resp s' h in
    let (c, t) = found in
    let (won, m, q, d) = redeem-reply g c t form draws now _ _ resp s' k in
    (
      c,
      t,
      m,
      record {
        presented = present-Presented g a form now s.refresh c t p;
        won = won;
        minted = q;
        delivered = d;
      },
    )
