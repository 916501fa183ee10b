-- ===== src/Oidc/Grants/Refresh/Rotation.antt =====
-- The refresh token that a rotation stores.
use authserver_go.Base.{
  ◌≤◌, String, ◌≡◌, ◌∙◌, ap, true, false, ◌&&◌, ◌⊎◌, List, contains, Option, none, some, string_eq,
  nat_eq, arith, Option-cases, inl, inr, some_inj, sym, subst,
}
use authserver_go.Domain.Time.{Time, Uuid}
use authserver_go.Domain.Entities.{RefreshToken}
use authserver_go.Domain.Client.{Client, expiration_sliding}
use authserver_go.Store.Error.{ok, ok_inj}
use authserver_go.Store.RefreshTokens.{find_by_hash}
use authserver_go.Store.RefreshTokens.Laws.{row, IsIndexed, find_by_hash-row}
use authserver_go.Token.Crypto.{hash_token}
use authserver_go.Oidc.Http.{reply, pass}
use authserver_go.Oidc.Stores.{Stores}
use authserver_go.Oidc.Grants.{TokenResponse}
use authserver_go.Oidc.Grants.Refresh.{
  RefreshGrant, RefreshForm, Draws, Minted, handle, rotated, rotated_expiry, down_scope,
}
use authserver_go.Oidc.Grants.Refresh.Outcome.{Presented, Answered, handle-Answered}
use authserver_go.Oidc.Grants.Refresh.Success.{
  minted-row, unminted-row, minted-found, mint-MintedFrom, mint_refresh-cases, consumed_store,
  deliver-response,
}

-- What a rotation keeps of the presented token, and what it starts anew.
pub record Rotation (g : RefreshGrant) (c : Client) (t r : RefreshToken) (now : Time)
    (resp : TokenResponse) : Type 0 where
  pub client : r.client_id ≡ c.client_id
  pub user : r.user_id ≡ t.user_id
  pub session : r.session_id ≡ t.session_id
  pub parent : r.parent_token_id ≡ some t.id
  pub ceiling : r.absolute_expires_at ≡ t.absolute_expires_at
  pub unused : r.consumed_at ≡ none
  pub not_revoked : r.revoked_at ≡ none
  pub born : r.created_at ≡ now
  pub scope : r.scope ≡ resp.scope
  pub hash : r.token_hash ≡ hash_token g.crypto resp.refresh_token

rotated-Rotation :
    (g : RefreshGrant) (c : Client) (t r : RefreshToken) (now : Time) (resp : TokenResponse)
    (id : Uuid)
    → r ≡ rotated c t now resp.scope id (hash_token g.crypto resp.refresh_token)
    → Rotation g c t r now resp
unfolding rotated
rotated-Rotation g c t r now resp id e = record {
  client = ap (λ (x : RefreshToken). x.client_id) e;
  user = ap (λ (x : RefreshToken). x.user_id) e;
  session = ap (λ (x : RefreshToken). x.session_id) e;
  parent = ap (λ (x : RefreshToken). x.parent_token_id) e;
  ceiling = ap (λ (x : RefreshToken). x.absolute_expires_at) e;
  unused = ap (λ (x : RefreshToken). x.consumed_at) e;
  not_revoked = ap (λ (x : RefreshToken). x.revoked_at) e;
  born = ap (λ (x : RefreshToken). x.created_at) e;
  scope = ap (λ (x : RefreshToken). x.scope) e;
  hash = ap (λ (x : RefreshToken). x.token_hash) e;
}

-- With sliding expiry, the new token expires by the absolute expiry of the old one.
rotated-ceiling :
    (c : Client) (t : RefreshToken) (now : Time) (scope : String) (id : Uuid) (hash : String)
    → c.refresh_token_expiration ≡ expiration_sliding
    → (rotated c t now scope id hash).expires_at ≤ t.absolute_expires_at
unfolding rotated rotated_expiry
rotated-ceiling c t now scope id hash e = ground (arith, e)

module _ (g : RefreshGrant) (a : Option Client) (form : RefreshForm) (draws : Draws) (now : Time)
    (s : Stores) (resp : TokenResponse) (s' : Stores) where
  -- The new row is the rotation of the presented token.
  stored_rotated :
      (r : RefreshToken)
      → IsIndexed s.refresh
      → row s.refresh draws.token_id ≡ none
      → handle g a form draws now s ≡ (reply resp, s')
      → row s'.refresh draws.token_id ≡ some r
      → (c : Client) × (t : RefreshToken) × Presented g a form now s.refresh c t
        × (r ≡ rotated c t now resp.scope draws.token_id (hash_token g.crypto resp.refresh_token))
  stored_rotated r v new h stored =
      let (c, t, m, w) = handle-Answered g a form draws now s resp s' h in
      let e : row s.refresh t.id ≡ some t =
        find_by_hash-row s.refresh (hash_token g.crypto form.refresh_token) t v w.presented.found in
      (
        c,
        t,
        w.presented,
        elim (Option-cases m.next_token) [
          | inl n ↦ absurd (none_stored c t m w e n)
          | inr (r', n) ↦
              let (at, shape) = minted-row g a form draws now s resp s' c t m r' w n in
              some_inj r r' (sym stored ∙ at) ∙ shape
        ],
      )
    where
      none_stored :
          (c : Client) (t : RefreshToken) (m : Minted)
          → Answered g a form draws now s resp s' c t m
          → row s.refresh t.id ≡ some t
          → m.next_token ≡ none
          → ⊥
      none_stored c t m w e n =
          cc (sym (unminted-row g a form draws now s resp s' c t m w new e n) ∙ stored)

  -- Where the client may have refresh tokens and the granted scope has offline_access, an answered
  -- request hands out a refresh token that is stored: it is found by the hash of what the client gets,
  -- keeps the user, the session and the absolute expiry of the presented token, names it as its parent,
  -- and starts unused and live at the time of the request. Otherwise no refresh token is handed out.
  pub refresh_rotates :
      handle g a form draws now s ≡ (reply resp, s')
      → (c : Client) × (t : RefreshToken) × Presented g a form now s.refresh c t
        × (granted : List String) × (down_scope t.scope form.scope ≡ pass (resp.scope, granted))
        × ((((c.allow_refresh_tokens && contains granted "offline_access") ≡ false)
              × (resp.refresh_token ≡ ""))
            ⊎ (((c.allow_refresh_tokens && contains granted "offline_access") ≡ true)
                × (r : RefreshToken) × (find_by_hash s'.refresh
                      (hash_token g.crypto resp.refresh_token)
                    ≡ ok r)
                × Rotation g c t r now resp))
  refresh_rotates h =
      let (c, t, m, w) = handle-Answered g a form draws now s resp s' h in
      let (info, scope, granted, raw, f) =
        mint-MintedFrom g c t form draws now (consumed_store s t now) m w.minted in
      let answer : resp ≡ m.response =
        deliver-response m (consumed_store s t now) resp s' w.delivered in
      (
        c,
        t,
        w.presented,
        granted,
        f.scoped
            ∙ ap (λ y. pass (y, granted))
                (sym (ap (λ (x : TokenResponse). x.scope) answer ∙ f.response_scope)),
        elim (mint_refresh-cases g c t draws now scope granted raw m.next_token f.rotation) [
          | inl (none_granted, empty, _) ↦ inl (
            none_granted,
            ap (λ (x : TokenResponse). x.refresh_token) answer ∙ f.response_refresh ∙ empty,
          )
          | inr (offline, r, n) ↦ inr (
            offline,
            r,
            minted-found g a form draws now s resp s' c t m r w n,
            rotated-Rotation g c t r now resp draws.token_id
                (minted-row g a form draws now s resp s' c t m r w n).1,
          )
        ],
      )

  -- For a client with sliding expiry, the token that an answered request stores expires no later than
  -- the absolute expiry of the presented one, and has the same absolute expiry. The store is indexed
  -- before, and the id drawn for the new token is new.
  pub refresh_within_ceiling :
      (c : Client) (t r : RefreshToken)
      → IsIndexed s.refresh
      → row s.refresh draws.token_id ≡ none
      → a ≡ some c
      → c.refresh_token_expiration ≡ expiration_sliding
      → find_by_hash s.refresh (hash_token g.crypto form.refresh_token) ≡ ok t
      → handle g a form draws now s ≡ (reply resp, s')
      → row s'.refresh draws.token_id ≡ some r
      → (r.expires_at ≤ t.absolute_expires_at) × (r.absolute_expires_at ≡ t.absolute_expires_at)
  refresh_within_ceiling c t r v new named sliding found h stored =
      let (c', t', p, e) = stored_rotated r v new h stored in
      let same : t' ≡ t = ok_inj t' t (sym p.found ∙ found) in
      let client : c ≡ c' = some_inj c c' (sym named ∙ p.client) in
      let expiry : c'.refresh_token_expiration ≡ expiration_sliding =
        ap (λ (x : Client). x.refresh_token_expiration) (sym client) ∙ sliding in
      let hash : String = hash_token g.crypto resp.refresh_token in
      let ceiling = rotated-ceiling c' t' now resp.scope draws.token_id hash expiry in
      let moved = rotated-Rotation g c' t' r now resp draws.token_id e in
      (
        subst (λ (x : RefreshToken). r.expires_at ≤ x.absolute_expires_at) same
            (subst (λ (x : RefreshToken). x.expires_at ≤ t'.absolute_expires_at) (sym e) ceiling),
        moved.ceiling ∙ ap (λ (x : RefreshToken). x.absolute_expires_at) same,
      )
