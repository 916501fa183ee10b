-- ===== src/Oidc/Grants/Refresh/AuthTime.antt =====
-- The time of the original sign-in along a chain of rotations.
use authserver_go.Base.{
  ℕ, suc, ◌≤◌, String, ◌≡◌, refl, ◌∙◌, ap, sym, subst, some, none, Option, ◌==◌, nat_eq,
  nat_beq_iff, Bool-cases, inl, inr, Option-cases, some_inj,
}
use authserver_go.Domain.Time.{Time}
use authserver_go.Domain.Entities.{RefreshToken}
use authserver_go.Domain.Client.{Client, access_token_lifetime}
use authserver_go.Store.Error.{ok, ok_inj}
use authserver_go.Store.RefreshTokens.{RefreshTokenStore, find_by_hash, mark_consumed}
use authserver_go.Store.RefreshTokens.Laws.{
  row, IsIndexed, row-mark_consumed, find_by_hash-row, mark_consumed_won,
}
use authserver_go.Token.Crypto.{hash_token}
use authserver_go.Oidc.Http.{reply, pass, some_or-pass}
use authserver_go.Oidc.Stores.{Stores}
use authserver_go.Oidc.Grants.{TokenResponse}
use authserver_go.Oidc.Grants.Refresh.{
  RefreshGrant, RefreshForm, Draws, Minted, handle, rotated, sign_access, access_claims,
  chain_root_created_at, max_depth,
}
use authserver_go.Oidc.Grants.Refresh.Chain.{
  Chain, next, Like, Carries, Chain-carried, chain_root_created_at-root,
}
use authserver_go.Oidc.Grants.Refresh.Outcome.{Answered, handle-Answered}
use authserver_go.Oidc.Grants.Refresh.Success.{
  consumed_store, delivered-row, minted-row, unminted-row, mint-MintedFrom, deliver-response,
}

-- MarkConsumed keeps parents and creation times.
mark_consumed-Carries :
    (s : RefreshTokenStore) (t : RefreshToken) (now : Time)
    → row s t.id ≡ some t
    → t.consumed_at ≡ none
    → Carries s (mark_consumed t.id now s).1
mark_consumed-Carries s t now e c id u r = elim (Bool-cases (t.id == id)) [
  | inl same ↦ (
    record t { consumed_at = some now },
    row-mark_consumed s t.id id now t e c ∙ rw same,
    at_same (some_inj t u (sym e ∙ ap (row s) ((nat_beq_iff t.id id).0 same) ∙ r)),
  )
  | inr differs ↦ (
    u,
    row-mark_consumed s t.id id now t e c ∙ rw differs r,
    record { parent = refl; created = refl },
  )
]
  where
    at_same : t ≡ u → Like u (record t { consumed_at = some now })
    at_same q = record {
      parent = ap (λ (x : RefreshToken). x.parent_token_id) q;
      created = ap (λ (x : RefreshToken). x.created_at) q;
    }

module _ (g : RefreshGrant) where
  signed-access :
      (c : Client) (t : RefreshToken) (scope : String) (auth_time : Time) (access : String)
      → sign_access g c t scope auth_time ≡ pass access
      → g.issuer.issue_access_token (access_claims c t scope auth_time) ≡ some access
  unfolding sign_access
  signed-access c t scope auth_time access h = some_or-pass _ _ _ _ access h

module _ (g : RefreshGrant) (a : Option Client) (form : RefreshForm) (draws : Draws) (now : Time)
    (s : Stores) (resp : TokenResponse) (s' : Stores) where
  handle-Carries :
      (c : Client) (t : RefreshToken) (m : Minted)
      → Answered g a form draws now s resp s' c t m
      → row s.refresh draws.token_id ≡ none
      → row s.refresh t.id ≡ some t
      → Carries s.refresh s'.refresh
  handle-Carries c t m w new e id u r =
      let (u', r', l) =
        mark_consumed-Carries s.refresh t now e (mark_consumed_won s.refresh t.id now t e w.won) id
          u r in
      (u', delivered-row g a form draws now s resp s' c t m id w (λ q. occupied q) ∙ r', l)
    where
      occupied : draws.token_id ≡ id → ⊥
      occupied q = cc (sym new ∙ ap (row s.refresh) q ∙ r)

  handle-Answered_at :
      (t : RefreshToken)
      → find_by_hash s.refresh (hash_token g.crypto form.refresh_token) ≡ ok t
      → handle g a form draws now s ≡ (reply resp, s')
      → (c : Client) × (m : Minted) × Answered g a form draws now s resp s' c t m
  handle-Answered_at t found h =
      let (c, t', m, w) = handle-Answered g a form draws now s resp s' h in
      (
        c,
        m,
        subst (λ x. Answered g a form draws now s resp s' c x m)
            (ok_inj t' t (sym w.presented.found ∙ found)) w,
      )

  -- When the presented token is n rotations away from the token that the sign-in minted at `root`,
  -- and n is at most the walk's bound of 1000, an answered request signs an access token with
  -- auth_time `root`, for the token's user. The store is indexed before.
  pub refresh_signs_auth_time :
      (n : ℕ) (root : Time) (t : RefreshToken)
      → IsIndexed s.refresh
      → find_by_hash s.refresh (hash_token g.crypto form.refresh_token) ≡ ok t
      → Chain s.refresh n t root
      → n ≤ max_depth
      → handle g a form draws now s ≡ (reply resp, s')
      → (c : Client) × (g.issuer.issue_access_token (record {
        subject = t.user_id;
        client_id = c.client_id;
        scope = resp.scope;
        auth_time = some root;
        expires_in = access_token_lifetime c;
      })
          ≡ some resp.access_token)
  unfolding access_claims
  refresh_signs_auth_time n root t v found ch bound h =
      let (c, m, w) = handle-Answered_at t found h in
      let e : row s.refresh t.id ≡ some t =
        find_by_hash-row s.refresh (hash_token g.crypto form.refresh_token) t v found in
      let kept : Chain (consumed_store s t now).refresh n t root =
        Chain-carried (consumed_store s t now).refresh t
          (mark_consumed-Carries s.refresh t now e (mark_consumed_won s.refresh t.id now t e w.won))
          (record { parent = refl; created = refl }) ch in
      let (info, scope, granted, raw, f) =
        mint-MintedFrom g c t form draws now (consumed_store s t now) m w.minted in
      let answer : resp ≡ m.response =
        deliver-response m (consumed_store s t now) resp s' w.delivered in
      (
        c,
        cc (
          answer,
          f.response_scope,
          chain_root_created_at-root (consumed_store s t now).refresh n t root bound kept,
          signed-access g c t scope (chain_root_created_at (consumed_store s t now).refresh t)
              m.response.access_token f.signed,
        ),
      )

  -- When the presented token is n rotations away from the token of a sign-in at `root`, the token
  -- that an answered request stores is n + 1 rotations away from one of the same time. The store is
  -- indexed before, and the id drawn for the new token is new.
  pub refresh_extends-Chain :
      (n : ℕ) (root : Time) (t r : RefreshToken)
      → IsIndexed s.refresh
      → row s.refresh draws.token_id ≡ none
      → find_by_hash s.refresh (hash_token g.crypto form.refresh_token) ≡ ok t
      → Chain s.refresh n t root
      → handle g a form draws now s ≡ (reply resp, s')
      → row s'.refresh draws.token_id ≡ some r
      → Chain s'.refresh (suc n) r root
  unfolding rotated
  refresh_extends-Chain n root t r v new found ch h stored =
      let (c, m, w) = handle-Answered_at t found h in
      let e : row s.refresh t.id ≡ some t =
        find_by_hash-row s.refresh (hash_token g.crypto form.refresh_token) t v found in
      let carries = handle-Carries c t m w new e in
      let (t', e', l) = carries t.id t e in
      next t.id t' (parent_of c t m w e) e' (Chain-carried s'.refresh t' carries l ch)
    where
      none_stored :
          (c : Client) (t : RefreshToken) (m : Minted)
          → Answered g a form draws now s resp s' c t m
          → row s.refresh t.id ≡ some t
          → m.next_token ≡ none
          → ⊥
      none_stored c t m w e n =
          cc (sym (unminted-row g a form draws now s resp s' c t m w new e n) ∙ stored)

      parent_of :
          (c : Client) (t : RefreshToken) (m : Minted)
          → Answered g a form draws now s resp s' c t m
          → row s.refresh t.id ≡ some t
          → r.parent_token_id ≡ some t.id
      parent_of c t m w e = elim (Option-cases m.next_token) [
        | inl n ↦ absurd (none_stored c t m w e n)
        | inr (r', n) ↦
            let (at, shape) = minted-row g a form draws now s resp s' c t m r' w n in
            ap (λ (x : RefreshToken). x.parent_token_id) (some_inj r r' (sym stored ∙ at) ∙ shape)
      ]
