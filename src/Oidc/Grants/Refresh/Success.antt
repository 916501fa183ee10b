-- ===== src/Oidc/Grants/Refresh/Success.antt =====
-- The tokens of an answered refresh request: what they are minted from, and what is stored.
use authserver_go.Base.{
  String, ◌≡◌, ◌≢◌, refl, ◌∙◌, ap, true, false, ◌&&◌, ◌⊎◌, Bool-cases, contains, Option, none, some,
  List, ◌==◌, string_eq, nat_eq, arith, Option-cases, inl, inr, sym, beq_refl, ne→not_beq,
}
use authserver_go.Base.Assoc.{lookup}
use authserver_go.Domain.Time.{Time, Uuid}
use authserver_go.Domain.Entities.{RefreshToken, UserInfo}
use authserver_go.Domain.Client.{Client}
use authserver_go.Store.Error.{ok}
use authserver_go.Store.RefreshTokens.{RefreshTokenStore, store, find_by_hash, mark_consumed}
use authserver_go.Store.RefreshTokens.Laws.{
  row, IsIndexed, row-mark_consumed, find_by_hash-row, mark_consumed_won, row-store,
  by_hash-mark_consumed, by_hash-store, find_by_hash-store,
}
use authserver_go.Token.Crypto.{hash_token, new_opaque_token}
use authserver_go.Oidc.Http.{reply, pass, >>=-pass}
use authserver_go.Oidc.Stores.{Stores}
use authserver_go.Oidc.Grants.{TokenResponse}
use authserver_go.Oidc.Grants.Refresh.{
  RefreshGrant, RefreshForm, Draws, Minted, mint, mint_refresh, mint_id_token, user_of, sign_access,
  minted, down_scope, deliver, handle, rotated, chain_root_created_at,
}
use authserver_go.Oidc.Grants.Refresh.Outcome.{Presented, Answered, handle-Answered}

-- What `mint` has put together when it passes.
pub record MintedFrom (g : RefreshGrant) (c : Client) (t : RefreshToken) (form : RefreshForm)
    (draws : Draws) (now : Time) (s : Stores) (m : Minted) (info : UserInfo) (scope : String)
    (granted : List String) (raw : String) : Type 0 where
  pub user : user_of s t ≡ pass info
  pub scoped : down_scope t.scope form.scope ≡ pass (scope, granted)
  pub signed :
      sign_access g c t scope (chain_root_created_at s.refresh t) ≡ pass m.response.access_token
  pub rotation : mint_refresh g c t draws now scope granted ≡ pass (raw, m.next_token)
  pub response_scope : m.response.scope ≡ scope
  pub response_refresh : m.response.refresh_token ≡ raw

pub mint-MintedFrom :
    (g : RefreshGrant) (c : Client) (t : RefreshToken) (form : RefreshForm) (draws : Draws)
    (now : Time) (s : Stores) (m : Minted)
    → mint g c t form draws now s ≡ pass m
    → (info : UserInfo) × (scope : String) × (granted : List String) × (raw : String) × MintedFrom g
        c t form draws now s m info scope granted raw
unfolding mint minted
mint-MintedFrom g c t form draws now s m h =
    let (info, user, h1) = >>=-pass (user_of s t) _ m h in
    let (sg, scoped, h2) = >>=-pass (down_scope t.scope form.scope) _ m h1 in
    let auth_time : Time = chain_root_created_at s.refresh t in
    let (access, signed, h3) = >>=-pass (sign_access g c t sg.0 auth_time) _ m h2 in
    let (id_token, id_signed, h4) =
      >>=-pass (mint_id_token g c t info sg.0 sg.1 auth_time access) _ m h3 in
    let (rn, rotation, h5) = >>=-pass (mint_refresh g c t draws now sg.0 sg.1) _ m h4 in
    (
      info,
      sg.0,
      sg.1,
      rn.0,
      record {
        user = user;
        scoped = scoped;
        signed = ground (arith, signed, h5);
        rotation = ground (arith, rotation, h5);
        response_scope = ground (arith, h5);
        response_refresh = ground (arith, h5);
      },
    )

-- The rotation that passes with a row to store.
mint_refresh-rotated :
    (g : RefreshGrant) (c : Client) (t : RefreshToken) (draws : Draws) (now : Time) (scope : String)
    (granted : List String) (raw : String) (r : RefreshToken)
    → mint_refresh g c t draws now scope granted ≡ pass (raw, some r)
    → r ≡ rotated c t now scope draws.token_id (hash_token g.crypto raw)
unfolding mint_refresh new_opaque_token
mint_refresh-rotated g c t draws now scope granted raw r h = ground arith

-- A rotation that passes has a row to store exactly where the client may have refresh tokens and
-- offline_access is granted.
pub mint_refresh-cases :
    (g : RefreshGrant) (c : Client) (t : RefreshToken) (draws : Draws) (now : Time) (scope : String)
    (granted : List String) (raw : String) (next : Option RefreshToken)
    → mint_refresh g c t draws now scope granted ≡ pass (raw, next)
    → (((c.allow_refresh_tokens && contains granted "offline_access") ≡ false)
        × (raw ≡ "")
        × (next ≡ none))
      ⊎ (((c.allow_refresh_tokens && contains granted "offline_access") ≡ true)
          × (r : RefreshToken) × (next ≡ some r))
unfolding mint_refresh new_opaque_token
mint_refresh-cases g c t draws now scope granted raw next h =
    elim (Bool-cases (c.allow_refresh_tokens && contains granted "offline_access")) [
      | inr not_granted ↦
          inl (not_granted, ground (arith, not_granted, h), ground (arith, not_granted, h))
      | inl offline ↦ elim (Option-cases next) [
        | inl n ↦ absurd (ground (arith, offline, h, n))
        | inr (r, e) ↦ inr (offline, r, e)
      ]
    ]

-- What the final Store leaves of each row.
deliver-none :
    (m : Minted) (s : Stores) (resp : TokenResponse) (s' : Stores)
    → deliver m s ≡ (reply resp, s')
    → m.next_token ≡ none
    → s' ≡ s
unfolding deliver
deliver-none m s resp s' h n = ground (arith, n, h)

deliver-some :
    (m : Minted) (s : Stores) (resp : TokenResponse) (s' : Stores) (r : RefreshToken)
    → deliver m s ≡ (reply resp, s')
    → m.next_token ≡ some r
    → ((r.token_hash == "") ≡ false) × (s'.refresh ≡ (store (some r) s.refresh).1)
unfolding deliver store
deliver-some m s resp s' r h n = ground (arith, n, h)

pub deliver-response :
    (m : Minted) (s : Stores) (resp : TokenResponse) (s' : Stores)
    → deliver m s ≡ (reply resp, s')
    → resp ≡ m.response
unfolding deliver store
deliver-response m s resp s' h = ground (arith, h)

abbrev pub consumed_store : Stores → RefreshToken → Time → Stores
consumed_store s t now = record s { refresh = (mark_consumed t.id now s.refresh).1 }

module _ (g : RefreshGrant) (a : Option Client) (form : RefreshForm) (draws : Draws) (now : Time)
    (s : Stores) (resp : TokenResponse) (s' : Stores) where
  -- A row other than the new token's is left by the final Store as MarkConsumed left it.
  pub delivered-row :
      (c : Client) (t : RefreshToken) (m : Minted) (j : Uuid)
      → Answered g a form draws now s resp s' c t m
      → draws.token_id ≢ j
      → row s'.refresh j ≡ row (consumed_store s t now).refresh j
  unfolding rotated
  delivered-row c t m j w ne = elim (Option-cases m.next_token) [
    | inl n ↦
        ap (λ (x : Stores). row x.refresh j)
          (deliver-none m (consumed_store s t now) resp s' w.delivered n)
    | inr (r, n) ↦
        let (named, stored) = deliver-some m (consumed_store s t now) resp s' r w.delivered n in
        let (info, scope, granted, raw, f) =
          mint-MintedFrom g c t form draws now (consumed_store s t now) m w.minted in
        let e : r ≡ rotated c t now scope draws.token_id (hash_token g.crypto raw) =
          mint_refresh-rotated g c t draws now scope granted raw r
            (f.rotation ∙ ap (λ o. pass (raw, o)) n) in
        let id : r.id ≡ draws.token_id = ap (λ (x : RefreshToken). x.id) e in
        ap (λ x. row x j) stored
        ∙ row-store (consumed_store s t now).refresh r j named
        ∙ rw (ne→not_beq r.id j (λ q. ne (sym id ∙ q))) refl
  ]

  -- The row of the token that was presented, afterwards.
  pub redeemed-row :
      (c : Client) (t : RefreshToken) (m : Minted)
      → Answered g a form draws now s resp s' c t m
      → row s.refresh t.id ≡ some t
      → draws.token_id ≢ t.id
      → row s'.refresh t.id ≡ some (record t { consumed_at = some now })
  redeemed-row c t m w e ne =
      delivered-row c t m t.id w ne
      ∙ row-mark_consumed s.refresh t.id t.id now t e
          (mark_consumed_won s.refresh t.id now t e w.won)
      ∙ rw (beq_refl t.id)

  pub apart :
      (t : RefreshToken)
      → row s.refresh draws.token_id ≡ none
      → row s.refresh t.id ≡ some t
      → draws.token_id ≡ t.id
      → ⊥
  apart t new e q = cc (sym new ∙ ap (row s.refresh) q ∙ e)

  -- Where no token was minted, no row stands under the drawn id.
  pub unminted-row :
      (c : Client) (t : RefreshToken) (m : Minted)
      → Answered g a form draws now s resp s' c t m
      → row s.refresh draws.token_id ≡ none
      → row s.refresh t.id ≡ some t
      → m.next_token ≡ none
      → row s'.refresh draws.token_id ≡ none
  unminted-row c t m w new e n =
      ap (λ (x : Stores). row x.refresh draws.token_id)
        (deliver-none m (consumed_store s t now) resp s' w.delivered n)
      ∙ row-mark_consumed s.refresh t.id draws.token_id now t e
          (mark_consumed_won s.refresh t.id now t e w.won)
      ∙ rw (ne→not_beq t.id draws.token_id (λ q. apart t new e (sym q))) new

  -- The token that was minted stands under the drawn id.
  pub minted-row :
      (c : Client) (t : RefreshToken) (m : Minted) (r : RefreshToken)
      → Answered g a form draws now s resp s' c t m
      → m.next_token ≡ some r
      → (row s'.refresh draws.token_id ≡ some r)
        × (r ≡ rotated c t now resp.scope draws.token_id (hash_token g.crypto resp.refresh_token))
  unfolding rotated
  minted-row c t m r w n =
      let (named, stored) = deliver-some m (consumed_store s t now) resp s' r w.delivered n in
      let (info, scope, granted, raw, f) =
        mint-MintedFrom g c t form draws now (consumed_store s t now) m w.minted in
      let e : r ≡ rotated c t now scope draws.token_id (hash_token g.crypto raw) =
        mint_refresh-rotated g c t draws now scope granted raw r
          (f.rotation ∙ ap (λ o. pass (raw, o)) n) in
      let id : r.id ≡ draws.token_id = ap (λ (x : RefreshToken). x.id) e in
      let answer : resp ≡ m.response =
        deliver-response m (consumed_store s t now) resp s' w.delivered in
      (
        ap (λ x. row x draws.token_id) stored
            ∙ row-store (consumed_store s t now).refresh r draws.token_id named
            ∙ rw (id, beq_refl draws.token_id),
        cc (e, answer, f.response_scope, f.response_refresh),
      )

  -- And it is found by the hash of what the client gets.
  pub minted-found :
      (c : Client) (t : RefreshToken) (m : Minted) (r : RefreshToken)
      → Answered g a form draws now s resp s' c t m
      → m.next_token ≡ some r
      → find_by_hash s'.refresh (hash_token g.crypto resp.refresh_token) ≡ ok r
  unfolding rotated
  minted-found c t m r w n =
      let (named, stored) = deliver-some m (consumed_store s t now) resp s' r w.delivered n in
      let (at, shape) = minted-row c t m r w n in
      ap (find_by_hash s'.refresh) (sym (ap (λ (x : RefreshToken). x.token_hash) shape))
      ∙ ap (λ x. find_by_hash x r.token_hash) stored
      ∙ find_by_hash-store (consumed_store s t now).refresh r named

  -- The index entry of the presented token is the same afterwards.
  pub kept-index :
      (c : Client) (t : RefreshToken) (m : Minted)
      → Answered g a form draws now s resp s' c t m
      → hash_token g.crypto resp.refresh_token ≢ hash_token g.crypto form.refresh_token
      → lookup (hash_token g.crypto form.refresh_token) s'.refresh.by_hash
        ≡ lookup (hash_token g.crypto form.refresh_token) s.refresh.by_hash
  unfolding rotated
  kept-index c t m w ne =
      let hash : String = hash_token g.crypto form.refresh_token in
      let marked = by_hash-mark_consumed s.refresh t.id now in
      elim (Option-cases m.next_token) [
        | inl n ↦
            ap (λ (x : Stores). lookup hash x.refresh.by_hash)
              (deliver-none m (consumed_store s t now) resp s' w.delivered n)
            ∙ ap (lookup hash) marked
        | inr (r, n) ↦
            let (named, stored) = deliver-some m (consumed_store s t now) resp s' r w.delivered n in
            let (at, shape) = minted-row c t m r w n in
            let own : r.token_hash ≡ hash_token g.crypto resp.refresh_token =
              ap (λ (x : RefreshToken). x.token_hash) shape in
            ap (λ (x : RefreshTokenStore). lookup hash x.by_hash) stored
            ∙ by_hash-store (consumed_store s t now).refresh r hash (λ q. ne (sym own ∙ q))
            ∙ ap (lookup hash) marked
      ]

  -- A refresh request that is answered with tokens presented a stored token that was issued to the
  -- authenticated client, was neither revoked nor consumed, and had passed neither of its expiries;
  -- and afterwards that token is consumed, at the time of the request. The store is indexed before,
  -- and the id drawn for the new token is new.
  pub refresh_redeems :
      IsIndexed s.refresh
      → row s.refresh draws.token_id ≡ none
      → handle g a form draws now s ≡ (reply resp, s')
      → (c : Client) × (t : RefreshToken) × Presented g a form now s.refresh c t
        × (row s.refresh t.id ≡ some t)
        × (t.consumed_at ≡ none)
        × (row s'.refresh t.id ≡ some (record t { consumed_at = some now }))
  refresh_redeems v new h =
      let (c, t, m, w) = handle-Answered g a form draws now s resp s' h in
      let e : row s.refresh t.id ≡ some t =
        find_by_hash-row s.refresh (hash_token g.crypto form.refresh_token) t v w.presented.found in
      let ne : draws.token_id ≢ t.id = λ q. apart t new e q in
      (
        c,
        t,
        w.presented,
        e,
        mark_consumed_won s.refresh t.id now t e w.won,
        redeemed-row c t m w e ne,
      )
