-- ===== src/Oidc/Grants/AuthCode/Panic.antt =====
-- When the authorization_code grant's Handle dereferences a nil pointer.
use authserver_go.Base.{
  ◌≤◌, ◌≡◌, refl, ◌∙◌, ap, sym, Bool, true, false, ◌||◌, ◌↔◌, Option, none, some, ◌==◌, string_eq,
  nat_eq, eq_iff, arith, is_some, inl, inr,
}
use authserver_go.Domain.Time.{Time}
use authserver_go.Domain.Entities.{AuthorizationCode}
use authserver_go.Domain.Client.{Client}
use authserver_go.Store.Error.{Result, ok, err}
use authserver_go.Store.AuthCodes.{AuthorizationCodeStore, find_by_hash}
use authserver_go.Token.Crypto.{hash_token, new_opaque_token}
use authserver_go.Oidc.Http.{panics, crash, finish_at-panics}
use authserver_go.Oidc.Stores.{Stores}
use authserver_go.Oidc.Grants.AuthCode.{
  AuthCodeGrant, AuthCodeForm, Moment, Minted, check_pkce, present, sign_access, sign_id,
  mint_refresh, mint, deliver, redeem, handle,
}

-- A request that meets every check before PKCE, with a code that has a challenge but no method.
pub record NilMethod (g : AuthCodeGrant) (authenticated : Option Client) (form : AuthCodeForm)
    (now : Time) (codes : AuthorizationCodeStore) (c : Client) (code : AuthorizationCode)
    : Type 0 where
  pub complete : (form.client_id == "" || form.code == "" || form.redirect_uri == "") ≡ false
  pub client : authenticated ≡ some c
  pub named : c.client_id ≡ form.client_id
  pub found : find_by_hash codes (hash_token g.crypto form.code) ≡ ok code
  pub within : now ≤ code.expires_at
  pub owned : code.client_id ≡ c.client_id
  pub same_redirect : code.redirect_uri ≡ form.redirect_uri
  pub challenged : is_some code.code_challenge ≡ true
  pub no_method : code.code_challenge_method ≡ none

present-NilMethod :
    (g : AuthCodeGrant) (a : Option Client) (form : AuthCodeForm) (now : Time)
    (codes : AuthorizationCodeStore)
    → present g a form now codes ≡ crash
    → (c : Client) × (code : AuthorizationCode) × NilMethod g a form now codes c code
unfolding present check_pkce
present-NilMethod g none form now codes h = absurd (ground arith)
present-NilMethod g (some c) form now codes h =
    go (find_by_hash codes (hash_token g.crypto form.code)) refl
  where
    go :
        (r : Result AuthorizationCode)
        → find_by_hash codes (hash_token g.crypto form.code) ≡ r
        → (x : Client) × (code : AuthorizationCode) × NilMethod g (some c) form now codes x code
    go (err e) p = absurd (ground (arith, p))
    go (ok code) p = (
      c,
      code,
      ground (
        arith,
        p,
        eq_iff c.client_id form.client_id,
        eq_iff code.client_id c.client_id,
        eq_iff code.redirect_uri form.redirect_uri,
      ),
    )

-- Behind the checks, nothing panics.
mint-no_crash :
    (g : AuthCodeGrant) (c : Client) (code : AuthorizationCode) (moment : Moment) (s : Stores)
    → mint g c code moment s ≡ crash
    → ⊥
unfolding mint sign_access sign_id mint_refresh new_opaque_token
mint-no_crash g c code moment s h = ground arith

deliver-no_panic : (m : Minted) (s : Stores) → (deliver m s).0 ≡ panics → ⊥
unfolding deliver
deliver-no_panic m s h = ground arith

redeem-no_panic :
    (g : AuthCodeGrant) (c : Client) (code : AuthorizationCode) (moment : Moment) (r : Result Bool)
    (s : Stores)
    → (redeem g c code moment r s).0 ≡ panics
    → ⊥
unfolding redeem
redeem-no_panic g c code moment (err e) s h = cc
redeem-no_panic g c code moment (ok false) s h = cc
redeem-no_panic g c code moment (ok true) s h =
    elim (finish_at-panics s (mint g c code moment s) (λ m. deliver m s) h) [
      | inl p ↦ mint-no_crash g c code moment s p
      | inr (m, q, d) ↦ deliver-no_panic m s d
    ]

NilMethod-present :
    (g : AuthCodeGrant) (a : Option Client) (form : AuthCodeForm) (now : Time)
    (codes : AuthorizationCodeStore) (c : Client) (code : AuthorizationCode)
    → NilMethod g a form now codes c code
    → present g a form now codes ≡ crash
unfolding present check_pkce
NilMethod-present g a form now codes c code v = ground (
  arith,
  v,
  eq_iff c.client_id form.client_id,
  eq_iff code.client_id c.client_id,
  eq_iff code.redirect_uri form.redirect_uri,
)

crashed-handle :
    (g : AuthCodeGrant) (a : Option Client) (form : AuthCodeForm) (moment : Moment) (s : Stores)
    → present g a form moment.checked s.codes ≡ crash
    → handle g a form moment s ≡ (panics, s)
unfolding handle
crashed-handle g a form moment s p = rw p refl

-- The Handle of the authorization_code grant panics exactly where a request meets every check that
-- stands before PKCE, with a stored code that has a challenge and no challenge method. A Handle that
-- panics has changed no store.
pub handle-panics :
    (g : AuthCodeGrant) (a : Option Client) (form : AuthCodeForm) (moment : Moment) (s s' : Stores)
    → (handle g a form moment s ≡ (panics, s')) ↔ (
        (s' ≡ s)
        × (c : Client) × (code : AuthorizationCode) × NilMethod g a form moment.checked s.codes c
            code)
unfolding handle
handle-panics g a form moment s s' = (
  λ h. elim (finish_at-panics s (present g a form moment.checked s.codes) _ (ap (λ r. r.0) h)) [
    | inl crashed ↦
        let (c, code, v) = present-NilMethod g a form moment.checked s.codes crashed in
        (ap (λ r. r.1) (sym h ∙ crashed-handle g a form moment s crashed), c, code, v)
    | inr (found, p, d) ↦ absurd (redeem-no_panic g found.0 found.1 moment _ _ d)
  ],
  λ (e, c, code, v).
      crashed-handle g a form moment s (NilMethod-present g a form moment.checked s.codes c code v)
      ∙ ap (λ x. (panics, x)) (sym e),
)
