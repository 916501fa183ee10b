-- ===== src/Oidc/Grants/AuthCode/Outcome.antt =====
-- What an answered authorization_code request has gone through.
use authserver_go.Base.{
  ◌≤◌, String, ◌≡◌, refl, ◌∙◌, ap, Bool, true, false, Option, none, some, string_eq, nat_eq, eq_iff,
  arith, Option-cases, inl, inr, beq_refl,
}
use authserver_go.Domain.Time.{Time}
use authserver_go.Domain.Entities.{AuthorizationCode}
use authserver_go.Domain.Client.{Client}
use authserver_go.Store.Error.{Result, ok, err}
use authserver_go.Store.AuthCodes.{AuthorizationCodeStore, find_by_hash, mark_consumed}
use authserver_go.Store.AuthCodes.Laws.{
  row, IsIndexed, row-mark_consumed, find_by_hash-row, mark_consumed_won,
}
use authserver_go.Token.Crypto.{Crypto, hash_token}
use authserver_go.Token.Pkce.{verify_s256}
use authserver_go.Oidc.Http.{reply, pass, finish_at-reply}
use authserver_go.Oidc.Stores.{Stores}
use authserver_go.Oidc.Grants.{TokenResponse}
use authserver_go.Oidc.Grants.AuthCode.{
  AuthCodeGrant, AuthCodeForm, Moment, Minted, check_pkce, present, mint, deliver, redeem, handle,
}

-- A code with a challenge is redeemed with a verifier that VerifyS256 takes.
abbrev pub PkceHolds : Crypto → AuthorizationCode → String → Type 0
PkceHolds crypto code verifier =
    (challenge : String)
    → code.code_challenge ≡ some challenge
    → (method : String) × (code.code_challenge_method ≡ some method)
      × (verify_s256 crypto method verifier challenge ≡ none)

check_pkce-PkceHolds :
    (crypto : Crypto) (code : AuthorizationCode) (verifier : String)
    → check_pkce crypto code verifier ≡ pass tt
    → PkceHolds crypto code verifier
unfolding check_pkce
check_pkce-PkceHolds crypto code verifier h challenge e =
    elim (Option-cases code.code_challenge_method) [
      | inl n ↦ absurd (nil n)
      | inr (method, m) ↦ (method, m, verified method m)
    ]
  where
    nil : code.code_challenge_method ≡ none → ⊥
    nil n = ground (arith, h, e, n)

    verified :
        (method : String)
        → code.code_challenge_method ≡ some method
        → verify_s256 crypto method verifier challenge ≡ none
    verified method m = ground (arith, h, e, m)

-- The checks that stand before MarkConsumed, as a predicate.
pub record Presented (g : AuthCodeGrant) (authenticated : Option Client) (form : AuthCodeForm)
    (now : Time) (codes : AuthorizationCodeStore) (c : Client) (code : AuthorizationCode)
    : Type 0 where
  pub client : authenticated ≡ some c
  pub named : c.client_id ≡ form.client_id
  pub found : find_by_hash codes (hash_token g.crypto form.code) ≡ ok code
  pub within : now ≤ code.expires_at
  pub owned : code.client_id ≡ c.client_id
  pub same_redirect : code.redirect_uri ≡ form.redirect_uri
  pub pkce : check_pkce g.crypto code form.code_verifier ≡ pass tt

present-Presented :
    (g : AuthCodeGrant) (a : Option Client) (form : AuthCodeForm) (now : Time)
    (codes : AuthorizationCodeStore) (c : Client) (code : AuthorizationCode)
    → present g a form now codes ≡ pass (c, code)
    → Presented g a form now codes c code
unfolding present
present-Presented g none form now codes c code h = absurd (ground arith)
present-Presented g (some x) form now codes c code h =
    go (find_by_hash codes (hash_token g.crypto form.code)) refl
  where
    go :
        (r : Result AuthorizationCode)
        → find_by_hash codes (hash_token g.crypto form.code) ≡ r
        → Presented g (some x) form now codes c code
    go (err e) p = absurd (ground (arith, p))
    go (ok y) p = ground (
      arith,
      p,
      eq_iff x.client_id form.client_id,
      eq_iff y.client_id x.client_id,
      eq_iff y.redirect_uri form.redirect_uri,
    )

abbrev pub consumed_store : Stores → AuthorizationCode → Time → Stores
consumed_store s code at = record s { codes = (mark_consumed code.id at s.codes).1 }

-- Down to where a request that is answered has come.
pub record Answered (g : AuthCodeGrant) (authenticated : Option Client) (form : AuthCodeForm)
    (moment : Moment) (s : Stores) (resp : TokenResponse) (s' : Stores) (c : Client)
    (code : AuthorizationCode) (m : Minted) : Type 0 where
  pub presented : Presented g authenticated form moment.checked s.codes c code
  pub won : (mark_consumed code.id moment.consumed s.codes).0 ≡ ok true
  pub minted : mint g c code moment (consumed_store s code moment.consumed) ≡ pass m
  pub delivered : deliver m (consumed_store s code moment.consumed) ≡ (reply resp, s')

redeem-reply :
    (g : AuthCodeGrant) (c : Client) (code : AuthorizationCode) (moment : Moment) (r : Result Bool)
    (s : Stores) (resp : TokenResponse) (s' : Stores)
    → redeem g c code moment r s ≡ (reply resp, s')
    → (r ≡ ok true)
      × (m : Minted) × (mint g c code moment s ≡ pass m)
      × (deliver m s ≡ (reply resp, s'))
unfolding redeem
redeem-reply g c code moment (err e) s resp s' h = absurd (cc)
redeem-reply g c code moment (ok false) s resp s' h = absurd (cc)
redeem-reply g c code moment (ok true) s resp s' h =
    let (m, p, q) = finish_at-reply s (mint g c code moment s) (λ m. deliver m s) resp s' h in
    (refl, m, p, q)

pub handle-Answered :
    (g : AuthCodeGrant) (a : Option Client) (form : AuthCodeForm) (moment : Moment) (s : Stores)
    (resp : TokenResponse) (s' : Stores)
    → handle g a form moment s ≡ (reply resp, s')
    → (c : Client) × (code : AuthorizationCode) × (m : Minted) × Answered g a form moment s resp s'
        c code m
unfolding handle
handle-Answered g a form moment s resp s' h =
    let (found, p, k) = finish_at-reply s (present g a form moment.checked s.codes) _ resp s' h in
    let (c, code) = found in
    let (won, m, q, d) = redeem-reply g c code moment _ _ resp s' k in
    (
      c,
      code,
      m,
      record {
        presented = present-Presented g a form moment.checked s.codes c code p;
        won = won;
        minted = q;
        delivered = d;
      },
    )

-- The final Store does not touch the codes.
pub codes-deliver :
    (m : Minted) (s : Stores) (resp : TokenResponse) (s' : Stores)
    → deliver m s ≡ (reply resp, s')
    → s'.codes ≡ s.codes
unfolding deliver
codes-deliver m s resp s' h = ground (arith, h)

module _ (g : AuthCodeGrant) (a : Option Client) (form : AuthCodeForm) (moment : Moment)
    (s : Stores) (resp : TokenResponse) (s' : Stores) where
  pub redeemed-row :
      (c : Client) (code : AuthorizationCode) (m : Minted)
      → Answered g a form moment s resp s' c code m
      → row s.codes code.id ≡ some code
      → row s'.codes code.id ≡ some (record code { consumed_at = some moment.consumed })
  redeemed-row c code m w e =
      ap (λ x. row x code.id)
        (codes-deliver m (consumed_store s code moment.consumed) resp s' w.delivered)
      ∙ row-mark_consumed s.codes code.id code.id moment.consumed code e
          (mark_consumed_won s.codes code.id moment.consumed code e w.won)
      ∙ rw (beq_refl code.id)

  -- A code request that is answered with tokens presented a stored code that had not expired and
  -- not been used, was issued to the authenticated client for the same redirect_uri, and passed
  -- PKCE where the code carries a challenge; and afterwards the code is consumed. The store of codes
  -- is indexed before.
  pub code_redeems :
      IsIndexed s.codes
      → handle g a form moment s ≡ (reply resp, s')
      → (c : Client) × (code : AuthorizationCode) × Presented g a form moment.checked s.codes c code
        × PkceHolds g.crypto code form.code_verifier
        × (row s.codes code.id ≡ some code)
        × (code.consumed_at ≡ none)
        × (row s'.codes code.id ≡ some (record code { consumed_at = some moment.consumed }))
  code_redeems v h =
      let (c, code, m, w) = handle-Answered g a form moment s resp s' h in
      let e : row s.codes code.id ≡ some code =
        find_by_hash-row s.codes (hash_token g.crypto form.code) code v w.presented.found in
      (
        c,
        code,
        w.presented,
        check_pkce-PkceHolds g.crypto code form.code_verifier w.presented.pkce,
        e,
        mark_consumed_won s.codes code.id moment.consumed code e w.won,
        redeemed-row c code m w e,
      )
