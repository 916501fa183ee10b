-- ===== src/Oidc/Grants/AuthCode/Rejected.antt =====
-- A code that is presented twice.
use authserver_go.Base.{String, ◌≡◌, ◌≢◌, refl, ◌∙◌, ap, sym, Option, some, string_eq, nat_eq}
use authserver_go.Base.Assoc.{lookup}
use authserver_go.Domain.Entities.{AuthorizationCode}
use authserver_go.Domain.Client.{Client}
use authserver_go.Store.Error.{ok_inj}
use authserver_go.Store.AuthCodes.Laws.{
  row, IsIndexed, find_by_hash-row, find_by_hash-index, find_by_hash_at, mark_consumed_again,
  by_hash-mark_consumed,
}
use authserver_go.Token.Crypto.{hash_token}
use authserver_go.Oidc.Http.{reply}
use authserver_go.Oidc.Stores.{Stores}
use authserver_go.Oidc.Grants.{TokenResponse}
use authserver_go.Oidc.Grants.AuthCode.{AuthCodeGrant, AuthCodeForm, Moment, Minted, handle}
use authserver_go.Oidc.Grants.AuthCode.Outcome.{
  Answered, handle-Answered, redeemed-row, codes-deliver, consumed_store,
}

module _ (g : AuthCodeGrant) (form : AuthCodeForm) (a b : Option Client) (moment later : Moment)
    (s : Stores) (resp resp' : TokenResponse) (s' s'' : Stores) where
  kept-index :
      (c : Client) (code : AuthorizationCode) (m : Minted)
      → Answered g a form moment s resp s' c code m
      → s'.codes.by_hash ≡ s.codes.by_hash
  kept-index c code m w =
      ap (λ x. x.by_hash)
        (codes-deliver m (consumed_store s code moment.consumed) resp s' w.delivered)
      ∙ by_hash-mark_consumed s.codes code.id moment.consumed

  -- Once a code request has been answered with tokens, the same code is not answered again in the
  -- state that the first request left, whoever presents it, with the same form and whenever. The
  -- store of codes was indexed before the first request.
  pub code_single_use :
      IsIndexed s.codes
      → handle g a form moment s ≡ (reply resp, s')
      → handle g b form later s' ≢ (reply resp', s'')
  code_single_use v h h' =
      let hash : String = hash_token g.crypto form.code in
      let (c, code, m, w) = handle-Answered g a form moment s resp s' h in
      let e : row s.codes code.id ≡ some code =
        find_by_hash-row s.codes hash code v w.presented.found in
      let gone = redeemed-row g a form moment s resp s' c code m w e in
      let index : lookup hash s'.codes.by_hash ≡ some code.id =
        ap (lookup hash) (kept-index c code m w)
        ∙ find_by_hash-index s.codes hash code v w.presented.found in
      let (c', code', m', w') = handle-Answered g b form later s' resp' s'' h' in
      let used : AuthorizationCode = record code { consumed_at = some moment.consumed } in
      let same : code' ≡ used =
        ok_inj code' used
          (sym w'.presented.found ∙ find_by_hash_at s'.codes hash code.id used index gone) in
      let at =
        mark_consumed_again s'.codes code'.id later.consumed moment.consumed used
          (ap (λ (x : AuthorizationCode). row s'.codes x.id) same ∙ gone) refl in
      cc (sym w'.won ∙ ap (λ r. r.0) at)
