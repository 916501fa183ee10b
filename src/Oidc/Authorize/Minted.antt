-- ===== src/Oidc/Authorize/Minted.antt =====
-- What a code that the authorize endpoint hands out is bound to.
use authserver_go.Base.{
  String, ◌≡◌, ◌≢◌, ◌∙◌, refl, ap, sym, true, false, ◌||◌, Option, none, some, contains, ◌==◌,
  string_eq, nat_eq, arith, eq_iff, Bool-cases, inl, inr, beq_refl, some_inj, ne→not_beq,
}
use authserver_go.Domain.Entities.{AuthorizationCode, Session, UserInfo}
use authserver_go.Domain.Client.{Client}
use authserver_go.Store.Error.{Result, ok, err, ok_inj}
use authserver_go.Store.AuthCodes.{store}
use authserver_go.Store.AuthCodes.Laws.{row, row-store}
use authserver_go.Store.Clients.{find_by_client_id}
use authserver_go.Store.Users
use authserver_go.Token.Crypto.{new_opaque_token}
use authserver_go.Token.Pkce.{pkce_method}
use authserver_go.Oidc.Stores.{Stores}
use authserver_go.Oidc.Authorize.{
  AuthorizeHandler, AuthorizeRequest, AuthorizeMoment, code_redirect, Step, go_on, stop,
  request_error, choose, new_code, string_ptr, redirect, mint_code, issue, serve_client, serve,
  scopes_allowed,
}
use authserver_go.Oidc.Authorize.Chosen.{SignedIn, choose-go_on, choose-Codeless, is_code, Codeless}

-- What an issued code comes from.
mint_code-code :
    (h : AuthorizeHandler) (client : Client) (x : Session) (r : AuthorizeRequest)
    (m : AuthorizeMoment) (o : Option (String × String)) (s s' : Stores) (uri raw : String)
    → mint_code h client x r m o s ≡ (code_redirect uri raw, s')
    → (hash : String) × (o ≡ some (raw, hash))
      × ((hash == "") ≡ false)
      × (s'.codes ≡ (store (some (new_code h client x r m hash)) s.codes).1)
      × (uri ≡ r.redirect_uri)
unfolding mint_code redirect store new_code
mint_code-code h client x r m none s s' uri raw e = absurd (cc (ap (λ p. p.0) e))
mint_code-code h client x r m (some (raw', hash)) s s' uri raw e = elim (Bool-cases (hash == "")) [
  | inl blank ↦ absurd (ground (arith, e, blank))
  | inr named ↦
      (hash, ground (arith, e, named), named, ground (arith, e, named), ground (arith, e, named))
]

-- Down to where a request that is answered with a code has come.
pub record Issued (h : AuthorizeHandler) (client : Client) (r : AuthorizeRequest)
    (m : AuthorizeMoment) (s s' : Stores) (uri raw : String) (x : Session) : Type 0 where
  pub found : find_by_client_id s.clients r.client_id ≡ ok client
  pub registered : contains client.redirect_uris r.redirect_uri ≡ true
  pub no_error : request_error h client r ≡ none
  pub signed_in : SignedIn s.sessions m.resolved r.cookie x
  pub hash : String
  pub drawn : new_opaque_token h.crypto m.opaque ≡ some (raw, hash)
  pub named : (hash == "") ≡ false
  pub stored : s'.codes ≡ (store (some (new_code h client x r m hash)) s.codes).1
  pub same_uri : uri ≡ r.redirect_uri

module _ (h : AuthorizeHandler) (r : AuthorizeRequest) (m : AuthorizeMoment) (s s' : Stores)
    (uri raw : String) where
  issue-code :
      (client : Client) (p : Step Session)
      → choose h client r m s ≡ p
      → issue h client r m s p ≡ (code_redirect uri raw, s')
      → (x : Session) × (choose h client r m s ≡ go_on x)
        × (mint_code h client x r m (new_opaque_token h.crypto m.opaque) s
            ≡ (code_redirect uri raw, s'))
  unfolding issue is_code Codeless
  issue-code client (stop a) c e =
      absurd (ground (arith, choose-Codeless h client r m s a c, ap (λ q. q.0) e))
  issue-code client (go_on x) c e = go (Users.find_by_id s.users x.user_id) refl
    where
      go :
          (u : Result UserInfo)
          → Users.find_by_id s.users x.user_id ≡ u
          → (y : Session) × (choose h client r m s ≡ go_on y)
            × (mint_code h client y r m (new_opaque_token h.crypto m.opaque) s
                ≡ (code_redirect uri raw, s'))
      go (err f) q = absurd (ground (arith, e, q))
      go (ok info) q = (x, c, ground (arith, e, q))

  serve-Issued :
      serve h r m s ≡ (code_redirect uri raw, s')
      → (client : Client) × (x : Session) × Issued h client r m s s' uri raw x
  unfolding serve serve_client
  serve-Issued e = go (find_by_client_id s.clients r.client_id) refl
    where
      go :
          (c : Result Client)
          → find_by_client_id s.clients r.client_id ≡ c
          → (client : Client) × (x : Session) × Issued h client r m s s' uri raw x
      go (err f) q = absurd (ground (arith, e, q))
      go (ok client) q = elim (Bool-cases (contains client.redirect_uris r.redirect_uri)) [
        | inr absent ↦ absurd (ground (arith, e, q, absent))
        | inl listed ↦
            let (x, c, minted) =
              issue-code client (choose h client r m s) refl (ground (arith, e, q, listed)) in
            let (no_error, signed) = choose-go_on h client r m s x c in
            let (hash, drawn, named, stored, same) =
              mint_code-code h client x r m (new_opaque_token h.crypto m.opaque) s s' uri raw
                minted in
            (
              client,
              x,
              record {
                found = q;
                registered = listed;
                no_error = no_error;
                signed_in = signed;
                hash = hash;
                drawn = drawn;
                named = named;
                stored = stored;
                same_uri = same;
              },
            )
      ]

  -- The row under the drawn id is the new code.
  Issued-row :
      (client : Client) (x : Session) (w : Issued h client r m s s' uri raw x)
      → row s'.codes m.code_id ≡ some (new_code h client x r m w.hash)
  unfolding new_code
  Issued-row client x w =
      ap (λ y. row y m.code_id) w.stored
      ∙ row-store s.codes (new_code h client x r m w.hash) m.code_id w.named
      ∙ rw (beq_refl m.code_id)

  -- What a stored code is bound to.
  pub record Bound (client : Client) (x : Session) (code : AuthorizationCode) : Type 0 where
    pub hash : new_opaque_token h.crypto m.opaque ≡ some (raw, code.code_hash)
    pub owner : code.client_id ≡ client.client_id
    pub user : code.user_id ≡ x.user_id
    pub session : code.session_id ≡ some x.id
    pub address : code.redirect_uri ≡ uri
    pub scope : code.scope ≡ r.scope
    pub allowed : scopes_allowed r.scope client.allowed_scopes ≡ true
    pub unused : code.consumed_at ≡ none

  request_error-scopes :
      (client : Client)
      → request_error h client r ≡ none
      → scopes_allowed r.scope client.allowed_scopes ≡ true
  unfolding request_error
  request_error-scopes client e = ground (arith, e)

  -- A code is handed out only to a registered address of a stored client, for a browser whose cookie
  -- names a live session; and the code that is stored is bound to that client, that session and its
  -- user, that address and the requested scope, which the client is allowed, and is unused.
  pub authorize_mints :
      serve h r m s ≡ (code_redirect uri raw, s')
      → (client : Client) × (x : Session) × (code : AuthorizationCode) × (find_by_client_id
            s.clients r.client_id
          ≡ ok client)
        × (contains client.redirect_uris uri ≡ true)
        × SignedIn s.sessions m.resolved r.cookie x
        × (row s'.codes m.code_id ≡ some code)
        × Bound client x code
  unfolding new_code
  authorize_mints e =
      let (client, x, w) = serve-Issued e in
      (
        client,
        x,
        new_code h client x r m w.hash,
        w.found,
        ap (contains client.redirect_uris) w.same_uri ∙ w.registered,
        w.signed_in,
        Issued-row client x w,
        record {
          hash = w.drawn;
          owner = refl;
          user = refl;
          session = refl;
          address = sym w.same_uri;
          scope = refl;
          allowed = request_error-scopes client w.no_error;
          unused = refl;
        },
      )

  request_error-pkce :
      (client : Client)
      → request_error h client r ≡ none
      → (client.require_pkce || h.require_pkce) ≡ true
      → ((r.code_challenge == "") ≡ false) × (r.code_challenge_method ≡ pkce_method)
  unfolding request_error
  request_error-pkce client e required =
      ground (arith, e, required, eq_iff r.code_challenge_method pkce_method)

  -- Where the client or the server requires PKCE, a code that is handed out is stored with the
  -- challenge of the request and the method S256.
  pub authorize_binds_pkce :
      (client : Client) (code : AuthorizationCode)
      → find_by_client_id s.clients r.client_id ≡ ok client
      → (client.require_pkce || h.require_pkce) ≡ true
      → serve h r m s ≡ (code_redirect uri raw, s')
      → row s'.codes m.code_id ≡ some code
      → (code.code_challenge ≡ some r.code_challenge)
        × (code.code_challenge_method ≡ some pkce_method)
  unfolding new_code string_ptr
  authorize_binds_pkce client code f required e at =
      let (c, x, w) = serve-Issued e in
      let same : c ≡ client = ok_inj c client (sym w.found ∙ f) in
      let (present, method) =
        request_error-pkce client (ap (λ (y : Client). request_error h y r) (sym same) ∙ w.no_error)
          required in
      let shape : code ≡ new_code h c x r m w.hash =
        some_inj code (new_code h c x r m w.hash) (sym at ∙ Issued-row c x w) in
      (
        ap (λ (y : AuthorizationCode). y.code_challenge) shape ∙ rw present refl,
        ap (λ (y : AuthorizationCode). y.code_challenge_method) shape ∙ rw (present, method) refl,
      )

  -- But where PKCE is not required, a code for a request with a challenge and no method is stored with
  -- the challenge and without a method.
  pub authorize_bare_challenge :
      (code : AuthorizationCode)
      → r.code_challenge ≢ ""
      → r.code_challenge_method ≡ ""
      → serve h r m s ≡ (code_redirect uri raw, s')
      → row s'.codes m.code_id ≡ some code
      → (code.code_challenge ≡ some r.code_challenge) × (code.code_challenge_method ≡ none)
  unfolding new_code string_ptr
  authorize_bare_challenge code present bare e at =
      let (c, x, w) = serve-Issued e in
      let shape : code ≡ new_code h c x r m w.hash =
        some_inj code (new_code h c x r m w.hash) (sym at ∙ Issued-row c x w) in
      let given = ne→not_beq r.code_challenge "" present in
      (
        ap (λ (y : AuthorizationCode). y.code_challenge) shape ∙ rw given refl,
        ap (λ (y : AuthorizationCode). y.code_challenge_method) shape ∙ rw (given, bare) refl,
      )
