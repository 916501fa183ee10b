-- ===== src/Oidc/TokenEndpoint/Outcome.antt =====
-- Who is answered at the token endpoint.
use authserver_go.Base.{◌≡◌, ap, true, some, string_eq, arith, Option-cases, Bool-cases, inl, inr}
use authserver_go.Domain.Client.{Client}
use authserver_go.Store.Error.{ok}
use authserver_go.Store.Clients.{find_by_client_id}
use authserver_go.Oidc.Http.{Response, reply, pass, reject, crash}
use authserver_go.Oidc.Stores.{Stores}
use authserver_go.Oidc.ClientAuth.{Authenticated, authenticate_client}
use authserver_go.Oidc.ClientAuth.Outcome.{Proof, authenticate_client-Proof}
use authserver_go.Oidc.Grants.{TokenResponse}
use authserver_go.Oidc.TokenEndpoint.{
  TokenHandler, TokenForm, TokenRequest, TokenMoment, TokenState, dispatch, serve_authenticated,
  serve_form, serve,
}

serve_authenticated-reply :
    (h : TokenHandler) (f : TokenForm) (m : TokenMoment) (a : Authenticated) (s : Stores)
    (r : TokenResponse) (st' : TokenState)
    → serve_authenticated h f m a s ≡ (reply r, st')
    → (client : Client) × (a ≡ (pass client, st'.cache))
      × (dispatch h client f m s ≡ (reply r, st'.stores))
unfolding serve_authenticated
serve_authenticated-reply h f m (pass client, c) s r st' e = (
  client,
  ap (λ (x : TokenState). (pass client, x.cache)) (ap (λ p. p.1) e),
  cc (ap (λ p. p.0) e, ap (λ (p : Response TokenResponse × TokenState). p.1.stores) e),
)
serve_authenticated-reply h f m (reject status code desc, c) s r st' e =
    absurd (cc (ap (λ p. p.0) e))
serve_authenticated-reply h f m (crash, c) s r st' e = absurd (cc (ap (λ p. p.0) e))

-- The token endpoint answers with tokens only a POST with a form that parses, and only after the
-- client that is stored under the form's client_id has shown who it is; it is that client, and no
-- other, that the grant is run for, and the answer and the stores are the grant's.
pub token_endpoint_answers :
    (h : TokenHandler) (q : TokenRequest) (m : TokenMoment) (st : TokenState) (r : TokenResponse)
    (st' : TokenState)
    → serve h q m st ≡ (reply r, st')
    → (f : TokenForm) × (client : Client) × (q.form ≡ some f)
      × (q.is_post ≡ true)
      × (find_by_client_id st.stores.clients f.auth.client_id ≡ ok client)
      × Proof h.client_auth client f.auth m.auth st.cache st'.cache
      × (dispatch h client f m st.stores ≡ (reply r, st'.stores))
unfolding serve serve_form
token_endpoint_answers h q m st r st' e = elim (Bool-cases q.is_post) [
  | inr other ↦ absurd (ground (arith, e, other))
  | inl post ↦ elim (Option-cases q.form) [
    | inl n ↦ absurd (ground (arith, e, post, n))
    | inr (f, p) ↦
        let (client, a, d) =
          serve_authenticated-reply h f m
            (authenticate_client h.client_auth st.stores.clients f.auth m.auth st.cache) st.stores r
            st' (ground (arith, e, post, p)) in
        let (stored, proof) =
          authenticate_client-Proof h.client_auth st.stores.clients client f.auth m.auth st.cache
            st'.cache a in
        (f, client, p, post, stored, proof, d)
  ]
]
