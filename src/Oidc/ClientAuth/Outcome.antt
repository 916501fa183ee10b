-- ===== src/Oidc/ClientAuth/Outcome.antt =====
-- What a client that is authenticated has shown.
use authserver_go.Base.{
  String, ◌≡◌, ◌∙◌, List, [], ◌∷◌, ◌==◌, string_eq, ap, sym, refl, subst, Bool-cases, inl, inr,
  eq_iff, arith,
}
use authserver_go.Domain.Client.{Client, auth_method_none, auth_method_private_key_jwt}
use authserver_go.Store.Error.{Result, ok, err}
use authserver_go.Store.Clients.{ClientStore, find_by_client_id}
use authserver_go.Token.ClientAssertion.{
  MemAssertionCache, AssertionToken, Verdict, accepted, refused, verify_client_assertion,
}
use authserver_go.Oidc.Http.{pass}
use authserver_go.Oidc.ClientAuth.{
  ClientAuthConfig, ClientAuthForm, AuthMoment, assertion_params, audiences, of_verdict, verify_for,
  authenticate_with_private_key_jwt, by_method, authenticate_found, authenticate_client,
}

-- How a client has shown who it is.
pub data Proof (cfg : ClientAuthConfig) (client : Client) (form : ClientAuthForm) (m : AuthMoment)
    (c c' : MemAssertionCache) : Type 0 where
  public_client :
      client.token_endpoint_auth_method ≡ auth_method_none → c' ≡ c → Proof cfg client form m c c'
  signed :
      client.token_endpoint_auth_method ≡ auth_method_private_key_jwt
      → (t : AssertionToken)
      → verify_client_assertion cfg.jwx (assertion_params cfg client form) m.parsed m.burned c
        ≡ (accepted t, c')
      → Proof cfg client form m c c'

of_verdict-pass :
    (client x : Client) (v : Verdict × MemAssertionCache) (c' : MemAssertionCache)
    → of_verdict client v ≡ (pass x, c')
    → (x ≡ client) × (t : AssertionToken) × (v ≡ (accepted t, c'))
unfolding of_verdict
of_verdict-pass client x (accepted t, c) c' h = (cc h, t, cc h)
of_verdict-pass client x (refused e, c) c' h = absurd (cc)

verify_for-pass :
    (cfg : ClientAuthConfig) (client x : Client) (form : ClientAuthForm) (m : AuthMoment)
    (urls : List String) (c c' : MemAssertionCache)
    → verify_for cfg client form m urls c ≡ (pass x, c')
    → (x ≡ client)
      × (t : AssertionToken) × (verify_client_assertion cfg.jwx
            (assertion_params cfg client form)
            m.parsed
            m.burned
            c
          ≡ (accepted t, c'))
unfolding verify_for
verify_for-pass cfg client x form m [] c c' h = absurd (cc)
verify_for-pass cfg client x form m (u ∷ us) c c' h = of_verdict-pass client x _ c' h

private_key_jwt-pass :
    (cfg : ClientAuthConfig) (client x : Client) (form : ClientAuthForm) (m : AuthMoment)
    (c c' : MemAssertionCache)
    → authenticate_with_private_key_jwt cfg client form m c ≡ (pass x, c')
    → verify_for cfg client form m (audiences cfg) c ≡ (pass x, c')
unfolding authenticate_with_private_key_jwt
private_key_jwt-pass cfg client x form m c c' h = ground (arith, h)

by_method-pass :
    (cfg : ClientAuthConfig) (client x : Client) (form : ClientAuthForm) (m : AuthMoment)
    (c c' : MemAssertionCache)
    → by_method cfg client form m c ≡ (pass x, c')
    → (x ≡ client) × Proof cfg client form m c c'
unfolding by_method
by_method-pass cfg client x form m c c' h =
    let method : String = client.token_endpoint_auth_method in
    elim (Bool-cases (method == auth_method_none)) [
      | inl open_client ↦ (
        ground (arith, h, open_client),
        public_client ((eq_iff method auth_method_none).0 open_client)
            (ground (arith, h, open_client)),
      )
      | inr closed ↦ elim (Bool-cases (method == auth_method_private_key_jwt)) [
        | inr other ↦ absurd (ground (arith, h, closed, other))
        | inl jwt ↦
            let (same, t, v) =
              verify_for-pass cfg client x form m (audiences cfg) c c'
                (private_key_jwt-pass cfg client x form m c c' (ground (arith, h, closed, jwt))) in
            (same, signed ((eq_iff method auth_method_private_key_jwt).0 jwt) t v)
      ]
    ]

-- AuthenticateClient lets a request pass only as the client that is stored under the form's
-- client_id, and only if that client is public, or has signed an assertion that
-- VerifyClientAssertion accepts with the client's own keys, as issuer and subject, and the server's
-- URLs as audience.
pub authenticate_client-Proof :
    (cfg : ClientAuthConfig) (clients : ClientStore) (x : Client) (form : ClientAuthForm)
    (m : AuthMoment) (c c' : MemAssertionCache)
    → authenticate_client cfg clients form m c ≡ (pass x, c')
    → (find_by_client_id clients form.client_id ≡ ok x) × Proof cfg x form m c c'
unfolding authenticate_client authenticate_found
authenticate_client-Proof cfg clients x form m c c' h =
    go (find_by_client_id clients form.client_id) refl
  where
    go :
        (r : Result Client)
        → find_by_client_id clients form.client_id ≡ r
        → (find_by_client_id clients form.client_id ≡ ok x) × Proof cfg x form m c c'
    go (err e) q = absurd (ground (arith, h, q))
    go (ok client) q =
        let (same, p) = by_method-pass cfg client x form m c c' (ground (arith, h, q)) in
        (q ∙ ap ok (sym same), subst (λ y. Proof cfg y form m c c') (sym same) p)
